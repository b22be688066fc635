-- ===== src/Lexis/Minimal/Equivalence.antt =====
-- The minimal automaton accepts the words of the given one, and its nodes differ.
use recursive_functions.Prelude.{
  ℕ, ◌*◌, ◌≡◌, ◌<◌, ◌≤◌, inl, List, [], Bool, false, arith, length, replicate, some,
}
use recursive_functions.Lexis.Jump.{characters_count}
use recursive_functions.Lexis.Automaton.{Node}
use recursive_functions.Lexis.Subset.Language.{accepts}
use recursive_functions.Lexis.Minimal.{first_rows, pair_loop, all_edges, class_loop, get_minimal}
use recursive_functions.Lexis.Minimal.Edges.{IsTotal, BackEdges, all_edges-jump_of}
use recursive_functions.Lexis.Minimal.Marking.{Differ}
use recursive_functions.Lexis.Minimal.Queue.{pair_loop-Closed}
use recursive_functions.Lexis.Minimal.First.{first_rows-IsFirst}
use recursive_functions.Lexis.Minimal.Language.{IsMarked}
use recursive_functions.Lexis.Minimal.Result.{traverse-IsResult, class_words, result-Differ}
use recursive_functions.Lexis.Minimal.Classes.{class_loop-IsClassed}

module _ (nodes : List Node) (total : IsTotal nodes) where
  marks :
      (m : List (List Bool)) × (back : BackEdges) × (all_edges characters_count 0 nodes
          (replicate (length nodes) [])
        ≡ some back)
      × (let first =
            first_rows
              (length nodes)
              0
              nodes
              (replicate (length nodes) (replicate (length nodes) false), []) in
          pair_loop (2 * (length nodes * length nodes)) back first.0 first.1 ≡ some m)
      × IsMarked nodes total m
  marks =
      let (back, e, is_back) = all_edges-jump_of nodes total in
      let f = first_rows-IsFirst nodes in
      let (m, e', r, kept, closed) =
        pair_loop-Closed nodes back is_back (2 * (length nodes * length nodes)) _ _ f.marking
          (λ a b h. inl (f.waiting a b h)) f.size in
      (
        m,
        back,
        e,
        e',
        record {
          differ = r.differ;
          finals = λ a b ha hb d. kept a b (f.finals a b ha hb d);
          back = λ a b s x y ha hb hs jx jy h.
              closed x y h s a b ((is_back x s a).1 (hs, ha, jx)) ((is_back y s b).1 (hs, hb, jy));
        },
      )

  -- The minimization of an automaton that has nodes, each with a jump to a node for each of the 128 symbols,
  -- ends on two times the square of the number of nodes rounds. Its result has at most as many nodes,
  -- accepts the same words from the first node, and any two nodes of it differ on some word.
  pub get_minimal-accepts :
      0 < length nodes
      → (result : List Node) × (get_minimal (2 * (length nodes * length nodes)) nodes ≡ some result)
        × (length result ≤ length nodes)
        × ((w : List ℕ) → accepts result 0 w ≡ accepts nodes 0 w)
        × ((b c : ℕ) → b < c → c < length result → Differ result c b)
  unfolding get_minimal
  get_minimal-accepts h =
      let (m, back, e, e', is_marked) = marks in
      let classed = class_loop-IsClassed m (length nodes) in
      let found = class_loop (length nodes) 0 m [] [] in
      let (result, e'', is_result) =
        traverse-IsResult nodes total m is_marked found.0 found.1 classed in
      (
        result,
        rw (get_minimal, e, e') e'',
        omega (arith, is_result.0, classed.fewer),
        λ w.
            class_words nodes total m is_marked found.0 found.1 classed result is_result w 0 0 h
              (classed.first h),
        λ b c l k.
            result-Differ nodes total m is_marked found.0 found.1 classed result is_result b c l k,
      )
