-- ===== src/Lexis/Minimal/Edges.antt =====
-- The back edges of a complete automaton: the parents of a node by a symbol.
use recursive_functions.Prelude.{
  ℕ, zero, suc, ◌+◌, ◌≡◌, ◌<◌, ◌≤◌, ◌⊎◌, ◌↔◌, inl, inr, List, [], ◌∷◌, ◌++◌, true, arith, refl,
  length, get_elem?, get_elem?-some, get_elem?-set_self, get_elem?-set_ne, length-set,
  length-replicate, set, replicate, some, Bool-cases, ◌==◌, ==_iff, contains, ap, ◌∙◌, sym,
}
use recursive_functions.Lexis.Jump.{characters_count}
use recursive_functions.Lexis.Automaton.{Node}
use recursive_functions.Lexis.Nfa.Nodes.{HasJump-append}
use recursive_functions.Lexis.EmptyJumps.{equal_range}
use recursive_functions.Lexis.EmptyJumps.Lookup.{contains-equal_range}
use recursive_functions.Lexis.Minimal.{jump_of, add_edge, symbol_edges, all_edges, parents}

-- Every node has a jump for every symbol, to a node.
pub record IsTotal (nodes : List Node) : Type 0 where
  pub width :
      (i : ℕ) (node : Node) → get_elem? nodes i ≡ some node → length node.jumps ≡ characters_count
  pub jump_in :
      (i s : ℕ)
      → i < length nodes
      → s < characters_count
      → (t : ℕ) × (jump_of nodes i s ≡ some t) × (t < length nodes)

abbrev pub BackEdges : Type 0
BackEdges = List (List (ℕ × ℕ))

-- x is a parent of t by the symbol s.
abbrev pub Parent : BackEdges → ℕ → ℕ → ℕ → Type 0
Parent back t s x = contains (parents back t s) x ≡ true

parents-at :
    (back : BackEdges) (t s : ℕ) {edges : List (ℕ × ℕ)}
    → get_elem? back t ≡ some edges
    → parents back t s ≡ equal_range s edges
unfolding parents
parents-at back t s e = rw (parents, e) refl

parents-same :
    (back back' : BackEdges) (t s : ℕ)
    → get_elem? back t ≡ get_elem? back' t
    → parents back t s ≡ parents back' t s
unfolding parents
parents-same back back' t s e = rw (parents, e) refl

-- One edge more.
record Added (back : BackEdges) (symbol i target : ℕ) (back' : BackEdges) : Type 0 where
  same_length : length back' ≡ length back
  edges :
      (t s x : ℕ)
      → Parent back' t s x ↔ (Parent back t s x ⊎ ((t ≡ target) × (s ≡ symbol) × (x ≡ i)))

add_edge-Added :
    (symbol i target : ℕ) (back : BackEdges)
    → target < length back
    → (back' : BackEdges) × (add_edge symbol i (some target) back ≡ some back')
      × Added back symbol i target back'
unfolding add_edge
add_edge-Added symbol i target back h =
    let (edges, e) = get_elem?-some back target h in
    (
      set back target (edges ++ (symbol, i) ∷ []),
      rw (add_edge, e) refl,
      record {
        same_length = length-set back target _;
        edges = λ t s x. elim (Bool-cases (t == target)) [
          | inl q ↦
              let same = (==_iff t target).0 q in
              let a = HasJump-append edges ((symbol, i) ∷ []) s x in
              let b = contains-equal_range s (edges ++ (symbol, i) ∷ []) x in
              let c = contains-equal_range s edges x in
              let after : get_elem? (set back target (edges ++ (symbol, i) ∷ [])) t
                  ≡ some (edges ++ (symbol, i) ∷ []) =
                ap (get_elem? (set back target (edges ++ (symbol, i) ∷ []))) same
                ∙ get_elem?-set_self back target (edges ++ (symbol, i) ∷ []) h in
              let before : get_elem? back t ≡ some edges = ap (get_elem? back) same ∙ e in
              rw
                (
                  parents-at (set back target (edges ++ (symbol, i) ∷ [])) t s after,
                  parents-at back t s before,
                )
                (ground arith)
          | inr q ↦
              rw
                (parents-same (set back target (edges ++ (symbol, i) ∷ [])) back t s
                  (get_elem?-set_ne back target t (edges ++ (symbol, i) ∷ []) (λ z. ground arith)))
                (ground arith)
        ];
      },
    )

-- The edges of the nodes from i on, `count` of them, by one symbol.
abbrev ByNodes : List Node → ℕ → ℕ → ℕ → ℕ → ℕ → ℕ → Type 0
ByNodes nodes i count symbol t s x =
    (s ≡ symbol) × (i ≤ x) × (x < i + count) × (jump_of nodes x s ≡ some t)

module _ (nodes : List Node) (total : IsTotal nodes) where
  symbol_edges-Parent :
      (count i symbol : ℕ) (back : BackEdges)
      → symbol < characters_count
      → i + count ≤ length nodes
      → length back ≡ length nodes
      → (back' : BackEdges) × (symbol_edges count i nodes symbol back ≡ some back')
        × (length back' ≡ length nodes)
        × ((t s x : ℕ)
            → Parent back' t s x ↔ (Parent back t s x ⊎ ByNodes nodes i count symbol t s x))
  unfolding symbol_edges
  symbol_edges-Parent zero i symbol back h l e = (back, refl, e, λ t s x. ground arith)
  symbol_edges-Parent (suc count) i symbol back h l e =
      let (target, j, k) = total.jump_in i symbol (omega (arith, l)) h in
      let (added, e', a) = add_edge-Added symbol i target back (omega (arith, k, e)) in
      let (last, e'', m, p) =
        symbol_edges-Parent count (suc i) symbol added h (omega (arith, l)) (a.same_length ∙ e) in
      (
        last,
        rw (symbol_edges, j, e') e'',
        m,
        λ t s x.
            let q = p t s x in
            let r = a.edges t s x in
            let here : s ≡ symbol → x ≡ i → jump_of nodes x s ≡ some target =
              λ y z. ap (λ (v : ℕ). jump_of nodes v s) z ∙ ap (jump_of nodes i) y ∙ j in
            let only : jump_of nodes x s ≡ some target → jump_of nodes x s ≡ some t → t ≡ target =
              λ y z. same_target (sym y ∙ z) in
            let also : t ≡ target → jump_of nodes x s ≡ some target → jump_of nodes x s ≡ some t =
              λ y z. z ∙ ap some (sym y) in
            ground arith,
      )
    where
      same_target : {a b : ℕ} → some a ≡ some b → b ≡ a
      same_target e = cc

  all_edges-Parent :
      (count symbol : ℕ) (back : BackEdges)
      → symbol + count ≤ characters_count
      → length back ≡ length nodes
      → (back' : BackEdges) × (all_edges count symbol nodes back ≡ some back')
        × (length back' ≡ length nodes)
        × ((t s x : ℕ)
            → Parent back' t s x ↔ (
                Parent back t s x
                ⊎ ((symbol ≤ s)
                    × (s < symbol + count)
                    × (x < length nodes)
                    × (jump_of nodes x s ≡ some t))))
  unfolding all_edges
  all_edges-Parent zero symbol back h e = (back, refl, e, λ t s x. ground arith)
  all_edges-Parent (suc count) symbol back h e =
      let (added, e', m, p) =
        symbol_edges-Parent (length nodes) 0 symbol back (omega (arith, h)) (omega arith) e in
      let (last, e'', m', p') = all_edges-Parent count (suc symbol) added (omega (arith, h)) m in
      (
        last,
        rw (all_edges, e') e'',
        m',
        λ t s x. all_edges_round count symbol t s x back added last (p t s x) (p' t s x),
      )
    where
      all_edges_round :
          (count symbol t s x : ℕ) (back added last : BackEdges)
          → (Parent added t s x ↔ (Parent back t s x ⊎ ByNodes nodes 0 (length nodes) symbol t s x))
          → (Parent last t s x ↔ (
              Parent added t s x
              ⊎ ((suc symbol ≤ s)
                  × (s < suc symbol + count)
                  × (x < length nodes)
                  × (jump_of nodes x s ≡ some t))))
          → Parent last t s x ↔ (
              Parent back t s x
              ⊎ ((symbol ≤ s)
                  × (s < symbol + suc count)
                  × (x < length nodes)
                  × (jump_of nodes x s ≡ some t)))
      all_edges_round count symbol t s x back added last p q = ground arith

  no_edges : (n t s x : ℕ) → Parent (replicate n []) t s x → ⊥
  unfolding parents equal_range
  no_edges zero t s x h = absurd (cc)
  no_edges (suc n) zero s x h = absurd (cc)
  no_edges (suc n) (suc t) s x h = no_edges n t s x h

  -- The parents of t by s, of all nodes and symbols.
  pub all_edges-jump_of :
      (back : BackEdges) × (all_edges characters_count 0 nodes (replicate (length nodes) [])
        ≡ some back)
      × ((t s x : ℕ)
          → Parent back t s x
            ↔ ((s < characters_count) × (x < length nodes) × (jump_of nodes x s ≡ some t)))
  all_edges-jump_of =
      let (back, e, _, p) =
        all_edges-Parent characters_count 0 (replicate (length nodes) []) (omega arith)
          (length-replicate {A = List (ℕ × ℕ)} (length nodes) []) in
      (back, e, λ t s x. let q = p t s x in let n = no_edges (length nodes) t s x in ground arith)
