-- ===== src/Lexis/Automaton/Ending.antt =====
-- How `remove_dead_ends` ends, and what it leaves.
use recursive_functions.Prelude.{
  ℕ, zero, suc, ◌+◌, ◌*◌, ◌≤◌, ◌<◌, ◌≡◌, refl, ap, subst, sym, ◌∙◌, ◌⊎◌, inl, inr, Bool, true,
  false, List, [], ◌∷◌, Option, none, some, arith, length, get_elem?-some, All, Bool-cases,
  Option-cases, traverse, traverse-cons, traverse-nil, traverse-All,
}
use recursive_functions.Lexis.Automaton.{
  Node, first_marks, first_queue, jumps_to, scan_symbols, scan_nodes, mark_loop, nodes_mapping,
  kept_nodes, remap_jump, remap_node, remove_dead_ends,
}

-- The marking never runs out of fuel: each node is pushed at most once for each of its jumps.
abbrev unmarked : List Bool → ℕ
unmarked [] = 0
unmarked (true ∷ marks) = suc (unmarked marks)
unmarked (false ∷ marks) = unmarked marks

scan_symbols-bound :
    (jumps : List (Option ℕ)) (current i : ℕ) (queue : List ℕ) (dead : Bool)
    → let result = scan_symbols jumps current i (queue, dead) in
      (length result.0 ≤ length queue + length jumps)
      × ((dead ≡ true → (result.1 ≡ true) × (length result.0 ≡ length queue) ⊎ (result.1 ≡ false)))
      × (dead ≡ false → result.1 ≡ false)
unfolding scan_symbols
scan_symbols-bound [] current i queue dead = (omega arith, λ e. inl (e, refl), λ e. e)
scan_symbols-bound (j ∷ jumps) current i queue dead = elim (Bool-cases (jumps_to j current)) [
  | inl hit ↦
      let (b, _, c) = scan_symbols-bound jumps current i (i ∷ queue) false in
      rw (hit, scan_symbols) (omega (arith, b), λ e. inr (c refl), λ e. c refl)
  | inr miss ↦
      let (b, d, c) = scan_symbols-bound jumps current i queue dead in
      rw (miss, scan_symbols) (omega (arith, b), d, c)
]

module _ (w : ℕ) where
  abbrev pub Narrow : Node → Type 0
  Narrow node = length node.jumps ≤ w

  scan_nodes-bound :
      (nodes : List Node) (marks : List Bool) (current i : ℕ) (queue : List ℕ)
      → All Narrow nodes
      → let result = scan_nodes nodes marks current i queue in
        length result.1 + w * unmarked result.0 ≤ length queue + w * unmarked marks
  unfolding scan_nodes
  scan_nodes-bound [] marks current i queue h = omega arith
  scan_nodes-bound (node ∷ nodes) [] current i queue h = omega arith
  scan_nodes-bound (node ∷ nodes) (false ∷ marks) current i queue h = omega arith
  scan_nodes-bound (node ∷ nodes) (true ∷ marks) current i queue h =
      let (b, d, _) = scan_symbols-bound node.jumps current i queue true in
      let (q, dead) = scan_symbols node.jumps current i (queue, true) in
      step q dead _ (omega (arith, b, h.0)) (d refl)
        (scan_nodes-bound nodes marks current (suc i) q h.1)
    where
      step :
          (q : List ℕ) (dead : Bool) (r : List Bool × List ℕ)
          → length q ≤ length queue + w
          → ((dead ≡ true) × (length q ≡ length queue)) ⊎ (dead ≡ false)
          → length r.1 + w * unmarked r.0 ≤ length q + w * unmarked marks
          → length r.1 + w * unmarked (dead ∷ r.0) ≤ length queue + w * suc (unmarked marks)
      step q true r b (inl (_, e)) h = omega arith
      step q true r b (inr e) h = absurd (cc)
      step q false r b d h = omega arith

  mark_loop_total :
      (fuel : ℕ) (nodes : List Node) (marks : List Bool) (queue : List ℕ)
      → All Narrow nodes
      → length queue + w * unmarked marks ≤ fuel
      → (result : List Bool) × (mark_loop fuel nodes marks queue ≡ some result)
  unfolding mark_loop
  mark_loop_total fuel nodes marks [] h b = (marks, refl)
  mark_loop_total zero nodes marks (current ∷ queue) h b = absurd (omega arith)
  mark_loop_total (suc fuel) nodes marks (current ∷ queue) h b =
      mark_loop_total fuel nodes _ _ h
        (omega (arith, scan_nodes-bound nodes marks current 0 queue h))

first_bound :
    (nodes : List Node) (i : ℕ) (queue : List ℕ)
    → (unmarked (first_marks nodes) ≤ length nodes)
      × (length (first_queue nodes i queue) ≤ length queue + length nodes)
unfolding first_marks first_queue
first_bound [] i queue = (omega arith, omega arith)
first_bound (node ∷ nodes) i queue = elim (Bool-cases node.is_final) [
  | inl yes_ ↦
      rw (yes_, first_queue, first_marks)
        (let (a, b) = first_bound nodes (suc i) (i ∷ queue) in (omega (arith, a), omega (arith, b)))
  | inr no_ ↦
      rw (no_, first_queue, first_marks)
        (let (a, b) = first_bound nodes (suc i) queue in (omega (arith, a), omega (arith, b)))
]

length-scan_nodes :
    (nodes : List Node) (marks : List Bool) (current i : ℕ) (queue : List ℕ)
    → length (scan_nodes nodes marks current i queue).0 ≡ length marks
unfolding scan_nodes
length-scan_nodes [] marks current i queue = refl
length-scan_nodes (node ∷ nodes) [] current i queue = refl
length-scan_nodes (node ∷ nodes) (false ∷ marks) current i queue = refl
length-scan_nodes (node ∷ nodes) (true ∷ marks) current i queue =
    ap suc (length-scan_nodes nodes marks current (suc i) _)

length-mark_loop :
    (fuel : ℕ) (nodes : List Node) (marks : List Bool) (queue : List ℕ) {result : List Bool}
    → mark_loop fuel nodes marks queue ≡ some result
    → length result ≡ length marks
unfolding mark_loop
length-mark_loop fuel nodes marks [] e = ap length (some_inj _ _ (sym e))
  where
    some_inj : (a b : List Bool) → some a ≡ some b → a ≡ b
    some_inj a b e = cc
length-mark_loop zero nodes marks (current ∷ queue) e = absurd (cc)
length-mark_loop (suc fuel) nodes marks (current ∷ queue) e =
    length-mark_loop fuel nodes _ _ e ∙ length-scan_nodes nodes marks current 0 queue

length-first_marks : (nodes : List Node) → length (first_marks nodes) ≡ length nodes
unfolding first_marks
length-first_marks [] = refl
length-first_marks (node ∷ nodes) = ap suc (length-first_marks nodes)

length-nodes_mapping :
    (marks : List Bool) (next : ℕ) → length (nodes_mapping marks next) ≡ length marks
unfolding nodes_mapping
length-nodes_mapping [] next = refl
length-nodes_mapping (true ∷ marks) next = ap suc (length-nodes_mapping marks next)
length-nodes_mapping (false ∷ marks) next = ap suc (length-nodes_mapping marks (suc next))

kept_nodes-All {κ} :
    (P : Node → Type κ) (nodes : List Node) (marks : List Bool)
    → All P nodes
    → All P (kept_nodes nodes marks)
unfolding kept_nodes
kept_nodes-All P [] marks h = tt
kept_nodes-All P (node ∷ nodes) [] h = tt
kept_nodes-All P (node ∷ nodes) (true ∷ marks) h = kept_nodes-All P nodes marks h.1
kept_nodes-All P (node ∷ nodes) (false ∷ marks) h = (h.0, kept_nodes-All P nodes marks h.1)

-- Every jump goes to a node, as in the automata that `get_minimal` makes.
abbrev pub InRange : ℕ → Option ℕ → Type 0
InRange n none = ⊥
InRange n (some target) = target < n

abbrev pub IsComplete : ℕ → Node → Type 0
IsComplete n node = (length node.jumps ≡ 128) × All (InRange n) node.jumps

All-Narrow : (n : ℕ) (nodes : List Node) → All (IsComplete n) nodes → All (Narrow 128) nodes
All-Narrow n [] h = tt
All-Narrow n (node ∷ nodes) h = (omega arith, All-Narrow n nodes h.1)

remap_jump-total :
    (mapping : List (Option ℕ)) (j : Option ℕ)
    → InRange (length mapping) j
    → (j' : Option ℕ) × (remap_jump mapping j ≡ some j') × Unit {0}
remap_jump-total mapping none h = absurd h
remap_jump-total mapping (some t) h = let (j, e) = get_elem?-some mapping t h in (j, e, tt)

remap_node-total :
    (mapping : List (Option ℕ)) (node : Node)
    → IsComplete (length mapping) node
    → (node' : Node) × (remap_node mapping node ≡ some node') × Unit {0}
unfolding remap_node
remap_node-total mapping node h =
    let (jumps, e, _) =
      traverse-All (remap_jump mapping) (InRange (length mapping)) (λ j. Unit {0})
        (remap_jump-total mapping) node.jumps h.1 in
    (record node { jumps = jumps }, rw (e, remap_node), tt)

-- On a complete automaton with a row of 128 jumps to each node, 129 rounds for each node are enough:
-- the queue runs empty, and no access is outside of the mapping.
pub remove_dead_ends_total :
    (nodes : List Node) (fuel : ℕ)
    → All (IsComplete (length nodes)) nodes
    → 129 * length nodes ≤ fuel
    → (result : List Node) × (remove_dead_ends fuel nodes ≡ some result)
unfolding remove_dead_ends
remove_dead_ends_total nodes fuel h b =
    let (u, q) = first_bound nodes 0 [] in
    let (marks, e) =
      mark_loop_total 128 fuel nodes (first_marks nodes) (first_queue nodes 0 [])
        (All-Narrow (length nodes) nodes h) (omega (arith, u, q)) in
    let mapping = nodes_mapping marks 0 in
    let size : length mapping ≡ length nodes =
      length-nodes_mapping marks 0 ∙ length-mark_loop fuel nodes _ _ e ∙ length-first_marks nodes in
    let (result, works, _) =
      traverse-All (remap_node mapping) (IsComplete (length mapping)) (λ n. Unit {0})
        (remap_node-total mapping) (kept_nodes nodes marks)
        (kept_nodes-All (IsComplete (length mapping)) nodes marks
          (subst (λ (n : ℕ). All (IsComplete n) nodes) (sym size) h)) in
    (result, rw (e, remove_dead_ends) works)

-- A first node that is no dead end stops every scan.
mark_loop-stopped :
    (fuel : ℕ) (node : Node) (nodes : List Node) (marks : List Bool) (queue : List ℕ)
    {result : List Bool}
    → mark_loop fuel (node ∷ nodes) (false ∷ marks) queue ≡ some result
    → result ≡ false ∷ marks
unfolding mark_loop scan_nodes
mark_loop-stopped fuel node nodes marks [] e = cc
mark_loop-stopped zero node nodes marks (current ∷ queue) e = absurd (cc)
mark_loop-stopped (suc fuel) node nodes marks (current ∷ queue) e =
    mark_loop-stopped fuel node nodes marks queue e

abbrev pub IsFinal : Node → Type 0
IsFinal node = node.is_final ≡ true

kept_nodes-IsFinal : (nodes : List Node) → All IsFinal (kept_nodes nodes (first_marks nodes))
unfolding kept_nodes first_marks
kept_nodes-IsFinal [] = tt
kept_nodes-IsFinal (node ∷ nodes) = elim (Bool-cases node.is_final) [
  | inl yes_ ↦ rw (yes_, kept_nodes, first_marks) (yes_, kept_nodes-IsFinal nodes)
  | inr no_ ↦ rw (no_, kept_nodes, first_marks) (kept_nodes-IsFinal nodes)
]

remap_node-IsFinal :
    (mapping : List (Option ℕ)) (nodes result : List Node)
    → traverse (remap_node mapping) nodes ≡ some result
    → All IsFinal nodes
    → All IsFinal result
unfolding remap_node
remap_node-IsFinal mapping [] result e h =
    subst (All IsFinal) (traverse-nil (remap_node mapping) result e) tt
remap_node-IsFinal mapping (node ∷ nodes) result e h =
    let (z, zs, split, head, tail) = traverse-cons (remap_node mapping) node nodes result e in
    rw split (ground (arith, head, h.0), remap_node-IsFinal mapping nodes zs tail h.1)

first_marks-final :
    (node : Node) (nodes : List Node)
    → IsFinal node
    → first_marks (node ∷ nodes) ≡ false ∷ first_marks nodes
unfolding first_marks
first_marks-final node nodes h = rw h

marked :
    (fuel : ℕ) (node : Node) (nodes : List Node) (marks : List Bool)
    → IsFinal node
    → mark_loop fuel (node ∷ nodes) (first_marks (node ∷ nodes)) (first_queue (node ∷ nodes) 0 [])
      ≡ some marks
    → marks ≡ first_marks (node ∷ nodes)
marked fuel node nodes marks h e =
    let m = first_marks-final node nodes h in
    mark_loop-stopped fuel node nodes (first_marks nodes) (first_queue (node ∷ nodes) 0 []) (
      subst (λ z. mark_loop fuel (node ∷ nodes) z (first_queue (node ∷ nodes) 0 []) ≡ some marks) m
        e)
    ∙ sym m

-- Whenever the first node is final, `remove_dead_ends` keeps final nodes only: also the nodes that
-- lead to a final node are removed.
pub remove_dead_ends-IsFinal :
    (fuel : ℕ) (node : Node) (nodes : List Node) {result : List Node}
    → IsFinal node
    → remove_dead_ends fuel (node ∷ nodes) ≡ some result
    → All IsFinal result
unfolding remove_dead_ends
remove_dead_ends-IsFinal fuel node nodes {result} h e =
    elim (Option-cases (
      mark_loop fuel (node ∷ nodes) (first_marks (node ∷ nodes))
        (first_queue (node ∷ nodes) 0 []))) [
          | inl out ↦ absurd (ground (arith, out, e))
          | inr (marks, ended) ↦
              let same : marks ≡ first_marks (node ∷ nodes) =
                marked fuel node nodes marks h ended in
              remap_node-IsFinal (nodes_mapping marks 0) (kept_nodes (node ∷ nodes) marks) result
                (ground (arith, ended, e)) (rw same (kept_nodes-IsFinal (node ∷ nodes)))
        ]
