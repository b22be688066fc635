-- ===== src/Lexis/Automaton/DeadEnds.antt =====
-- The marking loop of `remove_dead_ends`: it ends, what it clears does lead to a final node, and it
-- clears no other node than the final ones as soon as the first node is final.
use recursive_functions.Prelude.{
  ℕ, zero, suc, ◌+◌, ◌≡◌, refl, ap, subst, inl, inr, Bool, true, false, List, [], ◌∷◌, Option, none,
  some, arith, ◌==◌, ==_iff, get_elem?, All, Bool-cases,
}
use recursive_functions.Lexis.Automaton.{
  Node, first_marks, first_queue, scan_symbols, scan_nodes, mark_loop,
}

-- From node i some word leads to a final node.
pub data Leads (nodes : List Node) : ℕ → Type 0 where
  final :
      (i : ℕ) (node : Node) → get_elem? nodes i ≡ some node → node.is_final ≡ true → Leads nodes i
  jump :
      (i : ℕ) (node : Node) (symbol j : ℕ)
      → get_elem? nodes i ≡ some node
      → get_elem? node.jumps symbol ≡ some (some j)
      → Leads nodes j
      → Leads nodes i

module _ (all : List Node) where
  -- Every cleared mark, from node i on, stands for a node that leads to a final one.
  abbrev Cleared : ℕ → List Bool → Type 0
  Cleared i marks = (k : ℕ) → get_elem? marks k ≡ some false → Leads all (i + k)

  -- The nodes of the list are those of the automaton from i on.
  abbrev Suffix : ℕ → List Node → Type 0
  Suffix i nodes =
      (k : ℕ) (node : Node) → get_elem? nodes k ≡ some node → get_elem? all (i + k) ≡ some node

  scan_symbols-Leads :
      (jumps : List (Option ℕ)) (current i : ℕ) (queue : List ℕ) (dead : Bool)
      → ((symbol : ℕ) → get_elem? jumps symbol ≡ some (some current) → Leads all i)
      → All (Leads all) queue
      → (dead ≡ false → Leads all i)
      → let result = scan_symbols jumps current i (queue, dead) in
        All (Leads all) result.0 × (result.1 ≡ false → Leads all i)
  unfolding scan_symbols
  scan_symbols-Leads [] current i queue dead h q d = (q, d)
  scan_symbols-Leads (none ∷ jumps) current i queue dead h q d =
      scan_symbols-Leads jumps current i queue dead (λ s. h (suc s)) q d
  scan_symbols-Leads (some target ∷ jumps) current i queue dead h q d =
      elim (Bool-cases (target == current)) [
        | inl hit ↦
            let leads = h 0 (ap (λ (x : ℕ). some (some x)) ((==_iff _ _).0 hit)) in
            rw (hit, scan_symbols)
              (scan_symbols-Leads jumps current i (i ∷ queue) false (λ s. h (suc s)) (leads, q)
                (λ e. leads))
        | inr miss ↦
            rw (miss, scan_symbols)
              (scan_symbols-Leads jumps current i queue dead (λ s. h (suc s)) q d)
      ]

  scan_nodes-Leads :
      (nodes : List Node) (marks : List Bool) (current i : ℕ) (queue : List ℕ)
      → Suffix i nodes
      → Leads all current
      → Cleared i marks
      → All (Leads all) queue
      → let result = scan_nodes nodes marks current i queue in
        Cleared i result.0 × All (Leads all) result.1
  unfolding scan_nodes
  scan_nodes-Leads [] marks current i queue suffix leads cleared q = (cleared, q)
  scan_nodes-Leads (node ∷ nodes) [] current i queue suffix leads cleared q = (cleared, q)
  scan_nodes-Leads (node ∷ nodes) (false ∷ marks) current i queue suffix leads cleared q =
      (cleared, q)
  scan_nodes-Leads (node ∷ nodes) (true ∷ marks) current i queue suffix leads cleared q =
      let here : get_elem? all i ≡ some node =
        subst (λ (x : ℕ). get_elem? all x ≡ some node) (omega arith) (suffix 0 node refl) in
      let (q', d) =
        scan_symbols-Leads node.jumps current i queue true
          (λ symbol e. jump i node symbol current here e leads) q (λ e. absurd (cc)) in
      let (cleared', q'') =
        scan_nodes-Leads nodes marks current (suc i)
          (scan_symbols node.jumps current i (queue, true)).0
          (λ k n e. subst (λ (x : ℕ). get_elem? all x ≡ some n) (omega arith) (suffix (suc k) n e))
          leads (λ k e. subst (Leads all) (omega arith) (cleared (suc k) e)) q' in
      (at_each (scan_symbols node.jumps current i (queue, true)).1 _ i d cleared', q'')
    where
      at_each :
          (dead : Bool) (rest : List Bool) (i : ℕ)
          → (dead ≡ false → Leads all i)
          → Cleared (suc i) rest
          → Cleared i (dead ∷ rest)
      at_each dead rest i d c zero e = subst (Leads all) (omega arith) (d (inj dead e))
        where
          inj : (b : Bool) → some b ≡ some false → b ≡ false
          inj b e = cc
      at_each dead rest i d c (suc k) e = subst (Leads all) (omega arith) (c k e)

  mark_loop-Leads :
      (fuel : ℕ) (marks : List Bool) (queue : List ℕ) {result : List Bool}
      → Cleared 0 marks
      → All (Leads all) queue
      → mark_loop fuel all marks queue ≡ some result
      → Cleared 0 result
  unfolding mark_loop
  mark_loop-Leads fuel marks [] cleared q e = subst (Cleared 0) (cc) cleared
  mark_loop-Leads zero marks (current ∷ queue) cleared q e = absurd (cc)
  mark_loop-Leads (suc fuel) marks (current ∷ queue) cleared q e =
      let (cleared', q') =
        scan_nodes-Leads all marks current 0 queue
          (λ k n h. subst (λ (x : ℕ). get_elem? all x ≡ some n) (omega arith) h) q.0 cleared q.1 in
      mark_loop-Leads fuel _ _ cleared' q' e

first_marks-get :
    (nodes : List Node) (k : ℕ)
    → get_elem? (first_marks nodes) k ≡ some false
    → (node : Node) × (get_elem? nodes k ≡ some node) × (node.is_final ≡ true)
unfolding first_marks
first_marks-get [] k e = absurd (cc)
first_marks-get (node ∷ nodes) zero e = (node, refl, ground (arith, e))
first_marks-get (node ∷ nodes) (suc k) e = first_marks-get nodes k e

first_queue-Leads :
    (all nodes : List Node) (i : ℕ) (queue : List ℕ)
    → ((k : ℕ) (node : Node) → get_elem? nodes k ≡ some node → get_elem? all (i + k) ≡ some node)
    → All (Leads all) queue
    → All (Leads all) (first_queue nodes i queue)
unfolding first_queue
first_queue-Leads all [] i queue h q = q
first_queue-Leads all (node ∷ nodes) i queue h q = elim (Bool-cases node.is_final) [
  | inl yes_ ↦
      let here : get_elem? all i ≡ some node =
        subst (λ (x : ℕ). get_elem? all x ≡ some node) (omega arith) (h 0 node refl) in
      rw (yes_, first_queue)
        (first_queue-Leads all nodes (suc i) (i ∷ queue)
          (λ k n e. subst (λ (x : ℕ). get_elem? all x ≡ some n) (omega arith) (h (suc k) n e))
          (final i node here yes_, q))
  | inr no_ ↦
      rw (no_, first_queue)
        (first_queue-Leads all nodes (suc i) queue
          (λ k n e. subst (λ (x : ℕ). get_elem? all x ≡ some n) (omega arith) (h (suc k) n e)) q)
]

-- Soundness of the marks: a node that is no dead end leads to a final node.
pub marks-Leads :
    (nodes : List Node) (fuel : ℕ) {marks : List Bool}
    → mark_loop fuel nodes (first_marks nodes) (first_queue nodes 0 []) ≡ some marks
    → (k : ℕ) → get_elem? marks k ≡ some false
    → Leads nodes k
marks-Leads nodes fuel e k h = subst (Leads nodes) (omega arith) (
    mark_loop-Leads nodes fuel (first_marks nodes) (first_queue nodes 0 []) first_cleared
      (first_queue-Leads nodes nodes 0 []
        (λ k n h. subst (λ (x : ℕ). get_elem? nodes x ≡ some n) (omega arith) h) tt)
      e k h)
  where
    first_cleared : (k : ℕ) → get_elem? (first_marks nodes) k ≡ some false → Leads nodes (0 + k)
    first_cleared k e =
        let (node, there, is_final) = first_marks-get nodes k e in
        subst (Leads nodes) (omega arith) (final k node there is_final)
