-- ===== src/Lexis/EmptyJumps/Closing.antt =====
-- `do_empty_jumps` ends within as many rounds as the automaton has nodes, with the nodes that empty jumps
-- reach.
use recursive_functions.Prelude.{
  ℕ, zero, suc, ◌+◌, ◌≡◌, ◌≤◌, ◌⊎◌, inl, inr, List, [], ◌∷◌, Bool, true, false, ◌||◌, some,
  Distinct-length, Bool-cases, arith, refl, length, contains, Distinct, Subset, ◌==◌, ==_iff, sym,
  subst,
}
use recursive_functions.Lexis.Nfa.{NfaNode, empty_jump}
use recursive_functions.Lexis.Nfa.Run.{Jumps, Final}
use recursive_functions.Lexis.EmptyJumps.{
  node_jumps, node_is_final, process_targets, empty_loop, do_empty_jumps,
}
use recursive_functions.Lexis.EmptyJumps.Lookup.{
  addresses, length-addresses, contains-node_jumps, node_is_final-Final,
}
use recursive_functions.Lexis.EmptyJumps.Round.{Processed, process_targets-Processed}

-- Empty jumps lead from a to b.
pub data Reaches (automaton : List NfaNode) : ℕ → ℕ → Type 0 where
  here : {a b : ℕ} → a ≡ b → Reaches automaton a b
  hop :
      {a b : ℕ} (c : ℕ)
      → Jumps automaton a empty_jump c
      → Reaches automaton c b
      → Reaches automaton a b

pub Reaches-snoc :
    (automaton : List NfaNode) {a b : ℕ} (c : ℕ)
    → Reaches automaton a b
    → Jumps automaton b empty_jump c
    → Reaches automaton a c
Reaches-snoc automaton c (here e) h =
    hop c (subst (λ x. Jumps automaton x empty_jump c) (sym e) h) (here refl)
Reaches-snoc automaton c (hop m j r) h = hop m j (Reaches-snoc automaton c r h)

-- Distinct addresses, and jumps between nodes only.
pub record IsGraph (automaton : List NfaNode) : Type 0 where
  pub distinct : Distinct (addresses automaton)
  pub inside : (a s b : ℕ) → Jumps automaton a s b → contains (addresses automaton) b ≡ true

-- The result of `do_empty_jumps` on a set.
pub record IsClosure (automaton : List NfaNode) (start result : List ℕ) (is_final : Bool)
    : Type 0 where
  pub unique : Distinct result
  pub nodes_only : Subset result (addresses automaton)
  pub larger : Subset start result
  pub closed :
      (a b : ℕ)
      → contains result a ≡ true
      → Jumps automaton a empty_jump b
      → contains result b ≡ true
  pub reached :
      (b : ℕ)
      → contains result b ≡ true
      → (a : ℕ) × (contains start a ≡ true) × Reaches automaton a b
  pub final_found : (a : ℕ) → contains result a ≡ true → Final automaton a → is_final ≡ true
  pub final_true : is_final ≡ true → (a : ℕ) × (contains result a ≡ true) × Final automaton a

module _ (automaton : List NfaNode) (graph : IsGraph automaton) (start : List ℕ) where
  -- The loop between two rounds.
  record Invariant (nodes waiting : List ℕ) (is_final : Bool) : Type 0 where
    unique : Distinct nodes
    nodes_only : Subset nodes (addresses automaton)
    larger : Subset start nodes
    waiting_in : Subset waiting nodes
    processed :
        (a : ℕ)
        → contains nodes a ≡ true
        → (contains waiting a ≡ true)
          ⊎ (((b : ℕ) → Jumps automaton a empty_jump b → contains nodes b ≡ true)
              × (Final automaton a → is_final ≡ true))
    reached :
        (b : ℕ)
        → contains nodes b ≡ true
        → (a : ℕ) × (contains start a ≡ true) × Reaches automaton a b
    final_true : is_final ≡ true → (a : ℕ) × (contains nodes a ≡ true) × Final automaton a

  Invariant-round :
      (nodes waiting : List ℕ) (current : ℕ) (is_final : Bool)
      → Invariant nodes (current ∷ waiting) is_final
      → let after = process_targets (node_jumps automaton current empty_jump) nodes waiting in
        Processed (node_jumps automaton current empty_jump) nodes waiting after.0 after.1
        → Invariant after.0 after.1 (node_is_final automaton current || is_final)
  Invariant-round nodes waiting current is_final i p =
      let jumps = λ (b : ℕ). contains-node_jumps automaton current empty_jump b graph.distinct in
      let final = node_is_final-Final automaton current graph.distinct in
      let current_in : contains nodes current ≡ true = i.waiting_in current (ground arith) in
      record {
        unique = p.distinct;
        nodes_only = λ x h. elim ((p.members x).0 h) [
          | inl k ↦ i.nodes_only x k
          | inr k ↦ graph.inside current empty_jump x ((jumps x).0 k)
        ];
        larger = λ x h. (p.members x).1 (inl (i.larger x h));
        waiting_in = λ x h. elim (p.waiting_in x h) [
          | inl k ↦ (p.members x).1 (inl (i.waiting_in x (ground arith)))
          | inr k ↦ (p.members x).1 (inr k)
        ];
        processed = λ x h. elim (p.queued x h) [
          | inl k ↦ elim (Bool-cases (current == x)) [
            | inl e ↦
                let q = (==_iff current x).0 e in
                inr (
                  λ b j.
                      (p.members b).1
                        (inr ((jumps b).1 (subst (λ y. Jumps automaton y empty_jump b) (sym q) j))),
                  λ f. let t = final.1 (subst (Final automaton) (sym q) f) in ground arith,
                )
            | inr e ↦ elim (i.processed x k) [
              | inl w ↦ inl (p.kept x (ground arith))
              | inr w ↦
                  inr (λ b j. (p.members b).1 (inl (w.0 b j)), λ f. let t = w.1 f in ground arith)
            ]
          ]
          | inr k ↦ inl k
        ];
        reached = λ x h. elim ((p.members x).0 h) [
          | inl k ↦ i.reached x k
          | inr k ↦
              let (a, s, r) = i.reached current current_in in
              (a, s, Reaches-snoc automaton x r ((jumps x).0 k))
        ];
        final_true = λ h. elim (Bool-cases (node_is_final automaton current)) [
          | inl e ↦ (current, (p.members current).1 (inl current_in), final.0 e)
          | inr e ↦ let (a, k, f) = i.final_true (ground arith) in (a, (p.members a).1 (inl k), f)
        ];
      }

  empty_loop-IsClosure :
      (fuel : ℕ) (nodes waiting : List ℕ) (is_final : Bool)
      → Invariant nodes waiting is_final
      → length waiting + length (addresses automaton) ≤ fuel + length nodes
      → (result : List ℕ) × (flag : Bool) × (empty_loop fuel automaton nodes waiting is_final
          ≡ some (result, flag))
        × IsClosure automaton start result flag
  unfolding empty_loop
  empty_loop-IsClosure fuel nodes [] is_final i h = (
    nodes,
    is_final,
    refl,
    record {
      unique = i.unique;
      nodes_only = i.nodes_only;
      larger = i.larger;
      closed =
          λ a b k j. elim (i.processed a k) [ inl w ↦ absurd (ground arith) | inr w ↦ w.0 b j ];
      reached = i.reached;
      final_found =
          λ a k f. elim (i.processed a k) [ inl w ↦ absurd (ground arith) | inr w ↦ w.1 f ];
      final_true = i.final_true;
    },
  )
  empty_loop-IsClosure zero nodes (current ∷ waiting) is_final i h =
      absurd (omega (arith, h, Distinct-length nodes (addresses automaton) i.unique i.nodes_only))
  empty_loop-IsClosure (suc fuel) nodes (current ∷ waiting) is_final i h =
      let p =
        process_targets-Processed (node_jumps automaton current empty_jump) nodes waiting
          i.unique in
      empty_loop-IsClosure fuel _ _ _ (Invariant-round nodes waiting current is_final i p)
        (omega (arith, h, p.balance))

-- On an automaton with distinct addresses and jumps between its nodes only, and a set of its nodes without
-- repetition, `do_empty_jumps` ends within as many rounds as there are nodes. The set is then closed under
-- empty jumps, each of its nodes is reached from the set before, and the result is true exactly where one of
-- them is final.
pub do_empty_jumps-IsClosure :
    (automaton : List NfaNode) (start : List ℕ)
    → IsGraph automaton
    → Distinct start
    → Subset start (addresses automaton)
    → (result : List ℕ) × (flag : Bool) × (do_empty_jumps (length automaton) automaton start
        ≡ some (result, flag))
      × IsClosure automaton start result flag
unfolding do_empty_jumps
do_empty_jumps-IsClosure automaton start graph d s =
    empty_loop-IsClosure automaton graph start (length automaton) start start false
      (record {
        unique = d;
        nodes_only = s;
        larger = λ x h. h;
        waiting_in = λ x h. h;
        processed = λ x h. inl h;
        reached = λ x h. (x, h, here refl);
        final_true = λ h. absurd (cc);
      })
      (omega (arith, length-addresses automaton))
