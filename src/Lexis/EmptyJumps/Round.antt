-- ===== src/Lexis/EmptyJumps/Round.antt =====
-- The loop over the empty jumps of one node.
use recursive_functions.Prelude.{
  ℕ, ◌+◌, ◌≡◌, ◌↔◌, ◌⊎◌, inl, inr, List, [], ◌∷◌, ◌++◌, true, Bool-cases, arith, length, contains,
  Distinct, contains-append, length-snoc, ◌==◌, ==_iff, sym,
}
use recursive_functions.Lexis.EmptyJumps.{process_targets}

-- What the loop leaves: the targets join the set, and those that are new wait.
pub record Processed (targets nodes waiting nodes' waiting' : List ℕ) : Type 0 where
  pub distinct : Distinct nodes'
  pub members :
      (x : ℕ)
      → (contains nodes' x ≡ true) ↔ ((contains nodes x ≡ true) ⊎ (contains targets x ≡ true))
  pub queued :
      (x : ℕ) → contains nodes' x ≡ true → (contains nodes x ≡ true) ⊎ (contains waiting' x ≡ true)
  pub kept : (x : ℕ) → contains waiting x ≡ true → contains waiting' x ≡ true
  pub waiting_in :
      (x : ℕ)
      → contains waiting' x ≡ true
      → (contains waiting x ≡ true) ⊎ (contains targets x ≡ true)
  pub balance : length nodes' + length waiting ≡ length nodes + length waiting'

pub process_targets-Processed :
    (targets nodes waiting : List ℕ)
    → Distinct nodes
    → let after = process_targets targets nodes waiting in
      Processed targets nodes waiting after.0 after.1
unfolding process_targets
process_targets-Processed [] nodes waiting d = record {
  distinct = d;
  members = λ x. ground arith;
  queued = λ x h. inl h;
  kept = λ x h. h;
  waiting_in = λ x h. inl h;
  balance = omega arith;
}
process_targets-Processed (t ∷ targets) nodes waiting d = elim (Bool-cases (contains nodes t)) [
  | inl e ↦ rw (e) (
      let p = process_targets-Processed targets nodes waiting d in
      record {
        distinct = p.distinct;
        members = λ x.
            let m = p.members x in
            elim (Bool-cases (t == x)) [
              | inl q ↦ rw (sym ((==_iff t x).0 q)) (let m' = p.members t in ground arith)
              | inr q ↦ ground arith
            ];
        queued = p.queued;
        kept = p.kept;
        waiting_in = λ x h. let m = p.waiting_in x h in ground arith;
        balance = p.balance;
      })
  | inr e ↦ rw (e) (
      let p = process_targets-Processed targets (t ∷ nodes) (waiting ++ t ∷ []) (e, d) in
      record {
        distinct = p.distinct;
        members = λ x. let m = p.members x in ground arith;
        queued = λ x h.
            let m = p.queued x h in
            let k = p.kept x in let c = contains-append waiting (t ∷ []) x in ground arith;
        kept =
            λ x h. let k = p.kept x in let c = contains-append waiting (t ∷ []) x in ground arith;
        waiting_in = λ x h.
            let k = p.waiting_in x h in let c = contains-append waiting (t ∷ []) x in ground arith;
        balance = let b = p.balance in omega (arith, b, length-snoc waiting t);
      })
]
