-- ===== src/Lexis/Subset/Moves.antt =====
-- One symbol on a set of nodes: where its jumps lead, and when two sets are the same.
use recursive_functions.Prelude.{
  ℕ, ◌≡◌, ◌↔◌, ◌⊎◌, inl, inr, List, [], ◌∷◌, Bool, true, Bool-cases, arith, refl, contains,
  Distinct, Subset, merge_into, contains-merge, Distinct-merge, ◌==◌, ==_iff, sym, subst,
}
use recursive_functions.Lexis.Nfa.{NfaNode}
use recursive_functions.Lexis.Nfa.Run.{Jumps}
use recursive_functions.Lexis.EmptyJumps.{node_jumps}
use recursive_functions.Lexis.EmptyJumps.Lookup.{addresses, contains-node_jumps}
use recursive_functions.Lexis.EmptyJumps.Closing.{Reaches, IsGraph, IsClosure}
use recursive_functions.Lexis.Subset.{is_subset, set_eq, nodes_after_jump}

-- T is where symbol s leads from S, the empty jumps behind it included.
pub record Moves (automaton : List NfaNode) (S : List ℕ) (s : ℕ) (T : List ℕ) : Type 0 where
  pub forward : (a b : ℕ) → contains S a ≡ true → Jumps automaton a s b → contains T b ≡ true
  pub backward :
      (c : ℕ)
      → contains T c ≡ true
      → (a : ℕ) × (b : ℕ) × (contains S a ≡ true) × Jumps automaton a s b × Reaches automaton b c

abbrev pub SameSet : List ℕ → List ℕ → Type 0
SameSet S T = Subset S T × Subset T S

pub Moves-SameSet :
    (automaton : List NfaNode) (S : List ℕ) (s : ℕ) (T U : List ℕ)
    → SameSet T U
    → Moves automaton S s T
    → Moves automaton S s U
Moves-SameSet automaton S s T U e m = record {
  forward = λ a b h j. e.0 b (m.forward a b h j);
  backward = λ c h. m.backward c (e.1 c h);
}

is_subset-Subset : (xs ys : List ℕ) → (is_subset xs ys ≡ true) ↔ Subset xs ys
unfolding is_subset
is_subset-Subset [] ys = (λ h n k. absurd (ground arith), λ h. refl)
is_subset-Subset (x ∷ xs) ys =
    let r = is_subset-Subset xs ys in
    (
      λ h n k. elim (Bool-cases (x == n)) [
        | inl e ↦ subst (λ m. contains ys m ≡ true) ((==_iff x n).0 e) (ground (arith, h))
        | inr e ↦ r.0 (ground (arith, h)) n (ground arith)
      ],
      λ h. let a = h x (ground arith) in let b = r.1 (λ n k. h n (ground arith)) in rw (a, b) refl,
    )

pub set_eq-SameSet : (xs ys : List ℕ) → (set_eq xs ys ≡ true) ↔ SameSet xs ys
set_eq-SameSet xs ys =
    let a = is_subset-Subset xs ys in
    let b = is_subset-Subset ys xs in
    (
      λ h. (a.0 (ground (arith, h)), b.0 (ground (arith, h))),
      λ h. let p = a.1 h.0 in let q = b.1 h.1 in rw (p, q) refl,
    )

module _ (automaton : List NfaNode) (graph : IsGraph automaton) (s : ℕ) where
  pub nodes_after_jump-Distinct :
      (S found : List ℕ) → Distinct found → Distinct (nodes_after_jump automaton s S found)
  unfolding nodes_after_jump
  nodes_after_jump-Distinct [] found d = d
  nodes_after_jump-Distinct (a ∷ S) found d =
      nodes_after_jump-Distinct S _ (Distinct-merge found (node_jumps automaton a s) d)

  pub nodes_after_jump-found :
      (S found : List ℕ) → Subset found (nodes_after_jump automaton s S found)
  unfolding nodes_after_jump
  nodes_after_jump-found [] found b h = h
  nodes_after_jump-found (a ∷ S) found b h =
      nodes_after_jump-found S _ b ((contains-merge found (node_jumps automaton a s) b).1 (inl h))

  pub nodes_after_jump-forward :
      (S found : List ℕ) (a b : ℕ)
      → contains S a ≡ true
      → Jumps automaton a s b
      → contains (nodes_after_jump automaton s S found) b ≡ true
  unfolding nodes_after_jump
  nodes_after_jump-forward [] found a b h j = absurd (ground arith)
  nodes_after_jump-forward (x ∷ S) found a b h j = elim (Bool-cases (x == a)) [
    | inl e ↦ nodes_after_jump-found S _ b (
        (contains-merge found (node_jumps automaton x s) b).1 (
          inr (
            (contains-node_jumps automaton x s b graph.distinct).1
              (subst (λ y. Jumps automaton y s b) (sym ((==_iff x a).0 e)) j))))
    | inr e ↦ nodes_after_jump-forward S _ a b (ground arith) j
  ]

  pub nodes_after_jump-backward :
      (S found : List ℕ) (b : ℕ)
      → contains (nodes_after_jump automaton s S found) b ≡ true
      → (contains found b ≡ true) ⊎ ((a : ℕ) × (contains S a ≡ true) × Jumps automaton a s b)
  unfolding nodes_after_jump
  nodes_after_jump-backward [] found b h = inl h
  nodes_after_jump-backward (x ∷ S) found b h =
      elim (nodes_after_jump-backward S (merge_into found (node_jumps automaton x s)) b h) [
        | inl k ↦ elim ((contains-merge found (node_jumps automaton x s) b).0 k) [
          | inl f ↦ inl f
          | inr f ↦ inr (x, ground arith, (contains-node_jumps automaton x s b graph.distinct).0 f)
        ]
        | inr k ↦ inr (k.0, let c = k.1 in ground arith, k.2)
      ]

  pub nodes_after_jump-Subset :
      (S : List ℕ) → Subset (nodes_after_jump automaton s S []) (addresses automaton)
  nodes_after_jump-Subset S b h = elim (nodes_after_jump-backward S [] b h) [
    | inl k ↦ absurd (ground arith)
    | inr k ↦ graph.inside k.0 s b k.2
  ]

  pub IsClosure-Moves :
      (S T : List ℕ) (flag : Bool)
      → IsClosure automaton (nodes_after_jump automaton s S []) T flag
      → Moves automaton S s T
  IsClosure-Moves S T flag c = record {
    forward = λ a b h j. c.larger b (nodes_after_jump-forward S [] a b h j);
    backward = λ x h.
        let (b, k, r) = c.reached x h in
        elim (nodes_after_jump-backward S [] b k) [
          | inl z ↦ absurd (ground arith)
          | inr z ↦ (z.0, b, z.1, z.2, r)
        ];
  }
