-- ===== src/Lexis/EmptyJumps/Placed.antt =====
-- The automaton of a regular expression is a graph: distinct addresses, and jumps between its nodes only.
use recursive_functions.Prelude.{
  ℕ, suc, ◌≡◌, ◌<◌, ◌≤◌, ◌⊎◌, ◌↔◌, inl, inr, List, [], ◌∷◌, ◌++◌, true, Bool-cases, arith, refl, ap,
  ◌∙◌, sym, subst, contains, contains-append, Distinct,
}
use recursive_functions.Lexis.Nfa.{NfaNode, redirect, redirect_node, start_address}
use recursive_functions.Lexis.Nfa.Run.{Jumps}
use recursive_functions.Lexis.Nfa.Built.{Inside, start_address-redirect}
use recursive_functions.Lexis.EmptyJumps.Lookup.{addresses}

-- The nodes that a visit leaves, by their addresses.
pub record IsPlaced (nodes : List NfaNode) (a n n' : ℕ) : Type 0 where
  pub grows : n ≤ n'
  pub distinct : Distinct (addresses nodes)
  pub only : (x : ℕ) → contains (addresses nodes) x ≡ true → Inside a n n' x
  pub start_at : contains (addresses nodes) (start_address nodes) ≡ true
  pub target_at : (x s y : ℕ) → Jumps nodes x s y → contains (addresses nodes) y ≡ true

pub addresses-append : (xs ys : List NfaNode) → addresses (xs ++ ys) ≡ addresses xs ++ addresses ys
unfolding addresses
addresses-append [] ys = refl
addresses-append (x ∷ xs) ys = ap (λ (r : List ℕ). x.address ∷ r) (addresses-append xs ys)

pub addresses-redirect :
    (t : ℕ) (nodes : List NfaNode) → addresses (redirect t nodes) ≡ addresses nodes
unfolding addresses redirect
addresses-redirect t [] = refl
addresses-redirect t (node ∷ nodes) =
    ap (λ (r : List ℕ). (redirect_node t node).address ∷ r) (addresses-redirect t nodes)
    ∙ ap (λ (x : ℕ). x ∷ addresses nodes) (same_address node)
  where
    same_address : (node : NfaNode) → (redirect_node t node).address ≡ node.address
    same_address node = ground arith

Distinct-append :
    (xs ys : List ℕ)
    → Distinct xs
    → Distinct ys
    → ((x : ℕ) → contains xs x ≡ true → contains ys x ≡ true → ⊥)
    → Distinct (xs ++ ys)
Distinct-append [] ys d e apart = e
Distinct-append (x ∷ xs) ys d e apart = (
  elim (Bool-cases (contains (xs ++ ys) x)) [
    | inl h ↦ let c = contains-append xs ys x in let k = apart x in absurd (ground (arith, d.0))
    | inr h ↦ h
  ],
  Distinct-append xs ys d.1 e (λ y h k. apart y (ground arith) k),
)

-- Two groups of nodes at different addresses.
pub record IsJoined (xs ys : List NfaNode) (whole : List ℕ) : Type 0 where
  pub distinct : Distinct whole
  pub members :
      (x : ℕ)
      → (contains whole x ≡ true)
        ↔ ((contains (addresses xs) x ≡ true) ⊎ (contains (addresses ys) x ≡ true))

pub IsJoined-append :
    (xs ys : List NfaNode)
    → Distinct (addresses xs)
    → Distinct (addresses ys)
    → ((x : ℕ) → contains (addresses xs) x ≡ true → contains (addresses ys) x ≡ true → ⊥)
    → IsJoined xs ys (addresses xs ++ addresses ys)
IsJoined-append xs ys d e apart = record {
  distinct = Distinct-append (addresses xs) (addresses ys) d e apart;
  members = λ x. let c = contains-append (addresses xs) (addresses ys) x in ground arith;
}

pub redirected_start :
    (t : ℕ) (xs : List NfaNode)
    → contains (addresses xs) (start_address xs) ≡ true
    → contains (addresses (redirect t xs)) (start_address (redirect t xs)) ≡ true
redirected_start t xs h =
    subst (λ x. contains (addresses (redirect t xs)) x ≡ true) (sym (start_address-redirect t xs))
      (ap (λ (z : List ℕ). contains z (start_address xs)) (addresses-redirect t xs) ∙ h)

pub contains-start :
    (xs ys : List NfaNode)
    → contains (addresses xs) (start_address xs) ≡ true
    → start_address (xs ++ ys) ≡ start_address xs
unfolding addresses
contains-start [] ys h = absurd (cc)
contains-start (x ∷ xs) ys h = refl

-- A new node in front of others.
pub cons-IsPlaced :
    (node : NfaNode) (nodes : List NfaNode) (n n₁ : ℕ) (a : ℕ)
    → Distinct (addresses nodes)
    → a < n
    → n ≤ n₁
    → node.address ≡ n₁
    → ((x : ℕ) → contains (addresses nodes) x ≡ true → Inside a n n₁ x)
    → ((x s y : ℕ) → Jumps (node ∷ nodes) x s y → contains (addresses (node ∷ nodes)) y ≡ true)
    → IsPlaced (node ∷ nodes) a n (suc n₁)
unfolding addresses
cons-IsPlaced node nodes n n₁ a d h g e only target = record {
  grows = omega arith;
  distinct = (
    elim (Bool-cases (contains (addresses nodes) node.address)) [
      | inl p ↦ let i = only node.address p in absurd (ground arith)
      | inr p ↦ p
    ],
    d,
  );
  only = λ x p. let i = only x in ground arith;
  start_at = ground arith;
  target_at = target;
}
