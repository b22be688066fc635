-- ===== src/Lexis/Nfa/Built.antt =====
-- What the visitor leaves for an expression: its nodes, and the lemmas on parts of automata that are joined.
use recursive_functions.Prelude.{
  ℕ, ◌≡◌, ◌≢◌, ◌<◌, ◌≤◌, ◌⊎◌, inl, inr, List, [], ◌∷◌, ◌++◌, refl, arith,
}
use recursive_functions.Lexis.Nfa.{NfaNode, redirect, start_address}
use recursive_functions.Lexis.Nfa.Run.{Jumps, Final, Accepts}
use recursive_functions.Lexis.Nfa.Parts.{Leaves}
use recursive_functions.Lexis.Nfa.Words.{Repeated, no_more, one_more}
use recursive_functions.Lexis.Nfa.Nodes.{Jumps-redirect, Final-redirect}

-- The addresses that a visit may use: that of the fresh start node, and those it allocates.
abbrev pub Inside : ℕ → ℕ → ℕ → ℕ → Type 0
Inside a n n' x = (x ≡ a) ⊎ ((n ≤ x) × (x < n'))

-- A visit of an expression with the words L, which starts at a fresh node at a and allocates from n to n'.
pub record Built (nodes : List NfaNode) (a n n' : ℕ) (L : List ℕ → Type 0) : Type 0 where
  pub grows : n ≤ n'
  pub nonempty : nodes ≢ []
  pub start_in : Inside a n n' (start_address nodes)
  pub jump_in : (x s y : ℕ) → Jumps nodes x s y → Inside a n n' x × Inside a n n' y
  pub final_in : (x : ℕ) → Final nodes x → Inside a n n' x
  pub sound : (w : List ℕ) → Accepts nodes (start_address nodes) w → L w
  pub complete : (w : List ℕ) → L w → Accepts nodes (start_address nodes) w

pub start_address-append :
    (xs ys : List NfaNode) → xs ≢ [] → start_address (xs ++ ys) ≡ start_address xs
start_address-append [] ys h = absurd (h refl)
start_address-append (x ∷ xs) ys h = refl

pub append_nonempty : (xs ys : List NfaNode) → xs ≢ [] → (xs ++ ys) ≢ []
append_nonempty [] ys h = absurd (h refl)
append_nonempty (x ∷ xs) ys h = λ e. cc

pub start_address-redirect :
    (t : ℕ) (nodes : List NfaNode) → start_address (redirect t nodes) ≡ start_address nodes
unfolding redirect
start_address-redirect t [] = refl
start_address-redirect t (node ∷ nodes) = ground arith

pub redirect_nonempty : (t : ℕ) (nodes : List NfaNode) → nodes ≢ [] → redirect t nodes ≢ []
unfolding redirect
redirect_nonempty t [] h = h
redirect_nonempty t (node ∷ nodes) h = λ e. cc

pub Leaves-redirect :
    (J : ℕ → ℕ → ℕ → Type 0) (F : ℕ → Type 0) (In : ℕ → Type 0) (t : ℕ) (nodes : List NfaNode)
    → ((x s y : ℕ) → In x → J x s y → Jumps (redirect t nodes) x s y)
    → ((x : ℕ) → In x → F x → Final (redirect t nodes) x)
    → ((x s y : ℕ) → Jumps nodes x s y → In y)
    → Leaves (Jumps nodes) J (Final nodes) F In t
Leaves-redirect J F In t nodes j f i = record {
  jump = λ x s y h k. elim ((Jumps-redirect t nodes x s y).0 (j x s y h k)) [
    | inl p ↦ inl (p, i x s y p)
    | inr p ↦ inr p
  ];
  no_final = λ x h k. Final-redirect t nodes x (f x h k);
}

pub Repeated-map :
    {L M : List ℕ → Type 0}
    → ((w : List ℕ) → L w → M w)
    → {w : List ℕ} → Repeated L w
    → Repeated M w
Repeated-map f (no_more e) = no_more e
Repeated-map f (one_more u v e x y) = one_more u v e (f u x) (Repeated-map f y)
