-- ===== src/Lexis/Nfa/Nodes.antt =====
-- The jumps and the final nodes of what the visitor builds its automata from.
use recursive_functions.Prelude.{
  ℕ, zero, suc, ◌+◌, ◌≡◌, ◌≢◌, ◌<◌, ◌≤◌, ◌⊎◌, ◌↔◌, inl, inr, List, [], ◌∷◌, ◌++◌, Bool, true,
  Bool-cases, ap, arith, not, ◌&&◌, ◌==◌,
}
use recursive_functions.Lexis.Regex.{match_at}
use recursive_functions.Lexis.Nfa.{NfaNode, empty_jump, redirect, redirect_node, symbol_jumps}
use recursive_functions.Lexis.Nfa.Run.{HasJump, Jumps, Final}

pub Jumps-append :
    (xs ys : List NfaNode) (a s b : ℕ) → Jumps (xs ++ ys) a s b ↔ (Jumps xs a s b ⊎ Jumps ys a s b)
Jumps-append [] ys a s b = ground arith
Jumps-append (x ∷ xs) ys a s b = let r = Jumps-append xs ys a s b in ground arith

pub Final-append : (xs ys : List NfaNode) (a : ℕ) → Final (xs ++ ys) a ↔ (Final xs a ⊎ Final ys a)
Final-append [] ys a = ground arith
Final-append (x ∷ xs) ys a = let r = Final-append xs ys a in ground arith

pub HasJump-append :
    (xs ys : List (ℕ × ℕ)) (s b : ℕ) → HasJump (xs ++ ys) s b ↔ (HasJump xs s b ⊎ HasJump ys s b)
HasJump-append [] ys s b = ground arith
HasJump-append (x ∷ xs) ys s b = let r = HasJump-append xs ys s b in ground arith

Jumps-redirect_node :
    (t : ℕ) (node : NfaNode) (a s b : ℕ)
    → (((redirect_node t node).address ≡ a) × HasJump (redirect_node t node).jumps s b) ↔ (
        ((node.address ≡ a) × HasJump node.jumps s b)
        ⊎ (((node.address ≡ a) × (node.is_final ≡ true)) × (s ≡ empty_jump) × (b ≡ t)))
Jumps-redirect_node t node a s b = elim (Bool-cases node.is_final) [
  | inl e ↦ rw (e) (ground arith)
  | inr e ↦ rw (e) (ground arith)
]

pub Jumps-redirect :
    (t : ℕ) (nodes : List NfaNode) (a s b : ℕ)
    → Jumps (redirect t nodes) a s b
      ↔ (Jumps nodes a s b ⊎ (Final nodes a × (s ≡ empty_jump) × (b ≡ t)))
unfolding redirect
Jumps-redirect t [] a s b = ground arith
Jumps-redirect t (node ∷ nodes) a s b =
    let r = Jumps-redirect t nodes a s b in let h = Jumps-redirect_node t node a s b in ground arith

pub Final-redirect : (t : ℕ) (nodes : List NfaNode) (a : ℕ) → Final (redirect t nodes) a → ⊥
unfolding redirect
Final-redirect t [] a h = h
Final-redirect t (node ∷ nodes) a (inl h) = elim (Bool-cases node.is_final) [
  | inl e ↦ absurd (ground (arith, e, h))
  | inr e ↦ absurd (ground (arith, e, h))
]
Final-redirect t (node ∷ nodes) a (inr h) = Final-redirect t nodes a h

pub HasJump-symbol_jumps :
    (count i : ℕ) (match : List Bool) (t s b : ℕ)
    → HasJump (symbol_jumps count i match t) s b
      ↔ ((s ≢ 0) × (i ≤ s) × (s < i + count) × (match_at match s ≡ true) × (b ≡ t))
unfolding symbol_jumps
HasJump-symbol_jumps zero i match t s b = ground arith
HasJump-symbol_jumps (suc count) i match t s b =
    let r = HasJump-symbol_jumps count (suc i) match t s b in
    let c : i ≡ s → match_at match i ≡ match_at match s = λ q. ap (match_at match) q in
    elim (Bool-cases (not (i == 0) && match_at match i)) [
      | inl e ↦ rw (e) (ground arith)
      | inr e ↦ rw (e) (ground arith)
    ]
