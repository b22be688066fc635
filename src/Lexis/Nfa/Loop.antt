-- ===== src/Lexis/Nfa/Loop.antt =====
-- The visit of a repetition.
use recursive_functions.Prelude.{ℕ, suc, ◌<◌, inl, inr, List, [], ◌∷◌, true, refl, arith}
use recursive_functions.Lexis.Nfa.{NfaNode, redirect, start_address, empty_jump}
use recursive_functions.Lexis.Nfa.Run.{Jumps, Final}
use recursive_functions.Lexis.Nfa.Parts.{Leaves, Loops, Accepted-Repeated, Repeated-Accepted}
use recursive_functions.Lexis.Nfa.Words.{Repeated}
use recursive_functions.Lexis.Nfa.Nodes.{Jumps-redirect, Final-redirect}
use recursive_functions.Lexis.Nfa.Built.{Inside, Built, Leaves-redirect, Repeated-map}

module _ (L : List ℕ → Type 0) (xs : List NfaNode) (a n n₁ : ℕ) (before : a < n)
    (part : Built xs a n n₁ L) where
  abbrev whole : List NfaNode
  whole =
      record { address = n₁; is_final = true; jumps = (empty_jump, start_address xs) ∷ [] }
      ∷ redirect n₁ xs

  part-Leaves : Leaves (Jumps xs) (Jumps whole) (Final xs) (Final whole) (Inside a n n₁) n₁
  part-Leaves =
      Leaves-redirect (Jumps whole) (Final whole) (Inside a n n₁) n₁ xs
        (λ x s y i h. let g = part.grows in ground arith)
        (λ x i h. let g = part.grows in ground arith) (λ x s y h. (part.jump_in x s y h).1)

  part-Loops :
      Loops (Jumps xs) (Jumps whole) (Final xs) (Final whole) (Inside a n n₁) (start_address xs) n₁
  part-Loops = record {
    leaves = part-Leaves;
    start_in = part.start_in;
    back = λ s y h.
        let k = Jumps-redirect n₁ xs n₁ s y in
        let j = part.jump_in n₁ s y in
        let f = part.final_in n₁ in let g = part.grows in ground arith;
  }

  pub star-Built : Built whole a n (suc n₁) (Repeated L)
  star-Built = record {
    grows = let g = part.grows in omega arith;
    nonempty = λ e. cc;
    start_in = let g = part.grows in ground arith;
    jump_in = λ x s y h.
        let k = Jumps-redirect n₁ xs x s y in
        let j = part.jump_in x s y in
        let f = part.final_in x in let i = part.start_in in let g = part.grows in ground arith;
    final_in = λ x h. let k = Final-redirect n₁ xs x in let g = part.grows in ground arith;
    sound = λ w d. Repeated-map part.sound (
        Accepted-Repeated (Jumps xs) (Jumps whole) (Final xs) (Final whole) (Inside a n n₁)
          (start_address xs) n₁ part-Loops d);
    complete = λ w h.
        Repeated-Accepted (Jumps xs) (Jumps whole) (Final xs) (Final whole) (start_address xs) n₁
          (λ x s y k. inr ((Jumps-redirect n₁ xs x s y).1 (inl k)))
          (λ x k. inr ((Jumps-redirect n₁ xs x empty_jump n₁).1 (inr (k, refl, refl))))
          (inl (refl, inl (refl, refl))) (inl (refl, refl)) (Repeated-map part.complete h);
  }
