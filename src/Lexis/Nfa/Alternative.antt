-- ===== src/Lexis/Nfa/Alternative.antt =====
-- The visit of a choice.
use recursive_functions.Prelude.{
  ℕ, suc, ◌≡◌, ◌<◌, ◌⊎◌, inl, inr, List, [], ◌∷◌, ◌++◌, false, refl, arith, subst,
}
use recursive_functions.Lexis.Nfa.{NfaNode, start_address, empty_jump}
use recursive_functions.Lexis.Nfa.Run.{Jumps, Final, Accepts, stop, empty, step}
use recursive_functions.Lexis.Nfa.Parts.{Accepted-larger, Accepted-smaller}
use recursive_functions.Lexis.Nfa.Nodes.{Jumps-append, Final-append}
use recursive_functions.Lexis.Nfa.Built.{Inside, Built}

module _ (L M : List ℕ → Type 0) (xs ys : List NfaNode) (a n n₁ n₂ : ℕ) (before : a < n)
    (left : Built xs a (suc n) n₁ L) (right : Built ys n n₁ n₂ M) where
  abbrev whole : List NfaNode
  whole =
      record {
        address = n₂;
        is_final = false;
        jumps = (empty_jump, start_address xs) ∷ (empty_jump, start_address ys) ∷ [];
      }
        ∷ ys
      ++ xs

  left_stays : (w : List ℕ) → Accepts whole (start_address xs) w → Accepts xs (start_address xs) w
  left_stays w d =
      Accepted-smaller (Jumps xs) (Jumps whole) (Final xs) (Final whole) (Inside a (suc n) n₁)
        (λ x s y i h.
          let c = Jumps-append ys xs x s y in
          let l = left.jump_in x s y in
          let r = right.jump_in x s y in let g = left.grows in let g' = right.grows in ground arith)
        (λ x i h.
          let c = Final-append ys xs x in
          let r = right.final_in x in let g = left.grows in let g' = right.grows in ground arith)
        left.start_in d

  right_stays : (w : List ℕ) → Accepts whole (start_address ys) w → Accepts ys (start_address ys) w
  right_stays w d =
      Accepted-smaller (Jumps ys) (Jumps whole) (Final ys) (Final whole) (Inside n n₁ n₂)
        (λ x s y i h.
          let c = Jumps-append ys xs x s y in
          let l = left.jump_in x s y in
          let r = right.jump_in x s y in let g = left.grows in let g' = right.grows in ground arith)
        (λ x i h.
          let c = Final-append ys xs x in
          let l = left.final_in x in let g = left.grows in let g' = right.grows in ground arith)
        right.start_in d

  front-Jumps :
      (x s y : ℕ)
      → x ≡ n₂
      → Jumps whole x s y
      → (s ≡ empty_jump) × ((y ≡ start_address xs) ⊎ (y ≡ start_address ys))
  front-Jumps x s y q h =
      let c = Jumps-append ys xs x s y in
      let l = left.jump_in x s y in
      let r = right.jump_in x s y in let g = left.grows in let g' = right.grows in ground arith

  front-Final : (x : ℕ) → x ≡ n₂ → Final whole x → ⊥
  front-Final x q h =
      let c = Final-append ys xs x in
      let l = left.final_in x in
      let r = right.final_in x in let g = left.grows in let g' = right.grows in ground arith

  front_words : {x : ℕ} {w : List ℕ} → x ≡ n₂ → Accepts whole x w → L w ⊎ M w
  front_words q (stop h e) = absurd (front-Final _ q h)
  front_words {x} {w} q (empty b h d) = elim (front-Jumps _ _ _ q h).1 [
    | inl e ↦ inl (left.sound w (left_stays w (subst (λ s. Accepts whole s w) e d)))
    | inr e ↦ inr (right.sound w (right_stays w (subst (λ s. Accepts whole s w) e d)))
  ]
  front_words q (step s b v e l h d) = absurd (omega (arith, l, (front-Jumps _ _ _ q h).0))

  pub choice-Built : Built whole a n (suc n₂) (λ w. L w ⊎ M w)
  choice-Built = record {
    grows = let l = left.grows in let r = right.grows in omega arith;
    nonempty = λ e. cc;
    start_in = let l = left.grows in let r = right.grows in ground arith;
    jump_in = λ x s y h.
        let c = Jumps-append ys xs x s y in
        let l = left.jump_in x s y in
        let r = right.jump_in x s y in
        let i = left.start_in in
        let j = right.start_in in let g = left.grows in let g' = right.grows in ground arith;
    final_in = λ x h.
        let c = Final-append ys xs x in
        let l = left.final_in x in
        let r = right.final_in x in let g = left.grows in let g' = right.grows in ground arith;
    sound = λ w d. front_words refl d;
    complete = λ w h. elim h [
      | inl x ↦ empty (start_address xs) (inl (refl, inl (refl, refl))) (
          Accepted-larger (Jumps xs) (Jumps whole) (Final xs) (Final whole)
            (λ x s y k. inr ((Jumps-append ys xs x s y).1 (inr k)))
            (λ x k. inr ((Final-append ys xs x).1 (inr k))) (left.complete w x))
      | inr y ↦ empty (start_address ys) (inl (refl, inr (inl (refl, refl)))) (
          Accepted-larger (Jumps ys) (Jumps whole) (Final ys) (Final whole)
            (λ x s y k. inr ((Jumps-append ys xs x s y).1 (inl k)))
            (λ x k. inr ((Final-append ys xs x).1 (inl k))) (right.complete w y))
    ];
  }
