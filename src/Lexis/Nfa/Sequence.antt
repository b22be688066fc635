-- ===== src/Lexis/Nfa/Sequence.antt =====
-- The visit of a concatenation.
use recursive_functions.Prelude.{
  ℕ, suc, ◌≡◌, ◌∙◌, ◌<◌, inl, inr, List, ◌++◌, refl, arith, sym, subst,
}
use recursive_functions.Lexis.Nfa.{NfaNode, redirect, start_address, empty_jump}
use recursive_functions.Lexis.Nfa.Run.{Jumps, Final, Accepts}
use recursive_functions.Lexis.Nfa.Parts.{
  Leaves, Accepted-larger, Accepted-smaller, Accepted-leave, Accepted-exit,
}
use recursive_functions.Lexis.Nfa.Words.{Concatenation}
use recursive_functions.Lexis.Nfa.Nodes.{Jumps-redirect, Final-redirect, Jumps-append, Final-append}
use recursive_functions.Lexis.Nfa.Built.{
  Inside, Built, Leaves-redirect, start_address-append, start_address-redirect, redirect_nonempty,
  append_nonempty,
}

module _ (L M : List ℕ → Type 0) (xs ys : List NfaNode) (a n n₁ n₂ : ℕ) (before : a < n)
    (left : Built xs a (suc n) n₁ L) (right : Built ys n n₁ n₂ M) where
  abbrev target : ℕ
  target = start_address ys

  abbrev whole : List NfaNode
  whole = redirect target xs ++ ys

  whole-start_address : start_address whole ≡ start_address xs
  whole-start_address =
      start_address-append _ ys (redirect_nonempty target xs left.nonempty)
      ∙ start_address-redirect target xs

  left-Leaves :
      Leaves (Jumps xs) (Jumps whole) (Final xs) (Final whole) (Inside a (suc n) n₁) target
  left-Leaves =
      Leaves-redirect (Jumps whole) (Final whole) (Inside a (suc n) n₁) target xs
        (λ x s y i h.
          let c = (Jumps-append (redirect target xs) ys x s y).0 h in
          let r = right.jump_in x s y in let g = left.grows in ground arith)
        (λ x i h.
          let c = (Final-append (redirect target xs) ys x).0 h in
          let r = right.final_in x in let g = left.grows in ground arith)
        (λ x s y h. (left.jump_in x s y h).1)

  right_stays : (w : List ℕ) → Accepts whole target w → Accepts ys target w
  right_stays w d =
      Accepted-smaller (Jumps ys) (Jumps whole) (Final ys) (Final whole) (Inside n n₁ n₂)
        (λ x s y i h.
          let c = (Jumps-append (redirect target xs) ys x s y).0 h in
          let k = (Jumps-redirect target xs x s y).0 in
          let r = right.jump_in x s y in
          let l = left.jump_in x s y in
          let f = left.final_in x in let g = left.grows in ground arith)
        (λ x i h.
          let c = (Final-append (redirect target xs) ys x).0 h in
          let k = Final-redirect target xs x in ground arith)
        right.start_in d

  whole-Jumps : (x s y : ℕ) → Jumps xs x s y → Jumps whole x s y
  whole-Jumps x s y h =
      (Jumps-append (redirect target xs) ys x s y).1
        (inl ((Jumps-redirect target xs x s y).1 (inl h)))

  whole-exit : (x : ℕ) → Final xs x → Jumps whole x empty_jump target
  whole-exit x h =
      (Jumps-append (redirect target xs) ys x empty_jump target).1
        (inl ((Jumps-redirect target xs x empty_jump target).1 (inr (h, refl, refl))))

  pub Concatenation-Built : Built whole a n n₂ (Concatenation L M)
  Concatenation-Built = record {
    grows = let l = left.grows in let r = right.grows in omega arith;
    nonempty = append_nonempty _ ys (redirect_nonempty target xs left.nonempty);
    start_in =
        subst (Inside a n n₂) (sym whole-start_address)
          (let l = left.start_in in let g = right.grows in ground arith);
    jump_in = λ x s y h.
        let c = (Jumps-append (redirect target xs) ys x s y).0 h in
        let k = (Jumps-redirect target xs x s y).0 in
        let l = left.jump_in x s y in
        let r = right.jump_in x s y in
        let f = left.final_in x in
        let i = right.start_in in let g = left.grows in let g' = right.grows in ground arith;
    final_in = λ x h.
        let c = (Final-append (redirect target xs) ys x).0 h in
        let k = Final-redirect target xs x in
        let r = right.final_in x in let g = left.grows in ground arith;
    sound = λ w d.
        let (u, v, e, x, y) =
          Accepted-leave (Jumps xs) (Jumps whole) (Final xs) (Final whole) (Inside a (suc n) n₁)
            target left-Leaves left.start_in
            (subst (λ s. Accepts whole s w) whole-start_address d) in
        (u, v, e, left.sound u x, right.sound v (right_stays v y));
    complete = λ w h.
        let (u, v, e, x, y) = h in
        subst (λ s. Accepts whole s w) (sym whole-start_address)
          (Accepted-exit (Jumps xs) (Jumps whole) (Final xs) (Final whole) target whole-Jumps
            whole-exit v w e (left.complete u x)
            (Accepted-larger (Jumps ys) (Jumps whole) (Final ys) (Final whole)
              (λ x s y k. (Jumps-append (redirect target xs) ys x s y).1 (inr k))
              (λ x k. (Final-append (redirect target xs) ys x).1 (inr k)) (right.complete v y)));
  }
