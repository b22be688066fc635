-- ===== src/Lexis/Nfa/Again.antt =====
-- The visit of a repetition that is not empty: the child is built twice, and the second copy loops.
use recursive_functions.Prelude.{
  ℕ, suc, ◌≡◌, ◌<◌, ◌⊎◌, ◌↔◌, inl, inr, List, [], ◌∷◌, ◌++◌, true, false, refl, arith, subst,
}
use recursive_functions.Lexis.Nfa.{NfaNode, redirect, start_address, empty_jump}
use recursive_functions.Lexis.Nfa.Run.{Jumps, Final, Accepts, stop, empty, step}
use recursive_functions.Lexis.Nfa.Parts.{
  Leaves, Loops, Accepted-leave, Accepted-exit, Accepted-Repeated, Repeated-Accepted,
}
use recursive_functions.Lexis.Nfa.Words.{Concatenation, Repeated}
use recursive_functions.Lexis.Nfa.Nodes.{Jumps-redirect, Final-redirect, Jumps-append, Final-append}
use recursive_functions.Lexis.Nfa.Built.{Inside, Built, Repeated-map}

module _ (L : List ℕ → Type 0) (xs ys : List NfaNode) (a n n₁ n₂ : ℕ) (before : a < n)
    (copy : Built xs a (suc n) n₁ L) (first : Built ys n n₁ n₂ L) where
  abbrev parts : List NfaNode
  parts = redirect n₂ ys ++ redirect n₂ xs

  abbrev whole : List NfaNode
  whole =
      record { address = suc n₂; is_final = false; jumps = (empty_jump, start_address ys) ∷ [] }
      ∷ record { address = n₂; is_final = true; jumps = (empty_jump, start_address xs) ∷ [] }
      ∷ parts

  parts-Jumps :
      (x s y : ℕ)
      → Jumps parts x s y ↔ (
          (Jumps ys x s y ⊎ (Final ys x × (s ≡ empty_jump) × (y ≡ n₂)))
          ⊎ (Jumps xs x s y ⊎ (Final xs x × (s ≡ empty_jump) × (y ≡ n₂))))
  parts-Jumps x s y =
      let c = Jumps-append (redirect n₂ ys) (redirect n₂ xs) x s y in
      let k = Jumps-redirect n₂ ys x s y in let k' = Jumps-redirect n₂ xs x s y in ground arith

  parts-Final : (x : ℕ) → Final parts x → ⊥
  parts-Final x h =
      let c = Final-append (redirect n₂ ys) (redirect n₂ xs) x in
      let k = Final-redirect n₂ ys x in let k' = Final-redirect n₂ xs x in ground arith

  first-Leaves : Leaves (Jumps ys) (Jumps whole) (Final ys) (Final whole) (Inside n n₁ n₂) n₂
  first-Leaves = record {
    jump = λ x s y i h.
        let c = parts-Jumps x s y in
        let j = first.jump_in x s y in
        let l = copy.jump_in x s y in
        let f = copy.final_in x in let g = first.grows in let g' = copy.grows in ground arith;
    no_final = λ x i h.
        let k = parts-Final x in let g = first.grows in let g' = copy.grows in ground arith;
  }

  copy-Leaves : Leaves (Jumps xs) (Jumps whole) (Final xs) (Final whole) (Inside a (suc n) n₁) n₂
  copy-Leaves = record {
    jump = λ x s y i h.
        let c = parts-Jumps x s y in
        let j = copy.jump_in x s y in
        let l = first.jump_in x s y in
        let f = first.final_in x in let g = first.grows in let g' = copy.grows in ground arith;
    no_final = λ x i h.
        let k = parts-Final x in let g = first.grows in let g' = copy.grows in ground arith;
  }

  copy-Loops :
      Loops
        (Jumps xs)
        (Jumps whole)
        (Final xs)
        (Final whole)
        (Inside a (suc n) n₁)
        (start_address xs)
        n₂
  copy-Loops = record {
    leaves = copy-Leaves;
    start_in = copy.start_in;
    back = λ s y h.
        let c = parts-Jumps n₂ s y in
        let j = copy.jump_in n₂ s y in
        let l = first.jump_in n₂ s y in
        let f = first.final_in n₂ in
        let f' = copy.final_in n₂ in let g = first.grows in let g' = copy.grows in ground arith;
  }

  start-Jumps :
      (x s y : ℕ) → x ≡ suc n₂ → Jumps whole x s y → (s ≡ empty_jump) × (y ≡ start_address ys)
  start-Jumps x s y q h =
      let c = parts-Jumps x s y in
      let j = copy.jump_in x s y in
      let l = first.jump_in x s y in
      let f = first.final_in x in
      let f' = copy.final_in x in let g = first.grows in let g' = copy.grows in ground arith

  start-Word :
      {x : ℕ} {w : List ℕ} → x ≡ suc n₂ → Accepts whole x w → Accepts whole (start_address ys) w
  start-Word {x} q (stop h e) = let k = parts-Final x in absurd (ground arith)
  start-Word {x} {w} q (empty b h d) =
      subst (λ s. Accepts whole s w) (start-Jumps x empty_jump b q h).1 d
  start-Word q (step s b v e l h d) = absurd (omega (arith, l, (start-Jumps _ _ _ q h).0))

  pub plus-Built : Built whole a n (suc (suc n₂)) (Concatenation L (Repeated L))
  plus-Built = record {
    grows = let g = copy.grows in let g' = first.grows in omega arith;
    nonempty = λ e. cc;
    start_in = let g = copy.grows in let g' = first.grows in ground arith;
    jump_in = λ x s y h.
        let c = parts-Jumps x s y in
        let j = copy.jump_in x s y in
        let l = first.jump_in x s y in
        let f = first.final_in x in
        let f' = copy.final_in x in
        let i = copy.start_in in
        let i' = first.start_in in let g = first.grows in let g' = copy.grows in ground arith;
    final_in =
        λ x h. let k = parts-Final x in let g = first.grows in let g' = copy.grows in ground arith;
    sound = λ w d.
        let (u, v, e, x, y) =
          Accepted-leave (Jumps ys) (Jumps whole) (Final ys) (Final whole) (Inside n n₁ n₂) n₂
            first-Leaves first.start_in (start-Word refl d) in
        (
          u,
          v,
          e,
          first.sound u x,
          Repeated-map copy.sound (
              Accepted-Repeated (Jumps xs) (Jumps whole) (Final xs) (Final whole)
                (Inside a (suc n) n₁) (start_address xs) n₂ copy-Loops y),
        );
    complete = λ w h.
        let (u, v, e, x, y) = h in
        empty (start_address ys) (inl (refl, inl (refl, refl))) (
          Accepted-exit (Jumps ys) (Jumps whole) (Final ys) (Final whole) n₂
            (λ x s y k. inr (inr ((parts-Jumps x s y).1 (inl (inl k)))))
            (λ x k. inr (inr ((parts-Jumps x empty_jump n₂).1 (inl (inr (k, refl, refl)))))) v w e
            (first.complete u x)
            (Repeated-Accepted (Jumps xs) (Jumps whole) (Final xs) (Final whole) (start_address xs)
              n₂ (λ x s y k. inr (inr ((parts-Jumps x s y).1 (inr (inl k)))))
              (λ x k. inr (inr ((parts-Jumps x empty_jump n₂).1 (inr (inr (k, refl, refl))))))
              (inr (inl (refl, inl (refl, refl)))) (inr (inl (refl, refl)))
              (Repeated-map copy.complete y)));
  }
