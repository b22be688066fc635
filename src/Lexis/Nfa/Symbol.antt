-- ===== src/Lexis/Nfa/Symbol.antt =====
-- The visits of a symbol and of a choice.
use recursive_functions.Prelude.{
  ℕ, suc, ◌≡◌, ◌≢◌, ◌<◌, inl, inr, List, [], ◌∷◌, ◌++◌, Bool, true, false, refl, arith, ap, ◌∙◌,
}
use recursive_functions.Lexis.Jump.{characters_count}
use recursive_functions.Lexis.Regex.{match_at}
use recursive_functions.Lexis.Nfa.{NfaNode, symbol_jumps}
use recursive_functions.Lexis.Nfa.Run.{Jumps, Final, Accepts, stop, empty, step}
use recursive_functions.Lexis.Nfa.Nodes.{HasJump-symbol_jumps, HasJump-append}
use recursive_functions.Lexis.Nfa.Built.{Built}

module _ (match : List Bool) (a n : ℕ) (before : a < n) where
  abbrev whole : List NfaNode
  whole =
      record {
        address = a;
        is_final = false;
        jumps = symbol_jumps characters_count 0 match n ++ [];
      }
      ∷ record { address = n; is_final = true; jumps = [] }
      ∷ []

  abbrev Word : List ℕ → Type 0
  Word w = (c : ℕ) × (w ≡ c ∷ []) × (c ≢ 0) × (c < characters_count) × (match_at match c ≡ true)

  whole-Jumps :
      (x s y : ℕ)
      → Jumps whole x s y
      → (x ≡ a) × (y ≡ n) × (s ≢ 0) × (s < characters_count) × (match_at match s ≡ true)
  whole-Jumps x s y h =
      let c = HasJump-append (symbol_jumps characters_count 0 match n) [] s y in
      let k = HasJump-symbol_jumps characters_count 0 match n s y in ground arith

  whole-Final : (x : ℕ) → Final whole x → x ≡ n
  whole-Final x h = ground arith

  end-Word : {x : ℕ} {w : List ℕ} → x ≡ n → Accepts whole x w → w ≡ []
  end-Word q (stop h e) = e
  end-Word q (empty b h d) = let k = whole-Jumps _ _ _ h in absurd (omega (arith, k.0, q, before))
  end-Word q (step s b v e l h d) =
      let k = whole-Jumps _ _ _ h in absurd (omega (arith, k.0, q, before))

  start-Word : {x : ℕ} {w : List ℕ} → x ≡ a → Accepts whole x w → Word w
  start-Word q (stop h e) = absurd (omega (arith, whole-Final _ h, q, before))
  start-Word q (empty b h d) = let k = whole-Jumps _ _ _ h in absurd (omega (arith, k))
  start-Word q (step s b v e l h d) =
      let (_, to_end, nonzero, _, matches) = whole-Jumps _ _ _ h in
      (s, e ∙ ap (λ r. s ∷ r) (end-Word to_end d), nonzero, l, matches)

  pub symbol-Built : Built whole a n (suc n) Word
  symbol-Built = record {
    grows = omega arith;
    nonempty = λ e. cc;
    start_in = inl refl;
    jump_in = λ x s y h. let k = whole-Jumps x s y h in ground arith;
    final_in = λ x h. let k = whole-Final x h in ground arith;
    sound = λ w d. start-Word refl d;
    complete = λ w h.
        let (c, e, nonzero, small, matches) = h in
        step c n [] e small
          (inl (
            refl,
            (HasJump-append (symbol_jumps characters_count 0 match n) [] c n).1 (
                inl (
                  (HasJump-symbol_jumps characters_count 0 match n c n).1
                    (nonzero, omega arith, small, matches, refl))),
          ))
          (stop (inr (inl (refl, refl))) refl);
  }
