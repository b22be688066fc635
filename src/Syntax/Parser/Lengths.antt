-- ===== src/Syntax/Parser/Lengths.antt =====
-- The lengths of the stacks of the parser.
use recursive_functions.Prelude.{
  ℕ, zero, suc, ◌+◌, ◌-◌, ◌≡◌, ap, ◌∙◌, inl, inr, true, List, [], ◌∷◌, ◌++◌, arith, leb, length,
  Bool-cases, replicate,
}
use recursive_functions.Syntax.Parser.{drop_top, resize}

pub length-drop_top {ℓ} :
    {A : Type ℓ} (n : ℕ) (xs : List A) → length (drop_top n xs) ≡ length xs - n
length-drop_top zero xs = omega arith
length-drop_top (suc n) [] = omega arith
length-drop_top (suc n) (x ∷ xs) = length-drop_top n xs ∙ omega arith

length-replicate_append : (n : ℕ) (xs : List ℕ) → length (replicate n 0 ++ xs) ≡ n + length xs
length-replicate_append zero xs = omega arith
length-replicate_append (suc n) xs = ap suc (length-replicate_append n xs) ∙ omega arith

pub length-resize : (n : ℕ) (states : List ℕ) → length (resize n states) ≡ n
unfolding resize
length-resize n states = elim (Bool-cases (leb n (length states))) [
  | inl h ↦ rw h (length-drop_top (length states - n) states ∙ ground (arith, h))
  | inr h ↦ rw h (length-replicate_append (n - length states) states ∙ ground (arith, h))
]

pub resize-length : (n : ℕ) (states : List ℕ) → length states ≡ n → resize n states ≡ states
unfolding resize
resize-length n states e =
    let fits : leb n (length states) ≡ true = ground arith in
    let none_ : length states - n ≡ 0 = omega arith in rw fits (rw none_)
