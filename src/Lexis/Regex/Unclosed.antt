-- ===== src/Lexis/Regex/Unclosed.antt =====
-- src/lexis/regex/RegexParser.cpp: a class without its closing bracket, and an escape at the end.
use recursive_functions.Prelude.{
  ℕ, zero, suc, ◌≤◌, ◌≡◌, refl, ap, ◌∙◌, List, [], ◌∷◌, false, ◌==◌, length, replicate, arith, All,
  length-replicate,
}
use recursive_functions.Lexis.Regex.{
  prepend, RegexNode, symbol_node, Outcome, done, undefined, ◌>>=◌, escape, hyphen, opening_paren,
  opening_bracket, closing_bracket, bar, at_end, closing_loop, get_closing_bracket, read_end,
  read_ranges, is_operator, characters_count, parse_character_class,
}
use recursive_functions.Lexis.Regex.Parser.{
  no_bar, after_text, find_bar, parse_class, parse_left, parse_right, parse_around,
  parse_recursively, parse,
}
use recursive_functions.Lexis.Regex.Classes.{
  IsPlain, read_symbol_plain, flip_ranges-odd_ranges, RangeIsPlain, plain_ne_caret,
}

-- Every symbol as a range of its own.
abbrev singles : List ℕ → List (ℕ × ℕ)
singles [] = []
singles (c ∷ cs) = (c, c) ∷ singles cs

plain_facts :
    (c : ℕ)
    → IsPlain c
    → ((c == hyphen) ≡ false)
      × ((c == closing_bracket) ≡ false)
      × ((c == opening_paren) ≡ false)
      × ((c == bar) ≡ false)
      × ((c == escape) ≡ false)
unfolding is_operator
plain_facts c p =
    let a = p.not_operator in
    let b = p.not_escape in (ground arith, ground arith, ground arith, ground arith, ground arith)

read_end_single : (c : ℕ) (cs : List ℕ) → All IsPlain cs → read_end c cs ≡ done (c, cs)
unfolding read_end
read_end_single c [] p = refl
read_end_single c (d ∷ []) (p, q) = rw (plain_facts d p).0 refl
read_end_single c (d ∷ e ∷ es) (p, q) = rw (plain_facts d p).0 refl

read_ranges-singles :
    (fuel : ℕ) (cs : List ℕ)
    → All IsPlain cs
    → length cs ≤ fuel
    → read_ranges fuel cs ≡ done (singles cs)
unfolding read_ranges ◌>>=◌
read_ranges-singles fuel [] p h = refl
read_ranges-singles zero (c ∷ cs) p h = absurd (omega arith)
read_ranges-singles (suc fuel) (c ∷ cs) (p, q) h =
    rw
      (
        read_symbol_plain c cs p,
        read_end_single c cs q,
        read_ranges-singles fuel cs q (omega arith),
      )
      refl

singles-RangeIsPlain : (cs : List ℕ) → All IsPlain cs → All RangeIsPlain (singles cs)
singles-RangeIsPlain [] p = tt
singles-RangeIsPlain (c ∷ cs) (p, q) = ((p, p), singles-RangeIsPlain cs q)

parse_character_class_singles :
    (c : ℕ) (cs : List ℕ)
    → All IsPlain (c ∷ cs)
    → (node : RegexNode) × (parse_character_class (c ∷ cs) ≡ done node)
unfolding parse_character_class ◌>>=◌
parse_character_class_singles c cs p =
    let (bits, e, size, tested) =
      flip_ranges-odd_ranges (singles (c ∷ cs)) (replicate characters_count false)
        (singles-RangeIsPlain (c ∷ cs) p) (length-replicate characters_count false) in
    (
      symbol_node bits,
      rw (plain_ne_caret c p.0, read_ranges-singles (length (c ∷ cs)) (c ∷ cs) p (omega arith), e)
          refl,
    )

closing_loop_plain : (cs : List ℕ) → All IsPlain cs → closing_loop false cs ≡ at_end
unfolding closing_loop
closing_loop_plain [] p = refl
closing_loop_plain (c ∷ cs) (p, q) =
    let (a, b, d, e, f) = plain_facts c p in rw (b, f, closing_loop_plain cs q) refl

find_bar_step :
    (fuel c : ℕ) (cs : List ℕ)
    → (c == opening_paren) ≡ false
    → (c == bar) ≡ false
    → (c == escape) ≡ false
    → find_bar (suc fuel) false (c ∷ cs) ≡ after_text (c ∷ []) (find_bar fuel false cs)
unfolding find_bar
find_bar_step fuel c cs d e f =
    rw (find_bar, d, e) (ap (λ skip. after_text (c ∷ []) (find_bar fuel skip cs)) f)

find_bar_plain :
    (fuel : ℕ) (cs : List ℕ)
    → All IsPlain cs
    → length cs ≤ fuel
    → find_bar fuel false cs ≡ done no_bar
unfolding find_bar
find_bar_plain fuel [] p h = refl
find_bar_plain zero (c ∷ cs) p h = absurd (omega arith)
find_bar_plain (suc fuel) (c ∷ cs) (p, q) h =
    let (a, b, d, e, f) = plain_facts c p in
    find_bar_step fuel c cs d e f
    ∙ ap (after_text (c ∷ [])) (find_bar_plain fuel cs q (omega arith))

get_closing_bracket_plain :
    (cs : List ℕ) → All IsPlain cs → get_closing_bracket (opening_bracket ∷ cs) ≡ at_end
unfolding closing_loop
get_closing_bracket_plain cs p = ap (prepend opening_bracket) (closing_loop_plain cs p)

parse_left_unclosed :
    (rec : List ℕ → Outcome RegexNode) (c : ℕ) (cs : List ℕ)
    → All IsPlain (c ∷ cs)
    → parse_left rec (opening_bracket ∷ c ∷ cs) ≡ undefined
unfolding parse_left ◌>>=◌
parse_left_unclosed rec c cs p =
    let (node, e) = parse_character_class_singles c cs p in
    ap (parse_class (c ∷ cs)) (get_closing_bracket_plain (c ∷ cs) p)
    ∙ ap (λ o. o >>= λ node. undefined) e

-- A class of plain symbols that is not closed ends in undefined behaviour: the parser reads the symbols
-- as a class, and then removes one symbol more than the text has.
pub parse_unclosed :
    (c : ℕ) (cs : List ℕ) → All IsPlain (c ∷ cs) → parse (opening_bracket ∷ c ∷ cs) ≡ undefined
unfolding parse_recursively ◌>>=◌
parse_unclosed c cs p =
    let text = opening_bracket ∷ c ∷ cs in
    let rec = parse_recursively (length text) in
    ap (λ o. o >>= parse_around rec text)
      (find_bar_step (length (c ∷ cs)) opening_bracket (c ∷ cs) refl refl refl
        ∙ ap (after_text (opening_bracket ∷ []))
            (find_bar_plain (length (c ∷ cs)) (c ∷ cs) p (omega arith)))
    ∙ ap (λ o. o >>= parse_right rec) (parse_left_unclosed rec c cs p)
