-- ===== src/Tests/Regex.antt =====
-- Small regular expressions.
use recursive_functions.Prelude.{
  ℕ, ◌<◌, ◌≡◌, ◌≢◌, refl, List, [], ◌∷◌, Bool, true, false, not, arith, replicate, set,
}
use recursive_functions.Lexis.Regex.{
  RegexNode, symbol_node, concatenation_node, or_node, star_node, done, error, undefined,
  out_of_fuel, ◌>>=◌, unmatched_parenthesis, closing_loop, matching_loop, read_symbol, is_operator,
  characters_count, match_at, caret, escape, opening_bracket, opening_paren, closing_paren, star,
  bar, parse_character_class,
}
use recursive_functions.Lexis.Regex.Parser.{
  find_bar, read_postfix, parse_left, parse_recursively, parse,
}
use recursive_functions.Lexis.Regex.Ending.{parse_total}
use recursive_functions.Lexis.Regex.Classes.{
  IsPlain, class_text, odd_ranges, parse_character_class-class_text,
}
use recursive_functions.Lexis.Regex.Unclosed.{parse_unclosed}

abbrev letter : ℕ → RegexNode
letter c = symbol_node (set (replicate characters_count false) c true)

-- `(a|b)*c`
abbrev choice : List ℕ
choice = opening_paren ∷ 97 ∷ bar ∷ 98 ∷ closing_paren ∷ star ∷ 99 ∷ []

parse-choice :
    parse choice
    ≡ done (concatenation_node (star_node (or_node (letter 97) (letter 98))) (letter 99))
unfolding parse_recursively find_bar matching_loop closing_loop parse_left read_postfix read_symbol
    is_operator ◌>>=◌
parse-choice = refl

-- `(a`
parse_open : parse (opening_paren ∷ 97 ∷ []) ≡ error unmatched_parenthesis
unfolding parse_recursively find_bar matching_loop ◌>>=◌
parse_open = refl

-- `a` and an escape behind it
parse-escape : parse (97 ∷ escape ∷ []) ≡ undefined
unfolding parse_recursively find_bar ◌>>=◌
parse-escape = refl

parse_total_example : parse choice ≢ out_of_fuel
parse_total_example = parse_total choice

letter-IsPlain : (c : ℕ) → 96 < c → c < 123 → IsPlain c
unfolding is_operator
letter-IsPlain c h k = record {
  not_operator = ground arith;
  not_escape = λ e. absurd (omega arith);
  in_charset = omega arith;
}

-- `a-z` and `e-e`
parse_character_class-class_text_example :
    (bits : List Bool) × (negated : List Bool) × (parse_character_class
        (class_text ((97, 122) ∷ (101, 101) ∷ []))
      ≡ done (symbol_node bits))
    × (parse_character_class (caret ∷ class_text ((97, 122) ∷ (101, 101) ∷ []))
        ≡ done (symbol_node negated))
    × ((i : ℕ)
        → i < characters_count
        → (match_at bits i ≡ odd_ranges i ((97, 122) ∷ (101, 101) ∷ []))
          × (match_at negated i ≡ not (odd_ranges i ((97, 122) ∷ (101, 101) ∷ []))))
parse_character_class-class_text_example =
    parse_character_class-class_text (97, 122) ((101, 101) ∷ [])
      (
        (
          letter-IsPlain 97 (omega arith) (omega arith),
          letter-IsPlain 122 (omega arith) (omega arith),
        ),
        (
          (
            letter-IsPlain 101 (omega arith) (omega arith),
            letter-IsPlain 101 (omega arith) (omega arith),
          ),
          tt,
        ),
      )

parse_unclosed_example : parse (opening_bracket ∷ 97 ∷ 98 ∷ []) ≡ undefined
parse_unclosed_example = parse_unclosed 97 (98 ∷ []) (
  letter-IsPlain 97 (omega arith) (omega arith),
  (letter-IsPlain 98 (omega arith) (omega arith), tt),
)
