-- ===== src/Lexis/Regex.antt =====
-- src/lexis/regex/{RegexParser.cpp,RegexNodes.h}: regular expressions and the parser of their text. A
-- text is a list of bytes, and an iterator splits it. The library is silent on what a read behind the
-- end gives; that is `undefined`.
pub mod Parser
pub mod Splitting
pub mod Ending
pub mod Classes
pub mod Unclosed
use recursive_functions.Prelude.{
  ℕ, zero, suc, ◌+◌, ◌-◌, List, [], ◌∷◌, ◌++◌, Bool, true, false, not, ◌&&◌, ◌||◌, ltb, ◌==◌,
  if◌then◌else◌, length, replicate, set,
}
pub use recursive_functions.Lexis.Jump.{characters_count}

pub data RegexNode : Type 0 where
  symbol_node : List Bool → RegexNode
  concatenation_node : RegexNode → RegexNode → RegexNode
  or_node : RegexNode → RegexNode → RegexNode
  star_node : RegexNode → RegexNode
  plus_node : RegexNode → RegexNode

-- The exceptions of the parser.
pub data RegexError : Type 0 where
  empty_class : RegexError
  nothing_after_hyphen : RegexError
  empty_part : RegexError
  unmatched_parenthesis : RegexError
  empty_parentheses : RegexError
  missing_symbol : RegexError
  operator_symbol : RegexError
  nothing_after_escape : RegexError

pub data Outcome {ℓ} (A : Type ℓ) : Type ℓ where
  done : A → Outcome A
  error : RegexError → Outcome A
  undefined : Outcome A
  out_of_fuel : Outcome A

infixl 6 ◌>>=◌
unfoldable pub ◌>>=◌ {ℓ κ} : {A : Type ℓ} {B : Type κ} → Outcome A → (A → Outcome B) → Outcome B
out_of_fuel >>= next = out_of_fuel
undefined >>= next = undefined
error e >>= next = error e
done result >>= next = next result

abbrev pub pure {ℓ} : {A : Type ℓ} → A → Outcome A
pure = done

-- `\`
abbrev pub escape : ℕ
escape = 92

abbrev pub opening_paren : ℕ
opening_paren = 40

abbrev pub closing_paren : ℕ
closing_paren = 41

abbrev pub star : ℕ
star = 42

abbrev pub plus : ℕ
plus = 43

abbrev pub hyphen : ℕ
hyphen = 45

abbrev pub opening_bracket : ℕ
opening_bracket = 91

abbrev pub closing_bracket : ℕ
closing_bracket = 93

abbrev pub caret : ℕ
caret = 94

abbrev pub bar : ℕ
bar = 124

unfoldable pub is_operator : ℕ → Bool
is_operator symbol =
    (symbol == plus)
    || (symbol == star)
    || (symbol == bar)
    || (symbol == opening_bracket)
    || (symbol == closing_bracket)
    || (symbol == opening_paren)
    || (symbol == closing_paren)
    || (symbol == hyphen)
    || (symbol == caret)

-- An iterator that a search returns: the text before it and the text behind its symbol, the end, or a
-- place behind the end, where the loop goes on.
pub data Split : Type 0 where
  found : List ℕ → List ℕ → Split
  at_end : Split
  past_end : Split

abbrev pub prepend : ℕ → Split → Split
prepend c (found before behind) = found (c ∷ before) behind
prepend c at_end = at_end
prepend c past_end = past_end

abbrev pub prepend_all : List ℕ → Split → Split
prepend_all [] split = split
prepend_all (c ∷ cs) split = prepend c (prepend_all cs split)

-- The loop of `get_closing_bracket`; the flag is set behind an escape.
unfoldable pub closing_loop : Bool → List ℕ → Split
closing_loop true [] = past_end
closing_loop true (c ∷ cs) = prepend c (closing_loop false cs)
closing_loop false [] = at_end
closing_loop false (c ∷ cs) =
    let rest = closing_loop (c == escape) cs in
    if c == closing_bracket then found [] cs else prepend c rest

abbrev pub get_closing_bracket : List ℕ → Split
get_closing_bracket = closing_loop false

-- What a round of `get_matching_paren` leaves: the balance, and where the iterator stands.
abbrev pub balance_after : ℕ → ℕ → ℕ
balance_after symbol balance =
    if symbol == opening_paren
    then balance + 1
    else if symbol == closing_paren
    then balance - 1
    else balance

abbrev pub prepended : List ℕ → Outcome Split → Outcome Split
prepended before (done split) = done (prepend_all before split)
prepended before (error e) = error e
prepended before undefined = undefined
prepended before out_of_fuel = out_of_fuel

-- The round at `[`: the iterator goes to the closing bracket, and the loop goes on behind it.
abbrev pub skip_class : Split → ℕ → (List ℕ → Outcome Split) → Outcome Split
skip_class past_end balance next = done past_end
skip_class at_end balance next = done (if balance == 0 then at_end else past_end)
skip_class (found inside behind) balance next =
    if balance == 0
    then done (found inside behind)
    else prepended (inside ++ closing_bracket ∷ []) (next behind)

-- The loop of `get_matching_paren`; the flag is set behind an escape. Its calls start at an opening
-- parenthesis, so that the balance is positive at every other symbol.
unfoldable pub matching_loop : ℕ → Bool → ℕ → List ℕ → Outcome Split
matching_loop fuel true balance [] = done past_end
matching_loop fuel false balance [] = done at_end
matching_loop zero skip balance (c ∷ cs) = out_of_fuel
matching_loop (suc fuel) true balance (c ∷ cs) =
    prepended (c ∷ []) (matching_loop fuel false balance cs)
matching_loop (suc fuel) false balance (c ∷ cs) = elim (c == opening_bracket) [
  | true ↦ skip_class (get_closing_bracket (c ∷ cs)) balance (matching_loop fuel false balance)
  | false ↦ elim (not (c == escape) && (balance_after c balance == 0)) [
    | true ↦ done (found [] cs)
    | false ↦ prepended (c ∷ []) (matching_loop fuel (c == escape) (balance_after c balance) cs)
  ]
]

abbrev pub get_matching_paren : List ℕ → Outcome Split
get_matching_paren text = matching_loop (length text) false 0 text

-- A symbol, and the text behind it.
unfoldable pub read_symbol : List ℕ → Outcome (ℕ × List ℕ)
read_symbol [] = error missing_symbol
read_symbol (c ∷ cs) =
    if is_operator c
    then error operator_symbol
    else if c == escape
    then escaped cs
    else done (c, cs)
  where
    escaped : List ℕ → Outcome (ℕ × List ℕ)
    escaped [] = error nothing_after_escape
    escaped (d ∷ ds) = done (d, ds)

-- The last symbol of a range that starts with `begin`.
unfoldable pub read_end : ℕ → List ℕ → Outcome (ℕ × List ℕ)
read_end begin [] = done (begin, [])
read_end begin (c ∷ []) = if c == hyphen then error nothing_after_hyphen else done (begin, c ∷ [])
read_end begin (c ∷ d ∷ ds) = if c == hyphen then read_symbol (d ∷ ds) else done (begin, c ∷ d ∷ ds)

-- The `while` that reads the ranges.
unfoldable pub read_ranges : ℕ → List ℕ → Outcome (List (ℕ × ℕ))
read_ranges fuel [] = done []
read_ranges zero (c ∷ cs) = out_of_fuel
read_ranges (suc fuel) (c ∷ cs) = do
  begin ← read_symbol (c ∷ cs)
  end ← read_end begin.0 begin.1
  ranges ← read_ranges fuel end.1
  pure ((begin.0, end.0) ∷ ranges)

abbrev pub match_at : List Bool → ℕ → Bool
match_at [] i = false
match_at (b ∷ bits) zero = b
match_at (b ∷ bits) (suc i) = match_at bits i

-- `result[i].flip()` for `count` indices from `i` on.
abbrev pub flip_from : ℕ → ℕ → List Bool → List Bool
flip_from i zero bits = bits
flip_from i (suc count) bits = flip_from (i + 1) count (set bits i (not (match_at bits i)))

-- A range whose last symbol is before its first flips nothing; one that ends behind the characters
-- writes out of bounds. A byte from 128 on is a negative `char`, and a large index: the order of two
-- of them is that of the bytes.
abbrev pub flip_ranges : List (ℕ × ℕ) → List Bool → Outcome (List Bool)
flip_ranges [] bits = done bits
flip_ranges ((from, to) ∷ ranges) bits =
    if ltb to from
    then flip_ranges ranges bits
    else if ltb to characters_count
    then flip_ranges ranges (flip_from from (to + 1 - from) bits)
    else undefined

abbrev pub class_of : Bool → List ℕ → Outcome RegexNode
class_of negated text = do
  ranges ← read_ranges (length text) text
  bits ← flip_ranges ranges (replicate characters_count negated)
  pure (symbol_node bits)

unfoldable pub parse_character_class : List ℕ → Outcome RegexNode
parse_character_class [] = error empty_class
parse_character_class (c ∷ cs) = if c == caret then class_of true cs else class_of false (c ∷ cs)
