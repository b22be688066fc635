-- ===== src/Lexis/Regex/Parser.antt =====
-- src/lexis/regex/RegexParser.cpp, `parse_recursively`.
use recursive_functions.Prelude.{
  ℕ, zero, suc, List, [], ◌∷◌, ◌++◌, Bool, true, false, ◌||◌, ltb, ◌==◌, if◌then◌else◌, length,
  replicate, set,
}
use recursive_functions.Lexis.Regex.{
  RegexNode, symbol_node, concatenation_node, or_node, star_node, plus_node, empty_part,
  unmatched_parenthesis, empty_parentheses, Outcome, done, error, undefined, out_of_fuel, ◌>>=◌,
  pure, escape, opening_paren, star, plus, opening_bracket, bar, Split, found, at_end, past_end,
  get_closing_bracket, get_matching_paren, closing_paren, read_symbol, characters_count,
  parse_character_class,
}

-- What the search for a `|` at the top finds: the text before it and the text behind it.
pub data Bar : Type 0 where
  bar_at : List ℕ → List ℕ → Bar
  no_bar : Bar

abbrev pub after_text : List ℕ → Outcome Bar → Outcome Bar
after_text before (done (bar_at left right)) = done (bar_at (before ++ left) right)
after_text before (done no_bar) = done no_bar
after_text before (error e) = error e
after_text before undefined = undefined
after_text before out_of_fuel = out_of_fuel

-- The round at `(`: the iterator goes to the matching parenthesis.
abbrev pub skip_parens : Outcome Split → (List ℕ → Outcome Bar) → Outcome Bar
skip_parens (done (found inside behind)) next =
    after_text (inside ++ closing_paren ∷ []) (next behind)
skip_parens (done at_end) next = error unmatched_parenthesis
skip_parens (done past_end) next = undefined
skip_parens (error e) next = error e
skip_parens undefined next = undefined
skip_parens out_of_fuel next = out_of_fuel

-- The search; the flag is set behind an escape.
unfoldable pub find_bar : ℕ → Bool → List ℕ → Outcome Bar
find_bar fuel true [] = undefined
find_bar fuel false [] = done no_bar
find_bar zero skip (c ∷ cs) = out_of_fuel
find_bar (suc fuel) true (c ∷ cs) = after_text (c ∷ []) (find_bar fuel false cs)
find_bar (suc fuel) false (c ∷ cs) = elim (c == opening_paren) [
  | true ↦ skip_parens (get_matching_paren (c ∷ cs)) (find_bar fuel false)
  | false ↦ elim (c == bar) [
    | true ↦ done (bar_at [] cs)
    | false ↦ after_text (c ∷ []) (find_bar fuel (c == escape) cs)
  ]
]

-- The stars and pluses behind a parenthesis, and the text behind them. At the end of the text the code
-- reads the symbol behind it, which is the `|`, the `)` or the terminator there.
unfoldable pub read_postfix : RegexNode → List ℕ → RegexNode × List ℕ
read_postfix node [] = (node, [])
read_postfix node (c ∷ cs) =
    let rest = read_postfix (if c == star then star_node node else plus_node node) cs in
    if (c == star) || (c == plus) then rest else (node, c ∷ cs)

abbrev pub symbol_bits : ℕ → Outcome (List Bool)
symbol_bits symbol =
    if ltb symbol characters_count
    then done (set (replicate characters_count false) symbol true)
    else undefined

-- The text between parentheses: `get_matching_paren` was given the whole text.
abbrev pub parse_parens :
    (List ℕ → Outcome RegexNode) → Outcome Split → Outcome (RegexNode × List ℕ)
parse_parens parse (done (found [] behind)) = undefined
parse_parens parse (done (found (c ∷ []) behind)) = error empty_parentheses
parse_parens parse (done (found (c ∷ d ∷ ds) behind)) = do
  node ← parse (d ∷ ds)
  pure (read_postfix node behind)
parse_parens parse (done at_end) = error unmatched_parenthesis
parse_parens parse (done past_end) = undefined
parse_parens parse (error e) = error e
parse_parens parse undefined = undefined
parse_parens parse out_of_fuel = out_of_fuel

-- A class without its closing bracket reaches to the end, and the prefix that is removed behind it is
-- longer than the text.
abbrev pub parse_class : List ℕ → Split → Outcome (RegexNode × List ℕ)
parse_class cs (found [] behind) = undefined
parse_class cs (found (c ∷ inside) behind) = do
  node ← parse_character_class inside
  pure (node, behind)
parse_class cs at_end = do node ← parse_character_class cs; undefined
parse_class cs past_end = undefined

-- The left part, and the text behind it.
unfoldable pub parse_left : (List ℕ → Outcome RegexNode) → List ℕ → Outcome (RegexNode × List ℕ)
parse_left parse [] = error empty_part
parse_left parse (c ∷ cs) =
    if c == opening_paren
    then parse_parens parse (get_matching_paren (c ∷ cs))
    else if c == opening_bracket
    then parse_class cs (get_closing_bracket (c ∷ cs))
    else (do
      symbol ← read_symbol (c ∷ cs)
      bits ← symbol_bits symbol.0
      pure (symbol_node bits, symbol.1))

abbrev pub parse_right : (List ℕ → Outcome RegexNode) → RegexNode × List ℕ → Outcome RegexNode
parse_right parse (left, []) = done left
parse_right parse (left, c ∷ cs) = do right ← parse (c ∷ cs); pure (concatenation_node left right)

abbrev pub parse_around : (List ℕ → Outcome RegexNode) → List ℕ → Bar → Outcome RegexNode
parse_around parse text (bar_at left right) = do
  second ← parse right
  first ← parse left
  pure (or_node first second)
parse_around parse text no_bar = do left ← parse_left parse text; parse_right parse left

unfoldable pub parse_recursively : ℕ → List ℕ → Outcome RegexNode
parse_recursively zero text = out_of_fuel
parse_recursively (suc fuel) text = do
  place ← find_bar (length text) false text
  parse_around (parse_recursively fuel) text place

-- One round more than the text has symbols.
abbrev pub parse : List ℕ → Outcome RegexNode
parse text = parse_recursively (suc (length text)) text
