-- ===== src/Lexis/Regex/Ending.antt =====
-- src/lexis/regex/RegexParser.cpp: the parser ends.
use recursive_functions.Prelude.{
  ℕ, zero, suc, ◌+◌, ◌≤◌, ◌<◌, ◌≡◌, ◌≢◌, subst, List, [], ◌∷◌, ◌++◌, Bool, true, false, ltb, ◌==◌,
  if◌then◌else◌, length, replicate, set, arith, length-append,
}
use recursive_functions.Lexis.Regex.{
  RegexNode, symbol_node, concatenation_node, or_node, star_node, plus_node, Outcome, done, error,
  undefined, out_of_fuel, ◌>>=◌, escape, opening_paren, closing_paren, star, opening_bracket, bar,
  Split, found, at_end, past_end, get_closing_bracket, get_matching_paren, read_symbol,
  characters_count, parse_character_class,
}
use recursive_functions.Lexis.Regex.Parser.{
  Bar, bar_at, no_bar, after_text, skip_parens, find_bar, read_postfix, symbol_bits, parse_parens,
  parse_class, parse_left, parse_right, parse_around, parse_recursively, parse,
}
use recursive_functions.Lexis.Regex.Splitting.{
  Holds, Holds-bind, Holds-if, Holds-cases, Splits, Leaves, closing_loop-Splits,
  get_matching_paren-Splits, read_symbol-Leaves, parse_character_class_total,
}

abbrev BarSplits : ℕ → Bar → Type 0
BarSplits n (bar_at left right) = length left + suc (length right) ≡ n
BarSplits n no_bar = Unit

after_text-BarSplits :
    (n : ℕ) (before : List ℕ) (o : Outcome Bar)
    → Holds (BarSplits n) o
    → Holds (BarSplits (length before + n)) (after_text before o)
after_text-BarSplits n before (done (bar_at left right)) h =
    omega (arith, length-append before left, h)
after_text-BarSplits n before (done no_bar) h = tt
after_text-BarSplits n before (error e) h = tt
after_text-BarSplits n before undefined h = tt
after_text-BarSplits n before out_of_fuel h = elim h [ ]

after_text-BarSplits_one :
    (n c : ℕ) (o : Outcome Bar)
    → Holds (BarSplits n) o
    → Holds (BarSplits (suc n)) (after_text (c ∷ []) o)
after_text-BarSplits_one n c o h =
    subst (λ m. Holds (BarSplits m) (after_text (c ∷ []) o)) (omega arith)
      (after_text-BarSplits n (c ∷ []) o h)

skip_parens-BarSplits :
    (n : ℕ) (o : Outcome Split) (next : List ℕ → Outcome Bar)
    → Holds (Splits n) o
    → ((behind : List ℕ) → length behind < n → Holds (BarSplits (length behind)) (next behind))
    → Holds (BarSplits n) (skip_parens o next)
skip_parens-BarSplits n (done (found inside behind)) next h k =
    subst (λ m. Holds (BarSplits m) (after_text (inside ++ closing_paren ∷ []) (next behind)))
      (omega (arith, length-append inside (closing_paren ∷ []), h))
      (after_text-BarSplits (length behind) (inside ++ closing_paren ∷ []) (next behind)
        (k behind (omega arith)))
skip_parens-BarSplits n (done at_end) next h k = tt
skip_parens-BarSplits n (done past_end) next h k = tt
skip_parens-BarSplits n (error e) next h k = tt
skip_parens-BarSplits n undefined next h k = tt
skip_parens-BarSplits n out_of_fuel next h k = elim h [ ]

find_bar-BarSplits :
    (fuel : ℕ) (skip : Bool) (text : List ℕ)
    → length text ≤ fuel
    → Holds (BarSplits (length text)) (find_bar fuel skip text)
unfolding find_bar
find_bar-BarSplits fuel true [] h = tt
find_bar-BarSplits fuel false [] h = tt
find_bar-BarSplits zero skip (c ∷ cs) h = absurd (omega arith)
find_bar-BarSplits (suc fuel) true (c ∷ cs) h =
    after_text-BarSplits_one (length cs) c (find_bar fuel false cs)
      (find_bar-BarSplits fuel false cs (omega arith))
find_bar-BarSplits (suc fuel) false (c ∷ cs) h =
    let rest = after_text (c ∷ []) (find_bar fuel (c == escape) cs) in
    Holds-cases (BarSplits (length (c ∷ cs))) (c == opening_paren)
      (skip_parens (get_matching_paren (c ∷ cs)) (find_bar fuel false))
      (elim (c == bar) [ true ↦ done (bar_at [] cs) | false ↦ rest ])
      (λ e.
        skip_parens-BarSplits (length (c ∷ cs)) (get_matching_paren (c ∷ cs)) (find_bar fuel false)
          (get_matching_paren-Splits (c ∷ cs))
          (λ behind l. find_bar-BarSplits fuel false behind (omega arith)))
      (λ e.
        Holds-cases (BarSplits (length (c ∷ cs))) (c == bar) (done (bar_at [] cs)) rest
          (λ f. omega arith)
          (λ f.
            after_text-BarSplits_one (length cs) c (find_bar fuel (c == escape) cs)
              (find_bar-BarSplits fuel (c == escape) cs (omega arith))))

read_postfix_le :
    (node : RegexNode) (text : List ℕ) → length (read_postfix node text).1 ≤ length text
unfolding read_postfix
read_postfix_le node [] = omega arith
read_postfix_le node (c ∷ cs) =
    let r = read_postfix_le (if c == star then star_node node else plus_node node) cs in
    ground arith

-- The parser that the rounds call ends on shorter texts.
abbrev EndsBelow : ℕ → (List ℕ → Outcome RegexNode) → Type 0
EndsBelow n parse = (text : List ℕ) → length text < n → Holds (λ node. Unit) (parse text)

parse_parens-Leaves :
    (n : ℕ) (parse : List ℕ → Outcome RegexNode) (o : Outcome Split)
    → EndsBelow n parse
    → Holds (Splits n) o
    → Holds (Leaves n) (parse_parens parse o)
parse_parens-Leaves n parse (done (found [] behind)) k h = tt
parse_parens-Leaves n parse (done (found (c ∷ []) behind)) k h = tt
parse_parens-Leaves n parse (done (found (c ∷ d ∷ ds) behind)) k h =
    Holds-bind (λ node. Unit) (Leaves n) (parse (d ∷ ds)) (λ node. done (read_postfix node behind))
      (k (d ∷ ds) (omega arith)) (λ node u. omega (arith, read_postfix_le node behind, h))
parse_parens-Leaves n parse (done at_end) k h = tt
parse_parens-Leaves n parse (done past_end) k h = tt
parse_parens-Leaves n parse (error e) k h = tt
parse_parens-Leaves n parse undefined k h = tt
parse_parens-Leaves n parse out_of_fuel k h = elim h [ ]

parse_class-Leaves :
    (n : ℕ) (cs : List ℕ) (s : Split) → Splits n s → Holds (Leaves n) (parse_class cs s)
parse_class-Leaves n cs (found [] behind) h = tt
parse_class-Leaves n cs (found (c ∷ inside) behind) h =
    Holds-bind (λ node. Unit) (Leaves n) (parse_character_class inside)
      (λ node. done (node, behind)) (parse_character_class_total inside) (λ node u. omega arith)
parse_class-Leaves n cs at_end h =
    Holds-bind (λ node. Unit) (Leaves n) (parse_character_class cs) (λ node. undefined)
      (parse_character_class_total cs) (λ node u. tt)
parse_class-Leaves n cs past_end h = tt

symbol_bits_total : (symbol : ℕ) → Holds (λ bits. Unit) (symbol_bits symbol)
symbol_bits_total symbol =
    Holds-if (λ bits. Unit) (ltb symbol characters_count)
      (done (set (replicate characters_count false) symbol true)) undefined (λ e. tt) (λ e. tt)

parse_left-Leaves :
    (parse : List ℕ → Outcome RegexNode) (text : List ℕ)
    → EndsBelow (length text) parse
    → Holds (Leaves (length text)) (parse_left parse text)
unfolding parse_left
parse_left-Leaves parse [] k = tt
parse_left-Leaves parse (c ∷ cs) k =
    let n = length (c ∷ cs) in
    let plain = read_symbol (c ∷ cs) >>= λ symbol.
    symbol_bits symbol.0 >>= λ bits. done (symbol_node bits, symbol.1) in
    let brackets = parse_class cs (get_closing_bracket (c ∷ cs)) in
    Holds-if (Leaves n) (c == opening_paren) (parse_parens parse (get_matching_paren (c ∷ cs)))
      (if c == opening_bracket then brackets else plain)
      (λ e.
        parse_parens-Leaves n parse (get_matching_paren (c ∷ cs)) k
          (get_matching_paren-Splits (c ∷ cs)))
      (λ e.
        Holds-if (Leaves n) (c == opening_bracket) brackets plain
          (λ f.
            parse_class-Leaves n cs (get_closing_bracket (c ∷ cs))
              (closing_loop-Splits false (c ∷ cs)))
          (λ f.
            Holds-bind (Leaves n) (Leaves n) (read_symbol (c ∷ cs))
              (λ symbol. symbol_bits symbol.0 >>= λ bits. done (symbol_node bits, symbol.1))
              (read_symbol-Leaves (c ∷ cs))
              (λ symbol l.
                Holds-bind (λ bits. Unit) (Leaves n) (symbol_bits symbol.0)
                  (λ bits. done (symbol_node bits, symbol.1)) (symbol_bits_total symbol.0)
                  (λ bits u. l))))

parse_right_total :
    (n : ℕ) (parse : List ℕ → Outcome RegexNode) (left : RegexNode × List ℕ)
    → EndsBelow n parse
    → Leaves n left
    → Holds (λ node. Unit) (parse_right parse left)
parse_right_total n parse (left, []) k l = tt
parse_right_total n parse (left, c ∷ cs) k l =
    Holds-bind (λ node. Unit) (λ node. Unit) (parse (c ∷ cs))
      (λ right. done (concatenation_node left right)) (k (c ∷ cs) l) (λ right u. tt)

parse_around_total :
    (parse : List ℕ → Outcome RegexNode) (text : List ℕ) (place : Bar)
    → EndsBelow (length text) parse
    → BarSplits (length text) place
    → Holds (λ node. Unit) (parse_around parse text place)
parse_around_total parse text (bar_at left right) k h =
    Holds-bind (λ node. Unit) (λ node. Unit) (parse right)
      (λ second. parse left >>= λ first. done (or_node first second)) (k right (omega arith))
      (λ second u.
        Holds-bind (λ node. Unit) (λ node. Unit) (parse left) (λ first. done (or_node first second))
          (k left (omega arith)) (λ first v. tt))
parse_around_total parse text no_bar k h =
    Holds-bind (Leaves (length text)) (λ node. Unit) (parse_left parse text) (parse_right parse)
      (parse_left-Leaves parse text k) (λ left l. parse_right_total (length text) parse left k l)

parse_recursively_total :
    (fuel : ℕ) (text : List ℕ)
    → length text < fuel
    → Holds (λ node. Unit) (parse_recursively fuel text)
unfolding parse_recursively
parse_recursively_total zero text h = absurd (omega arith)
parse_recursively_total (suc fuel) text h =
    Holds-bind (BarSplits (length text)) (λ node. Unit) (find_bar (length text) false text)
      (parse_around (parse_recursively fuel) text)
      (find_bar-BarSplits (length text) false text (omega arith))
      (λ place b.
        parse_around_total (parse_recursively fuel) text place
          (λ shorter l. parse_recursively_total fuel shorter (omega arith)) b)

-- The parser ends on every text: a round for each symbol and one more are enough.
pub parse_total : (text : List ℕ) → parse text ≢ out_of_fuel
parse_total text e =
    subst (Holds (λ node. Unit)) e (parse_recursively_total (suc (length text)) text (omega arith))
