-- ===== src/Lexis/Nfa/Language.antt =====
-- The automaton of a regular expression accepts the words of the expression.
use recursive_functions.Prelude.{ℕ, suc, ◌↔◌, ◌<◌, List, arith}
use recursive_functions.Lexis.Regex.{
  RegexNode, symbol_node, concatenation_node, or_node, star_node, plus_node,
}
use recursive_functions.Lexis.Nfa.{fresh, visit, from_regex, start_address}
use recursive_functions.Lexis.Nfa.Run.{Accepts}
use recursive_functions.Lexis.Nfa.Words.{Matches}
use recursive_functions.Lexis.Nfa.Built.{Built}
use recursive_functions.Lexis.Nfa.Symbol.{symbol-Built}
use recursive_functions.Lexis.Nfa.Sequence.{Concatenation-Built}
use recursive_functions.Lexis.Nfa.Alternative.{choice-Built}
use recursive_functions.Lexis.Nfa.Loop.{star-Built}
use recursive_functions.Lexis.Nfa.Again.{plus-Built}

pub visit-Built :
    (root : RegexNode) (a n : ℕ)
    → a < n
    → let after = visit root (fresh a) n in Built after.0 a n after.1 (Matches root)
unfolding visit
visit-Built (symbol_node match) a n h = symbol-Built match a n h
visit-Built (concatenation_node left right) a n h =
    let l = visit-Built left a (suc n) (omega (arith, h)) in
    let r = visit-Built right n _ (omega (arith, l.grows)) in
    Concatenation-Built (Matches left) (Matches right) _ _ a n _ _ h l r
visit-Built (or_node left right) a n h =
    let l = visit-Built left a (suc n) (omega (arith, h)) in
    let r = visit-Built right n _ (omega (arith, l.grows)) in
    choice-Built (Matches left) (Matches right) _ _ a n _ _ h l r
visit-Built (star_node child) a n h = star-Built (Matches child) _ a n _ h (visit-Built child a n h)
visit-Built (plus_node child) a n h =
    let l = visit-Built child a (suc n) (omega (arith, h)) in
    let r = visit-Built child n _ (omega (arith, l.grows)) in
    plus-Built (Matches child) _ _ a n _ _ h l r

-- The nondeterministic automaton that the visitor builds from a regular expression accepts exactly the
-- words of the expression, in which no symbol is 0, the end of the file: a run from its start node to a
-- final node, with empty jumps, reads the word.
pub from_regex-Matches :
    (root : RegexNode) (w : List ℕ)
    → Accepts (from_regex root) (start_address (from_regex root)) w ↔ Matches root w
unfolding from_regex
from_regex-Matches root w =
    let built = visit-Built root 0 1 (omega arith) in (built.sound w, built.complete w)
