-- ===== src/Lexis/Subset/Expression.antt =====
-- `FiniteAutomata(regex)`: from a regular expression to its deterministic automaton.
use recursive_functions.Prelude.{ℕ, ◌^◌, ◌≡◌, ◌↔◌, List, true, Option, some, length}
use recursive_functions.Lexis.Automaton.{Node}
use recursive_functions.Lexis.Regex.{RegexNode}
use recursive_functions.Lexis.Nfa.{from_regex}
use recursive_functions.Lexis.Nfa.Words.{Matches}
use recursive_functions.Lexis.Nfa.Language.{from_regex-Matches}
use recursive_functions.Lexis.EmptyJumps.Graph.{from_regex-IsGraph}
use recursive_functions.Lexis.Subset.{determinize}
use recursive_functions.Lexis.Subset.Language.{accepts, determinize-accepts}

-- The automaton of a regular expression, on as many rounds as the sets of its nodes.
unfoldable pub from_expression : RegexNode → Option (List Node)
unfolding determinize from_regex
from_expression root = determinize (2 ^ length (from_regex root)) (from_regex root)

-- The construction of the deterministic automaton of a regular expression ends, and the automaton accepts
-- exactly the words of the expression.
pub from_expression-Matches :
    (root : RegexNode)
    → (nodes : List Node) × (from_expression root ≡ some nodes)
      × ((w : List ℕ) → (accepts nodes 0 w ≡ true) ↔ Matches root w)
unfolding from_expression
from_expression-Matches root =
    let (graph, start) = from_regex-IsGraph root in
    let (nodes, e, same) = determinize-accepts (from_regex root) graph start in
    (
      nodes,
      e,
      λ w.
          let a = same w in
          let m = from_regex-Matches root w in (λ h. m.0 (a.0 h), λ h. a.1 (m.1 h)),
    )
