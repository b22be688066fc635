-- ===== src/Lexis/Minimal/Expression.antt =====
-- From a regular expression to its minimal automaton, `FiniteAutomata(regex).get_minimal()`.
use recursive_functions.Prelude.{
  ℕ, ◌*◌, ◌^◌, ◌≡◌, ◌∙◌, ◌↔◌, ◌<◌, ◌≤◌, List, true, Option, none, some, length, get_elem?,
  get_elem?-lt, sym, ap, arith, subst,
}
use recursive_functions.Lexis.Jump.{characters_count}
use recursive_functions.Lexis.Automaton.{Node}
use recursive_functions.Lexis.Regex.{RegexNode}
use recursive_functions.Lexis.Nfa.{from_regex}
use recursive_functions.Lexis.Nfa.Words.{Matches}
use recursive_functions.Lexis.Nfa.Language.{from_regex-Matches}
use recursive_functions.Lexis.EmptyJumps.Graph.{from_regex-IsGraph}
use recursive_functions.Lexis.Subset.{determinize}
use recursive_functions.Lexis.Subset.Language.{accepts, determinize-accepts, determinize-bound}
use recursive_functions.Lexis.Minimal.{get_minimal}
use recursive_functions.Lexis.Minimal.Edges.{IsTotal}
use recursive_functions.Lexis.Minimal.Marking.{Differ}
use recursive_functions.Lexis.Minimal.Language.{jump_of-at}
use recursive_functions.Lexis.Minimal.Equivalence.{get_minimal-accepts}

unfoldable pub minimal_expression : RegexNode → Option (List Node)
unfolding determinize from_regex get_minimal
minimal_expression root = elim (determinize (2 ^ length (from_regex root)) (from_regex root)) [
  | none ↦ none
  | some nodes ↦ get_minimal (2 * (length nodes * length nodes)) nodes
]

-- What the bound of the subset construction says of its nodes.
abbrev AllJumps : List Node → Type 0
AllJumps nodes =
    (k s : ℕ)
    → k < length nodes
    → s < characters_count
    → (node : Node) × (target : ℕ) × (get_elem? nodes k ≡ some node)
      × (length node.jumps ≡ characters_count)
      × (get_elem? node.jumps s ≡ some (some target))
      × (target < length nodes)

AllJumps-IsTotal : (nodes : List Node) → AllJumps nodes → IsTotal nodes
AllJumps-IsTotal nodes h = record {
  width = λ i node e.
      let (other, t, there, w, j, l) = h i 0 (get_elem?-lt nodes i e) (omega arith) in
      let z : some other ≡ some node = sym there ∙ e in
      let same : other ≡ node = cc in ap (λ (n : Node). length n.jumps) (sym same) ∙ w;
  jump_in =
      λ i s l m. let (node, t, there, w, j, k) = h i s l m in (t, jump_of-at nodes i s there j, k);
}

-- The construction of the minimal automaton of a regular expression ends. The automaton accepts exactly the
-- words of the expression, in which no symbol is 0, the end of the file. Any two of its nodes differ on some
-- word, and it has no more nodes than there are sets of nodes of the nondeterministic automaton.
pub minimal_expression-Matches :
    (root : RegexNode)
    → (result : List Node) × (minimal_expression root ≡ some result)
      × ((w : List ℕ) → (accepts result 0 w ≡ true) ↔ Matches root w)
      × ((b c : ℕ) → b < c → c < length result → Differ result c b)
      × (length result ≤ 2 ^ length (from_regex root))
unfolding minimal_expression
minimal_expression-Matches root =
    let (graph, start) = from_regex-IsGraph root in
    let (nodes, e, same) = determinize-accepts (from_regex root) graph start in
    let (nodes', e', positive, bound, all_jumps) =
      determinize-bound (from_regex root) graph start in
    let z : some nodes' ≡ some nodes = sym e' ∙ e in
    let q : nodes' ≡ nodes = cc in
    let (result, e'', fewer, words, differ) =
      get_minimal-accepts nodes (AllJumps-IsTotal nodes (subst AllJumps q all_jumps))
        (subst (λ (n : List Node). 0 < length n) q positive) in
    (
      result,
      rw (minimal_expression, e) e'',
      λ w.
          let a = same w in
          let m = from_regex-Matches root w in
          (λ h. m.0 (a.0 (sym (words w) ∙ h)), λ h. words w ∙ a.1 (m.1 h)),
      differ,
      omega (
        arith,
        fewer,
        subst (λ (n : List Node). length n ≤ 2 ^ length (from_regex root)) q bound,
      ),
    )
