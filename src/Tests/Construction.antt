-- ===== src/Tests/Construction.antt =====
-- The automata of small regular expressions, and the theorems on their construction applied to them.
use recursive_functions.Prelude.{
  ℕ, zero, suc, ◌*◌, ◌^◌, ◌≡◌, ◌↔◌, ◌<◌, ◌≤◌, refl, Bool, true, false, List, [], ◌∷◌, Option, some,
  arith, length, get_elem?, get_elem?-replicate, set, replicate, contains, length-replicate,
  get_elem?-lt, subst, ap, sym, ◌∙◌,
}
use mathlib.Core.Option
use recursive_functions.Lexis.Jump.{characters_count}
use recursive_functions.Lexis.Automaton.{Node}
use recursive_functions.Lexis.Regex.{RegexNode, symbol_node, plus_node}
use recursive_functions.Lexis.Nfa.{NfaNode, from_regex, start_address}
use recursive_functions.Lexis.Nfa.Run.{Accepts}
use recursive_functions.Lexis.Nfa.Words.{Matches}
use recursive_functions.Lexis.Nfa.Language.{from_regex-Matches}
use recursive_functions.Lexis.EmptyJumps.{do_empty_jumps}
use recursive_functions.Lexis.EmptyJumps.Lookup.{addresses}
use recursive_functions.Lexis.EmptyJumps.Closing.{IsClosure, do_empty_jumps-IsClosure}
use recursive_functions.Lexis.EmptyJumps.Graph.{from_regex-IsGraph}
use recursive_functions.Lexis.Subset.{determinize}
use recursive_functions.Lexis.Subset.Language.{accepts, determinize-accepts, determinize-bound}
use recursive_functions.Lexis.Minimal.{get_minimal, jump_of}
use recursive_functions.Lexis.Minimal.Edges.{IsTotal}
use recursive_functions.Lexis.Minimal.Marking.{Differ}
use recursive_functions.Lexis.Minimal.Equivalence.{get_minimal-accepts}
use recursive_functions.Lexis.Minimal.Expression.{minimal_expression, minimal_expression-Matches}

-- `a+`
abbrev letters : RegexNode
letters = plus_node (symbol_node (set (replicate 128 false) 97 true))

abbrev automaton : List NfaNode
automaton = from_regex letters

-- The start, the bridge and the two copies of the symbol.
automaton_size : length automaton ≡ 6
unfolding from_regex
automaton_size = refl

from_regex-Matches_example :
    Accepts automaton (start_address automaton) (97 ∷ 97 ∷ []) ↔ Matches letters (97 ∷ 97 ∷ [])
from_regex-Matches_example = from_regex-Matches letters (97 ∷ 97 ∷ [])

minimal_expression-Matches_example :
    (result : List Node) × (minimal_expression letters ≡ some result)
    × ((w : List ℕ) → (accepts result 0 w ≡ true) ↔ Matches letters w)
    × ((b c : ℕ) → b < c → c < length result → Differ result c b)
    × (length result ≤ 2 ^ length (from_regex letters))
minimal_expression-Matches_example = minimal_expression-Matches letters

do_empty_jumps-IsClosure_example :
    (result : List ℕ) × (flag : Bool) × (do_empty_jumps
        (length automaton)
        automaton
        (start_address automaton ∷ [])
      ≡ some (result, flag))
    × IsClosure automaton (start_address automaton ∷ []) result flag
do_empty_jumps-IsClosure_example =
    do_empty_jumps-IsClosure automaton (start_address automaton ∷ []) (from_regex-IsGraph letters).0
      (refl, tt)
      (λ n k.
        subst (λ (x : ℕ). contains (addresses automaton) x ≡ true) (ground arith)
          (from_regex-IsGraph letters).1)

determinize-accepts_example :
    (nodes : List Node) × (determinize (2 ^ length automaton) automaton ≡ some nodes)
    × ((w : List ℕ) → (accepts nodes 0 w ≡ true) ↔ Accepts automaton (start_address automaton) w)
determinize-accepts_example =
    determinize-accepts automaton (from_regex-IsGraph letters).0 (from_regex-IsGraph letters).1

determinize-bound_example :
    (nodes : List Node) × (determinize (2 ^ length automaton) automaton ≡ some nodes)
    × (0 < length nodes)
    × (length nodes ≤ 2 ^ length automaton)
    × ((k s : ℕ)
        → k < length nodes
        → s < characters_count
        → (node : Node) × (target : ℕ) × (get_elem? nodes k ≡ some node)
          × (length node.jumps ≡ characters_count)
          × (get_elem? node.jumps s ≡ some (some target))
          × (target < length nodes))
determinize-bound_example =
    determinize-bound automaton (from_regex-IsGraph letters).0 (from_regex-IsGraph letters).1

-- Every symbol leads to the node 1; the nodes 1 and 2 are final.
abbrev to_one : Bool → Node
to_one is_final = record { is_final = is_final; jumps = replicate 128 (some 1) }

abbrev three : List Node
three = to_one false ∷ to_one true ∷ to_one true ∷ []

three-at : (i : ℕ) → i < 3 → (flag : Bool) × (get_elem? three i ≡ some (to_one flag))
three-at zero h = (false, refl)
three-at (suc zero) h = (true, refl)
three-at (suc (suc zero)) h = (true, refl)
three-at (suc (suc (suc i))) h = absurd (omega arith)

three-IsTotal : IsTotal three
unfolding jump_of
three-IsTotal = record {
  width = λ i node e.
      let (flag, q) = three-at i (let l = get_elem?-lt three i e in omega arith) in
      let z : some (to_one flag) ≡ some node = sym q ∙ e in
      let same : to_one flag ≡ node = cc in
      ap (λ (n : Node). length n.jumps) (sym same) ∙ length-replicate {A = Option ℕ} 128 (some 1);
  jump_in = λ i s h k.
      let (flag, q) = three-at i h in
      (1, rw (jump_of, q, get_elem?-replicate {A = Option ℕ} 128 s (some 1) k) refl, omega arith);
}

-- The nodes 1 and 2 become one.
three_minimal : Option.map length (get_minimal 18 three) ≡ some 2
unfolding get_minimal
three_minimal = refl

get_minimal-accepts_example :
    (result : List Node) × (get_minimal (2 * (length three * length three)) three ≡ some result)
    × (length result ≤ length three)
    × ((w : List ℕ) → accepts result 0 w ≡ accepts three 0 w)
    × ((b c : ℕ) → b < c → c < length result → Differ result c b)
get_minimal-accepts_example = get_minimal-accepts three three-IsTotal (omega arith)
