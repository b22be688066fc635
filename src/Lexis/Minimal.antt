-- ===== src/Lexis/Minimal.antt =====
-- `FiniteAutomata::get_minimal` of src/lexis/automata/parts/DeterministicToMinimal.cpp. A jump of -1 is an
-- access outside of a vector, which is undefined in the source, and gives `none` here. All other indices
-- are below the number of nodes: what the model does with others, no run of it meets.
pub mod Runs
pub mod Edges
pub mod Matrix
pub mod Marking
pub mod Queue
pub mod First
pub mod Classes
pub mod Language
pub mod Result
pub mod Equivalence
pub mod Expression
use recursive_functions.Prelude.{
  ℕ, zero, suc, ◌+◌, ◌*◌, List, [], ◌∷◌, ◌++◌, Bool, true, false, not, ◌&&◌, ◌||◌, Option, none,
  some, ◌==◌, if◌then◌else◌, length, get_elem?, set, replicate, traverse,
}
use recursive_functions.Lexis.Jump.{characters_count}
use recursive_functions.Lexis.Automaton.{Node}
use recursive_functions.Lexis.EmptyJumps.{equal_range}

-- `nodes[i].jumps[symbol]`
unfoldable pub jump_of : List Node → ℕ → ℕ → Option ℕ
jump_of nodes i symbol = elim (get_elem? nodes i) [
  | none ↦ none
  | some node ↦ elim (get_elem? node.jumps symbol) [ none ↦ none | some jump ↦ jump ]
]

-- `nodes[i].is_final`
unfoldable pub final_of : List Node → ℕ → Bool
final_of nodes i = elim (get_elem? nodes i) [ none ↦ false | some node ↦ node.is_final ]

-- `back_edges[target].emplace_back(symbol, i)`
unfoldable pub add_edge : ℕ → ℕ → Option ℕ → List (List (ℕ × ℕ)) → Option (List (List (ℕ × ℕ)))
add_edge symbol i none back_edges = none
add_edge symbol i (some target) back_edges = elim (get_elem? back_edges target) [
  | none ↦ none
  | some edges ↦ some (set back_edges target (edges ++ (symbol, i) ∷ []))
]

-- The nodes from i on, `count` of them.
unfoldable pub symbol_edges :
    ℕ → ℕ → List Node → ℕ → List (List (ℕ × ℕ)) → Option (List (List (ℕ × ℕ)))
unfolding add_edge jump_of
symbol_edges zero i nodes symbol back_edges = some back_edges
symbol_edges (suc count) i nodes symbol back_edges =
    elim (add_edge symbol i (jump_of nodes i symbol) back_edges) [
      | none ↦ none
      | some added ↦ symbol_edges count (suc i) nodes symbol added
    ]

-- The symbols from `symbol` on, `count` of them.
unfoldable pub all_edges : ℕ → ℕ → List Node → List (List (ℕ × ℕ)) → Option (List (List (ℕ × ℕ)))
unfolding symbol_edges
all_edges zero symbol nodes back_edges = some back_edges
all_edges (suc count) symbol nodes back_edges =
    elim (symbol_edges (length nodes) 0 nodes symbol back_edges) [
      | none ↦ none
      | some added ↦ all_edges count (suc symbol) nodes added
    ]

-- `equivalence[i][j]`; true means that the two differ.
unfoldable pub marked : List (List Bool) → ℕ → ℕ → Bool
marked equivalence i j = elim (get_elem? equivalence i) [
  | none ↦ false
  | some row ↦ elim (get_elem? row j) [ none ↦ false | some bit ↦ bit ]
]

unfoldable pub mark_at : ℕ → ℕ → List (List Bool) → List (List Bool)
mark_at i j equivalence = elim (get_elem? equivalence i) [
  | none ↦ equivalence
  | some row ↦ set equivalence i (set row j true)
]

-- The two marks and the queue, whose front is the head.
abbrev pub Marks : Type 0
Marks = List (List Bool) × List (ℕ × ℕ)

unfoldable pub mark_pair : ℕ → ℕ → Marks → Marks
unfolding mark_at
mark_pair i j (equivalence, queue) = (mark_at j i (mark_at i j equivalence), queue ++ (i, j) ∷ [])

-- The loop over j from 0 to i.
unfoldable pub first_row : ℕ → ℕ → ℕ → List Node → Marks → Marks
unfolding mark_pair final_of
first_row zero j i nodes state = state
first_row (suc count) j i nodes state =
    let different =
      (final_of nodes i && not (final_of nodes j))
      || (not (final_of nodes i) && final_of nodes j) in
    first_row count (suc j) i nodes (if different then mark_pair i j state else state)

unfoldable pub first_rows : ℕ → ℕ → List Node → Marks → Marks
unfolding first_row
first_rows zero i nodes state = state
first_rows (suc count) i nodes state = first_rows count (suc i) nodes (first_row i 0 i nodes state)

-- The two loops over the parents.
unfoldable pub visit_pairs : ℕ → List ℕ → Marks → Marks
unfolding mark_pair marked
visit_pairs i_parent [] state = state
visit_pairs i_parent (j_parent ∷ j_parents) state =
    visit_pairs i_parent j_parents
      (if marked state.0 i_parent j_parent then state else mark_pair i_parent j_parent state)

unfoldable pub visit_parents : List ℕ → List ℕ → Marks → Marks
unfolding visit_pairs
visit_parents [] j_parents state = state
visit_parents (i_parent ∷ i_parents) j_parents state =
    visit_parents i_parents j_parents (visit_pairs i_parent j_parents state)

-- `equal_range(back_edges[i], symbol)`: the edges stand in the order of their symbols, and the range are
-- those of the symbol.
unfoldable pub parents : List (List (ℕ × ℕ)) → ℕ → ℕ → List ℕ
unfolding equal_range
parents back_edges i symbol = elim (get_elem? back_edges i) [
  | none ↦ []
  | some edges ↦ equal_range symbol edges
]

unfoldable pub visit_symbols : ℕ → ℕ → List (List (ℕ × ℕ)) → ℕ → ℕ → Marks → Marks
unfolding visit_parents parents
visit_symbols zero symbol back_edges i j state = state
visit_symbols (suc count) symbol back_edges i j state =
    visit_symbols count (suc symbol) back_edges i j
      (visit_parents (parents back_edges i symbol) (parents back_edges j symbol) state)

-- The loop over the queue; `none` means that the fuel ran out.
unfoldable pub pair_loop :
    ℕ → List (List (ℕ × ℕ)) → List (List Bool) → List (ℕ × ℕ) → Option (List (List Bool))
unfolding visit_symbols
pair_loop fuel back_edges equivalence [] = some equivalence
pair_loop zero back_edges equivalence (front ∷ queue) = none
pair_loop (suc fuel) back_edges equivalence (front ∷ queue) =
    let (equivalence', queue') =
      visit_symbols characters_count 0 back_edges front.0 front.1 (equivalence, queue) in
    pair_loop fuel back_edges equivalence' queue'

-- The first representative from number j on that is not marked with i.
unfoldable pub find_class : List (List Bool) → ℕ → List ℕ → ℕ → Option ℕ
unfolding marked
find_class equivalence i [] j = none
find_class equivalence i (r ∷ representatives) j =
    let rest = find_class equivalence i representatives (suc j) in
    if marked equivalence i r then rest else some j

-- The representatives and the classes, with node i.
unfoldable pub add_class : ℕ → Option ℕ → List ℕ → List ℕ → List ℕ × List ℕ
add_class i none representatives classes =
    (representatives ++ i ∷ [], classes ++ length representatives ∷ [])
add_class i (some j) representatives classes = (representatives, classes ++ j ∷ [])

unfoldable pub class_loop : ℕ → ℕ → List (List Bool) → List ℕ → List ℕ → List ℕ × List ℕ
unfolding add_class find_class
class_loop zero i equivalence representatives classes = (representatives, classes)
class_loop (suc count) i equivalence representatives classes =
    let (representatives', classes') =
      add_class i (find_class equivalence i representatives 0) representatives classes in
    class_loop count (suc i) equivalence representatives' classes'

-- `result.nodes[i]`, from the node of its representative.
unfoldable pub class_jump : List ℕ → Option ℕ → Option (Option ℕ)
class_jump classes none = none
class_jump classes (some target) = elim (get_elem? classes target) [
  | none ↦ none
  | some number ↦ some (some number)
]

unfoldable pub class_node : List Node → List ℕ → ℕ → Option Node
unfolding class_jump traverse
class_node nodes classes r = elim (get_elem? nodes r) [
  | none ↦ none
  | some repr ↦ elim (traverse (class_jump classes) repr.jumps) [
    | none ↦ none
    | some jumps ↦ some (record { is_final = repr.is_final; jumps = jumps })
  ]
]

unfoldable pub get_minimal : ℕ → List Node → Option (List Node)
unfolding all_edges first_rows pair_loop class_loop class_node
get_minimal fuel nodes =
    let size = length nodes in
    elim (all_edges characters_count 0 nodes (replicate size [])) [
      | none ↦ none
      | some back_edges ↦
          let (equivalence, queue) =
            first_rows size 0 nodes (replicate size (replicate size false), []) in
          elim (pair_loop fuel back_edges equivalence queue) [
            | none ↦ none
            | some final_marks ↦
                let (representatives, classes) = class_loop size 0 final_marks [] [] in
                traverse (class_node nodes classes) representatives
          ]
    ]
