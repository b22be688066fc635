-- ===== src/Lexis/Automaton.antt =====
-- `FiniteAutomata` of src/lexis/automata: its nodes, and `remove_dead_ends`.
pub mod DeadEnds
pub mod Ending
use recursive_functions.Prelude.{
  ℕ, zero, suc, ◌+◌, Bool, true, false, not, ◌||◌, List, [], ◌∷◌, ◌++◌, map, Option, none, some,
  ◌==◌, if◌then◌else◌, length, get_elem?, traverse,
}

-- A jump is `none` where the source stores -1.
pub record Node : Type 0 where
  pub is_final : Bool
  pub jumps : List (Option ℕ)

-- `vector is_dead_end(nodes.size(), true)`, after the loop that clears the final nodes.
unfoldable pub first_marks : List Node → List Bool
first_marks [] = []
first_marks (node ∷ nodes) = not node.is_final ∷ first_marks nodes

-- The final nodes in the order in which they are pushed; the head of a queue is its back.
unfoldable pub first_queue : List Node → ℕ → List ℕ → List ℕ
first_queue [] i queue = queue
first_queue (node ∷ nodes) i queue =
    first_queue nodes (suc i) (if node.is_final then i ∷ queue else queue)

abbrev pub jumps_to : Option ℕ → ℕ → Bool
jumps_to none current = false
jumps_to (some target) current = target == current

-- The loop over the symbols of node i: the queue, and the mark of the node.
unfoldable pub scan_symbols : List (Option ℕ) → ℕ → ℕ → List ℕ × Bool → List ℕ × Bool
scan_symbols [] current i state = state
scan_symbols (jump ∷ jumps) current i (queue, dead) =
    scan_symbols jumps current i
      (if jumps_to jump current then (i ∷ queue, false) else (queue, dead))

-- The loop over the nodes from i on: it stops at the first node that is no dead end.
unfoldable pub scan_nodes : List Node → List Bool → ℕ → ℕ → List ℕ → List Bool × List ℕ
unfolding scan_symbols
scan_nodes [] marks current i queue = (marks, queue)
scan_nodes (node ∷ nodes) [] current i queue = ([], queue)
scan_nodes (node ∷ nodes) (false ∷ marks) current i queue = (false ∷ marks, queue)
scan_nodes (node ∷ nodes) (true ∷ marks) current i queue =
    let (queue', dead) = scan_symbols node.jumps current i (queue, true) in
    let (marks', queue'') = scan_nodes nodes marks current (suc i) queue' in
    (dead ∷ marks', queue'')

-- The loop over the queue; `none` means that the fuel ran out.
unfoldable pub mark_loop : ℕ → List Node → List Bool → List ℕ → Option (List Bool)
unfolding scan_nodes
mark_loop fuel nodes marks [] = some marks
mark_loop zero nodes marks (current ∷ queue) = none
mark_loop (suc fuel) nodes marks (current ∷ queue) =
    let (marks', queue') = scan_nodes nodes marks current 0 queue in
    mark_loop fuel nodes marks' queue'

-- `nodes_mapping`: the new number of each node that is kept, -1 for a dead end.
unfoldable pub nodes_mapping : List Bool → ℕ → List (Option ℕ)
nodes_mapping [] next = []
nodes_mapping (true ∷ marks) next = none ∷ nodes_mapping marks next
nodes_mapping (false ∷ marks) next = some next ∷ nodes_mapping marks (suc next)

unfoldable pub kept_nodes : List Node → List Bool → List Node
kept_nodes [] marks = []
kept_nodes (node ∷ nodes) [] = []
kept_nodes (node ∷ nodes) (true ∷ marks) = kept_nodes nodes marks
kept_nodes (node ∷ nodes) (false ∷ marks) = node ∷ kept_nodes nodes marks

-- `node.jumps[symbol] = nodes_mapping[node.jumps[symbol]]`; `none` is an access outside of the mapping.
abbrev pub remap_jump : List (Option ℕ) → Option ℕ → Option (Option ℕ)
remap_jump mapping none = none
remap_jump mapping (some target) = get_elem? mapping target

unfoldable pub remap_node : List (Option ℕ) → Node → Option Node
unfolding traverse
remap_node mapping node = elim (traverse (remap_jump mapping) node.jumps) [
  | none ↦ none
  | some jumps ↦ some (record node { jumps = jumps })
]

unfoldable pub remove_dead_ends : ℕ → List Node → Option (List Node)
unfolding mark_loop first_marks first_queue nodes_mapping kept_nodes remap_node
remove_dead_ends fuel nodes =
    elim (mark_loop fuel nodes (first_marks nodes) (first_queue nodes 0 [])) [
      | none ↦ none
      | some marks ↦ traverse (remap_node (nodes_mapping marks 0)) (kept_nodes nodes marks)
    ]
