-- ===== src/Lexis/EmptyJumps.antt =====
-- `do_empty_jumps` of src/lexis/automata/NonDeterministicFiniteAutomata.h: the nodes that empty jumps reach.
pub mod Lookup
pub mod Round
pub mod Closing
pub mod Placed
pub mod Graph
use recursive_functions.Prelude.{
  ℕ, zero, suc, List, [], ◌∷◌, ◌++◌, Bool, true, false, ◌||◌, ◌==◌, if◌then◌else◌, Option, none,
  some, contains,
}
use recursive_functions.Lexis.Nfa.{NfaNode, empty_jump}

-- The targets of the jumps with a symbol.
unfoldable pub equal_range : ℕ → List (ℕ × ℕ) → List ℕ
equal_range symbol [] = []
equal_range symbol (jump ∷ jumps) =
    let rest = equal_range symbol jumps in if jump.0 == symbol then jump.1 ∷ rest else rest

-- `node->jumps.equal_range(symbol)` for the node at an address.
unfoldable pub node_jumps : List NfaNode → ℕ → ℕ → List ℕ
unfolding equal_range
node_jumps [] address symbol = []
node_jumps (node ∷ nodes) address symbol =
    let rest = node_jumps nodes address symbol in
    if node.address == address then equal_range symbol node.jumps else rest

-- `node->is_final`
unfoldable pub node_is_final : List NfaNode → ℕ → Bool
node_is_final [] address = false
node_is_final (node ∷ nodes) address =
    let rest = node_is_final nodes address in
    if node.address == address then node.is_final else rest

-- The loop of `process_node` over the targets: the set, and the nodes that wait.
unfoldable pub process_targets : List ℕ → List ℕ → List ℕ → List ℕ × List ℕ
process_targets [] nodes unprocessed = (nodes, unprocessed)
process_targets (next ∷ targets) nodes unprocessed =
    if contains nodes next
    then process_targets targets nodes unprocessed
    else process_targets targets (next ∷ nodes) (unprocessed ++ next ∷ [])

-- The loop over the nodes that wait; `none` means that the fuel ran out.
unfoldable pub empty_loop : ℕ → List NfaNode → List ℕ → List ℕ → Bool → Option (List ℕ × Bool)
unfolding node_jumps node_is_final process_targets
empty_loop fuel automaton nodes [] is_final = some (nodes, is_final)
empty_loop zero automaton nodes (current ∷ unprocessed) is_final = none
empty_loop (suc fuel) automaton nodes (current ∷ unprocessed) is_final =
    let (nodes', unprocessed') =
      process_targets (node_jumps automaton current empty_jump) nodes unprocessed in
    empty_loop fuel automaton nodes' unprocessed' (node_is_final automaton current || is_final)

-- The set with what it reaches, and whether one of its nodes is final.
unfoldable pub do_empty_jumps : ℕ → List NfaNode → List ℕ → Option (List ℕ × Bool)
unfolding empty_loop
do_empty_jumps fuel automaton nodes = empty_loop fuel automaton nodes nodes false
