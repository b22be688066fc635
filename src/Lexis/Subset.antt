-- ===== src/Lexis/Subset.antt =====
-- src/lexis/automata/parts/NonDeterministicToDeterministic.cpp: the deterministic automaton of a
-- nondeterministic one. A `std::set` of nodes is a list of addresses without repetition, in any order: the
-- numbers of the new nodes depend on the members only. A `std::map` with sets as keys is a list of pairs.
pub mod Moves
pub mod Storing
pub mod Bound
pub mod Invariant
pub mod Step
pub mod Emplace
pub mod Loop
pub mod Language
pub mod Expression
use recursive_functions.Prelude.{
  ℕ, zero, suc, ◌+◌, List, [], ◌∷◌, ◌++◌, Bool, true, false, ◌&&◌, Option, none, some, ◌==◌,
  if◌then◌else◌, length, contains, merge_into, set, replicate,
}
use recursive_functions.Lexis.Jump.{characters_count}
use recursive_functions.Lexis.Automaton.{Node}
use recursive_functions.Lexis.Nfa.{NfaNode, start_address}
use recursive_functions.Lexis.EmptyJumps.{node_jumps, do_empty_jumps}

-- Whether two sets have the same members: the comparison of the keys of `old_to_new`.
unfoldable pub is_subset : List ℕ → List ℕ → Bool
is_subset [] ys = true
is_subset (x ∷ xs) ys = contains ys x && is_subset xs ys

abbrev pub set_eq : List ℕ → List ℕ → Bool
set_eq xs ys = is_subset xs ys && is_subset ys xs

unfoldable pub find_set : List (List ℕ × ℕ) → List ℕ → Option ℕ
unfolding is_subset
find_set [] nodes = none
find_set (entry ∷ entries) nodes =
    let rest = find_set entries nodes in if set_eq entry.0 nodes then some entry.1 else rest

pub record State : Type 0 where
  pub nodes : List Node
  pub old_to_new : List (List ℕ × ℕ)
  pub queue : List (ℕ × List ℕ)

-- `nodes.emplace_back()` with its flag: `jumps{}` is all zeros.
abbrev pub new_node : Bool → Node
new_node is_final = record { is_final = is_final; jumps = replicate characters_count (some 0) }

-- `nodes[index].jumps[symbol] = target`
unfoldable pub set_jump : List Node → ℕ → ℕ → ℕ → List Node
set_jump [] index symbol target = []
set_jump (node ∷ nodes) zero symbol target =
    record { is_final = node.is_final; jumps = set node.jumps symbol (some target) } ∷ nodes
set_jump (node ∷ nodes) (suc index) symbol target = node ∷ set_jump nodes index symbol target

-- `nodes_after_jump`, before the empty jumps.
unfoldable pub nodes_after_jump : List NfaNode → ℕ → List ℕ → List ℕ → List ℕ
nodes_after_jump automaton symbol [] found = found
nodes_after_jump automaton symbol (node ∷ current) found =
    nodes_after_jump automaton symbol current (merge_into found (node_jumps automaton node symbol))

-- `old_to_new.emplace` and what follows, by what the map has for the set.
unfoldable pub emplace_set : ℕ → ℕ → List ℕ → Bool → State → Option ℕ → State
unfolding set_jump
emplace_set index symbol nodes is_final state none =
    let new_node_index = length state.nodes in
    record {
      nodes = set_jump state.nodes index symbol new_node_index ++ new_node is_final ∷ [];
      old_to_new = state.old_to_new ++ (nodes, new_node_index) ∷ [];
      queue = state.queue ++ (new_node_index, nodes) ∷ [];
    }
emplace_set index symbol nodes is_final state (some target) = record {
  nodes = set_jump state.nodes index symbol target;
  old_to_new = state.old_to_new;
  queue = state.queue;
}

-- A round of the loop over the symbols.
unfoldable pub jump_step : List NfaNode → ℕ → List ℕ → ℕ → State → Option State
unfolding emplace_set find_set nodes_after_jump
jump_step automaton index current symbol state =
    elim (do_empty_jumps (length automaton) automaton
      (nodes_after_jump automaton symbol current [])) [
        | none ↦ none
        | some after ↦
            some
              (emplace_set index symbol after.0 after.1 state (find_set state.old_to_new after.0))
      ]

unfoldable pub symbols_loop : ℕ → List NfaNode → ℕ → List ℕ → ℕ → State → Option State
unfolding jump_step
symbols_loop zero automaton index current symbol state = some state
symbols_loop (suc count) automaton index current symbol state =
    elim (jump_step automaton index current symbol state) [
      | none ↦ none
      | some next ↦ symbols_loop count automaton index current (suc symbol) next
    ]

-- The loop over the queue, which stands apart from the rest of the state; `none` means that the fuel ran
-- out.
unfoldable pub queue_loop :
    ℕ → List NfaNode → List Node → List (List ℕ × ℕ) → List (ℕ × List ℕ) → Option (List Node)
unfolding symbols_loop
queue_loop fuel automaton nodes old_to_new [] = some nodes
queue_loop zero automaton nodes old_to_new (front ∷ queue) = none
queue_loop (suc fuel) automaton nodes old_to_new (front ∷ queue) =
    elim (symbols_loop characters_count automaton front.0 front.1 0
      (record { nodes = nodes; old_to_new = old_to_new; queue = queue })) [
        | none ↦ none
        | some state ↦ queue_loop fuel automaton state.nodes state.old_to_new state.queue
      ]

-- `FiniteAutomata(automata)`
unfoldable pub determinize : ℕ → List NfaNode → Option (List Node)
unfolding queue_loop
determinize fuel automaton =
    elim (do_empty_jumps (length automaton) automaton (start_address automaton ∷ [])) [
      | none ↦ none
      | some start ↦
          queue_loop fuel automaton (new_node start.1 ∷ []) ((start.0, 0) ∷ []) ((0, start.0) ∷ [])
    ]
