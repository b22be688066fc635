-- ===== src/Tests/Automaton.antt =====
-- Automata of two and three nodes, and what is left of them.
use recursive_functions.Prelude.{
  ℕ, zero, suc, ◌≡◌, refl, true, false, List, [], ◌∷◌, Option, none, some, arith, All, replicate,
}
use recursive_functions.Lexis.Automaton.{
  Node, first_marks, first_queue, mark_loop, remove_dead_ends,
}
use recursive_functions.Lexis.Automaton.DeadEnds.{Leads, marks-Leads}
use recursive_functions.Lexis.Automaton.Ending.{
  InRange, IsComplete, IsFinal, remove_dead_ends_total, remove_dead_ends-IsFinal,
}

abbrev final_node : List (Option ℕ) → Node
final_node jumps = record { is_final = true; jumps = jumps }

abbrev inner_node : List (Option ℕ) → Node
inner_node jumps = record { is_final = false; jumps = jumps }

-- 0 -> 1, where 1 is final and goes to itself.
abbrev chain : List Node
chain = inner_node (some 1 ∷ []) ∷ final_node (some 1 ∷ []) ∷ []

-- 0 <-> 1, where 0 is final: the node 1 leads to a final node.
abbrev cycle : List Node
cycle = final_node (some 1 ∷ []) ∷ inner_node (some 0 ∷ []) ∷ []

All-replicate : (P : Option ℕ → Type 0) (n : ℕ) (j : Option ℕ) → P j → All P (replicate n j)
All-replicate P zero j p = tt
All-replicate P (suc n) j p = (p, All-replicate P n j p)

-- The chain with a jump for each of the 128 symbols.
abbrev wide_chain : List Node
wide_chain = inner_node (replicate 128 (some 1)) ∷ final_node (replicate 128 (some 1)) ∷ []

wide_chain-IsComplete : All (IsComplete 2) wide_chain
wide_chain-IsComplete = (
  (refl, All-replicate (InRange 2) 128 (some 1) (omega arith)),
  ((refl, All-replicate (InRange 2) 128 (some 1) (omega arith)), tt),
)

chain_kept : remove_dead_ends 4 chain ≡ some chain
unfolding remove_dead_ends
chain_kept = refl

-- The node 1 of the cycle is removed.
cycle_cut : remove_dead_ends 4 cycle ≡ some (final_node (none ∷ []) ∷ [])
unfolding remove_dead_ends
cycle_cut = refl

chain_marks :
    mark_loop 4 chain (first_marks chain) (first_queue chain 0 []) ≡ some (false ∷ false ∷ [])
unfolding mark_loop first_marks first_queue
chain_marks = refl

marks-Leads_example : Leads chain 0
marks-Leads_example = marks-Leads chain 4 chain_marks 0 refl

remove_dead_ends_total_example :
    (result : List Node) × (remove_dead_ends 258 wide_chain ≡ some result)
remove_dead_ends_total_example =
    remove_dead_ends_total wide_chain 258 wide_chain-IsComplete (omega arith)

remove_dead_ends-IsFinal_example : All IsFinal (final_node (none ∷ []) ∷ [])
remove_dead_ends-IsFinal_example =
    remove_dead_ends-IsFinal 4 (final_node (some 1 ∷ [])) (inner_node (some 0 ∷ []) ∷ []) refl
      cycle_cut
