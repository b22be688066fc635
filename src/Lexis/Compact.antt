-- ===== src/Lexis/Compact.antt =====
-- The last part of `LexicalAutomatonGenerator::build_and_save` (src/lexis/table): states in which
-- every jump is the same finish jump are left out, and the jumps to them finish at once.
pub mod Mapping
pub mod Equivalence
pub mod Preservation
use recursive_functions.Prelude.{
  ℕ, ◌-◌, ◌≡◌, Bool, true, List, [], ◌∷◌, ◌++◌, Option, none, some, ◌&&◌, ◌==◌, if◌then◌else◌,
  length, get_elem?, traverse,
}
use recursive_functions.Lexis.Token.{TokenType}
use recursive_functions.Lexis.Jump.{Jump, next_state, finish, reject, jump_eq, JumpTable, Table}

unfoldable pub all_equal : Jump → JumpTable → Bool
all_equal first [] = true
all_equal first (action ∷ row) = jump_eq action first && all_equal first row

-- The `FinishJump` of `CanCompactNode`, as a pair.
unfoldable pub can_compact_node : JumpTable → Option (ℕ × TokenType)
unfolding all_equal
can_compact_node [] = none
can_compact_node (finish shift t ∷ row) =
    if all_equal (finish shift t) row then (if shift == 0 then none else some (shift, t)) else none
can_compact_node (_ ∷ row) = none

-- The first loop, with `compacted` and `mapping` as they grow.
unfoldable pub compact_loop : Table → Table → List Jump → Table × List Jump
unfolding can_compact_node
compact_loop [] compacted mapping = (compacted, mapping)
compact_loop (row ∷ rows) compacted mapping = elim (can_compact_node row) [
  | none ↦ compact_loop rows (compacted ++ row ∷ []) (mapping ++ next_state (length compacted) ∷ [])
  | some (shift, t) ↦ compact_loop rows compacted (mapping ++ finish (shift - 1) t ∷ [])
]

-- The second loop, at one jump; `none` is an access outside of the mapping.
unfoldable pub redirect : List Jump → Jump → Option Jump
redirect mapping (next_state s) = get_elem? mapping s
redirect mapping (finish shift t) = some (finish shift t)
redirect mapping reject = some reject

unfoldable pub compact : Table → Option Table
unfolding compact_loop redirect traverse
compact jumps =
    let (compacted, mapping) = compact_loop jumps [] [] in
    traverse (traverse (redirect mapping)) compacted
