-- ===== src/Lexis/Nfa.antt =====
-- `NonDeterministicFiniteAutomata` of src/lexis/automata: the automaton of a regular expression. A node has
-- its address, which stands for the pointers to it; a number `next` counts the nodes allocated so far.
pub mod Words
pub mod Run
pub mod Parts
pub mod Nodes
pub mod Built
pub mod Symbol
pub mod Sequence
pub mod Alternative
pub mod Loop
pub mod Again
pub mod Language
use recursive_functions.Prelude.{
  ℕ, zero, suc, ◌+◌, List, [], ◌∷◌, ◌++◌, map, Bool, true, false, not, ◌&&◌, ◌==◌, if◌then◌else◌,
}
use recursive_functions.Lexis.Jump.{characters_count}
use recursive_functions.Lexis.Regex.{
  RegexNode, symbol_node, concatenation_node, or_node, star_node, plus_node, match_at,
}

pub record NfaNode : Type 0 where
  pub address : ℕ
  pub is_final : Bool
  pub jumps : List (ℕ × ℕ)

-- `kEmptyJumpSymbol`
abbrev pub empty_jump : ℕ
empty_jump = characters_count

-- An automaton with a start node only.
abbrev pub fresh : ℕ → List NfaNode
fresh address = record { address = address; is_final = false; jumps = [] } ∷ []

-- `&get_start_node()`; an automaton has a start node from its construction on.
abbrev pub start_address : List NfaNode → ℕ
start_address [] = 0
start_address (node ∷ nodes) = node.address

-- The loop over the final nodes that makes each jump to the target instead.
abbrev pub redirect_node : ℕ → NfaNode → NfaNode
redirect_node target node =
    if node.is_final
    then record {
      address = node.address;
      is_final = false;
      jumps = (empty_jump, target) ∷ node.jumps;
    }
    else node

unfoldable pub redirect : ℕ → List NfaNode → List NfaNode
redirect target [] = []
redirect target (node ∷ nodes) = redirect_node target node ∷ redirect target nodes

-- The jumps of the symbols from i on, `count` of them; symbol 0 is the end of the file.
unfoldable pub symbol_jumps : ℕ → ℕ → List Bool → ℕ → List (ℕ × ℕ)
symbol_jumps zero i match end_node = []
symbol_jumps (suc count) i match end_node =
    let rest = symbol_jumps count (suc i) match end_node in
    if not (i == 0) && match_at match i then (i, end_node) ∷ rest else rest

abbrev pub add_jumps : List (ℕ × ℕ) → List NfaNode → List NfaNode
add_jumps more [] = []
add_jumps more (node ∷ nodes) =
    record { address = node.address; is_final = node.is_final; jumps = more ++ node.jumps } ∷ nodes

-- The visitor: `result` as it stands before, and after.
unfoldable pub visit : RegexNode → List NfaNode → ℕ → List NfaNode × ℕ
unfolding redirect
visit (symbol_node match) result next = (
  add_jumps (symbol_jumps characters_count 0 match next) result
      ++ record { address = next; is_final = true; jumps = [] } ∷ [],
  suc next,
)
visit (concatenation_node left right) result next =
    let (concatenated, next₁) = visit left result (suc next) in
    let (result₂, next₂) = visit right (fresh next) next₁ in
    (redirect (start_address result₂) concatenated ++ result₂, next₂)
visit (or_node left right) result next =
    let (concatenated, next₁) = visit left result (suc next) in
    let (result₂, next₂) = visit right (fresh next) next₁ in
    let front : NfaNode = record {
      address = next₂;
      is_final = false;
      jumps = (empty_jump, start_address concatenated) ∷ (empty_jump, start_address result₂) ∷ [];
    } in
    (front ∷ result₂ ++ concatenated, suc next₂)
visit (star_node child) result next =
    let (result₁, next₁) = visit child result next in
    let front : NfaNode = record {
      address = next₁;
      is_final = true;
      jumps = (empty_jump, start_address result₁) ∷ [];
    } in
    (front ∷ redirect next₁ result₁, suc next₁)
visit (plus_node child) result next =
    let (copy, next₁) = visit child result (suc next) in
    let (result₂, next₂) = visit child (fresh next) next₁ in
    let bridge : NfaNode = record {
      address = next₂;
      is_final = true;
      jumps = (empty_jump, start_address copy) ∷ [];
    } in
    let new_start : NfaNode = record {
      address = suc next₂;
      is_final = false;
      jumps = (empty_jump, start_address result₂) ∷ [];
    } in
    (new_start ∷ bridge ∷ redirect next₂ result₂ ++ redirect next₂ copy, suc (suc next₂))

-- `NonDeterministicFiniteAutomata(regex)`
unfoldable pub from_regex : RegexNode → List NfaNode
unfolding visit
from_regex root = (visit root (fresh 0) 1).0
