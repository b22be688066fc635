-- ===== src/Syntax/Recovery.antt =====
-- The class `RecoveryTree` of src/syntax/lr/LRParser.cpp. The head of `nodes` is the back of `nodes_`.
-- The lexical analyzer is seen as its current token, the tokens ahead, and the `END` token that it
-- returns when there are no more.
pub mod Pruning
use recursive_functions.Prelude.{
  ℕ, ◌-◌, Bool, true, false, ◌||◌, ◌&&◌, List, [], ◌∷◌, ◌==◌, if◌then◌else◌, length,
}
use recursive_functions.Lexis.Token.{
  TokenType, end, open_brace, close_brace, semicolon, token_eq, Token,
}

pub data NodeType : Type 0 where
  root brace semicolon_node : NodeType

pub record RecoveryNode : Type 0 where
  pub prev_states_count : ℕ
  pub type : NodeType

pub record RecoveryTree : Type 0 where
  pub nodes : List RecoveryNode
  pub is_broken : Bool

abbrev pub first_tree : RecoveryTree
first_tree = record {
  nodes = record { prev_states_count = 1; type = root } ∷ [];
  is_broken = false;
}

-- `nodes_.pop_back()`, and the test whether the tree is broken now.
abbrev pub pop_node : List RecoveryNode → RecoveryTree
pop_node [] = record { nodes = []; is_broken = true }
pop_node (node ∷ []) = record { nodes = []; is_broken = true }
pop_node (node ∷ next ∷ nodes) = record { nodes = next ∷ nodes; is_broken = false }

unfoldable pub swallow_token : TokenType → ℕ → RecoveryTree → RecoveryTree
swallow_token token states_count tree =
    if tree.is_broken
    then tree
    else if token_eq token open_brace
    then record tree {
      nodes = record { prev_states_count = states_count; type = brace } ∷ tree.nodes;
    }
    else if token_eq token close_brace
    then pop_node tree.nodes
    else tree

pub record Stream : Type 0 where
  pub current : Token
  pub ahead : List Token
  pub last : Token

unfoldable pub next_of : Stream → Stream
next_of s = elim s.ahead [
  | [] ↦ record s { current = s.last }
  | token ∷ tokens ↦ record s { current = token; ahead = tokens }
]

-- The loop of `prune_subtree`; behind the last token ahead, the next one is `END`.
unfoldable pub prune_loop : ℕ → RecoveryTree → Token → List Token → Token → RecoveryTree × Stream
unfolding swallow_token next_of
prune_loop prune_point tree token [] last =
    if token_eq token.type end
    then (tree, record { current = token; ahead = []; last = last })
    else if length tree.nodes == prune_point && token_eq token.type close_brace
    then (tree, record { current = token; ahead = []; last = last })
    else if length tree.nodes == prune_point && token_eq token.type semicolon
    then (tree, record { current = last; ahead = []; last = last })
    else (swallow_token token.type 0 tree, record { current = last; ahead = []; last = last })
prune_loop prune_point tree token (next ∷ ahead) last =
    if token_eq token.type end
    then (tree, record { current = token; ahead = next ∷ ahead; last = last })
    else if length tree.nodes == prune_point && token_eq token.type close_brace
    then (tree, record { current = token; ahead = next ∷ ahead; last = last })
    else if length tree.nodes == prune_point && token_eq token.type semicolon
    then (tree, record { current = next; ahead = ahead; last = last })
    else prune_loop prune_point (swallow_token token.type 0 tree) next ahead last

unfoldable pub prune_subtree : RecoveryTree → Stream → RecoveryTree × Stream
unfolding prune_loop
prune_subtree tree s = prune_loop (length tree.nodes) tree s.current s.ahead s.last
