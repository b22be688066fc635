-- ===== src/Tests/Syntax.antt =====
-- Sets of tokens, and a parser on a text that ends behind an open brace, which its tables reject there.
use recursive_functions.Prelude.{
  false, ℕ, ◌≡◌, ◌≢◌, refl, ◌⊎◌, inl, [], ◌∷◌, none, some, arith, replicate,
}
use recursive_functions.Sources.Location.{empty_at}
use recursive_functions.Lexis.Token.{TokenType, end, identifier, open_brace, Token, token_index}
use recursive_functions.Syntax.TokensBitset.{no_tokens, contains}
use recursive_functions.Syntax.Recovery.{brace, first_tree, Stream, prune_subtree}
use recursive_functions.Syntax.Recovery.Pruning.{whole, IsPruned, prune_subtree-IsPruned}
use recursive_functions.Syntax.Parser.{
  reject, shift, Tables, Builders, Parser, goes_on, fault, first_parser, resize, round,
  reduce_states, reduce_nodes, parse_loop,
}
use recursive_functions.Syntax.Parser.Stacks.{
  IsBalanced, HasRecoveredAtEnd, round-IsBalanced, reduce_nodes_total,
}
use recursive_functions.Syntax.Parser.Hanging.{IsStuck, parse_loop-IsStuck, parse_loop-IsFresh}

abbrev token : TokenType → Token
token t = record { type = t; source_range = empty_at (record { file_id = 0; pos_id = 0 }) }

-- Each token is a node, and nothing is built but a copy of an identifier.
abbrev builders : Builders Token ℕ
builders = record {
  token_node = λ t. t;
  build = λ production context range children. (token identifier, context);
  source_range = λ t. t.source_range;
}

-- Each token is shifted in the state 0, and rejected in the state 1.
abbrev tables : Tables
tables = record {
  actions = replicate 60 (shift 1) ∷ replicate 60 reject ∷ [];
  goto = (1 ∷ []) ∷ [];
}

-- `{`, and the end of the text.
abbrev open_text : Stream
open_text = record { current = token open_brace; ahead = []; last = token end }

abbrev start : Parser Token ℕ
start = first_parser open_text 0

start-IsBalanced : IsBalanced start
start-IsBalanced = record {
  states = omega arith;
  nodes = λ e. refl;
  tree = (λ e d. absurd (cc), (omega arith, tt));
  last = refl;
}

-- The parser behind the open brace, at the end of the text.
abbrev behind_brace : Parser Token ℕ
behind_brace = record {
  states = 1 ∷ 0 ∷ [];
  nodes = token open_brace ∷ [];
  errors = [];
  tree = whole (record { prev_states_count = 2; type = brace } ∷ first_tree.nodes);
  stream = record { current = token end; ahead = []; last = token end };
  context = 0;
}

first_round : round tables builders start ≡ goes_on behind_brace
unfolding round token_index
first_round = refl

behind_brace-IsStuck : IsStuck tables builders behind_brace
unfolding resize token_index
behind_brace-IsStuck = record {
  node = record { prev_states_count = 2; type = brace };
  nodes = first_tree.nodes;
  tree = refl;
  token = inl refl;
  now = refl;
  later = refl;
}

parse_loop-IsStuck_example : parse_loop 1000 tables builders behind_brace ≡ none
parse_loop-IsStuck_example =
    parse_loop-IsStuck tables builders 1000 behind_brace behind_brace-IsStuck

round-IsBalanced_example :
    IsBalanced behind_brace ⊎ HasRecoveredAtEnd tables builders start behind_brace
round-IsBalanced_example =
    round-IsBalanced tables builders start behind_brace start-IsBalanced first_round

two_states : reduce_states tables 0 0 (0 ∷ []) ≡ some (1 ∷ 0 ∷ [])
unfolding reduce_states
two_states = refl

reduce_nodes_total_example : reduce_nodes builders 0 5 start ≢ none
reduce_nodes_total_example =
    reduce_nodes_total tables builders 0 0 5 start start-IsBalanced two_states

prune_subtree-IsPruned_example : IsPruned first_tree.nodes (prune_subtree first_tree open_text)
prune_subtree-IsPruned_example =
    prune_subtree-IsPruned first_tree open_text refl (λ e. absurd (cc)) refl

-- The parser of the rejected end, with a node on its tree that counts no state.
abbrev behind_pruning : Parser Token ℕ
behind_pruning = record behind_brace {
  tree = whole (record { prev_states_count = 0; type = brace } ∷ first_tree.nodes);
}

parse_loop-IsFresh_example : parse_loop 7 tables builders behind_pruning ≡ some fault
unfolding token_index
parse_loop-IsFresh_example =
    parse_loop-IsFresh tables builders 5 behind_pruning
      (record { prev_states_count = 0; type = brace }) first_tree.nodes refl refl (inl refl) refl

no_end : contains no_tokens end ≡ some false
unfolding contains token_index
no_end = refl
