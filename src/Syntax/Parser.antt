-- ===== src/Syntax/Parser.antt =====
-- src/syntax/lr/LRParser.cpp: the loop of `LRParser::parse`, one step for each of its rounds. The head
-- of a stack is its back. The tables are given, and so are the builders of the nodes.
mod Lengths
pub mod Stacks
pub mod Hanging
use recursive_functions.Prelude.{
  ℕ, zero, suc, ◌+◌, ◌-◌, Bool, true, false, List, [], ◌∷◌, ◌++◌, Option, none, some, ◌==◌, ltb,
  leb, if◌then◌else◌, length, get_elem?, replicate,
}
use recursive_functions.Sources.Location.{SourceRange, empty_at, merge}
use recursive_functions.Lexis.Token.{TokenType, token_index, all_tokens, Token}
use recursive_functions.Syntax.Recovery.{
  RecoveryNode, RecoveryTree, first_tree, swallow_token, Stream, next_of, prune_subtree,
}

pub data Action : Type 0 where
  reject accept : Action
  reduce : (next remove_count production_index : ℕ) → Action
  shift : (next_state : ℕ) → Action

pub record Tables : Type 0 where
  pub actions : List (List Action)
  pub goto : List (List ℕ)

-- `builders`, over the nodes and the state of the context of the construction.
pub record Builders (Node Context : Type 0) : Type 0 where
  pub token_node : Token → Node
  pub build : ℕ → Context → SourceRange → List Node → Node × Context
  pub source_range : Node → SourceRange

-- What an error message is made of.
pub record SyntaxError : Type 0 where
  pub token : Token
  pub expected : List TokenType

pub record Parser (Node Context : Type 0) : Type 0 where
  pub states : List ℕ
  pub nodes : List Node
  pub errors : List SyntaxError
  pub tree : RecoveryTree
  pub stream : Stream
  pub context : Context

-- What a round does: the loop goes on, or it is left with the root, or without one. A `fault` is an
-- access outside of a stack or of a table.
pub data Round (Node Context : Type 0) : Type 0 where
  goes_on : Parser Node Context → Round Node Context
  accepted : Option Node → Parser Node Context → Round Node Context
  stopped : Parser Node Context → Round Node Context
  fault : Round Node Context

abbrev pub lookup {ℓ} : {A : Type ℓ} → List (List A) → ℕ → ℕ → Option A
lookup table i j = elim (get_elem? table i) [ none ↦ none | some row ↦ get_elem? row j ]

abbrev pub is_reject : Option Action → Bool
is_reject (some reject) = true
is_reject _ = false

-- The tokens with another action than reject.
unfoldable pub expected_tokens : Tables → ℕ → List TokenType → List TokenType
expected_tokens tables state [] = []
expected_tokens tables state (t ∷ ts) =
    let rest = expected_tokens tables state ts in
    if is_reject (lookup tables.actions state (token_index t)) then rest else t ∷ rest

-- The top n elements, the topmost first, and the others.
abbrev pub take_top {ℓ} : {A : Type ℓ} → ℕ → List A → List A
take_top zero xs = []
take_top (suc n) [] = []
take_top (suc n) (x ∷ xs) = x ∷ take_top n xs

abbrev pub drop_top {ℓ} : {A : Type ℓ} → ℕ → List A → List A
drop_top zero xs = xs
drop_top (suc n) [] = []
drop_top (suc n) (x ∷ xs) = drop_top n xs

-- `states_stack.resize(n)`, which fills up with zeros.
unfoldable pub resize : ℕ → List ℕ → List ℕ
resize n states =
    if leb n (length states)
    then drop_top (length states - n) states
    else replicate (n - length states) 0 ++ states

abbrev pub reversed {ℓ} : {A : Type ℓ} → List A → List A → List A
reversed [] acc = acc
reversed (x ∷ xs) acc = reversed xs (x ∷ acc)

abbrev pub is_empty {ℓ} : {A : Type ℓ} → List A → Bool
is_empty [] = true
is_empty (x ∷ xs) = false

-- `nodes_stack.front()`, which is not checked.
abbrev pub front {ℓ} : {Node : Type ℓ} → List Node → Option Node
front [] = none
front (node ∷ []) = some node
front (node ∷ next ∷ nodes) = front (next ∷ nodes)

-- The states after a reduction. The goto of a state that the stack does not have is a fault.
unfoldable pub reduce_states : Tables → ℕ → ℕ → List ℕ → Option (List ℕ)
reduce_states tables next remove_count states =
    if ltb (length states) remove_count then none else (elim (drop_top remove_count states) [
      | [] ↦ none
      | state ∷ rest ↦ elim (lookup tables.goto state next) [
        | none ↦ none
        | some target ↦ some (target ∷ state ∷ rest)
      ]
    ])

module _ {Node Context : Type 0} where
  unfoldable pub accept_round : Parser Node Context → Round Node Context
  accept_round p =
      if is_empty p.errors
      then (elim (front p.nodes) [ none ↦ fault | some node ↦ accepted (some node) p ])
      else accepted none p

  -- The stacks are cut, and the tokens up to the end of the subtree are passed over.
  unfoldable pub recover : Parser Node Context → RecoveryNode → Round Node Context
  unfolding resize prune_subtree
  recover p node =
      let (tree, stream) = prune_subtree p.tree p.stream in
      let q = record p {
        states = resize node.prev_states_count p.states;
        nodes = [];
        tree = tree;
        stream = stream;
      } in
      if tree.is_broken then stopped q else goes_on q

  unfoldable pub reject_round : Tables → ℕ → Parser Node Context → Round Node Context
  unfolding recover expected_tokens
  reject_round tables state p =
      let e : SyntaxError = record {
        token = p.stream.current;
        expected = expected_tokens tables state all_tokens;
      } in
      let q = record p { errors = e ∷ p.errors } in
      if p.tree.is_broken
      then stopped q
      else (elim p.tree.nodes [ [] ↦ fault | node ∷ nodes ↦ recover q node ])

  unfoldable pub shift_round : Builders Node Context → ℕ → Parser Node Context → Round Node Context
  unfolding swallow_token next_of
  shift_round builders next_state p = goes_on (record p {
    states = next_state ∷ p.states;
    nodes = if is_empty p.errors then builders.token_node p.stream.current ∷ p.nodes else p.nodes;
    tree = swallow_token p.stream.current.type (length (next_state ∷ p.states)) p.tree;
    stream = next_of p.stream;
  })

  -- The range of a new node: from its first child to its last, or empty.
  abbrev pub children_range : Builders Node Context → List Node → Token → SourceRange
  children_range builders children token = elim (children) [
    | [] ↦ empty_at token.source_range.begin
    | child ∷ others ↦ elim (front (child ∷ others)) [
      | none ↦ empty_at token.source_range.begin
      | some last ↦ merge (builders.source_range child) (builders.source_range last)
    ]
  ]

  -- The nodes and the context after a reduction; the children are in the order of the text.
  unfoldable pub reduce_nodes :
      Builders Node Context → ℕ → ℕ → Parser Node Context → Option (List Node × Context)
  reduce_nodes builders remove_count production_index p =
      if is_empty p.errors
      then (if ltb (length p.nodes) remove_count
          then none
          else (let children = reversed (take_top remove_count p.nodes) [] in
              let (node, context) =
                builders.build production_index p.context
                  (children_range builders children p.stream.current) children in
              some (node ∷ drop_top remove_count p.nodes, context)))
      else some (p.nodes, p.context)

  unfoldable pub reduce_round :
      Tables → Builders Node Context → ℕ → ℕ → ℕ → Parser Node Context → Round Node Context
  unfolding reduce_nodes reduce_states
  reduce_round tables builders next remove_count production_index p =
      elim (reduce_nodes builders remove_count production_index p) [
        | none ↦ fault
        | some (nodes, context) ↦ elim (reduce_states tables next remove_count p.states) [
          | none ↦ fault
          | some states ↦ goes_on (record p { states = states; nodes = nodes; context = context })
        ]
      ]

  abbrev pub act :
      Tables → Builders Node Context → ℕ → Option Action → Parser Node Context → Round Node Context
  act tables builders state none p = fault
  act tables builders state (some accept) p = accept_round p
  act tables builders state (some reject) p = reject_round tables state p
  act tables builders state (some (shift next_state)) p = shift_round builders next_state p
  act tables builders state (some (reduce next remove_count production_index)) p =
      reduce_round tables builders next remove_count production_index p

  -- The round at the stack of states.
  unfoldable pub round_at :
      Tables → Builders Node Context → Parser Node Context → List ℕ → Round Node Context
  unfolding accept_round reject_round shift_round reduce_round
  round_at tables builders p [] = fault
  round_at tables builders p (state ∷ states) =
      act tables builders state (lookup tables.actions state (token_index p.stream.current.type)) p

  unfoldable pub round : Tables → Builders Node Context → Parser Node Context → Round Node Context
  unfolding round_at
  round tables builders p = round_at tables builders p p.states

  -- The loop; `none` means that the fuel ran out.
  unfoldable pub parse_loop :
      ℕ → Tables → Builders Node Context → Parser Node Context → Option (Round Node Context)
  unfolding round
  parse_loop zero tables builders p = none
  parse_loop (suc fuel) tables builders p = elim (round tables builders p) [
    | goes_on q ↦ parse_loop fuel tables builders q
    | accepted root q ↦ some (accepted root q)
    | stopped q ↦ some (stopped q)
    | fault ↦ some fault
  ]

  -- The state before the first round; `stream` stands at the first token.
  abbrev pub first_parser : Stream → Context → Parser Node Context
  first_parser stream context = record {
    states = 0 ∷ [];
    nodes = [];
    errors = [];
    tree = first_tree;
    stream = stream;
    context = context;
  }
