-- ===== src/Syntax/Parser/Hanging.antt =====
-- Where the loop of `LRParser::parse` never ends: an error at the end of the text, or at a closing
-- brace, at which `prune_subtree` passes over nothing.
use recursive_functions.Prelude.{
  ℕ, zero, suc, ◌≡◌, refl, ap, ◌∙◌, ◌⊎◌, inl, inr, true, false, List, [], ◌∷◌, none, some, arith,
  ==_refl, length, Bool-cases,
}
use recursive_functions.Lexis.Token.{
  TokenType, end, close_brace, token_index, token_eq, token_eq_iff, Token, all_tokens,
}
use recursive_functions.Syntax.Recovery.{
  RecoveryNode, RecoveryTree, Stream, prune_loop, prune_subtree,
}
use recursive_functions.Syntax.Recovery.Pruning.{whole, IsFresh}
use recursive_functions.Syntax.Parser.Lengths.{length-resize, resize-length}
use recursive_functions.Syntax.Parser.{
  reject, expected_tokens, Tables, Builders, Parser, goes_on, fault, lookup, resize, recover,
  reject_round, act, round_at, round, parse_loop,
}

-- The tokens at which `prune_subtree` stops at once.
abbrev pub Stops : TokenType → Type 0
Stops t = (t ≡ end) ⊎ (t ≡ close_brace)

Stops-token_eq :
    (t : TokenType)
    → Stops t
    → (token_eq t end ≡ true) ⊎ ((token_eq t end ≡ false) × (token_eq t close_brace ≡ true))
Stops-token_eq t (inl e) = inl ((token_eq_iff t end).1 e)
Stops-token_eq t (inr e) = elim (Bool-cases (token_eq t end)) [
  | inl h ↦ inl h
  | inr h ↦ inr (h, (token_eq_iff t close_brace).1 e)
]

prune_loop-Stops :
    (nodes : List RecoveryNode) (token : Token) (ahead : List Token) (last : Token)
    → Stops token.type
    → prune_loop (length nodes) (whole nodes) token ahead last
      ≡ (whole nodes, record { current = token; ahead = ahead; last = last })
unfolding prune_loop
prune_loop-Stops nodes token [] last at = elim (Stops-token_eq token.type at) [
  | inl e ↦ rw e
  | inr (n, c) ↦ rw (n, ==_refl (length nodes)) (rw c)
]
prune_loop-Stops nodes token (next ∷ ahead) last at = elim (Stops-token_eq token.type at) [
  | inl e ↦ rw e
  | inr (n, c) ↦ rw (n, ==_refl (length nodes)) (rw c)
]

prune_subtree-Stops :
    (tree : RecoveryTree) (nodes : List RecoveryNode) (s : Stream)
    → tree ≡ whole nodes
    → Stops s.current.type
    → prune_subtree tree s ≡ (whole nodes, s)
unfolding prune_subtree
prune_subtree-Stops tree nodes s e at = rw e (prune_loop-Stops nodes s.current s.ahead s.last at)

module _ {Node Context : Type 0} (tables : Tables) (builders : Builders Node Context) where
  -- The topmost state has no action at the token.
  abbrev pub Rejects : List ℕ → TokenType → Type 0
  Rejects [] t = ⊥
  Rejects (state ∷ states) t = lookup tables.actions state (token_index t) ≡ some reject

  -- The parser has met an error that it cannot leave: the topmost state rejects the token, now and
  -- behind the stack's cut to the count of the topmost node.
  pub record IsStuck (p : Parser Node Context) : Type 0 where
    pub node : RecoveryNode
    pub nodes : List RecoveryNode
    pub tree : p.tree ≡ whole (node ∷ nodes)
    pub token : Stops p.stream.current.type
    pub now : Rejects p.states p.stream.current.type
    pub later : Rejects (resize node.prev_states_count p.states) p.stream.current.type

  Rejects-top :
      (states : List ℕ) (t : TokenType)
      → Rejects states t
      → (state : ℕ) × (rest : List ℕ) × (states ≡ state ∷ rest)
        × (lookup tables.actions state (token_index t) ≡ some reject)
  Rejects-top [] t h = absurd h
  Rejects-top (state ∷ rest) t h = (state, rest, refl, h)

  -- The parser behind the recovery from an error in a state.
  abbrev behind : ℕ → RecoveryNode → List RecoveryNode → Parser Node Context → Parser Node Context
  behind state node nodes p = record {
    states = resize node.prev_states_count p.states;
    nodes = [];
    errors =
        record { token = p.stream.current; expected = expected_tokens tables state all_tokens }
        ∷ p.errors;
    tree = whole (node ∷ nodes);
    stream = p.stream;
    context = p.context;
  }

  recover-Stops :
      (p : Parser Node Context) (node : RecoveryNode) (nodes : List RecoveryNode)
      → p.tree ≡ whole (node ∷ nodes)
      → Stops p.stream.current.type
      → recover p node
        ≡ goes_on (record p {
          states = resize node.prev_states_count p.states;
          nodes = [];
          tree = whole (node ∷ nodes);
        })
  unfolding recover
  recover-Stops p node nodes e at =
      rw (recover, prune_subtree-Stops p.tree (node ∷ nodes) p.stream e at)

  reject_round-Stops :
      (state : ℕ) (p : Parser Node Context) (node : RecoveryNode) (nodes : List RecoveryNode)
      → p.tree ≡ whole (node ∷ nodes)
      → Stops p.stream.current.type
      → reject_round tables state p ≡ goes_on (behind state node nodes p)
  unfolding reject_round
  reject_round-Stops state p node nodes e at =
      rw (reject_round, e)
        (recover-Stops
          (record p {
            errors =
                record {
                  token = p.stream.current;
                  expected = expected_tokens tables state all_tokens;
                }
                ∷ p.errors;
          })
          node nodes e at)

  round-IsStuck :
      (p : Parser Node Context)
      → IsStuck p
      → (q : Parser Node Context) × (round tables builders p ≡ goes_on q) × IsStuck q
  unfolding round round_at
  round-IsStuck p stuck =
      let (state, rest, top, rejects) = Rejects-top p.states p.stream.current.type stuck.now in
      let cut = resize stuck.node.prev_states_count p.states in
      (
        behind state stuck.node stuck.nodes p,
        ap (round_at tables builders p) top
            ∙ ap (λ a. act tables builders state a p) rejects
            ∙ reject_round-Stops state p stuck.node stuck.nodes stuck.tree stuck.token,
        record {
          node = stuck.node;
          nodes = stuck.nodes;
          tree = refl;
          token = stuck.token;
          now = stuck.later;
          later =
              rw
                (resize-length stuck.node.prev_states_count cut
                  (length-resize stuck.node.prev_states_count p.states))
                stuck.later;
        },
      )

  -- From an error that the parser cannot leave, the loop has no end, whatever the fuel.
  pub parse_loop-IsStuck :
      (fuel : ℕ) (p : Parser Node Context) → IsStuck p → parse_loop fuel tables builders p ≡ none
  unfolding parse_loop
  parse_loop-IsStuck zero p stuck = refl
  parse_loop-IsStuck (suc fuel) p stuck =
      let (q, e, stuck') = round-IsStuck p stuck in
      rw (parse_loop, e) (parse_loop-IsStuck fuel q stuck')

  emptied : (states : List ℕ) → length states ≡ 0 → states ≡ []
  emptied [] e = refl
  emptied (state ∷ states) e = absurd (omega arith)

  -- Where the topmost node of the tree counts no state, as `prune_subtree` may leave it at the end of
  -- the text, an error empties the stack of states, and the next round reads its top: a fault.
  pub parse_loop-IsFresh :
      (fuel : ℕ) (p : Parser Node Context) (node : RecoveryNode) (nodes : List RecoveryNode)
      → p.tree ≡ whole (node ∷ nodes)
      → IsFresh node
      → Stops p.stream.current.type
      → Rejects p.states p.stream.current.type
      → parse_loop (suc (suc fuel)) tables builders p ≡ some fault
  unfolding parse_loop round round_at
  parse_loop-IsFresh fuel p node nodes tree zero_ at now =
      let (state, rest, top, rejects) = Rejects-top p.states p.stream.current.type now in
      let first : round tables builders p ≡ goes_on (behind state node nodes p) =
        ap (round_at tables builders p) top
        ∙ ap (λ a. act tables builders state a p) rejects
        ∙ reject_round-Stops state p node nodes tree at in
      let gone : resize node.prev_states_count p.states ≡ [] =
        emptied _ (length-resize node.prev_states_count p.states ∙ zero_) in
      let second : round tables builders (behind state node nodes p) ≡ fault =
        ap (round_at tables builders (behind state node nodes p)) gone in
      rw (parse_loop, first) (rw (parse_loop, second))
