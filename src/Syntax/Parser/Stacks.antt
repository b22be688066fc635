-- ===== src/Syntax/Parser/Stacks.antt =====
-- The two stacks of `LRParser::parse`: without an error, there is one state more than nodes.
use recursive_functions.Prelude.{
  ℕ, suc, ◌+◌, ◌-◌, ◌≤◌, ◌<◌, ◌≡◌, ◌≢◌, refl, ap, sym, subst, ◌∙◌, ◌⊎◌, inl, inr, Bool, true, false,
  List, [], ◌∷◌, Option, none, some, arith, ltb, length, All, Bool-cases, Option-cases,
}
use recursive_functions.Lexis.Token.{
  TokenType, end, open_brace, close_brace, token_index, token_eq, Token, all_tokens,
}
use recursive_functions.Syntax.Recovery.{
  RecoveryNode, RecoveryTree, pop_node, swallow_token, Stream, next_of, prune_subtree,
}
use recursive_functions.Syntax.Recovery.Pruning.{whole, IsPruned, prune_subtree-IsPruned}
use recursive_functions.Syntax.Parser.{
  Action, reject, accept, shift, reduce, Tables, Builders, Parser, goes_on, lookup, front, drop_top,
  is_empty, resize, recover, accept_round, reject_round, expected_tokens, shift_round, reduce_nodes,
  reduce_states, reduce_round, act, round_at, round,
}
use recursive_functions.Syntax.Parser.Lengths.{length-drop_top, length-resize}

abbrev pub Counts : RecoveryNode → Type 0
Counts node = 1 ≤ node.prev_states_count

-- A tree has a node as long as it is not broken, and each node counts at least the first state.
abbrev pub IsTree : RecoveryTree → Type 0
IsTree tree = (tree.is_broken ≡ false → tree.nodes ≢ []) × All Counts tree.nodes

pub record IsBalanced {Node Context : Type 0} (p : Parser Node Context) : Type 0 where
  pub states : 0 < length p.states
  pub nodes : is_empty p.errors ≡ true → length p.nodes + 1 ≡ length p.states
  pub tree : IsTree p.tree
  pub last : p.stream.last.type ≡ end

whole-IsTree :
    (node : RecoveryNode) (nodes : List RecoveryNode)
    → All Counts (node ∷ nodes)
    → IsTree (whole (node ∷ nodes))
whole-IsTree node nodes counts = (λ b d. absurd (cc), counts)

pop_node-IsTree : (nodes : List RecoveryNode) → All Counts nodes → IsTree (pop_node nodes)
pop_node-IsTree [] a = (λ e. absurd (cc), tt)
pop_node-IsTree (node ∷ []) a = (λ e. absurd (cc), tt)
pop_node-IsTree (node ∷ next ∷ nodes) a = (λ e d. absurd (cc), a.1)

swallow_token-IsTree :
    (token : TokenType) (n : ℕ) (nodes : List RecoveryNode) (b : Bool)
    → 1 ≤ n
    → IsTree (record { nodes = nodes; is_broken = b })
    → IsTree (swallow_token token n (record { nodes = nodes; is_broken = b }))
unfolding swallow_token
swallow_token-IsTree token n nodes true h t = t
swallow_token-IsTree token n nodes false h t = elim (Bool-cases (token_eq token open_brace)) [
  | inl o ↦ rw o (λ e d. absurd (cc), (h, t.1))
  | inr o ↦ (elim (Bool-cases (token_eq token close_brace)) [
    | inl c ↦ rw (o, c) (pop_node-IsTree nodes t.1)
    | inr c ↦ rw (o, c) t
  ])
]

next_of-last :
    (current : Token) (ahead : List Token) (last : Token)
    → (next_of (record { current = current; ahead = ahead; last = last })).last ≡ last
unfolding next_of
next_of-last current [] last = refl
next_of-last current (token ∷ tokens) last = refl

reduce_states-length :
    (tables : Tables) (next n : ℕ) (states : List ℕ) {result : List ℕ}
    → reduce_states tables next n states ≡ some result
    → (n < length states) × (length result ≡ length states - n + 1)
unfolding reduce_states
reduce_states-length tables next n states {result} h = elim (Bool-cases (ltb (length states) n)) [
  | inl u ↦ absurd (ground (arith, u, h))
  | inr u ↦ go (drop_top n states) (length-drop_top n states) (rw u at h)
]
  where
    go :
        (rest : List ℕ)
        → length rest ≡ length states - n
        → (elim rest [
          | [] ↦ none
          | state ∷ others ↦ elim (lookup tables.goto state next) [
            | none ↦ none
            | some target ↦ some (target ∷ state ∷ others)
          ]
        ])
          ≡ some result
        → (n < length states) × (length result ≡ length states - n + 1)
    go [] e q = absurd (cc)
    go (state ∷ others) e q = elim (Option-cases (lookup tables.goto state next)) [
      | inl none_ ↦ let q' = rw none_ at q in absurd (cc)
      | inr (target, found) ↦
          let q' = rw found at q in
          let same : ◌≡◌ {A = List ℕ} (target ∷ state ∷ others) result = cc in
          (omega (arith, e), ap length (sym same) ∙ omega (arith, e))
    ]

some_inj {ℓ} : {A : Type ℓ} {x y : A} → some x ≡ some y → x ≡ y
some_inj h = cc

goes_on_inj : {Node Context : Type 0} {p q : Parser Node Context} → goes_on p ≡ goes_on q → p ≡ q
goes_on_inj h = cc

module _ {Node Context : Type 0} (tables : Tables) (builders : Builders Node Context) where
  abbrev pub with_error : ℕ → Parser Node Context → Parser Node Context
  with_error state p = record p {
    errors =
        record { token = p.stream.current; expected = expected_tokens tables state all_tokens }
        ∷ p.errors;
  }

  -- The parser behind a recovery, from what the pruning gave.
  abbrev pub recovered : ℕ → Parser Node Context → RecoveryTree × Stream → Parser Node Context
  recovered n p (tree, stream) = record p {
    states = resize n p.states;
    nodes = [];
    tree = tree;
    stream = stream;
  }

  -- A rejection in a state leads from p to q: the error is recorded, the stacks are cut at the topmost
  -- node of the tree, and the pruning has passed over the tokens up to the end of the text.
  abbrev pub PrunesToEnd : ℕ → Parser Node Context → Parser Node Context → Type 0
  PrunesToEnd state p q =
      (node : RecoveryNode) × (nodes : List RecoveryNode) × (p.tree.nodes ≡ node ∷ nodes)
      × (q ≡ recovered node.prev_states_count (with_error state p) (prune_subtree p.tree p.stream))
      × (q.stream.current.type ≡ end)
      × (0 < length q.states)

  -- The state on the top rejects the token, and the recovery reaches the end of the text.
  abbrev pub HasRecoveredAtEnd : Parser Node Context → Parser Node Context → Type 0
  HasRecoveredAtEnd p q =
      (state : ℕ) × (states : List ℕ) × (p.states ≡ state ∷ states)
      × (lookup tables.actions state (token_index p.stream.current.type) ≡ some reject)
      × PrunesToEnd state p q

  shift_round-IsBalanced :
      (next_state : ℕ) (p q : Parser Node Context)
      → IsBalanced p
      → shift_round builders next_state p ≡ goes_on q
      → IsBalanced q
  unfolding shift_round
  shift_round-IsBalanced next_state p q v h = subst IsBalanced (goes_on_inj h) (record {
    states = omega arith;
    nodes = λ e. rw e (omega (arith, v.nodes e));
    tree =
        swallow_token-IsTree p.stream.current.type (suc (length p.states)) p.tree.nodes
          p.tree.is_broken (omega arith) v.tree;
    last = ap (λ t. t.type) (next_of-last p.stream.current p.stream.ahead p.stream.last) ∙ v.last;
  })

  reduce_nodes-length :
      (n production_index : ℕ) (p : Parser Node Context) {result : List Node × Context}
      → is_empty p.errors ≡ true
      → reduce_nodes builders n production_index p ≡ some result
      → length result.0 ≡ length p.nodes - n + 1
  unfolding reduce_nodes
  reduce_nodes-length n production_index p {result} e h =
      elim (Bool-cases (ltb (length p.nodes) n)) [
        | inl u ↦ let h' = rw (reduce_nodes, e, u) at h in absurd (cc)
        | inr u ↦
            let h' = rw (reduce_nodes, e, u) at h in
            subst (λ r. length r.0 ≡ length p.nodes - n + 1) (some_inj h')
              (ap suc (length-drop_top n p.nodes) ∙ omega arith)
      ]

  reduce_round-IsBalanced :
      (next n production_index : ℕ) (p q : Parser Node Context)
      → IsBalanced p
      → reduce_round tables builders next n production_index p ≡ goes_on q
      → IsBalanced q
  unfolding reduce_round
  reduce_round-IsBalanced next n production_index p q v h =
      elim (Option-cases (reduce_nodes builders n production_index p)) [
        | inl none_ ↦ let h' = rw (reduce_round, none_) at h in absurd (cc)
        | inr (made, built) ↦ (elim (Option-cases (reduce_states tables next n p.states)) [
          | inl none_ ↦ let h' = rw (reduce_round, built, none_) at h in absurd (cc)
          | inr (states, found) ↦
              let h' = rw (reduce_round, built, found) at h in
              let (fits, long) = reduce_states-length tables next n p.states found in
              subst IsBalanced (goes_on_inj h') (record {
                states = omega (arith, long);
                nodes = λ e.
                    let short = reduce_nodes-length n production_index p e built in
                    omega (arith, short, long, v.nodes e, fits);
                tree = v.tree;
                last = v.last;
              })
        ])
      ]

  recovered-IsBalanced :
      (p : Parser Node Context) (node : RecoveryNode) (nodes : List RecoveryNode)
      (result : RecoveryTree × Stream)
      → is_empty p.errors ≡ false
      → All Counts (node ∷ nodes)
      → IsPruned (node ∷ nodes) result
      → IsBalanced (recovered node.prev_states_count p result) ⊎ (result.1.current.type ≡ end)
  recovered-IsBalanced p node nodes (tree, stream) errors counts
        (fresh, e, zeros, inl at_end, last) =
      inr at_end
  recovered-IsBalanced p node nodes (tree, stream) errors counts
        (fresh, e, zeros, inr none_, last) =
      inl (record {
        states = omega (arith, counts.0, length-resize node.prev_states_count p.states);
        nodes = λ d. absurd (cc);
        tree = subst IsTree (sym (e ∙ rw none_)) (whole-IsTree node nodes counts);
        last = last;
      })

  recover-IsBalanced :
      (state : ℕ) (p q : Parser Node Context) (node : RecoveryNode) (nodes : List RecoveryNode)
      → p.stream.last.type ≡ end
      → p.tree.is_broken ≡ false
      → p.tree.nodes ≡ node ∷ nodes
      → All Counts (node ∷ nodes)
      → recover (with_error state p) node ≡ goes_on q
      → IsBalanced q ⊎ PrunesToEnd state p q
  unfolding recover
  recover-IsBalanced state p q node nodes last unbroken top counts h =
      let result = prune_subtree p.tree p.stream in
      let pruned =
        subst (λ ns. IsPruned ns result) top
          (prune_subtree-IsPruned p.tree p.stream unbroken (λ d. absurd (cc)) last) in
      let whole_ : result.0.is_broken ≡ false = ap (λ t. t.is_broken) pruned.1 in
      let h' = rw (recover, whole_) at h in
      let after = recovered node.prev_states_count (with_error state p) result in
      let same : after ≡ q = goes_on_inj h' in
      let long : 0 < length after.states =
        omega (arith, counts.0, length-resize node.prev_states_count p.states) in
      subst (λ x. IsBalanced x ⊎ PrunesToEnd state p x) same
        (elim (recovered-IsBalanced (with_error state p) node nodes result refl counts pruned) [
          | inl v ↦ inl v
          | inr at_end ↦ inr (node, nodes, top, refl, at_end, long)
        ])

  reject_round-IsBalanced :
      (state : ℕ) (p q : Parser Node Context)
      → IsBalanced p
      → reject_round tables state p ≡ goes_on q
      → IsBalanced q ⊎ PrunesToEnd state p q
  unfolding reject_round
  reject_round-IsBalanced state p q v h = elim (Bool-cases p.tree.is_broken) [
    | inl b ↦ let h' = rw (reject_round, b) at h in absurd (cc)
    | inr b ↦ go p.tree.nodes refl b
  ]
    where
      go :
          (nodes : List RecoveryNode)
          → p.tree.nodes ≡ nodes
          → p.tree.is_broken ≡ false
          → IsBalanced q ⊎ PrunesToEnd state p q
      go [] e b = absurd (v.tree.0 b e)
      go (node ∷ nodes) e b =
          let h' = rw (reject_round, b, e) at h in
          recover-IsBalanced state p q node nodes v.last b e (subst (All Counts) e v.tree.1) h'

  accept_round-stops : (p q : Parser Node Context) → accept_round p ≡ goes_on q → ⊥
  unfolding accept_round
  accept_round-stops p q h = elim (Bool-cases (is_empty p.errors)) [
    | inl e ↦ (elim (Option-cases (front p.nodes)) [
      | inl none_ ↦ let h' = rw (accept_round, e, none_) at h in absurd (cc)
      | inr (node, found) ↦ let h' = rw (accept_round, e, found) at h in absurd (cc)
    ])
    | inr e ↦ let h' = rw (accept_round, e) at h in absurd (cc)
  ]

  act-IsBalanced :
      (state : ℕ) (a : Option Action) (p q : Parser Node Context)
      → IsBalanced p
      → act tables builders state a p ≡ goes_on q
      → IsBalanced q ⊎ ((a ≡ some reject) × PrunesToEnd state p q)
  act-IsBalanced state none p q v h = absurd (cc)
  act-IsBalanced state (some accept) p q v h = absurd (accept_round-stops p q h)
  act-IsBalanced state (some reject) p q v h = elim (reject_round-IsBalanced state p q v h) [
    | inl w ↦ inl w
    | inr w ↦ inr (refl, w)
  ]
  act-IsBalanced state (some (shift next_state)) p q v h =
      inl (shift_round-IsBalanced next_state p q v h)
  act-IsBalanced state (some (reduce next n production_index)) p q v h =
      inl (reduce_round-IsBalanced next n production_index p q v h)

  round_at-IsBalanced :
      (states : List ℕ) (p q : Parser Node Context)
      → p.states ≡ states
      → IsBalanced p
      → round_at tables builders p states ≡ goes_on q
      → IsBalanced q ⊎ HasRecoveredAtEnd p q
  unfolding round_at
  round_at-IsBalanced [] p q e v h = absurd (cc)
  round_at-IsBalanced (state ∷ states) p q e v h =
      let action = lookup tables.actions state (token_index p.stream.current.type) in
      elim (act-IsBalanced state action p q v h) [
        | inl w ↦ inl w
        | inr (rejected, w) ↦ inr (state, states, e, rejected, w)
      ]

  -- A round that goes on keeps the balance: there is a state, and without an error one more than
  -- nodes; the tree has a node unless it is broken, each node counts at least one state, and the
  -- stream goes on with END. The only exception is a round in which the state on the top rejects the
  -- token and the recovery reaches the end of the text: it records the error, leaves no nodes, cuts
  -- the states at the topmost node of the tree, of which one at least is left, and has the tree and
  -- the stream that the pruning gives.
  pub round-IsBalanced :
      (p q : Parser Node Context)
      → IsBalanced p
      → round tables builders p ≡ goes_on q
      → IsBalanced q ⊎ HasRecoveredAtEnd p q
  unfolding round
  round-IsBalanced p q v h = round_at-IsBalanced p.states p q refl v h

  -- In a balanced parser, a reduction for which there are enough states finds enough nodes.
  pub reduce_nodes_total :
      (next n production_index : ℕ) (p : Parser Node Context) {states : List ℕ}
      → IsBalanced p
      → reduce_states tables next n p.states ≡ some states
      → reduce_nodes builders n production_index p ≢ none
  unfolding reduce_nodes
  reduce_nodes_total next n production_index p v h none_ = elim (Bool-cases (is_empty p.errors)) [
    | inr e ↦ let h' = rw (reduce_nodes, e) at none_ in absurd (cc)
    | inl e ↦
        let (fits, long) = reduce_states-length tables next n p.states h in
        let enough : ltb (length p.nodes) n ≡ false = ground (arith, fits, v.nodes e) in
        let h' = rw (reduce_nodes, e, enough) at none_ in absurd (cc)
  ]
