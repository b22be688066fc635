-- ===== src/Syntax/Recovery/Pruning.antt =====
-- What `prune_subtree` leaves: the tree is not broken, and the nodes of before stand at its bottom.
use recursive_functions.Prelude.{
  suc, ◌+◌, ◌≡◌, ◌≢◌, refl, ap, sym, ◌∙◌, ◌⊎◌, inl, inr, Bool, true, false, ◌&&◌, List, [], ◌∷◌,
  ◌++◌, arith, ◌==◌, &&-eq-true, length, All, Bool-cases, subst,
}
use recursive_functions.Lexis.Token.{
  TokenType, end, open_brace, close_brace, semicolon, token_eq, token_eq_iff, Token,
}
use recursive_functions.Syntax.Recovery.{
  brace, RecoveryNode, RecoveryTree, pop_node, swallow_token, Stream, prune_loop, prune_subtree,
}

abbrev pub whole : List RecoveryNode → RecoveryTree
whole nodes = record { nodes = nodes; is_broken = false }

abbrev pub IsFresh : RecoveryNode → Type 0
IsFresh node = node.prev_states_count ≡ 0

-- The nodes of before are kept under some of count 0, of which there are none before the end.
abbrev pub IsPruned : List RecoveryNode → RecoveryTree × Stream → Type 0
IsPruned before (tree, s) =
    (fresh : List RecoveryNode) × (tree ≡ whole (fresh ++ before))
    × All IsFresh fresh
    × ((s.current.type ≡ end) ⊎ (fresh ≡ []))
    × (s.last.type ≡ end)

length-append : (xs ys : List RecoveryNode) → length (xs ++ ys) ≡ length xs + length ys
length-append [] ys = omega arith
length-append (x ∷ xs) ys = ap suc (length-append xs ys) ∙ omega arith

no_fresh :
    (fresh before : List RecoveryNode)
    → (length (fresh ++ before) == length before) ≡ true
    → fresh ≡ []
no_fresh [] before h = refl
no_fresh (f ∷ fresh) before h = absurd (ground (arith, length-append fresh before, h))

module _ (node : RecoveryNode) (nodes : List RecoveryNode) where
  pop_fresh :
      (f : RecoveryNode) (fresh : List RecoveryNode)
      → pop_node (f ∷ fresh ++ node ∷ nodes) ≡ whole (fresh ++ node ∷ nodes)
  pop_fresh f [] = refl
  pop_fresh f (g ∷ fresh) = refl

  -- One token that is passed over.
  swallow_token-IsFresh :
      (token : TokenType) (fresh : List RecoveryNode)
      → All IsFresh fresh
      → (length (fresh ++ node ∷ nodes) == length (node ∷ nodes) && token_eq token close_brace)
        ≡ false
      → (fresh' : List RecoveryNode) × (swallow_token token 0 (whole (fresh ++ node ∷ nodes))
          ≡ whole (fresh' ++ node ∷ nodes))
        × All IsFresh fresh'
  unfolding swallow_token
  swallow_token-IsFresh token fresh a h = elim (Bool-cases (token_eq token open_brace)) [
    | inl o ↦ (record { prev_states_count = 0; type = brace } ∷ fresh, rw o, (refl, a))
    | inr o ↦ (elim (Bool-cases (token_eq token close_brace)) [
      | inl c ↦ closed fresh a o c (ground (arith, h, c))
      | inr c ↦ (fresh, rw o (rw c), a)
    ])
  ]
    where
      closed :
          (fs : List RecoveryNode)
          → All IsFresh fs
          → token_eq token open_brace ≡ false
          → token_eq token close_brace ≡ true
          → (length (fs ++ node ∷ nodes) == length (node ∷ nodes)) ≡ false
          → (fresh' : List RecoveryNode) × (swallow_token token 0 (whole (fs ++ node ∷ nodes))
              ≡ whole (fresh' ++ node ∷ nodes))
            × All IsFresh fresh'
      closed [] a o c h = absurd (ground (arith, h))
      closed (f ∷ fs) a o c h = (fs, rw o (rw c (pop_fresh f fs)), a.1)

  prune_loop-IsPruned :
      (fresh : List RecoveryNode) (token : Token) (ahead : List Token) (last : Token)
      → All IsFresh fresh
      → last.type ≡ end
      → IsPruned
          (node ∷ nodes)
          (prune_loop (length (node ∷ nodes)) (whole (fresh ++ node ∷ nodes)) token ahead last)
  unfolding prune_loop
  prune_loop-IsPruned fresh token [] last a e = elim (Bool-cases (token_eq token.type end)) [
    | inl stop ↦ rw stop (fresh, refl, a, inl ((token_eq_iff _ _).0 stop), e)
    | inr go ↦ (elim (Bool-cases (below && token_eq token.type close_brace)) [
      | inl close ↦
          rw (go, close)
            (fresh, refl, a, inr (no_fresh fresh (node ∷ nodes) (&&-eq-true below _ close).0), e)
      | inr no_close ↦ (elim (Bool-cases (below && token_eq token.type semicolon)) [
        | inl semi ↦ rw (go, no_close, semi) (fresh, refl, a, inl e, e)
        | inr no_semi ↦
            let (fresh', q, a') = swallow_token-IsFresh token.type fresh a no_close in
            rw (go, no_close, no_semi) (fresh', q, a', inl e, e)
      ])
    ])
  ]
    where
      below : Bool
      below = length (fresh ++ node ∷ nodes) == length (node ∷ nodes)
  prune_loop-IsPruned fresh token (next ∷ ahead) last a e =
      elim (Bool-cases (token_eq token.type end)) [
        | inl stop ↦ rw stop (fresh, refl, a, inl ((token_eq_iff _ _).0 stop), e)
        | inr go ↦ (elim (Bool-cases (below && token_eq token.type close_brace)) [
          | inl close ↦
              rw (go, close)
                (
                  fresh,
                  refl,
                  a,
                  inr (no_fresh fresh (node ∷ nodes) (&&-eq-true below _ close).0),
                  e,
                )
          | inr no_close ↦ (elim (Bool-cases (below && token_eq token.type semicolon)) [
            | inl semi ↦
                rw (go, no_close, semi)
                  (
                    fresh,
                    refl,
                    a,
                    inr (no_fresh fresh (node ∷ nodes) (&&-eq-true below _ semi).0),
                    e,
                  )
            | inr no_semi ↦
                let (fresh', q, a') = swallow_token-IsFresh token.type fresh a no_close in
                rw (go, no_close, no_semi) (rw q (prune_loop-IsPruned fresh' next ahead last a' e))
          ])
        ])
      ]
    where
      below : Bool
      below = length (fresh ++ node ∷ nodes) == length (node ∷ nodes)

-- On a tree that is not broken, `prune_subtree` does not break it: the nodes of before are all there.
-- Until the end of the text they are also all there is; at the end, there may be others on them, each
-- with a count of 0 states.
pub prune_subtree-IsPruned :
    (tree : RecoveryTree) (s : Stream)
    → tree.is_broken ≡ false
    → tree.nodes ≢ []
    → s.last.type ≡ end
    → IsPruned tree.nodes (prune_subtree tree s)
unfolding prune_subtree
prune_subtree-IsPruned tree s unbroken h e =
    subst
      (λ b. IsPruned tree.nodes (
        prune_loop (length tree.nodes) (record { nodes = tree.nodes; is_broken = b }) s.current
          s.ahead s.last))
      (sym unbroken) (go tree.nodes h)
  where
    go :
        (nodes : List RecoveryNode)
        → nodes ≢ []
        → IsPruned nodes (prune_loop (length nodes) (whole nodes) s.current s.ahead s.last)
    go [] h = absurd (h refl)
    go (node ∷ nodes) h = prune_loop-IsPruned node nodes [] s.current s.ahead s.last tt e
