-- ===== src/Lexis/Compact/Mapping.antt =====
-- What the first loop of the compaction records about each state.
use recursive_functions.Prelude.{
  ℕ, zero, suc, ◌+◌, ◌-◌, ◌<◌, ◌≡◌, refl, ◌⊎◌, inl, inr, true, List, [], ◌∷◌, ◌++◌, Option, none,
  some, arith, length, get_elem?, get_elem?-append_left, get_elem?-append_at, length-snoc,
  Option-cases, All, All-snoc,
}
use recursive_functions.Lexis.Token.{TokenType}
use recursive_functions.Lexis.Jump.{
  Jump, next_state, finish, reject, jump_eq_sound, JumpTable, Table,
}
use recursive_functions.Lexis.WellFormed.{Consumes}
use recursive_functions.Lexis.Compact.{all_equal, can_compact_node, compact_loop}

all_equal-get :
    (first : Jump) (row : JumpTable) (c : ℕ) {j : Jump}
    → all_equal first row ≡ true
    → get_elem? row c ≡ some j
    → j ≡ first
unfolding all_equal
all_equal-get first [] c h e = absurd (ground arith)
all_equal-get first (action ∷ row) zero h e = ground (arith, jump_eq_sound action first)
all_equal-get first (action ∷ row) (suc c) h e = all_equal-get first row c (ground arith) e

-- A compactable row holds the one finish jump, which gives back a symbol.
pub can_compact_node-get :
    (row : JumpTable) (c : ℕ) {n : ℕ} {t : TokenType} {j : Jump}
    → can_compact_node row ≡ some (n, t)
    → get_elem? row c ≡ some j
    → (j ≡ finish n t) × (0 < n)
unfolding can_compact_node
can_compact_node-get [] c h e = absurd (ground arith)
can_compact_node-get (finish m s ∷ row) zero h e = ground arith
can_compact_node-get (finish m s ∷ row) (suc c) {j = j} h e =
    ground (arith, all_equal-get (finish m s) row c {j = j})
can_compact_node-get (next_state m ∷ row) c h e = absurd (cc)
can_compact_node-get (reject ∷ row) c h e = absurd (cc)

pub can_compact_node-first : (row : JumpTable) → All Consumes row → can_compact_node row ≡ none
unfolding can_compact_node
can_compact_node-first [] h = refl
can_compact_node-first (finish n t ∷ row) h = ground arith
can_compact_node-first (next_state s ∷ row) h = refl
can_compact_node-first (reject ∷ row) h = refl

-- The state is kept, and mapped to its new number; or it is left out, and mapped to its finish jump.
abbrev pub MapsTo : Table → JumpTable → Option Jump → Type 0
MapsTo compacted row m =
    ((can_compact_node row ≡ none)
      × ((i : ℕ) × (m ≡ some (next_state i)) × (get_elem? compacted i ≡ some row)))
    ⊎ ((n : ℕ) × (t : TokenType) × (can_compact_node row ≡ some (n, t))
        × (m ≡ some (finish (n - 1) t)))

compact_loop-keeps :
    (rows compacted : Table) (mapping : List Jump)
    → ((i : ℕ) (row : JumpTable)
        → get_elem? compacted i ≡ some row
        → get_elem? (compact_loop rows compacted mapping).0 i ≡ some row)
      × ((s : ℕ) (j : Jump)
          → get_elem? mapping s ≡ some j
          → get_elem? (compact_loop rows compacted mapping).1 s ≡ some j)
unfolding compact_loop
compact_loop-keeps [] compacted mapping = (λ i row e. e, λ s j e. e)
compact_loop-keeps (row ∷ rows) compacted mapping = elim (Option-cases (can_compact_node row)) [
  | inl e ↦
      let (keep, keep') =
        compact_loop-keeps rows (compacted ++ row ∷ [])
          (mapping ++ next_state (length compacted) ∷ []) in
      rw (e, compact_loop)
        (
          λ i r h. keep i r (get_elem?-append_left compacted _ i h),
          λ s j h. keep' s j (get_elem?-append_left mapping _ s h),
        )
  | inr ((n, t), e) ↦
      let (keep, keep') = compact_loop-keeps rows compacted (mapping ++ finish (n - 1) t ∷ []) in
      rw (e, compact_loop)
        (λ i r h. keep i r h, λ s j h. keep' s j (get_elem?-append_left mapping _ s h))
]

pub compact_loop-MapsTo :
    (rows compacted : Table) (mapping : List Jump) (k s : ℕ) {row : JumpTable}
    → get_elem? rows k ≡ some row
    → s ≡ length mapping + k
    → let result = compact_loop rows compacted mapping in MapsTo result.0 row (get_elem? result.1 s)
unfolding compact_loop
compact_loop-MapsTo [] compacted mapping k s h e = absurd (ground arith)
compact_loop-MapsTo (r ∷ rows) compacted mapping zero s {row} h e =
    elim (Option-cases (can_compact_node r)) [
      | inl none_ ↦
          let (keep, keep') =
            compact_loop-keeps rows (compacted ++ r ∷ [])
              (mapping ++ next_state (length compacted) ∷ []) in
          rw (none_, compact_loop)
            (inl (
              ground arith,
              (
                length compacted,
                keep' s _ (get_elem?-append_at mapping _ s (omega arith)),
                keep (length compacted) row
                    (ground (arith, get_elem?-append_at compacted r (length compacted) refl)),
              ),
            ))
      | inr ((n, t), found) ↦
          let (keep, keep') =
            compact_loop-keeps rows compacted (mapping ++ finish (n - 1) t ∷ []) in
          rw (found, compact_loop)
            (inr (n, t, ground arith, keep' s _ (get_elem?-append_at mapping _ s (omega arith))))
    ]
compact_loop-MapsTo (r ∷ rows) compacted mapping (suc k) s h e =
    elim (Option-cases (can_compact_node r)) [
      | inl none_ ↦
          rw (none_, compact_loop)
            (compact_loop-MapsTo rows (compacted ++ r ∷ [])
              (mapping ++ next_state (length compacted) ∷ []) k s h
              (omega (arith, length-snoc mapping (next_state (length compacted)))))
      | inr ((n, t), found) ↦
          rw (found, compact_loop)
            (compact_loop-MapsTo rows compacted (mapping ++ finish (n - 1) t ∷ []) k s h
              (omega (arith, length-snoc mapping (finish (n - 1) t))))
    ]

-- A first state that is kept stays the first state.
pub compact_loop-first :
    (row : JumpTable) (rows : Table)
    → can_compact_node row ≡ none
    → get_elem? (compact_loop (row ∷ rows) [] []).0 0 ≡ some row
unfolding compact_loop
compact_loop-first row rows e =
    rw (e, compact_loop) ((compact_loop-keeps rows (row ∷ []) (next_state 0 ∷ [])).0 0 row refl)

pub compact_loop-All {κ} :
    (P : JumpTable → Type κ) (rows compacted : Table) (mapping : List Jump)
    → All P rows
    → All P compacted
    → All P (compact_loop rows compacted mapping).0
unfolding compact_loop
compact_loop-All P [] compacted mapping h done = done
compact_loop-All P (row ∷ rows) compacted mapping h done =
    elim (Option-cases (can_compact_node row)) [
      | inl e ↦
          rw (e, compact_loop) (compact_loop-All P rows _ _ h.1 (All-snoc P compacted row done h.0))
      | inr (_, e) ↦ rw (e, compact_loop) (compact_loop-All P rows _ _ h.1 done)
    ]
