-- ===== src/Lexis/Analyzer/Progress.antt =====
-- The analyzer on a well-formed table and an ASCII text: every call succeeds and moves on.
use recursive_functions.Prelude.{
  ℕ, zero, suc, ◌+◌, ◌≤◌, ◌<◌, ◌≡◌, refl, ◌∙◌, ◌⊎◌, inl, inr, true, false, some, arith, length, ap,
  Bool-cases,
}
use recursive_functions.Sources.Location.{SourceLocation, SourceRange}
use recursive_functions.Sources.View.{SourceView}
use recursive_functions.Lexis.Token.{
  TokenType, end, error, token_index, token_eq, token_eq_iff, Token, is_skipped,
}
use recursive_functions.Lexis.Jump.{Table}
use recursive_functions.Lexis.Analyzer.{
  Scan, done, token_at, loop_fuel, get_token_internal, cut_error, Analyzer, read_token, next_token,
}
use recursive_functions.Lexis.WellFormed.{IsLexical, IsSmall, IsAscii, At, FirstConsumes-nonempty}
use recursive_functions.Lexis.Analyzer.Reading.{at_end, before_end, At-advance}
use recursive_functions.Lexis.Analyzer.Scanning.{Scanned, Scans, token_loop-Scans}

end_or_before : (k n : ℕ) → k ≤ n → (k ≡ n) ⊎ (k < n)
end_or_before k n h = omega arith

get_token_internal-inside :
    (table : Table) (v : SourceView) (l : SourceLocation) (k : ℕ)
    → IsLexical table
    → IsSmall v
    → At v l k
    → k < length v.text
    → Scans v l (k + 1) (get_token_internal table v l)
unfolding get_token_internal
get_token_internal-inside table v l k w small at h = rw (before_end v l k small at h) (
    token_loop-Scans table v w small (loop_fuel v) l l (k + 1) 0 k
      (FirstConsumes-nonempty table w.first) at (omega arith) (omega arith)
      (inr (omega arith, refl)))

get_token_internal_end :
    (table : Table) (v : SourceView) (l : SourceLocation) (k : ℕ)
    → IsSmall v
    → At v l k
    → k ≡ length v.text
    → get_token_internal table v l ≡ done (token_at end l l)
unfolding get_token_internal
get_token_internal_end table v l k small at h = rw (at_end v l k small at h)

-- On a well-formed table, from every position of a text of any bytes, the scan ends within its fuel
-- with a token, and never reads outside of the text or of the table.
pub get_token_internal_total :
    (table : Table) (v : SourceView) (l : SourceLocation) (k : ℕ)
    → IsLexical table
    → IsSmall v
    → At v l k
    → k ≤ length v.text
    → (t : Token) × (get_token_internal table v l ≡ done t)
get_token_internal_total table v l k w small at h = elim (end_or_before k (length v.text) h) [
  | inl e ↦ (_, get_token_internal_end table v l k small at e)
  | inr lt ↦ let (t, e, _) = get_token_internal-inside table v l k w small at lt in (t, e)
]

-- The analyzer stands at the k-th position of an ASCII text, with a well-formed table.
pub record IsReady (a : Analyzer) (k : ℕ) : Type 0 where
  pub lexical : IsLexical a.jumps
  pub small : IsSmall a.source_view
  pub ascii : IsAscii a.source_view.text
  pub at : At a.source_view a.location k
  pub within : k ≤ length a.source_view.text

-- Where a token goes: the `end` token at the end of the text, or at least one symbol further.
abbrev pub MovesOn : Analyzer → ℕ → Token → ℕ → Type 0
MovesOn a k t k' =
    ((k ≡ length a.source_view.text) × (t.type ≡ end) × (k' ≡ k))
    ⊎ ((k < length a.source_view.text) × (k < k'))

abbrev pub IsRead : Analyzer → ℕ → Scan (Token × Analyzer) → Type 0
IsRead a k r =
    (t : Token) × (b : Analyzer) × (k' : ℕ) × (r ≡ done (t, b))
    × (b.source_view ≡ a.source_view)
    × IsReady b k'
    × (t.source_range ≡ record { begin = a.location; end = b.location })
    × MovesOn a k t k'

cut_error-Scanned :
    (v : SourceView) (l : SourceLocation) (k : ℕ) (t : Token)
    → IsSmall v
    → At v l k
    → k < length v.text
    → Scanned v l (k + 1) t
    → ((cut_error t).source_range.begin ≡ l)
      × ((e : ℕ) × At v (cut_error t).source_range.end e × (k < e) × (e ≤ length v.text))
unfolding cut_error
cut_error-Scanned v l k t small at h (b, inl e) =
    rw ((token_eq_iff t.type error).1 e)
      (b, (k + 1, rw b (At-advance v l k small at (omega arith)), omega arith, omega arith))
cut_error-Scanned v l k t small at h (b, inr (e, ate, lo, hi)) =
    elim (Bool-cases (token_eq t.type error)) [
      | inl is_error ↦
          rw is_error
            (b, (k + 1, rw b (At-advance v l k small at (omega arith)), omega arith, omega arith))
      | inr other ↦ rw other (b, (e, ate, omega arith, hi))
    ]

read_token-done :
    (a : Analyzer) (t : Token)
    → get_token_internal a.jumps a.source_view a.location ≡ done t
    → read_token a
      ≡ done (
        cut_error t,
        record a { current = some (cut_error t); location = (cut_error t).source_range.end },
      )
unfolding read_token
read_token-done a t e = rw (e, read_token)

cut_error-end : (l : SourceLocation) → cut_error (token_at end l l) ≡ token_at end l l
unfolding cut_error token_index
cut_error-end l = refl

-- One token is read from every position of the text: its range goes from the old location to the
-- new one, it is not empty before the end, and the analyzer is ready for the next.
pub read_token-IsRead : (a : Analyzer) (k : ℕ) → IsReady a k → IsRead a k (read_token a)
read_token-IsRead a k r = elim (end_or_before k (length a.source_view.text) r.within) [
  | inl e ↦ (
    _,
    _,
    k,
    read_token-done a _ (get_token_internal_end a.jumps a.source_view a.location k r.small r.at e),
    refl,
    rw (cut_error-end a.location) (record {
      lexical = r.lexical;
      small = r.small;
      ascii = r.ascii;
      at = r.at;
      within = r.within;
    }),
    rw (cut_error-end a.location),
    inl (e, rw (cut_error-end a.location), refl),
  )
  | inr lt ↦
      let (t, e, good) =
        get_token_internal-inside a.jumps a.source_view a.location k r.lexical r.small r.at lt in
      let (b, (k', at', lo, hi)) =
        cut_error-Scanned a.source_view a.location k t r.small r.at lt (good r.ascii) in
      (
        cut_error t,
        _,
        k',
        read_token-done a t e,
        refl,
        record { lexical = r.lexical; small = r.small; ascii = r.ascii; at = at'; within = hi },
        range-eq (cut_error t).source_range b,
        inr (lt, lo),
      )
]
  where
    range-eq :
        (s : SourceRange) {l : SourceLocation} → s.begin ≡ l → s ≡ record { begin = l; end = s.end }
    range-eq s e = cc

-- With fuel for the positions that are left, `next_token` returns a token that is not skipped.
abbrev pub IsNext : Analyzer → ℕ → Scan (Token × Analyzer) → Type 0
IsNext a k r =
    (t : Token) × (b : Analyzer) × (k' : ℕ) × (r ≡ done (t, b))
    × (b.source_view ≡ a.source_view)
    × IsReady b k'
    × (is_skipped t.type ≡ false)
    × (((t.type ≡ end) × (k' ≡ length a.source_view.text)) ⊎ (k < k'))

is_skipped-end : (t : TokenType) → t ≡ end → is_skipped t ≡ false
unfolding is_skipped
is_skipped-end t e = rw e

-- On a well-formed table and an ASCII text, with one round of fuel for each position left, the loop
-- of `next_token` ends: it returns a token that is no whitespace and no comment, it is ready again,
-- and it either moved on or returned `end` at the end of the text.
pub next_token-IsNext :
    (fuel : ℕ) (a : Analyzer) (k : ℕ)
    → IsReady a k
    → length a.source_view.text < k + fuel
    → IsNext a k (next_token fuel a)
unfolding next_token
next_token-IsNext zero a k r h = absurd (omega (arith, r.within))
next_token-IsNext (suc fuel) a k r h =
    let (t, b, k', e, same, ready, range, moved) = read_token-IsRead a k r in
    elim (Bool-cases (is_skipped t.type)) [
      | inl skipped ↦
          let further : k < k' = further_on a k t k' skipped moved in
          let (t'', b'', k'', e'', same'', ready'', plain, moved'') =
            next_token-IsNext fuel b k' ready (rw same (omega arith)) in
          (
            t'',
            b'',
            k'',
            rw (e, next_token, skipped) e'',
            same'' ∙ same,
            ready'',
            plain,
            still_further a.source_view b.source_view t''.type same further moved'',
          )
      | inr plain ↦ (t, b, k', rw (e, next_token, plain), same, ready, plain, moves a k t k' moved)
    ]
  where
    further_on :
        (a : Analyzer) (k : ℕ) (t : Token) (k' : ℕ)
        → is_skipped t.type ≡ true
        → MovesOn a k t k'
        → k < k'
    further_on a k t k' s (inl (_, e, _)) = ground (arith, s, is_skipped-end t.type e)
    further_on a k t k' s (inr (_, lt)) = lt

    moves :
        (a : Analyzer) (k : ℕ) (t : Token) (k' : ℕ)
        → MovesOn a k t k'
        → ((t.type ≡ end) × (k' ≡ length a.source_view.text)) ⊎ (k < k')
    moves a k t k' (inl (z, e, same)) = inl (e, same ∙ z)
    moves a k t k' (inr (_, lt)) = inr lt

    still_further :
        (v u : SourceView) (t : TokenType) {k k' k'' : ℕ}
        → u ≡ v
        → k < k'
        → ((t ≡ end) × (k'' ≡ length u.text)) ⊎ (k' < k'')
        → ((t ≡ end) × (k'' ≡ length v.text)) ⊎ (k < k'')
    still_further v u t e lt (inl (is_end, z)) =
        inl (is_end, z ∙ ap (λ (x : SourceView). length x.text) e)
    still_further v u t e lt (inr more) = inr (omega arith)
