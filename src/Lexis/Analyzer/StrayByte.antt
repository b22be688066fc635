-- ===== src/Lexis/Analyzer/StrayByte.antt =====
-- What a byte outside of the character set does to the analyzer.
use recursive_functions.Prelude.{
  ℕ, suc, ◌+◌, ◌≤◌, ◌<◌, ◌≡◌, refl, ◌∙◌, true, false, none, some, arith, length, get_elem?,
  get_elem?-none, leb,
}
use recursive_functions.Sources.Location.{SourceLocation, advance, location_eq}
use recursive_functions.Sources.View.{SourceView, get_offset, at_unchecked, end_location}
use recursive_functions.Lexis.Token.{error, token_index, Token, is_skipped}
use recursive_functions.Lexis.Jump.{Table, characters_count}
use recursive_functions.Lexis.Analyzer.{
  done, fault, token_at, read_symbol, token_loop, get_token_internal, cut_error, Analyzer,
  read_token, next_token,
}
use recursive_functions.Lexis.WellFormed.{IsSmall, At}
use recursive_functions.Lexis.Analyzer.Reading.{before_end, read_symbol-inside}

module _ (v : SourceView) (l : SourceLocation) (k : ℕ) (small : IsSmall v) (at : At v l k) where
  not_end : k ≡ length v.text + 1 → location_eq l (end_location v) ≡ false
  unfolding end_location
  not_end h = ground arith

  offset_past : k ≡ length v.text + 1 → get_offset v l ≡ k
  offset_past h = omega arith

  read_symbol-past : k ≡ length v.text + 1 → read_symbol v l ≡ none
  unfolding read_symbol at_unchecked
  read_symbol-past h = rw (not_end h, offset_past h) (get_elem?-none v.text k (omega arith))

  get_token_internal-past :
      (table : Table) → k ≡ length v.text + 1 → get_token_internal table v l ≡ fault
  unfolding get_token_internal token_loop
  get_token_internal-past table h = rw (not_end h) (rw (read_symbol-past h, token_loop))

  get_token_internal-stray :
      (table : Table) {c : ℕ}
      → k < length v.text
      → get_elem? v.text k ≡ some c
      → characters_count ≤ c
      → get_token_internal table v l ≡ done (token_at error (advance l 1) (advance l 1))
  unfolding get_token_internal token_loop
  get_token_internal-stray table {c} h e big =
      let is_big : leb characters_count c ≡ true = ground arith in
      rw (before_end v l k small at h)
        (rw (read_symbol-inside v l k small at h ∙ e, token_loop, is_big))

cut_error-error :
    (l : SourceLocation) → cut_error (token_at error l l) ≡ token_at error l (advance l 1)
unfolding cut_error token_index
cut_error-error l = refl

abbrev stray_token : SourceLocation → Token
stray_token l = token_at error (advance l 1) (advance (advance l 1) 1)

read_token-error :
    (a : Analyzer) (l : SourceLocation)
    → get_token_internal a.jumps a.source_view a.location ≡ done (token_at error l l)
    → read_token a
      ≡ done (
        token_at error l (advance l 1),
        record a { current = some (token_at error l (advance l 1)); location = advance l 1 },
      )
unfolding read_token
read_token-error a l e = rw (e, read_token) (rw (cut_error-error l))

next_token-fault :
    (fuel : ℕ) (a : Analyzer)
    → get_token_internal a.jumps a.source_view a.location ≡ fault
    → next_token (suc fuel) a ≡ fault
unfolding next_token read_token
next_token-fault fuel a e = rw (e, next_token, read_token)

next_token-error :
    (fuel : ℕ) (a : Analyzer) (l : SourceLocation)
    → get_token_internal a.jumps a.source_view a.location ≡ done (token_at error l l)
    → next_token (suc fuel) a
      ≡ done (
        token_at error l (advance l 1),
        record a { current = some (token_at error l (advance l 1)); location = advance l 1 },
      )
unfolding next_token is_skipped
next_token-error fuel a l e = rw (read_token-error a l e, next_token)

-- A byte from 128 on at the k-th position gives a token of the type error, which becomes the current
-- one. Its range begins at the position after the byte and ends one further, and there the analyzer
-- goes on, in the same text: the byte after it is passed over unread. Where the byte is the last of
-- the text, the next call reads outside of the text.
pub next_token-stray_byte :
    (fuel more : ℕ) (a : Analyzer) (k : ℕ) {c : ℕ}
    → IsSmall a.source_view
    → At a.source_view a.location k
    → get_elem? a.source_view.text k ≡ some c
    → k < length a.source_view.text
    → characters_count ≤ c
    → (t : Token) × (b : Analyzer) × (next_token (suc fuel) a ≡ done (t, b))
      × (t.type ≡ error)
      × At a.source_view t.source_range.begin (k + 1)
      × At a.source_view t.source_range.end (k + 2)
      × At a.source_view b.location (k + 2)
      × (b.current ≡ some t)
      × (b.source_view ≡ a.source_view)
      × (k + 1 ≡ length a.source_view.text → next_token (suc more) b ≡ fault)
next_token-stray_byte fuel more a k small at e h big = (
  _,
  _,
  next_token-error fuel a (advance a.location 1)
      (get_token_internal-stray a.source_view a.location k small at a.jumps h e big),
  refl,
  ground arith,
  ground arith,
  ground arith,
  refl,
  refl,
  λ last. next_token-fault more _ (
      get_token_internal-past a.source_view (advance (advance a.location 1) 1) (k + 2) small
        (ground arith) a.jumps (omega arith)),
)
