-- ===== src/Sources/View.antt =====
-- The class `SourceView` of src/sources/SourceManager.h. A text is the list of its bytes.
use recursive_functions.Prelude.{ℕ, ◌+◌, ◌-◌, ◌^◌, List, Option, length, get_elem?}
use recursive_functions.Sources.Location.{SourceLocation, u32, advance}

pub record SourceView : Type 0 where
  pub text : List ℕ
  pub begin : SourceLocation

-- `get_offset<false>`: a difference of two `uint32_t`.
abbrev pub get_offset : SourceView → SourceLocation → ℕ
get_offset v l = u32 (l.pos_id + 2 ^ 32 - v.begin.pos_id)

-- `operator[]`; `none` is an access outside of the text, which the source does not check.
unfoldable pub at_unchecked : SourceView → SourceLocation → Option ℕ
at_unchecked v l = get_elem? v.text (get_offset v l)

unfoldable pub begin_location : SourceView → SourceLocation
begin_location v = v.begin

unfoldable pub end_location : SourceView → SourceLocation
end_location v = advance v.begin (length v.text)
