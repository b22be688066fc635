-- ===== src/Lexis/Analyzer/Reading.antt =====
-- What `read_symbol` gives at each position of a text.
use recursive_functions.Prelude.{ℕ, ◌+◌, ◌≤◌, ◌<◌, ◌≡◌, true, false, some, arith, length, get_elem?}
use recursive_functions.Sources.Location.{SourceLocation, location_eq, advance}
use recursive_functions.Sources.View.{SourceView, get_offset, at_unchecked, end_location}
use recursive_functions.Lexis.Analyzer.{read_symbol}
use recursive_functions.Lexis.WellFormed.{IsSmall, At}

module _ (v : SourceView) (l : SourceLocation) (k : ℕ) (small : IsSmall v) (at : At v l k) where
  pub At-advance : k ≤ length v.text → At v (advance l 1) (k + 1)
  At-advance h = ground arith

  pub at_end : k ≡ length v.text → location_eq l (end_location v) ≡ true
  unfolding end_location
  at_end h = ground arith

  pub before_end : k < length v.text → location_eq l (end_location v) ≡ false
  unfolding end_location
  before_end h = ground arith

  pub read_symbol-end : k ≡ length v.text → read_symbol v l ≡ some 0
  unfolding read_symbol
  read_symbol-end h = ground (arith, at_end h)

  offset : k < length v.text → get_offset v l ≡ k
  offset h = omega arith

  pub read_symbol-inside : k < length v.text → read_symbol v l ≡ get_elem? v.text k
  unfolding read_symbol at_unchecked
  read_symbol-inside h = ground (arith, before_end h, offset h)
