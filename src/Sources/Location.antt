-- ===== src/Sources/Location.antt =====
-- src/sources/SourceLocation.h. A position is a `uint32_t`: its arithmetic wraps at 2 ^ 32.
use recursive_functions.Prelude.{ℕ, ◌+◌, ◌-◌, ◌%◌, ◌^◌, Bool, ◌&&◌, ◌==◌}

pub record SourceLocation : Type 0 where
  pub file_id : ℕ
  pub pos_id : ℕ

abbrev pub location_eq : SourceLocation → SourceLocation → Bool
location_eq a b = a.file_id == b.file_id && a.pos_id == b.pos_id

pub record SourceRange : Type 0 where
  pub begin : SourceLocation
  pub end : SourceLocation

abbrev pub u32 : ℕ → ℕ
u32 n = n % 2 ^ 32

-- `location.pos_id += n`
abbrev pub advance : SourceLocation → ℕ → SourceLocation
advance l n = record l { pos_id = u32 (l.pos_id + n) }

-- `location.pos_id -= n`, for a `size_t` n
abbrev pub retreat : SourceLocation → ℕ → SourceLocation
retreat l n = record l { pos_id = u32 (l.pos_id + 2 ^ 64 - n) }

abbrev pub empty_at : SourceLocation → SourceRange
empty_at l = record { begin = l; end = l }

abbrev pub merge : SourceRange → SourceRange → SourceRange
merge first second = record { begin = first.begin; end = second.end }
