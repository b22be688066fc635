-- ===== src/Lexis/WellFormed.antt =====
-- The tables and texts on which the analyzer is safe: what a generated table has, row by row.
use recursive_functions.Prelude.{
  ℕ, ◌+◌, ◌≤◌, ◌<◌, ◌^◌, ◌≡◌, List, [], ◌∷◌, some, arith, length, get_elem?, All, All-get,
}
use recursive_functions.Sources.Location.{SourceLocation}
use recursive_functions.Sources.View.{SourceView}
use recursive_functions.Lexis.Jump.{
  Jump, next_state, finish, reject, JumpTable, Table, characters_count,
}

-- A jump in a table of n states: the target exists, and at most the last symbol is given back.
abbrev pub JumpFits : ℕ → Jump → Type 0
JumpFits n (next_state s) = s < n
JumpFits n (finish shift t) = shift ≤ 1
JumpFits n reject = Unit

-- A jump on the symbol of the end: it stops, and gives the symbol back.
abbrev pub StopsAtEnd : Jump → Type 0
StopsAtEnd (next_state s) = ⊥
StopsAtEnd (finish shift t) = shift ≡ 1
StopsAtEnd reject = Unit

-- A jump of the first state: no token is empty.
abbrev pub Consumes : Jump → Type 0
Consumes (next_state s) = Unit
Consumes (finish shift t) = shift ≡ 0
Consumes reject = Unit

abbrev pub HeadStops : JumpTable → Type 0
HeadStops [] = ⊥
HeadStops (j ∷ row) = StopsAtEnd j

abbrev pub RowFits : ℕ → JumpTable → Type 0
RowFits n row = (length row ≡ characters_count) × All (JumpFits n) row × HeadStops row

abbrev pub FirstConsumes : Table → Type 0
FirstConsumes [] = ⊥
FirstConsumes (row ∷ rows) = All Consumes row

pub record IsLexical (table : Table) : Type 0 where
  pub rows : All (RowFits (length table)) table
  pub first : FirstConsumes table

-- The positions of the text, and one past it, are `uint32_t` that do not wrap.
abbrev pub IsSmall : SourceView → Type 0
IsSmall v = v.begin.pos_id + length v.text + 2 ≤ 2 ^ 32

-- `l` is the k-th position of the text.
abbrev pub At : SourceView → SourceLocation → ℕ → Type 0
At v l k = (l.file_id ≡ v.begin.file_id) × (l.pos_id ≡ v.begin.pos_id + k)

abbrev pub IsAscii : List ℕ → Type 0
IsAscii = All (λ c. c < characters_count)

pub get-zero_stops :
    (row : JumpTable) {j : Jump} → HeadStops row → get_elem? row 0 ≡ some j → StopsAtEnd j
get-zero_stops [] h e = absurd h
get-zero_stops (i ∷ row) h e = ground (arith, h)

pub FirstConsumes-nonempty : (table : Table) → FirstConsumes table → 0 < length table
FirstConsumes-nonempty [] h = absurd h
FirstConsumes-nonempty (row ∷ rows) h = omega arith

pub FirstConsumes-get :
    (table : Table) {row : JumpTable} (c : ℕ) {j : Jump}
    → FirstConsumes table
    → get_elem? table 0 ≡ some row
    → get_elem? row c ≡ some j
    → Consumes j
FirstConsumes-get [] c h e d = absurd h
FirstConsumes-get (row ∷ rows) {row = r} c h e d = All-get Consumes row c h (ground (arith, e, d))
