-- ===== src/Lexis/Analyzer.antt =====
-- src/lexis/LexicalAnalyzer.cpp. `fault` is an access outside of the text or of the table.
pub mod StrayByte
pub mod Progress
pub mod Scanning
pub mod Reading
use recursive_functions.Prelude.{
  ℕ, zero, suc, ◌+◌, true, false, Option, none, some, leb, if◌then◌else◌, length, get_elem?,
}
use recursive_functions.Sources.Location.{SourceLocation, location_eq, advance, retreat}
use recursive_functions.Sources.View.{SourceView, at_unchecked, begin_location, end_location}
use recursive_functions.Lexis.Token.{TokenType, end, error, token_eq, Token, is_skipped}
use recursive_functions.Lexis.Jump.{Jump, next_state, finish, reject, Table, characters_count}

pub data Scan {ℓ} (A : Type ℓ) : Type ℓ where
  done : A → Scan A
  fault : Scan A
  out_of_fuel : Scan A

abbrev pub token_at : TokenType → SourceLocation → SourceLocation → Token
token_at t b e = record { type = t; source_range = record { begin = b; end = e } }

-- `reached_end ? '\0' : source_view_[cur_loc]`
unfoldable pub read_symbol : SourceView → SourceLocation → Option ℕ
unfolding at_unchecked end_location
read_symbol v l = if location_eq l (end_location v) then some 0 else at_unchecked v l

-- `jumps_[state][symbol]`
abbrev pub lookup_jump : Table → ℕ → ℕ → Option Jump
lookup_jump table state symbol = elim (get_elem? table state) [
  | none ↦ none
  | some row ↦ get_elem? row symbol
]

-- What one jump does; `continue` is the rest of the loop in the next state. `cur` is past the symbol.
abbrev pub follow : Option Jump → SourceLocation → SourceLocation → (ℕ → Scan Token) → Scan Token
follow none begin cur continue = fault
follow (some (next_state s)) begin cur continue = continue s
follow (some (finish shift t)) begin cur continue = done (token_at t begin (retreat cur shift))
follow (some reject) begin cur continue = done (token_at error begin cur)

-- The loop of `get_token_internal`.
unfoldable pub token_loop :
    ℕ → Table → SourceView → SourceLocation → SourceLocation → ℕ → Scan Token
token_loop zero table v begin cur state = out_of_fuel
token_loop (suc fuel) table v begin cur state = elim (read_symbol v cur) [
  | none ↦ fault
  | some symbol ↦
      if leb characters_count symbol
      then done (token_at error (advance cur 1) (advance cur 1))
      else follow (lookup_jump table state symbol) begin (advance cur 1)
          (token_loop fuel table v begin (advance cur 1))
]

-- The text ends the loop at the latest: one round for each byte, one for the end, one past it.
abbrev pub loop_fuel : SourceView → ℕ
loop_fuel v = suc (suc (length v.text))

unfoldable pub get_token_internal : Table → SourceView → SourceLocation → Scan Token
unfolding token_loop read_symbol
get_token_internal table v location =
    if location_eq location (end_location v)
    then done (token_at end location location)
    else token_loop (loop_fuel v) table v location location 0

pub record Analyzer : Type 0 where
  pub jumps : Table
  pub location : SourceLocation
  pub source_view : SourceView
  pub current : Option Token

unfoldable pub set_source_view : Analyzer → SourceView → Analyzer
set_source_view a v = record a { source_view = v; location = begin_location v }

-- The error token is cut down to one symbol from where its range begins.
unfoldable pub cut_error : Token → Token
cut_error t =
    if token_eq t.type error
    then token_at t.type t.source_range.begin (advance t.source_range.begin 1)
    else t

-- One round of the loop of `next_token`.
unfoldable pub read_token : Analyzer → Scan (Token × Analyzer)
read_token a = elim (get_token_internal a.jumps a.source_view a.location) [
  | done t ↦ done (
    cut_error t,
    record a { current = some (cut_error t); location = (cut_error t).source_range.end },
  )
  | fault ↦ fault
  | out_of_fuel ↦ out_of_fuel
]

unfoldable pub next_token : ℕ → Analyzer → Scan (Token × Analyzer)
next_token zero a = out_of_fuel
next_token (suc fuel) a = elim (read_token a) [
  | done (t, b) ↦ elim (is_skipped t.type) [ true ↦ next_token fuel b | false ↦ done (t, b) ]
  | fault ↦ fault
  | out_of_fuel ↦ out_of_fuel
]
