-- ===== src/Tests/Lexis.antt =====
-- A table with one kind of token, and texts on which the analyzer runs.
use recursive_functions.Prelude.{
  ℕ, zero, suc, ◌+◌, ◌≡◌, refl, [], ◌∷◌, none, some, arith, length, All, replicate,
}
use recursive_functions.Sources.Location.{SourceLocation, advance}
use recursive_functions.Sources.View.{SourceView}
use recursive_functions.Lexis.Token.{error, identifier, Token, token_index}
use recursive_functions.Lexis.Jump.{Jump, next_state, finish, reject, Table}
use recursive_functions.Lexis.WellFormed.{IsLexical, JumpFits, Consumes, At}
use recursive_functions.Lexis.Analyzer.{
  done, fault, token_at, get_token_internal, Analyzer, next_token,
}
use recursive_functions.Lexis.Analyzer.Progress.{
  IsReady, IsNext, get_token_internal_total, next_token-IsNext,
}
use recursive_functions.Lexis.Analyzer.StrayByte.{next_token-stray_byte}
use recursive_functions.Lexis.Compact.{compact}
use recursive_functions.Lexis.Compact.Equivalence.{get_token_internal-compact}
use recursive_functions.Lexis.Compact.Preservation.{compact-IsLexical}

-- One symbol, and the state behind it, which finishes on whatever follows.
abbrev one_symbol : Table
one_symbol = (reject ∷ replicate 127 (next_state 1)) ∷ replicate 128 (finish 1 identifier) ∷ []

-- The same table without the second state.
abbrev one_symbol_compacted : Table
one_symbol_compacted = (reject ∷ replicate 127 (finish 0 identifier)) ∷ []

All-replicate : (P : Jump → Type 0) (n : ℕ) (j : Jump) → P j → All P (replicate n j)
All-replicate P zero j p = tt
All-replicate P (suc n) j p = (p, All-replicate P n j p)

one_symbol-IsLexical : IsLexical one_symbol
one_symbol-IsLexical = record {
  rows = (
    (refl, (tt, All-replicate (JumpFits 2) 127 (next_state 1) (omega arith)), tt),
    ((refl, All-replicate (JumpFits 2) 128 (finish 1 identifier) (omega arith), refl), tt),
  );
  first = (tt, All-replicate Consumes 127 (next_state 1) tt);
}

abbrev start : SourceLocation
start = record { file_id = 0; pos_id = 100 }

abbrev two_letters : SourceView
two_letters = record { text = 97 ∷ 98 ∷ []; begin = start }

abbrev letter_then_byte : SourceView
letter_then_byte = record { text = 97 ∷ 200 ∷ []; begin = start }

abbrev on_letters : Analyzer
on_letters = record {
  jumps = one_symbol;
  location = start;
  source_view = two_letters;
  current = none;
}

abbrev on_byte : Analyzer
on_byte = record {
  jumps = one_symbol;
  location = advance start 1;
  source_view = letter_then_byte;
  current = none;
}

first_token :
    get_token_internal one_symbol two_letters start
    ≡ done (token_at identifier start (advance start 1))
unfolding get_token_internal
first_token = refl

compaction : compact one_symbol ≡ some one_symbol_compacted
unfolding compact token_index
compaction = refl

on_letters-IsReady : IsReady on_letters 0
on_letters-IsReady = record {
  lexical = one_symbol-IsLexical;
  small = omega arith;
  ascii = (omega arith, (omega arith, tt));
  at = (refl, refl);
  within = omega arith;
}

get_token_internal_total_example :
    (t : Token) × (get_token_internal one_symbol letter_then_byte start ≡ done t)
get_token_internal_total_example =
    get_token_internal_total one_symbol letter_then_byte start 0 one_symbol-IsLexical (omega arith)
      (refl, refl) (omega arith)

next_token-IsNext_example : IsNext on_letters 0 (next_token 3 on_letters)
next_token-IsNext_example = next_token-IsNext 3 on_letters 0 on_letters-IsReady (omega arith)

next_token-stray_byte_example :
    (t : Token) × (b : Analyzer) × (next_token 1 on_byte ≡ done (t, b))
    × (t.type ≡ error)
    × At letter_then_byte t.source_range.begin 2
    × At letter_then_byte t.source_range.end 3
    × At letter_then_byte b.location 3
    × (b.current ≡ some t)
    × (b.source_view ≡ letter_then_byte)
    × (1 + 1 ≡ length letter_then_byte.text → next_token 1 b ≡ fault)
next_token-stray_byte_example =
    next_token-stray_byte 0 0 on_byte 1 (omega arith) (refl, refl) refl (omega arith) (omega arith)

get_token_internal-compact_example :
    get_token_internal one_symbol_compacted two_letters start
    ≡ get_token_internal one_symbol two_letters start
get_token_internal-compact_example =
    get_token_internal-compact one_symbol one_symbol_compacted two_letters start 0
      one_symbol-IsLexical compaction (omega arith) (omega arith, (omega arith, tt)) (refl, refl)
      (omega arith)

compact-IsLexical_example :
    (small_table : Table) × (compact one_symbol ≡ some small_table) × IsLexical small_table
compact-IsLexical_example = compact-IsLexical one_symbol one_symbol-IsLexical
