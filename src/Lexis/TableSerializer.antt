-- ===== src/Lexis/TableSerializer.antt =====
-- src/lexis/table/LexicalTableSerializer.cpp. A token of a number that no token has, and a stream that
-- is too short, are `none`.
use recursive_functions.Prelude.{
  ℕ, ◌≡◌, refl, ap, sym, ◌∙◌, List, ◌++◌, Option, none, some, arith, ◌==◌, if◌then◌else◌, length,
  get_elem?, get_elem?-lt, All,
}
use recursive_functions.Serializer.{
  Reader, ◌>>=◌, pure, write_bytes, read_bytes, Fits64, write_all, read_many, read_many-write_all,
  >>=-some, read_bytes-head, read_bytes-last,
}
use recursive_functions.Lexis.Token.{TokenType, token_index, all_tokens, get_elem?-token_index}
use recursive_functions.Lexis.Jump.{
  Jump, next_state, finish, reject, JumpTable, Table, characters_count,
}

-- `jump.index()`
abbrev pub jump_index : Jump → ℕ
jump_index (next_state s) = 0
jump_index (finish shift t) = 1
jump_index reject = 2

unfoldable pub write_jump : Jump → List ℕ
write_jump (next_state s) = write_bytes 0 ++ write_bytes s
write_jump (finish shift t) = write_bytes 1 ++ (write_bytes shift ++ write_bytes (token_index t))
write_jump reject = write_bytes 2

unfoldable pub write_row : JumpTable → List ℕ
unfolding write_jump
write_row row = write_all write_jump row

unfoldable pub serialize : Table → List ℕ
unfolding write_row
serialize states = write_bytes (length states) ++ write_all write_row states

-- `TokenType token{n}`
abbrev pub token_of : ℕ → Option TokenType
token_of n = get_elem? all_tokens n

abbrev pub known_token : Option TokenType → Reader TokenType
known_token none stream = none
known_token (some t) stream = some (t, stream)

abbrev pub token_reader : Reader TokenType
token_reader = do n ← read_bytes; known_token (token_of n)

-- The cases of the `switch`; at any other index the jump stays the default one.
abbrev pub read_case : ℕ → Reader Jump
read_case index =
    if index == 2
    then pure reject
    else if index == 0
    then (do s ← read_bytes; pure (next_state s))
    else if index == 1
    then (do shift ← read_bytes; t ← token_reader; pure (finish shift t))
    else pure (next_state 0)

unfoldable pub read_jump : Reader Jump
read_jump = do index ← read_bytes; read_case index

unfoldable pub read_row : Reader JumpTable
unfolding read_jump
read_row = read_many read_jump characters_count

unfoldable pub deserialize : Reader Table
unfolding read_row
deserialize = do states_count ← read_bytes; read_many read_row states_count

abbrev pub JumpFits64 : Jump → Type 0
JumpFits64 (next_state s) = Fits64 s
JumpFits64 (finish shift t) = Fits64 shift
JumpFits64 reject = Unit

-- What the source holds in its types: rows of 128 jumps, and numbers of 64 bits.
abbrev pub RowFits64 : JumpTable → Type 0
RowFits64 row = (length row ≡ characters_count) × All JumpFits64 row

token_index-Fits64 : (t : TokenType) → Fits64 (token_index t)
token_index-Fits64 t =
    let short : length all_tokens ≡ 56 = refl in
    omega (arith, get_elem?-lt all_tokens (token_index t) (get_elem?-token_index t), short)

token_reader-write_bytes :
    (t : TokenType) (rest : List ℕ)
    → token_reader (write_bytes (token_index t) ++ rest) ≡ some (t, rest)
token_reader-write_bytes t rest =
    read_bytes-last (λ n. known_token (token_of n)) (token_index t) rest (token_index-Fits64 t)
    ∙ ap (λ o. known_token o rest) (get_elem?-token_index t)

read_jump-write_jump :
    (j : Jump) (rest : List ℕ) → JumpFits64 j → read_jump (write_jump j ++ rest) ≡ some (j, rest)
unfolding read_jump write_jump
read_jump-write_jump (next_state s) rest h =
    read_bytes-head read_case 0 (write_bytes s) rest (omega arith)
    ∙ read_bytes-last (λ s. pure (next_state s)) s rest h
read_jump-write_jump (finish shift t) rest h =
    read_bytes-head read_case 1 (write_bytes shift ++ write_bytes (token_index t)) rest
      (omega arith)
    ∙ read_bytes-head (λ n. token_reader >>= λ t. pure (finish n t)) shift
        (write_bytes (token_index t)) rest h
    ∙ >>=-some token_reader (λ t. pure (finish shift t)) (write_bytes (token_index t) ++ rest)
        (token_reader-write_bytes t rest)
read_jump-write_jump reject rest h = read_bytes-last read_case 2 rest (omega arith)

read_row-write_row :
    (row : JumpTable) (rest : List ℕ)
    → RowFits64 row
    → read_row (write_row row ++ rest) ≡ some (row, rest)
unfolding read_row write_row
read_row-write_row row rest (n, h) =
    ap (λ k. read_many read_jump k (write_all write_jump row ++ rest)) (sym n)
    ∙ read_many-write_all write_jump read_jump JumpFits64 read_jump-write_jump row rest h

-- A table of rows of 128 jumps, with its numbers below 2 ^ 64, that is written is read back, and what
-- follows it in the stream is left.
pub deserialize-serialize :
    (table : Table) (rest : List ℕ)
    → All RowFits64 table
    → Fits64 (length table)
    → deserialize (serialize table ++ rest) ≡ some (table, rest)
unfolding deserialize serialize
deserialize-serialize table rest h n =
    read_bytes-head (λ count. read_many read_row count) (length table) (write_all write_row table)
      rest n
    ∙ read_many-write_all write_row read_row RowFits64 read_row-write_row table rest h
