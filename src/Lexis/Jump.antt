-- ===== src/Lexis/Jump.antt =====
-- src/lexis/table/LexicalAutomatonState.h and Charset.h: the rows of the lexical table.
use recursive_functions.Prelude.{ℕ, ◌≡◌, refl, Bool, true, false, List, ◌&&◌, arith, ◌==◌}
use recursive_functions.Lexis.Token.{TokenType, token_eq, token_eq_iff}

-- `Charset::kCharactersCount`
abbrev pub characters_count : ℕ
characters_count = 128

pub data Jump : Type 0 where
  next_state : (state_id : ℕ) → Jump
  finish : (forward_shift : ℕ) (token : TokenType) → Jump
  reject : Jump

-- The defaulted `operator==` of the variant.
abbrev pub jump_eq : Jump → Jump → Bool
jump_eq (next_state s) (next_state t) = s == t
jump_eq (finish m s) (finish n t) = m == n && token_eq s t
jump_eq reject reject = true
jump_eq _ _ = false

pub jump_eq_sound : (i j : Jump) → jump_eq i j ≡ true → i ≡ j
jump_eq_sound (next_state s) (next_state t) h = ground arith
jump_eq_sound (finish m s) (finish n t) h = ground (arith, token_eq_iff s t)
jump_eq_sound reject reject h = refl
jump_eq_sound (next_state s) (finish n t) h = ground arith
jump_eq_sound (next_state s) reject h = ground arith
jump_eq_sound (finish m s) (next_state t) h = ground arith
jump_eq_sound (finish m s) reject h = ground arith
jump_eq_sound reject (next_state t) h = ground arith
jump_eq_sound reject (finish n t) h = ground arith

-- One jump for each character.
abbrev pub JumpTable : Type 0
JumpTable = List Jump

abbrev pub Table : Type 0
Table = List JumpTable
