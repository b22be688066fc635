-- ===== src/Lexis/Token.antt =====
-- src/lexis/Token.h: the kinds of tokens, and a token with the range it covers.
use recursive_functions.Prelude.{
  ℕ, ◌≡◌, refl, ap, ◌↔◌, Bool, true, false, List, [], ◌∷◌, get_elem?, ==_iff, ◌==◌, some, sym, ◌∙◌,
}
use recursive_functions.Sources.Location.{SourceRange}

pub data TokenType : Type 0 where
  identifier kw_break kw_continue kw_else kw_if kw_return : TokenType
  kw_while kw_import kw_export kw_extern kw_namespace kw_type : TokenType
  kw_as kw_false kw_true kw_i8 kw_i16 kw_i32 : TokenType
  kw_i64 kw_u8 kw_u16 kw_u32 kw_u64 kw_c8 : TokenType
  kw_b8 number string equal plus minus : TokenType
  star percent not_sign ampersand less greater : TokenType
  less_eq greater_eq equalequal notequal arrow plusplus : TokenType
  minusminus coloncolon open_paren close_paren open_brace close_brace : TokenType
  semicolon colon comma dot whitespace comment : TokenType
  error end : TokenType

-- The number of a kind in the enumeration, which the tables store.
unfoldable pub token_index : TokenType → ℕ
token_index identifier = 0
token_index kw_break = 1
token_index kw_continue = 2
token_index kw_else = 3
token_index kw_if = 4
token_index kw_return = 5
token_index kw_while = 6
token_index kw_import = 7
token_index kw_export = 8
token_index kw_extern = 9
token_index kw_namespace = 10
token_index kw_type = 11
token_index kw_as = 12
token_index kw_false = 13
token_index kw_true = 14
token_index kw_i8 = 15
token_index kw_i16 = 16
token_index kw_i32 = 17
token_index kw_i64 = 18
token_index kw_u8 = 19
token_index kw_u16 = 20
token_index kw_u32 = 21
token_index kw_u64 = 22
token_index kw_c8 = 23
token_index kw_b8 = 24
token_index number = 25
token_index string = 26
token_index equal = 27
token_index plus = 28
token_index minus = 29
token_index star = 30
token_index percent = 31
token_index not_sign = 32
token_index ampersand = 33
token_index less = 34
token_index greater = 35
token_index less_eq = 36
token_index greater_eq = 37
token_index equalequal = 38
token_index notequal = 39
token_index arrow = 40
token_index plusplus = 41
token_index minusminus = 42
token_index coloncolon = 43
token_index open_paren = 44
token_index close_paren = 45
token_index open_brace = 46
token_index close_brace = 47
token_index semicolon = 48
token_index colon = 49
token_index comma = 50
token_index dot = 51
token_index whitespace = 52
token_index comment = 53
token_index error = 54
token_index end = 55

abbrev pub all_tokens : List TokenType
all_tokens =
    identifier ∷ kw_break ∷ kw_continue ∷ kw_else ∷ kw_if ∷ kw_return ∷ kw_while ∷ kw_import
    ∷ kw_export ∷ kw_extern ∷ kw_namespace ∷ kw_type ∷ kw_as ∷ kw_false ∷ kw_true ∷ kw_i8 ∷ kw_i16
    ∷ kw_i32 ∷ kw_i64 ∷ kw_u8 ∷ kw_u16 ∷ kw_u32 ∷ kw_u64 ∷ kw_c8 ∷ kw_b8 ∷ number ∷ string ∷ equal
    ∷ plus ∷ minus ∷ star ∷ percent ∷ not_sign ∷ ampersand ∷ less ∷ greater ∷ less_eq ∷ greater_eq
    ∷ equalequal ∷ notequal ∷ arrow ∷ plusplus ∷ minusminus ∷ coloncolon ∷ open_paren ∷ close_paren
    ∷ open_brace ∷ close_brace ∷ semicolon ∷ colon ∷ comma ∷ dot ∷ whitespace ∷ comment ∷ error
    ∷ end ∷ []

pub get_elem?-token_index : (t : TokenType) → get_elem? all_tokens (token_index t) ≡ some t
unfolding token_index
get_elem?-token_index identifier = refl
get_elem?-token_index kw_break = refl
get_elem?-token_index kw_continue = refl
get_elem?-token_index kw_else = refl
get_elem?-token_index kw_if = refl
get_elem?-token_index kw_return = refl
get_elem?-token_index kw_while = refl
get_elem?-token_index kw_import = refl
get_elem?-token_index kw_export = refl
get_elem?-token_index kw_extern = refl
get_elem?-token_index kw_namespace = refl
get_elem?-token_index kw_type = refl
get_elem?-token_index kw_as = refl
get_elem?-token_index kw_false = refl
get_elem?-token_index kw_true = refl
get_elem?-token_index kw_i8 = refl
get_elem?-token_index kw_i16 = refl
get_elem?-token_index kw_i32 = refl
get_elem?-token_index kw_i64 = refl
get_elem?-token_index kw_u8 = refl
get_elem?-token_index kw_u16 = refl
get_elem?-token_index kw_u32 = refl
get_elem?-token_index kw_u64 = refl
get_elem?-token_index kw_c8 = refl
get_elem?-token_index kw_b8 = refl
get_elem?-token_index number = refl
get_elem?-token_index string = refl
get_elem?-token_index equal = refl
get_elem?-token_index plus = refl
get_elem?-token_index minus = refl
get_elem?-token_index star = refl
get_elem?-token_index percent = refl
get_elem?-token_index not_sign = refl
get_elem?-token_index ampersand = refl
get_elem?-token_index less = refl
get_elem?-token_index greater = refl
get_elem?-token_index less_eq = refl
get_elem?-token_index greater_eq = refl
get_elem?-token_index equalequal = refl
get_elem?-token_index notequal = refl
get_elem?-token_index arrow = refl
get_elem?-token_index plusplus = refl
get_elem?-token_index minusminus = refl
get_elem?-token_index coloncolon = refl
get_elem?-token_index open_paren = refl
get_elem?-token_index close_paren = refl
get_elem?-token_index open_brace = refl
get_elem?-token_index close_brace = refl
get_elem?-token_index semicolon = refl
get_elem?-token_index colon = refl
get_elem?-token_index comma = refl
get_elem?-token_index dot = refl
get_elem?-token_index whitespace = refl
get_elem?-token_index comment = refl
get_elem?-token_index error = refl
get_elem?-token_index end = refl

some_inj : (s t : TokenType) → some s ≡ some t → s ≡ t
some_inj s t e = cc

pub token_index_injective : (s t : TokenType) → token_index s ≡ token_index t → s ≡ t
token_index_injective s t e =
    some_inj s t
      (sym (get_elem?-token_index s) ∙ ap (get_elem? all_tokens) e ∙ get_elem?-token_index t)

abbrev pub token_eq : TokenType → TokenType → Bool
token_eq s t = token_index s == token_index t

pub token_eq_iff : (s t : TokenType) → (token_eq s t ≡ true) ↔ (s ≡ t)
token_eq_iff s t =
    (λ h. token_index_injective s t ((==_iff _ _).0 h), λ e. (==_iff _ _).1 (ap token_index e))

pub record Token : Type 0 where
  pub type : TokenType
  pub source_range : SourceRange

-- The kinds that `next_token` passes over.
unfoldable pub is_skipped : TokenType → Bool
is_skipped whitespace = true
is_skipped comment = true
is_skipped _ = false
