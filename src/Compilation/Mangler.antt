-- ===== src/Compilation/Mangler.antt =====
-- src/compilation/mangling/Mangler.cpp: the names that functions have for the linker. The mangler's
-- state is the vector of its substitutions; a string is the list of its bytes, and `strings_` is the
-- function from an identifier to its string.
pub mod Substitutions
pub mod Totality
pub mod Towers
pub mod Repeated
use recursive_functions.Prelude.{
  ℕ, zero, suc, ◌+◌, ◌/◌, ◌%◌, List, [], ◌∷◌, ◌++◌, Bool, true, false, Option, none, some, ◌&&◌,
  ltb, ◌==◌, if◌then◌else◌, length, get_elem?,
}
use recursive_functions.Compilation.Types.{
  TypePtr, TypeInfo, StringId, QualifiedId, Storage, list_eq, get_original,
}

abbrev pub Text : Type 0
Text = List ℕ

-- `failed` is the exception of `at` and of `not_implemented`, `fault` a pointer to no type.
pub data Mangled {ℓ} (A : Type ℓ) : Type ℓ where
  failed fault out_of_fuel : Mangled A
  made : A → List Text → Mangled A

abbrev pub Mangling {ℓ} : Type ℓ → Type ℓ
Mangling A = List Text → Mangled A

abbrev pub continue_with {ℓ κ} :
    {A : Type ℓ} {B : Type κ} → (A → Mangling B) → Mangled A → Mangled B
continue_with next failed = failed
continue_with next fault = fault
continue_with next out_of_fuel = out_of_fuel
continue_with next (made a substitutions) = next a substitutions

infixl 7 ◌>>=◌
abbrev pub ◌>>=◌ {ℓ κ} : {A : Type ℓ} {B : Type κ} → Mangling A → (A → Mangling B) → Mangling B
◌>>=◌ mangling next substitutions = continue_with next (mangling substitutions)

abbrev pub pure {ℓ} : {A : Type ℓ} → A → Mangling A
pure a substitutions = made a substitutions

abbrev pub throws {ℓ} : {A : Type ℓ} → Mangling A
throws substitutions = failed

-- `std::to_string`, on a round for each digit at most.
unfoldable pub digits : ℕ → ℕ → Text → Text
digits zero n rest = rest
digits (suc fuel) n rest =
    let digit = 48 + n % 10 in
    let more = digits fuel (n / 10) (digit ∷ rest) in if ltb n 10 then digit ∷ rest else more

abbrev pub to_string : ℕ → Text
to_string n = digits (suc n) n []

-- `S_`, `S0_`, `S1_`, …
unfoldable pub get_substitution_name : ℕ → Text
get_substitution_name zero = 83 ∷ 95 ∷ []
get_substitution_name (suc index) = 83 ∷ to_string index ++ 95 ∷ []

-- The loop of `consider_substitution`, from index i on.
unfoldable pub consider_substitution : List Text → ℕ → Text → Option Text
consider_substitution [] i text = none
consider_substitution (s ∷ substitutions) i text =
    if list_eq s text
    then some (get_substitution_name i)
    else consider_substitution substitutions (suc i) text

unfoldable pub substitutable : Text → Mangling Text
substitutable text substitutions = elim (consider_substitution substitutions 0 text) [
  | some name ↦ made name substitutions
  | none ↦ made text (substitutions ++ text ∷ [])
]

-- The three maps of widths; `at` throws at any other width.
abbrev pub width_code : ℕ → Text → Text → Text → Option Text → Mangling Text
width_code width at_8 at_16 at_32 at_64 =
    if width == 8
    then pure at_8
    else if width == 16
    then pure at_16
    else if width == 32
    then pure at_32
    else if width == 64
    then elim at_64 [ none ↦ throws | some text ↦ pure text ]
    else throws

unfoldable pub mangle_source_name : Text → Text
mangle_source_name name = to_string (length name) ++ name

abbrev pub mangle_all : (TypePtr → Mangling Text) → List TypePtr → Mangling Text
mangle_all mangle [] = pure []
mangle_all mangle (p ∷ ps) = do first ← mangle p; rest ← mangle_all mangle ps; pure (first ++ rest)

-- `v` is 118.
unfoldable pub mangle_bare_function_type : (TypePtr → Mangling Text) → List TypePtr → Mangling Text
mangle_bare_function_type mangle [] = pure (118 ∷ [])
mangle_bare_function_type mangle (p ∷ ps) = mangle_all mangle (p ∷ ps)

-- The qualifiers, and the name itself.
abbrev pub qualifiers_view : QualifiedId → List StringId
qualifiers_view [] = []
qualifiers_view (name ∷ []) = []
qualifiers_view (part ∷ next ∷ parts) = part ∷ qualifiers_view (next ∷ parts)

abbrev pub last_part : StringId → List StringId → StringId
last_part part [] = part
last_part part (next ∷ parts) = last_part next parts

-- The type that a pointer stands for, behind an alias.
abbrev pub original_at : Storage → TypePtr → Option TypeInfo → Option TypeInfo
original_at types p none = none
original_at types p (some type) = get_elem? types (get_original p type)

abbrev pub original_type : Storage → TypePtr → Option TypeInfo
original_type types p = original_at types p (get_elem? types p)

module _ (get_string : StringId → Text) where
  -- The loop over the qualifiers, with the prefix so far.
  abbrev pub mangle_prefix : Text → List StringId → Mangling Text
  mangle_prefix result [] = pure result
  mangle_prefix result (part ∷ parts) = do
    result ← substitutable (result ++ mangle_source_name (get_string part))
    mangle_prefix result parts

  -- `N` and `E`
  unfoldable pub mangle_nested_name : StringId → List StringId → Mangling Text
  mangle_nested_name part parts = do
    prefix ← mangle_prefix [] (qualifiers_view (part ∷ parts))
    pure (78 ∷ prefix ++ mangle_source_name (get_string (last_part part parts)) ++ 69 ∷ [])

  -- A name without parts has no last one.
  unfoldable pub mangle_name : QualifiedId → Mangling Text
  mangle_name [] substitutions = fault
  mangle_name (name ∷ []) substitutions = made (mangle_source_name (get_string name)) substitutions
  mangle_name (part ∷ next ∷ parts) substitutions =
      mangle_nested_name part (next ∷ parts) substitutions

  -- `u5tupleI` and `E` around the elements of a tuple, `F` before a function, `P` before a pointer.
  unfoldable pub mangle_kind : (TypePtr → Mangling Text) → TypeInfo → Mangling Text
  mangle_kind mangle (TypeInfo.function arguments return_type) = do
    text ← mangle_bare_function_type mangle arguments
    substitutable (70 ∷ text)
  mangle_kind mangle (TypeInfo.bool width) = pure (98 ∷ [])
  mangle_kind mangle (TypeInfo.signed_int width) =
      width_code width (97 ∷ []) (115 ∷ []) (105 ∷ []) (some (120 ∷ []))
  mangle_kind mangle (TypeInfo.unsigned_int width) =
      width_code width (104 ∷ []) (116 ∷ []) (106 ∷ []) (some (121 ∷ []))
  mangle_kind mangle (TypeInfo.char width) =
      width_code width (99 ∷ []) (68 ∷ 115 ∷ []) (68 ∷ 105 ∷ []) none
  mangle_kind mangle (TypeInfo.tuple []) = pure (118 ∷ [])
  mangle_kind mangle (TypeInfo.tuple (p ∷ ps)) = do
    text ← mangle_all mangle (p ∷ ps)
    substitutable
        (117 ∷ mangle_source_name (116 ∷ 117 ∷ 112 ∷ 108 ∷ 101 ∷ []) ++ 73 ∷ text ++ 69 ∷ [])
  mangle_kind mangle (TypeInfo.class name members) = do text ← mangle_name name; substitutable text
  mangle_kind mangle (TypeInfo.pointer child) = do text ← mangle child; substitutable (80 ∷ text)
  mangle_kind mangle (TypeInfo.alias name original) = throws
  mangle_kind mangle TypeInfo.nullptr = throws

  abbrev pub mangle_found : (TypePtr → Mangling Text) → Option TypeInfo → Mangling Text
  mangle_found mangle none substitutions = fault
  mangle_found mangle (some type) substitutions = mangle_kind mangle type substitutions

  unfoldable pub mangle_type : Storage → ℕ → TypePtr → Mangling Text
  mangle_type types zero p substitutions = out_of_fuel
  mangle_type types (suc fuel) p substitutions =
      mangle_found (mangle_type types fuel) (original_type types p) substitutions

  -- The name of a function, from its qualified name and the types of its arguments. `main` keeps its
  -- name; the others are `_Z`, the name and the arguments.
  unfoldable pub mangle : Storage → QualifiedId → List TypePtr → Mangled Text
  mangle types name arguments =
      if is_main name then made (109 ∷ 97 ∷ 105 ∷ 110 ∷ []) [] else mangled []
    where
      is_main : QualifiedId → Bool
      is_main [] = false
      is_main (part ∷ []) = list_eq (get_string part) (109 ∷ 97 ∷ 105 ∷ 110 ∷ [])
      is_main (part ∷ next ∷ parts) = false

      mangled : Mangling Text
      mangled = do
        text ← mangle_name name
        arguments ← mangle_bare_function_type (mangle_type types (suc (length types))) arguments
        pure (95 ∷ 90 ∷ text ++ arguments)
