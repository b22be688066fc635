-- ===== src/Compilation/Types.antt =====
-- src/compilation/types and src/utils/PointersStorage.h. The storage of a module is the list of its
-- types, and a `Type*` is a position in it; a `StringId` is a number.
pub mod Storage
use recursive_functions.Prelude.{
  ℕ, suc, Bool, true, false, List, [], ◌∷◌, ◌++◌, Option, none, some, ◌&&◌, ◌||◌, ◌==◌,
  if◌then◌else◌, length, get_elem?,
}

abbrev pub TypePtr : Type 0
TypePtr = ℕ

abbrev pub StringId : Type 0
StringId = ℕ

-- `struct QualifiedId`, by its parts.
abbrev pub QualifiedId : Type 0
QualifiedId = List StringId

pub data TypeInfo : Type 0 where
  signed_int unsigned_int bool char : (width : ℕ) → TypeInfo
  pointer : (child : TypePtr) → TypeInfo
  tuple : (elements : List TypePtr) → TypeInfo
  function : (arguments : List TypePtr) (return_type : TypePtr) → TypeInfo
  alias : (name : QualifiedId) (original : TypePtr) → TypeInfo
  class : (name : QualifiedId) (members : List (StringId × TypePtr)) → TypeInfo
  nullptr : TypeInfo

-- `Type::Kind`, by its place in the enumeration.
pub data Kind : Type 0 where
  signed_int unsigned_int bool char pointer tuple function alias class nullptr : Kind

unfoldable pub get_kind : TypeInfo → Kind
get_kind (TypeInfo.signed_int w) = Kind.signed_int
get_kind (TypeInfo.unsigned_int w) = Kind.unsigned_int
get_kind (TypeInfo.bool w) = Kind.bool
get_kind (TypeInfo.char w) = Kind.char
get_kind (TypeInfo.pointer c) = Kind.pointer
get_kind (TypeInfo.tuple ts) = Kind.tuple
get_kind (TypeInfo.function ts r) = Kind.function
get_kind (TypeInfo.alias n o) = Kind.alias
get_kind (TypeInfo.class n ms) = Kind.class
get_kind TypeInfo.nullptr = Kind.nullptr

-- `operator==` of two vectors of numbers.
unfoldable pub list_eq : List ℕ → List ℕ → Bool
list_eq [] [] = true
list_eq [] (y ∷ ys) = false
list_eq (x ∷ xs) [] = false
list_eq (x ∷ xs) (y ∷ ys) = x == y && list_eq xs ys

-- `operator==` of the types: children by pointer, a class by its name alone.
unfoldable pub type_eq : TypeInfo → TypeInfo → Bool
unfolding list_eq
type_eq (TypeInfo.signed_int w) (TypeInfo.signed_int w') = w == w'
type_eq (TypeInfo.unsigned_int w) (TypeInfo.unsigned_int w') = w == w'
type_eq (TypeInfo.bool w) (TypeInfo.bool w') = w == w'
type_eq (TypeInfo.char w) (TypeInfo.char w') = w == w'
type_eq (TypeInfo.pointer c) (TypeInfo.pointer c') = c == c'
type_eq (TypeInfo.tuple ts) (TypeInfo.tuple ts') = list_eq ts ts'
type_eq (TypeInfo.function ts r) (TypeInfo.function ts' r') = list_eq ts ts' && r == r'
type_eq (TypeInfo.alias n o) (TypeInfo.alias n' o') = o == o' && list_eq n n'
type_eq (TypeInfo.class n ms) (TypeInfo.class n' ms') = list_eq n n'
type_eq TypeInfo.nullptr TypeInfo.nullptr = true
type_eq _ _ = false

unfoldable pub is_primitive : TypeInfo → Bool
unfolding get_kind
is_primitive t = elim (get_kind t) [
  | signed_int ↦ true
  | unsigned_int ↦ true
  | bool ↦ true
  | char ↦ true
  | _ ↦ false
]

unfoldable pub is_arithmetic : TypeInfo → Bool
unfolding get_kind
is_arithmetic t = elim (get_kind t) [
  | signed_int ↦ true
  | unsigned_int ↦ true
  | char ↦ true
  | _ ↦ false
]

unfoldable pub is_unit : TypeInfo → Bool
is_unit (TypeInfo.tuple []) = true
is_unit _ = false

-- `get_original`: one step, at an alias.
unfoldable pub get_original : TypePtr → TypeInfo → TypePtr
get_original self (TypeInfo.alias n original) = original
get_original self _ = self

abbrev pub Storage : Type 0
Storage = List TypeInfo

-- `storage_.find(&value)`, from position i on.
unfoldable pub find_type : Storage → TypeInfo → ℕ → Option TypePtr
find_type [] value i = none
find_type (t ∷ storage) value i =
    if type_eq t value then some i else find_type storage value (suc i)

-- `get_emplace`: the pointer to the type that is stored, or to a new one.
unfoldable pub get_emplace : Storage → TypeInfo → TypePtr × Storage
unfolding find_type
get_emplace storage value = elim (find_type storage value 0) [
  | none ↦ (length storage, storage ++ value ∷ [])
  | some p ↦ (p, storage)
]

-- `add_primitive` at run time; `none` is the exception for a kind that is not primitive.
unfoldable pub add_primitive : Storage → Kind → ℕ → Option (TypePtr × Storage)
unfolding get_emplace
add_primitive storage Kind.signed_int w = some (get_emplace storage (TypeInfo.signed_int w))
add_primitive storage Kind.unsigned_int w = some (get_emplace storage (TypeInfo.unsigned_int w))
add_primitive storage Kind.bool w = some (get_emplace storage (TypeInfo.bool w))
add_primitive storage Kind.char w = some (get_emplace storage (TypeInfo.char w))
add_primitive storage _ w = none

unfoldable pub add_pointer : Storage → TypePtr → TypePtr × Storage
unfolding get_emplace
add_pointer storage t = get_emplace storage (TypeInfo.pointer t)

unfoldable pub add_alias : Storage → QualifiedId → TypePtr → TypePtr × Storage
unfolding get_emplace
add_alias storage name t = get_emplace storage (TypeInfo.alias name t)
