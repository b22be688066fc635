-- ===== src/Compilation/Imports.antt =====
-- src/compilation/semantics/NameLookup.cpp, `inject_type`: a type of an imported module is copied to the
-- storage of the module that imports it. `rename` is import_external_string: the identifier that the
-- string of an external one has here.
pub mod Cycles
pub mod Again
use recursive_functions.Prelude.{
  ℕ, zero, suc, List, [], ◌∷◌, ◌++◌, map, Option, none, some, get_elem?, set,
}
use recursive_functions.Compilation.Types.{
  TypePtr, TypeInfo, StringId, QualifiedId, Storage, get_emplace,
}

-- The result and the storage after it. `unreachable` is the `default` of the switch, `fault` a pointer
-- to no type.
pub data Injected {ℓ} (A : Type ℓ) : Type ℓ where
  injected : A → Storage → Injected A
  unreachable fault out_of_fuel : Injected A

abbrev pub Injecting {ℓ} : Type ℓ → Type ℓ
Injecting A = Storage → Injected A

abbrev pub and_then {ℓ κ} : {A : Type ℓ} {B : Type κ} → Injected A → (A → Injecting B) → Injected B
and_then (injected a storage) next = next a storage
and_then unreachable next = unreachable
and_then fault next = fault
and_then out_of_fuel next = out_of_fuel

infixl 8 ◌>>=◌
abbrev pub ◌>>=◌ {ℓ κ} : {A : Type ℓ} {B : Type κ} → Injecting A → (A → Injecting B) → Injecting B
◌>>=◌ injecting next storage = and_then (injecting storage) next

abbrev pub pure {ℓ} : {A : Type ℓ} → A → Injecting A
pure a storage = injected a storage

abbrev pub make_type : TypeInfo → Injecting TypePtr
make_type type storage = let stored = get_emplace storage type in injected stored.0 stored.1

-- `members.emplace_back` on a class; the result is the class itself.
abbrev pub with_member : StringId × TypePtr → TypeInfo → TypeInfo
with_member member (TypeInfo.class name members) = TypeInfo.class name (members ++ member ∷ [])
with_member member type = type

abbrev pub stored_member :
    TypePtr → StringId × TypePtr → Storage → Option TypeInfo → Injected TypePtr
stored_member p member storage none = fault
stored_member p member storage (some type) = injected p (set storage p (with_member member type))

abbrev pub add_member : TypePtr → StringId × TypePtr → Injecting TypePtr
add_member p member storage = stored_member p member storage (get_elem? storage p)

module _ (rename : StringId → StringId) where
  abbrev pub import_name : QualifiedId → QualifiedId
  import_name = map rename

  abbrev pub inject_all : (TypePtr → Injecting TypePtr) → List TypePtr → Injecting (List TypePtr)
  inject_all inject [] = pure []
  inject_all inject (p ∷ ps) = do first ← inject p; rest ← inject_all inject ps; pure (first ∷ rest)

  abbrev pub inject_members :
      (TypePtr → Injecting TypePtr) → TypePtr → List (StringId × TypePtr) → Injecting TypePtr
  inject_members inject local_cls [] = pure local_cls
  inject_members inject local_cls ((name, type) ∷ members) = do
    p ← inject type
    added ← add_member local_cls (rename name, p)
    inject_members inject local_cls members

  -- The arguments of a function are a view: they are copied behind the return type.
  unfoldable pub inject_kind : (TypePtr → Injecting TypePtr) → TypeInfo → Injecting TypePtr
  inject_kind inject (TypeInfo.signed_int width) = make_type (TypeInfo.signed_int width)
  inject_kind inject (TypeInfo.unsigned_int width) = make_type (TypeInfo.unsigned_int width)
  inject_kind inject (TypeInfo.bool width) = make_type (TypeInfo.bool width)
  inject_kind inject (TypeInfo.char width) = make_type (TypeInfo.char width)
  inject_kind inject (TypeInfo.pointer child) = do
    local_child ← inject child
    make_type (TypeInfo.pointer local_child)
  inject_kind inject (TypeInfo.function arguments return_type) = do
    local_return_type ← inject return_type
    local_arguments ← inject_all inject arguments
    make_type (TypeInfo.function local_arguments local_return_type)
  inject_kind inject (TypeInfo.alias name external_original) = do
    local_original ← inject external_original
    make_type (TypeInfo.alias (import_name name) local_original)
  inject_kind inject (TypeInfo.tuple elements) = do
    imported_elements ← inject_all inject elements
    make_type (TypeInfo.tuple imported_elements)
  inject_kind inject (TypeInfo.class name members) = do
    local_cls ← make_type (TypeInfo.class (import_name name) [])
    inject_members inject local_cls members
  inject_kind inject TypeInfo.nullptr = λ storage. unreachable

  abbrev pub inject_found : (TypePtr → Injecting TypePtr) → Option TypeInfo → Injecting TypePtr
  inject_found inject none storage = fault
  inject_found inject (some type) storage = inject_kind inject type storage

  -- The types of the other module are `external`.
  unfoldable pub inject_type : Storage → ℕ → TypePtr → Injecting TypePtr
  inject_type external zero p storage = out_of_fuel
  inject_type external (suc fuel) p storage =
      inject_found (inject_type external fuel) (get_elem? external p) storage
