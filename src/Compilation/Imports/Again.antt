-- ===== src/Compilation/Imports/Again.antt =====
-- src/compilation/semantics/NameLookup.cpp, `inject_type`: a class that is imported a second time.
use recursive_functions.Prelude.{ℕ, suc, ◌≡◌, ap, ◌∙◌, List, [], ◌∷◌, ◌++◌, some, get_elem?, set}
use recursive_functions.Compilation.Types.{
  TypePtr, TypeInfo, StringId, QualifiedId, Storage, get_emplace,
}
use recursive_functions.Compilation.Imports.{
  injected, and_then, ◌>>=◌, pure, stored_member, add_member, import_name, inject_members,
  inject_kind, inject_found, inject_type,
}

-- A class with one member, an integer, which the storage holds already under its local name.
pub record IsImported (rename : StringId → StringId) (external : Storage) (cls number : TypePtr)
    (member : StringId) (storage : Storage) (local_cls local_number : TypePtr)
    (local_name : QualifiedId) (local_members : List (StringId × TypePtr)) : Type 0 where
  pub name : QualifiedId
  pub width : ℕ
  pub class_at : get_elem? external cls ≡ some (TypeInfo.class name ((member, number) ∷ []))
  pub number_at : get_elem? external number ≡ some (TypeInfo.signed_int width)
  pub class_found :
      get_emplace storage (TypeInfo.class (import_name rename name) []) ≡ (local_cls, storage)
  pub number_found : get_emplace storage (TypeInfo.signed_int width) ≡ (local_number, storage)
  pub local_at : get_elem? storage local_cls ≡ some (TypeInfo.class local_name local_members)

-- A class with one member, an integer, whose name and integer the storage holds already: the import
-- finds the class by its name, and adds the member to those that it has there.
pub inject_type-IsImported :
    (rename : StringId → StringId) (external : Storage) (cls number : TypePtr) (member : StringId)
    (storage : Storage) (local_cls local_number : TypePtr) (local_name : QualifiedId)
    (local_members : List (StringId × TypePtr)) (fuel : ℕ)
    → IsImported rename external cls number member storage local_cls local_number local_name
        local_members
    → inject_type rename external (suc (suc fuel)) cls storage
      ≡ injected local_cls (
          set storage local_cls
            (TypeInfo.class local_name (local_members ++ (rename member, local_number) ∷ [])))
unfolding inject_type inject_kind
inject_type-IsImported rename external cls number member storage local_cls local_number local_name
      local_members fuel i =
    let inject = inject_type rename external (suc fuel) in
    let number_step : inject number storage ≡ injected local_number storage =
      ap (λ o. inject_found rename (inject_type rename external fuel) o storage) i.number_at
      ∙ ap (λ s. injected s.0 s.1) i.number_found in
    ap (λ o. inject_found rename inject o storage) i.class_at
    ∙ ap (λ s. inject_members rename inject s.0 ((member, number) ∷ []) s.1) i.class_found
    ∙ ap
        (λ o. and_then o (λ p. add_member local_cls (rename member, p) >>= λ added. pure local_cls))
        number_step
    ∙ ap
        (λ o.
          and_then (stored_member local_cls (rename member, local_number) storage o)
            (λ added. pure local_cls))
        i.local_at
