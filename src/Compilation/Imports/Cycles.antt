-- ===== src/Compilation/Imports/Cycles.antt =====
-- src/compilation/semantics/NameLookup.cpp, `inject_type`: a class with a pointer to itself.
use recursive_functions.Prelude.{ℕ, zero, suc, ◌≡◌, refl, ap, ◌∙◌, List, [], ◌∷◌, some, get_elem?}
use recursive_functions.Compilation.Types.{
  TypePtr, TypeInfo, StringId, QualifiedId, Storage, get_emplace,
}
use recursive_functions.Compilation.Imports.{
  out_of_fuel, and_then, ◌>>=◌, make_type, add_member, import_name, inject_members, inject_kind,
  inject_found, inject_type,
}

-- A class whose first member points to the class.
pub record PointsToItself (external : Storage) (cls pointer : TypePtr) : Type 0 where
  pub name : QualifiedId
  pub member : StringId
  pub members : List (StringId × TypePtr)
  pub class_at : get_elem? external cls ≡ some (TypeInfo.class name ((member, pointer) ∷ members))
  pub pointer_at : get_elem? external pointer ≡ some (TypeInfo.pointer cls)

module _ (rename : StringId → StringId) (external : Storage) (cls pointer : TypePtr)
    (c : PointsToItself external cls pointer) where
  cls_step :
      (fuel : ℕ) (storage : Storage)
      → ((local : Storage) → inject_type rename external fuel pointer local ≡ out_of_fuel)
      → inject_type rename external (suc fuel) cls storage ≡ out_of_fuel
  unfolding inject_type inject_kind
  cls_step fuel storage h =
      ap (λ o. inject_found rename (inject_type rename external fuel) o storage) c.class_at
      ∙ ap
          (λ o. and_then o (λ p.
            add_member (get_emplace storage (TypeInfo.class (import_name rename c.name) [])).0
              (rename c.member, p)
            >>= λ added.
                inject_members rename (inject_type rename external fuel)
                  (get_emplace storage (TypeInfo.class (import_name rename c.name) [])).0
                  c.members))
          (h (get_emplace storage (TypeInfo.class (import_name rename c.name) [])).1)

  pointer_step :
      (fuel : ℕ) (storage : Storage)
      → ((local : Storage) → inject_type rename external fuel cls local ≡ out_of_fuel)
      → inject_type rename external (suc fuel) pointer storage ≡ out_of_fuel
  unfolding inject_type inject_kind
  pointer_step fuel storage h =
      ap (λ o. inject_found rename (inject_type rename external fuel) o storage) c.pointer_at
      ∙ ap (λ o. and_then o (λ child. make_type (TypeInfo.pointer child))) (h storage)

  both :
      (fuel : ℕ) (storage : Storage)
      → (inject_type rename external fuel cls storage ≡ out_of_fuel)
        × (inject_type rename external fuel pointer storage ≡ out_of_fuel)
  unfolding inject_type
  both zero storage = (refl, refl)
  both (suc fuel) storage = (
    cls_step fuel storage (λ local. (both fuel local).1),
    pointer_step fuel storage (λ local. (both fuel local).0),
  )

-- The import of a class whose first member is a pointer to the class does not end, whatever the fuel.
pub inject_type-PointsToItself :
    (rename : StringId → StringId) (external : Storage) (cls pointer : TypePtr)
    → PointsToItself external cls pointer
    → (fuel : ℕ) (storage : Storage) → inject_type rename external fuel cls storage ≡ out_of_fuel
inject_type-PointsToItself rename external cls pointer c fuel storage =
    (both rename external cls pointer c fuel storage).0
