-- ===== src/Tests/Imports.antt =====
-- A list node that points to itself, and a class with one member.
use recursive_functions.Prelude.{suc, ◌+◌, ◌≡◌, refl, [], ◌∷◌, ◌++◌, set}
use recursive_functions.Compilation.Types.{
  TypeInfo, StringId, Storage, list_eq, type_eq, find_type, get_emplace,
}
use recursive_functions.Compilation.Imports.{injected, out_of_fuel, inject_kind, inject_type}
use recursive_functions.Compilation.Imports.Cycles.{PointsToItself, inject_type-PointsToItself}
use recursive_functions.Compilation.Imports.Again.{IsImported, inject_type-IsImported}

-- The identifiers of the other module come behind ten of this one.
abbrev rename : StringId → StringId
rename id = 10 + id

-- An int, the class 1 with the member 2 of type int, the class 3 with the member 4 that points to it,
-- and that pointer.
abbrev external : Storage
external =
    TypeInfo.signed_int 32
    ∷ TypeInfo.class (1 ∷ []) ((2, 0) ∷ [])
    ∷ TypeInfo.class (3 ∷ []) ((4, 3) ∷ [])
    ∷ TypeInfo.pointer 2
    ∷ []

node-PointsToItself : PointsToItself external 2 3
node-PointsToItself = record {
  name = 3 ∷ [];
  member = 4;
  members = [];
  class_at = refl;
  pointer_at = refl;
}

inject_type-PointsToItself_example : inject_type rename external 100 2 [] ≡ out_of_fuel
inject_type-PointsToItself_example =
    inject_type-PointsToItself rename external 2 3 node-PointsToItself 100 []

-- The storage after the first import of the class 1.
abbrev local : Storage
local = TypeInfo.class (11 ∷ []) ((12, 1) ∷ []) ∷ TypeInfo.signed_int 32 ∷ []

inject_type-empty : inject_type rename external 2 1 [] ≡ injected 0 local
unfolding inject_type inject_kind get_emplace find_type type_eq list_eq
inject_type-empty = refl

local-IsImported : IsImported rename external 1 0 2 local 0 1 (11 ∷ []) ((12, 1) ∷ [])
unfolding get_emplace find_type type_eq list_eq
local-IsImported = record {
  name = 1 ∷ [];
  width = 32;
  class_at = refl;
  number_at = refl;
  class_found = refl;
  number_found = refl;
  local_at = refl;
}

inject_type-IsImported_example :
    inject_type rename external (suc (suc 0)) 1 local
    ≡ injected 0 (set local 0 (TypeInfo.class (11 ∷ []) (((12, 1) ∷ []) ++ (rename 2, 1) ∷ [])))
inject_type-IsImported_example =
    inject_type-IsImported rename external 1 0 2 local 0 1 (11 ∷ []) ((12, 1) ∷ []) 0
      local-IsImported
