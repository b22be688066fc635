-- ===== src/Tests/Compilation.antt =====
-- A storage with three types, and expressions of these types.
use recursive_functions.Prelude.{
  zero, suc, ◌≡◌, ◌≢◌, refl, List, [], ◌∷◌, some, arith, All, get_elem?,
}
use recursive_functions.Compilation.Types.{
  TypeInfo, TypePtr, QualifiedId, Storage, get_emplace, get_original,
}
use recursive_functions.Compilation.Types.Storage.{key, IsInterned, Emplaced, get_emplace-Emplaced}
use recursive_functions.Compilation.Semantics.{
  Expr, lvalue, BinaryOp, Binary, ok, fault, stored, visit_binary_operator, call_type, visit_member,
}
use recursive_functions.Compilation.Semantics.Operators.{
  HasType, IsVisited, visit_binary_operator_typing, Stored, IsRvalue, types_of, call_type_typing,
}
use recursive_functions.Compilation.Semantics.Members.{
  IsAt, visit_member-IsAt, IsAccess, visit_member-IsAccess,
}

abbrev int32 : TypeInfo
int32 = TypeInfo.signed_int 32

-- int, a class with the two members 5 and 6, and an alias of it.
abbrev types : Storage
types = int32 ∷ TypeInfo.class (1 ∷ []) ((5, 0) ∷ (6, 0) ∷ []) ∷ TypeInfo.alias (2 ∷ []) 1 ∷ []

types-IsInterned : IsInterned types
unfolding key
types-IsInterned zero zero s t e d same = refl
types-IsInterned zero (suc zero) s t e d same = absurd (cc)
types-IsInterned zero (suc (suc zero)) s t e d same = absurd (cc)
types-IsInterned (suc zero) zero s t e d same = absurd (cc)
types-IsInterned (suc zero) (suc zero) s t e d same = refl
types-IsInterned (suc zero) (suc (suc zero)) s t e d same = absurd (cc)
types-IsInterned (suc (suc zero)) zero s t e d same = absurd (cc)
types-IsInterned (suc (suc zero)) (suc zero) s t e d same = absurd (cc)
types-IsInterned (suc (suc zero)) (suc (suc zero)) s t e d same = refl
types-IsInterned (suc (suc (suc i))) j s t e d same = absurd (cc)
types-IsInterned i (suc (suc (suc j))) s t e d same = absurd (cc)

abbrev variable : TypePtr → Expr
variable p = record { type = p; category = lvalue; conversions = [] }

get_emplace-Emplaced_example :
    Emplaced types (TypeInfo.bool 8) (get_emplace types (TypeInfo.bool 8))
get_emplace-Emplaced_example = get_emplace-Emplaced types (TypeInfo.bool 8) types-IsInterned

visit_binary_operator_typing_example :
    ((made : TypeInfo)
      → HasType BinaryOp.less 0 0 int32 int32 made
      → (b : Binary) × (visit_binary_operator types BinaryOp.less (variable 0) (variable 0) ≡ ok b)
        × IsVisited types made b)
    × ((b : Binary)
        → visit_binary_operator types BinaryOp.less (variable 0) (variable 0) ≡ ok b
        → (made : TypeInfo) × HasType BinaryOp.less 0 0 int32 int32 made)
visit_binary_operator_typing_example =
    visit_binary_operator_typing types BinaryOp.less (variable 0) (variable 0) int32 int32
      types-IsInterned refl refl

arguments-Stored : All (Stored types) (variable 0 ∷ [])
unfolding get_original
arguments-Stored = ((int32, int32, refl, refl), tt)

call_type_typing_example :
    (◌≡◌ {A = List TypePtr} (0 ∷ []) (0 ∷ [])
      → (es : List Expr) × (call_type types (TypeInfo.function (0 ∷ []) 1) (variable 0 ∷ [])
          ≡ ok (es, stored 1))
        × All IsRvalue es
        × (types_of es ≡ 0 ∷ []))
    × ((r : List Expr × Expr)
        → call_type types (TypeInfo.function (0 ∷ []) 1) (variable 0 ∷ []) ≡ ok r
        → ◌≡◌ {A = List TypePtr} (0 ∷ []) (0 ∷ []))
call_type_typing_example = call_type_typing types (0 ∷ []) 1 (variable 0 ∷ []) arguments-Stored

visit_member-IsAt_example :
    visit_member types (variable 1) (6 ∷ [])
    ≡ ok (1, record { type = 0; category = lvalue; conversions = [] })
visit_member-IsAt_example =
    visit_member-IsAt types (variable 1) (1 ∷ []) ((5, 0) ∷ (6, 0) ∷ []) 6 1 0 refl
      (IsAt.there (ground arith) IsAt.here)

second_member : visit_member types (variable 1) (6 ∷ []) ≡ ok (1, variable 0)
unfolding visit_member
second_member = refl

visit_member-IsAccess_example :
    IsAccess types (variable 1) (6 ∷ []) (1, variable 0)
    × ((name : QualifiedId) (original : TypePtr)
        → get_elem? types 1 ≢ some (TypeInfo.alias name original))
visit_member-IsAccess_example =
    visit_member-IsAccess types (variable 1) (6 ∷ []) (1, variable 0) second_member

-- The alias of the class is cast to a class.
member_of_alias : visit_member types (variable 2) (6 ∷ []) ≡ fault
unfolding visit_member
member_of_alias = refl
