-- ===== src/Tests/Mangler.antt =====
-- A storage with pointers, a tuple and a class, and their names.
use recursive_functions.Prelude.{zero, suc, ◌+◌, ◌≡◌, refl, subst, inl, inr, [], ◌∷◌, some, arith}
use recursive_functions.Compilation.Types.{
  TypeInfo, TypePtr, StringId, Storage, list_eq, get_original,
}
use recursive_functions.Compilation.Mangler.{
  Text, made, digits, get_substitution_name, consider_substitution, substitutable,
  mangle_source_name, mangle_bare_function_type, mangle_nested_name, mangle_name, mangle_kind,
  mangle_type, mangle,
}
use recursive_functions.Compilation.Mangler.Substitutions.{Grows}
use recursive_functions.Compilation.Mangler.Totality.{
  IsMangleable, IsNamed, KindFits, mangle_type_total,
}
use recursive_functions.Compilation.Mangler.Repeated.{HasLetters, mangle_bare_function_type_twice}

-- One letter for each identifier.
abbrev letter : StringId → Text
letter id = (97 + id) ∷ []

-- An int, a pointer to it, a pointer to that, a pair of those, and the class b::c.
abbrev types : Storage
types =
    TypeInfo.signed_int 32
    ∷ TypeInfo.pointer 0
    ∷ TypeInfo.pointer 1
    ∷ TypeInfo.tuple (2 ∷ 2 ∷ [])
    ∷ TypeInfo.class (1 ∷ 2 ∷ []) []
    ∷ []

fits_at :
    (p : TypePtr) (known type : TypeInfo)
    → some known ≡ some type
    → KindFits types p known
    → KindFits types p type
fits_at p known type e fits = let same : known ≡ type = cc in subst (KindFits types p) same fits

types-IsMangleable : IsMangleable types
unfolding get_original
types-IsMangleable zero type e = fits_at 0 (TypeInfo.signed_int 32) type e (inl (inr (inr refl)))
types-IsMangleable (suc zero) type e = fits_at 1 (TypeInfo.pointer 0) type e (omega arith, tt)
types-IsMangleable (suc (suc zero)) type e = fits_at 2 (TypeInfo.pointer 1) type e (omega arith, tt)
types-IsMangleable (suc (suc (suc zero))) type e =
    fits_at 3 (TypeInfo.tuple (2 ∷ 2 ∷ [])) type e ((omega arith, tt), ((omega arith, tt), tt))
types-IsMangleable (suc (suc (suc (suc zero)))) type e =
    fits_at 4 (TypeInfo.class (1 ∷ 2 ∷ []) []) type e (omega arith)
types-IsMangleable (suc (suc (suc (suc (suc p))))) type e = absurd (cc)

types-IsNamed : IsNamed types 3
unfolding get_original
types-IsNamed = tt

mangle_type_total_example : Grows [] (mangle_type letter types 4 3 [])
mangle_type_total_example = mangle_type_total letter types 3 [] types-IsMangleable types-IsNamed tt

-- Behind the substitution 1b, PPi and PS0_, with the substitutions Pi, PPi and PS0_
mangle_bare_function_type_twice_example :
    mangle_bare_function_type (mangle_type letter types 4) (2 ∷ 2 ∷ []) ((49 ∷ 98 ∷ []) ∷ [])
    ≡ made
        (80 ∷ 80 ∷ 105 ∷ 80 ∷ 83 ∷ 48 ∷ 95 ∷ [])
        ((49 ∷ 98 ∷ []) ∷ (80 ∷ 105 ∷ []) ∷ (80 ∷ 80 ∷ 105 ∷ []) ∷ (80 ∷ 83 ∷ 48 ∷ 95 ∷ []) ∷ [])
unfolding get_substitution_name digits
mangle_bare_function_type_twice_example =
    mangle_bare_function_type_twice letter types 0 (TypeInfo.signed_int 32) (105 ∷ [])
      ((49 ∷ 98 ∷ []) ∷ []) 1 4 2 refl HasLetters.signed_32 (ground arith, tt)
      (1, refl, (0, refl, refl)) (omega arith)

-- b::d with an argument of the class b::c: the prefix b is substituted, _ZN1b1dENS_1cE
mangle-class :
    mangle letter types (1 ∷ 3 ∷ []) (4 ∷ [])
    ≡ made
        (95 ∷ 90 ∷ 78 ∷ 49 ∷ 98 ∷ 49 ∷ 100 ∷ 69 ∷ 78 ∷ 83 ∷ 95 ∷ 49 ∷ 99 ∷ 69 ∷ [])
        ((49 ∷ 98 ∷ []) ∷ (78 ∷ 83 ∷ 95 ∷ 49 ∷ 99 ∷ 69 ∷ []) ∷ [])
unfolding mangle mangle_type mangle_kind mangle_name mangle_nested_name mangle_bare_function_type
    mangle_source_name substitutable consider_substitution get_substitution_name digits list_eq
    get_original
mangle-class = refl
