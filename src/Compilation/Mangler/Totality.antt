-- ===== src/Compilation/Mangler/Totality.antt =====
-- src/compilation/mangling/Mangler.cpp: every type that has a name is mangled.
use recursive_functions.Prelude.{
  ℕ, zero, suc, ◌<◌, ◌≤◌, ◌≡◌, refl, ap, sym, subst, ◌∙◌, ◌⊎◌, inl, inr, List, [], ◌∷◌, ◌++◌,
  Option, none, some, All, Option-cases, arith, length, get_elem?,
}
use recursive_functions.Compilation.Types.{TypeInfo, TypePtr, StringId, Storage, get_original}
use recursive_functions.Compilation.Mangler.{
  Text, Mangling, ◌>>=◌, pure, substitutable, mangle_source_name, mangle_all,
  mangle_bare_function_type, mangle_name, mangle_kind, width_code, original_at, original_type,
  mangle_found, mangle_type,
}
use recursive_functions.Compilation.Mangler.Substitutions.{
  TextsDiffer, Grows, Grows-pure, Grows-bind, substitutable-Grows, mangle_name-Grows,
}

-- The kinds that have a name.
abbrev pub HasName : TypeInfo → Type 0
HasName (TypeInfo.alias name original) = ⊥
HasName TypeInfo.nullptr = ⊥
HasName _ = Unit

abbrev pub FoundHasName : Option TypeInfo → Type 0
FoundHasName none = ⊥
FoundHasName (some type) = HasName type

-- The type at a pointer has a name, behind one alias at most.
abbrev pub IsNamed : Storage → TypePtr → Type 0
IsNamed types p = FoundHasName (original_type types p)

abbrev pub IsChild : Storage → TypePtr → TypePtr → Type 0
IsChild types p child = (child < p) × IsNamed types child

abbrev pub IsWidth : ℕ → Type 0
IsWidth width = (width ≡ 8) ⊎ (width ≡ 16) ⊎ (width ≡ 32)

-- What holds of a stored type: the types that it is made of are older than it, and have names.
abbrev pub KindFits : Storage → TypePtr → TypeInfo → Type 0
KindFits types p (TypeInfo.signed_int width) = IsWidth width ⊎ (width ≡ 64)
KindFits types p (TypeInfo.unsigned_int width) = IsWidth width ⊎ (width ≡ 64)
KindFits types p (TypeInfo.bool width) = Unit
KindFits types p (TypeInfo.char width) = IsWidth width
KindFits types p (TypeInfo.pointer child) = IsChild types p child
KindFits types p (TypeInfo.tuple elements) = All (IsChild types p) elements
KindFits types p (TypeInfo.function arguments return_type) = All (IsChild types p) arguments
KindFits types p (TypeInfo.alias name original) = original < p
KindFits types p (TypeInfo.class name members) = 0 < length name
KindFits types p TypeInfo.nullptr = Unit

abbrev pub IsMangleable : Storage → Type 0
IsMangleable types =
    (p : TypePtr) (type : TypeInfo) → get_elem? types p ≡ some type → KindFits types p type

width_code-Grows :
    (width : ℕ) (a b c : Text) (d : Option Text) (before : List Text)
    → TextsDiffer before
    → IsWidth width ⊎ ((width ≡ 64) × (text : Text) × (d ≡ some text))
    → Grows before (width_code width a b c d before)
width_code-Grows width a b c d before h (inl (inl e)) =
    subst (λ w. Grows before (width_code w a b c d before)) (sym e) (Grows-pure a before h)
width_code-Grows width a b c d before h (inl (inr (inl e))) =
    subst (λ w. Grows before (width_code w a b c d before)) (sym e) (Grows-pure b before h)
width_code-Grows width a b c d before h (inl (inr (inr e))) =
    subst (λ w. Grows before (width_code w a b c d before)) (sym e) (Grows-pure c before h)
width_code-Grows width a b c d before h (inr (e, text, f)) =
    subst (λ w. Grows before (width_code w a b c d before)) (sym e)
      (subst (λ o. Grows before (width_code 64 a b c o before)) (sym f) (Grows-pure text before h))

module _ (get_string : StringId → Text) (types : Storage) where
  -- The mangler of the types below p.
  abbrev MakesBelow : (TypePtr → Mangling Text) → TypePtr → Type 0
  MakesBelow mangle p =
      (child : TypePtr) (before : List Text)
      → IsChild types p child
      → TextsDiffer before
      → Grows before (mangle child before)

  mangle_all-Grows :
      (mangle : TypePtr → Mangling Text) (p : TypePtr) (ps : List TypePtr) (before : List Text)
      → MakesBelow mangle p
      → All (IsChild types p) ps
      → TextsDiffer before
      → Grows before (mangle_all mangle ps before)
  mangle_all-Grows mangle p [] before k h d = Grows-pure {A = Text} [] before d
  mangle_all-Grows mangle p (q ∷ qs) before k (c, h) d =
      Grows-bind (mangle q) (λ first. mangle_all mangle qs >>= λ rest. pure (first ++ rest)) before
        (k q before c d)
        (λ first after e.
          Grows-bind (mangle_all mangle qs) (λ rest. pure (first ++ rest)) after
            (mangle_all-Grows mangle p qs after k h e)
            (λ rest last f. Grows-pure (first ++ rest) last f))

  mangle_bare-Grows :
      (mangle : TypePtr → Mangling Text) (p : TypePtr) (ps : List TypePtr) (before : List Text)
      → MakesBelow mangle p
      → All (IsChild types p) ps
      → TextsDiffer before
      → Grows before (mangle_bare_function_type mangle ps before)
  unfolding mangle_bare_function_type
  mangle_bare-Grows mangle p [] before k h d = Grows-pure {A = Text} (118 ∷ []) before d
  mangle_bare-Grows mangle p (q ∷ qs) before k h d = mangle_all-Grows mangle p (q ∷ qs) before k h d

  mangle_kind-Grows :
      (mangle : TypePtr → Mangling Text) (p : TypePtr) (type : TypeInfo) (before : List Text)
      → MakesBelow mangle p
      → KindFits types p type
      → HasName type
      → TextsDiffer before
      → Grows before (mangle_kind get_string mangle type before)
  unfolding mangle_kind
  mangle_kind-Grows mangle p (TypeInfo.signed_int width) before k h n d =
      width_code-Grows width (97 ∷ []) (115 ∷ []) (105 ∷ []) (some (120 ∷ [])) before d
        (elim h [ inl a ↦ inl a | inr a ↦ inr (a, 120 ∷ [], refl) ])
  mangle_kind-Grows mangle p (TypeInfo.unsigned_int width) before k h n d =
      width_code-Grows width (104 ∷ []) (116 ∷ []) (106 ∷ []) (some (121 ∷ [])) before d
        (elim h [ inl a ↦ inl a | inr a ↦ inr (a, 121 ∷ [], refl) ])
  mangle_kind-Grows mangle p (TypeInfo.bool width) before k h n d =
      Grows-pure {A = Text} (98 ∷ []) before d
  mangle_kind-Grows mangle p (TypeInfo.char width) before k h n d =
      width_code-Grows width (99 ∷ []) (68 ∷ 115 ∷ []) (68 ∷ 105 ∷ []) none before d (inl h)
  mangle_kind-Grows mangle p (TypeInfo.pointer child) before k h n d =
      Grows-bind (mangle child) (λ text. substitutable (80 ∷ text)) before (k child before h d)
        (λ text after e. substitutable-Grows (80 ∷ text) after e)
  mangle_kind-Grows mangle p (TypeInfo.tuple []) before k h n d =
      Grows-pure {A = Text} (118 ∷ []) before d
  mangle_kind-Grows mangle p (TypeInfo.tuple (q ∷ qs)) before k h n d =
      let name = 117 ∷ mangle_source_name (116 ∷ 117 ∷ 112 ∷ 108 ∷ 101 ∷ []) in
      Grows-bind (mangle_all mangle (q ∷ qs)) (λ text. substitutable (name ++ 73 ∷ text ++ 69 ∷ []))
        before (mangle_all-Grows mangle p (q ∷ qs) before k h d)
        (λ text after e. substitutable-Grows (name ++ 73 ∷ text ++ 69 ∷ []) after e)
  mangle_kind-Grows mangle p (TypeInfo.function arguments return_type) before k h n d =
      Grows-bind (mangle_bare_function_type mangle arguments) (λ text. substitutable (70 ∷ text))
        before (mangle_bare-Grows mangle p arguments before k h d)
        (λ text after e. substitutable-Grows (70 ∷ text) after e)
  mangle_kind-Grows mangle p (TypeInfo.class [] members) before k h n d = absurd (omega arith)
  mangle_kind-Grows mangle p (TypeInfo.class (part ∷ parts) members) before k h n d =
      Grows-bind (mangle_name get_string (part ∷ parts)) substitutable before
        (mangle_name-Grows get_string part parts before d)
        (λ text after e. substitutable-Grows text after e)
  mangle_kind-Grows mangle p (TypeInfo.alias name original) before k h n d = elim n [ ]
  mangle_kind-Grows mangle p TypeInfo.nullptr before k h n d = elim n [ ]

  get_original_le :
      (p : TypePtr) (type : TypeInfo) → KindFits types p type → get_original p type ≤ p
  unfolding get_original
  get_original_le p (TypeInfo.alias name original) h = omega arith
  get_original_le p (TypeInfo.signed_int width) h = omega arith
  get_original_le p (TypeInfo.unsigned_int width) h = omega arith
  get_original_le p (TypeInfo.bool width) h = omega arith
  get_original_le p (TypeInfo.char width) h = omega arith
  get_original_le p (TypeInfo.pointer child) h = omega arith
  get_original_le p (TypeInfo.tuple elements) h = omega arith
  get_original_le p (TypeInfo.function arguments return_type) h = omega arith
  get_original_le p (TypeInfo.class name members) h = omega arith
  get_original_le p TypeInfo.nullptr h = omega arith

  -- The type that is mangled is stored at the pointer, or before it.
  original_type_older :
      (p : TypePtr) (type : TypeInfo)
      → IsMangleable types
      → original_type types p ≡ some type
      → (q : TypePtr) × (q ≤ p) × (get_elem? types q ≡ some type)
  original_type_older p type m e = elim (Option-cases (get_elem? types p)) [
    | inl missing ↦ absurd (cc (e, ap (original_at types p) missing))
    | inr (t, at) ↦
        (get_original p t, get_original_le p t (m p t at), sym (ap (original_at types p) at) ∙ e)
  ]

  mangle_type-Grows :
      (fuel : ℕ) (p : TypePtr) (before : List Text)
      → IsMangleable types
      → p < fuel
      → IsNamed types p
      → TextsDiffer before
      → Grows before (mangle_type get_string types fuel p before)
  unfolding mangle_type
  mangle_type-Grows zero p before m h n d = absurd (omega arith)
  mangle_type-Grows (suc fuel) p before m h n d = elim (Option-cases (original_type types p)) [
    | inl e ↦ absurd (subst FoundHasName e n)
    | inr (type, e) ↦
        let (q, older, at) = original_type_older p type m e in
        subst
          (λ o. Grows before (mangle_found get_string (mangle_type get_string types fuel) o before))
          (sym e)
          (mangle_kind-Grows (mangle_type get_string types fuel) q type before
            (λ child middle c f. mangle_type-Grows fuel child middle m (omega arith) c.1 f)
            (m q type at) (subst FoundHasName e n) d)
  ]

-- Say that a type has a name if it is neither nullptr nor an alias, or an alias of such a type. In a
-- storage where the pointees, the elements and the arguments of each type are older than it and have
-- names, an alias is younger than its original, each width is one that the mangler knows for the kind,
-- and each class has a name of one part at least, every type that has a name is mangled: a round for
-- each type at the pointer or before it is enough. The substitutions are those from before and some
-- more, and if no text was among them twice then none is afterwards.
pub mangle_type_total :
    (get_string : StringId → Text) (types : Storage) (p : TypePtr) (before : List Text)
    → IsMangleable types
    → IsNamed types p
    → TextsDiffer before
    → Grows before (mangle_type get_string types (suc p) p before)
mangle_type_total get_string types p before m n d =
    mangle_type-Grows get_string types (suc p) p before m (omega arith) n d
