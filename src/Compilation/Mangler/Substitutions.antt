-- ===== src/Compilation/Mangler/Substitutions.antt =====
-- src/compilation/mangling/Mangler.cpp: the vector of the substitutions only grows, and holds no text
-- twice.
use recursive_functions.Prelude.{
  ℕ, suc, ◌≡◌, ◌≢◌, refl, ap, sym, ◌∙◌, inl, inr, List, [], ◌∷◌, ◌++◌, none, All, All-snoc,
  Bool-cases, Option-cases, arith,
}
use mathlib.Core.List.{append_assoc, append-nil}
use recursive_functions.Compilation.Types.{StringId, list_eq}
use recursive_functions.Compilation.Types.Storage.{list_eq_refl}
use recursive_functions.Compilation.Mangler.{
  Text, Mangled, failed, fault, out_of_fuel, made, Mangling, continue_with, ◌>>=◌, pure,
  consider_substitution, substitutable, mangle_source_name, mangle_prefix, mangle_nested_name,
  mangle_name, last_part, qualifiers_view,
}

abbrev pub TextsDiffer : List Text → Type 0
TextsDiffer [] = Unit
TextsDiffer (s ∷ ss) = All (λ t. s ≢ t) ss × TextsDiffer ss

-- A result is made; the substitutions are those from before with some more, and all differ.
abbrev pub Grows {ℓ} : {A : Type ℓ} → List Text → Mangled A → Type 0
Grows before failed = ⊥
Grows before fault = ⊥
Grows before out_of_fuel = ⊥
Grows before (made a after) = ((more : List Text) × (after ≡ before ++ more)) × TextsDiffer after

pub Grows-pure {ℓ} :
    {A : Type ℓ} (a : A) (before : List Text) → TextsDiffer before → Grows before (made a before)
Grows-pure a before d = (([], sym (append-nil before)), d)

Grows-widen {ℓ} :
    {A : Type ℓ} (before middle : List Text) (o : Mangled A)
    → (more : List Text) × (middle ≡ before ++ more)
    → Grows middle o
    → Grows before o
Grows-widen before middle failed e g = elim g [ ]
Grows-widen before middle fault e g = elim g [ ]
Grows-widen before middle out_of_fuel e g = elim g [ ]
Grows-widen before middle (made a after) (more, e) ((extra, f), d) =
    ((more ++ extra, f ∙ ap (λ m. m ++ extra) e ∙ append_assoc before more extra), d)

Grows-continue_with {ℓ κ} :
    {A : Type ℓ} {B : Type κ} (o : Mangled A) (next : A → Mangling B) (before : List Text)
    → Grows before o
    → ((a : A) (after : List Text) → TextsDiffer after → Grows after (next a after))
    → Grows before (continue_with next o)
Grows-continue_with failed next before g k = elim g [ ]
Grows-continue_with fault next before g k = elim g [ ]
Grows-continue_with out_of_fuel next before g k = elim g [ ]
Grows-continue_with (made a middle) next before (more, d) k =
    Grows-widen before middle (next a middle) more (k a middle d)

pub Grows-bind {ℓ κ} :
    {A : Type ℓ} {B : Type κ} (m : Mangling A) (next : A → Mangling B) (before : List Text)
    → Grows before (m before)
    → ((a : A) (after : List Text) → TextsDiffer after → Grows after (next a after))
    → Grows before ((m >>= next) before)
Grows-bind m next before g k = Grows-continue_with (m before) next before g k

TextsDiffer-snoc :
    (ss : List Text) (t : Text) → TextsDiffer ss → All (λ s. s ≢ t) ss → TextsDiffer (ss ++ t ∷ [])
TextsDiffer-snoc [] t d h = (tt, tt)
TextsDiffer-snoc (s ∷ ss) t (new, d) (ne, h) =
    (All-snoc (λ t. s ≢ t) ss t new ne, TextsDiffer-snoc ss t d h)

consider_substitution-none :
    (ss : List Text) (i : ℕ) (t : Text) → consider_substitution ss i t ≡ none → All (λ s. s ≢ t) ss
unfolding consider_substitution
consider_substitution-none [] i t h = tt
consider_substitution-none (s ∷ ss) i t h = elim (Bool-cases (list_eq s t)) [
  | inl e ↦ absurd (ground arith)
  | inr e ↦ (
    λ same. absurd (cc (e, list_eq_refl s, ap (list_eq s) same)),
    consider_substitution-none ss (suc i) t (ground arith),
  )
]

pub substitutable-Grows :
    (t : Text) (before : List Text) → TextsDiffer before → Grows before (substitutable t before)
unfolding substitutable
substitutable-Grows t before d = elim (Option-cases (consider_substitution before 0 t)) [
  | inl e ↦
      rw (substitutable, e)
        ((t ∷ [], refl), TextsDiffer-snoc before t d (consider_substitution-none before 0 t e))
  | inr (name, e) ↦ rw (substitutable, e) (Grows-pure name before d)
]

pub mangle_prefix-Grows :
    (get_string : StringId → Text) (result : Text) (parts : List StringId) (before : List Text)
    → TextsDiffer before
    → Grows before (mangle_prefix get_string result parts before)
mangle_prefix-Grows get_string result [] before d = Grows-pure result before d
mangle_prefix-Grows get_string result (part ∷ parts) before d =
    Grows-bind (substitutable (result ++ mangle_source_name (get_string part)))
      (λ result. mangle_prefix get_string result parts) before
      (substitutable-Grows (result ++ mangle_source_name (get_string part)) before d)
      (λ result after f. mangle_prefix-Grows get_string result parts after f)

pub mangle_name-Grows :
    (get_string : StringId → Text) (part : StringId) (parts : List StringId) (before : List Text)
    → TextsDiffer before
    → Grows before (mangle_name get_string (part ∷ parts) before)
unfolding mangle_name mangle_nested_name
mangle_name-Grows get_string part [] before d =
    Grows-pure (mangle_source_name (get_string part)) before d
mangle_name-Grows get_string part (next ∷ parts) before d =
    Grows-bind (mangle_prefix get_string [] (qualifiers_view (part ∷ next ∷ parts)))
      (λ prefix.
        pure (
          78 ∷ prefix
          ++ mangle_source_name (get_string (last_part part (next ∷ parts)))
          ++ 69 ∷ []))
      before (mangle_prefix-Grows get_string [] (qualifiers_view (part ∷ next ∷ parts)) before d)
      (λ prefix after f.
        Grows-pure
          (78 ∷ prefix
            ++ mangle_source_name (get_string (last_part part (next ∷ parts)))
            ++ 69 ∷ [])
          after f)
