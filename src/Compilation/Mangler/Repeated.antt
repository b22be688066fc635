-- ===== src/Compilation/Mangler/Repeated.antt =====
-- src/compilation/mangling/Mangler.cpp: a pointer to pointers, twice.
use recursive_functions.Prelude.{
  ℕ, zero, suc, ◌+◌, ◌<◌, ◌≡◌, refl, ap, sym, subst, ◌∙◌, List, [], ◌∷◌, ◌++◌, false, some, All,
  arith, length, get_elem?,
}
use mathlib.Core.List.{append_assoc, append-nil}
use recursive_functions.Compilation.Types.{
  TypeInfo, TypePtr, StringId, Storage, get_original, list_eq,
}
use recursive_functions.Compilation.Mangler.{
  Text, made, ◌>>=◌, continue_with, pure, substitutable, get_substitution_name, mangle_all,
  mangle_bare_function_type, mangle_kind, original_at, mangle_found, mangle_type,
}
use recursive_functions.Compilation.Mangler.Towers.{
  tower, towers, IsOther, IsFresh, IsFresh-append, substitutable-fresh, substitutable-found,
  towers-IsFresh, others-IsFresh, towers_first, tower-IsFresh,
}

-- The types without parts, and their texts.
pub data HasLetters : TypeInfo → Text → Type 0 where
  bool : (width : ℕ) → HasLetters (TypeInfo.bool width) (98 ∷ [])
  signed_8 : HasLetters (TypeInfo.signed_int 8) (97 ∷ [])
  signed_16 : HasLetters (TypeInfo.signed_int 16) (115 ∷ [])
  signed_32 : HasLetters (TypeInfo.signed_int 32) (105 ∷ [])
  signed_64 : HasLetters (TypeInfo.signed_int 64) (120 ∷ [])
  unsigned_8 : HasLetters (TypeInfo.unsigned_int 8) (104 ∷ [])
  unsigned_16 : HasLetters (TypeInfo.unsigned_int 16) (116 ∷ [])
  unsigned_32 : HasLetters (TypeInfo.unsigned_int 32) (106 ∷ [])
  unsigned_64 : HasLetters (TypeInfo.unsigned_int 64) (121 ∷ [])
  char_8 : HasLetters (TypeInfo.char 8) (99 ∷ [])
  char_16 : HasLetters (TypeInfo.char 16) (68 ∷ 115 ∷ [])
  char_32 : HasLetters (TypeInfo.char 32) (68 ∷ 105 ∷ [])
  unit : HasLetters (TypeInfo.tuple []) (118 ∷ [])

-- `IsAbove types base n p`: from p, n pointers lead to the base.
abbrev pub IsAbove : Storage → TypePtr → ℕ → TypePtr → Type 0
IsAbove types base zero p = p ≡ base
IsAbove types base (suc n) p =
    (q : TypePtr) × (get_elem? types p ≡ some (TypeInfo.pointer q)) × IsAbove types base n q

letters-IsOther : {type : TypeInfo} {text : Text} → HasLetters type text → IsOther text
letters-IsOther (bool width) = ground arith
letters-IsOther h = ground arith

letters-list_eq :
    {type : TypeInfo} {text : Text} (rest : Text)
    → HasLetters type text
    → list_eq text (83 ∷ rest) ≡ false
unfolding list_eq
letters-list_eq rest (bool width) = refl
letters-list_eq rest h = refl

-- The name of a substitution begins with S.
name_first : (k : ℕ) → (rest : Text) × (get_substitution_name k ≡ 83 ∷ rest)
unfolding get_substitution_name
name_first zero = (95 ∷ [], refl)
name_first (suc k) = (_, refl)

name-IsOther : (k : ℕ) → IsOther (get_substitution_name k)
name-IsOther k =
    let (rest, e) = name_first k in
    let other : IsOther (83 ∷ rest) = ground arith in subst IsOther (sym e) other

letters-name :
    {type : TypeInfo} {text : Text} (k : ℕ)
    → HasLetters type text
    → list_eq text (get_substitution_name k) ≡ false
letters-name {type} {text} k h =
    let (rest, e) = name_first k in
    subst (λ name. list_eq text name ≡ false) (sym e) (letters-list_eq rest h)

-- The lowest of the pointers above a base.
lowest :
    (types : Storage) (base : TypePtr) (n : ℕ) (p : TypePtr)
    → IsAbove types base (suc n) p
    → (inner : TypePtr) × (get_elem? types inner ≡ some (TypeInfo.pointer base))
      × IsAbove types inner n p
lowest types base zero p (q, at, above) = (p, at ∙ ap (λ r. some (TypeInfo.pointer r)) above, refl)
lowest types base (suc n) p (q, at, above) =
    let (inner, e, rest) = lowest types base n q above in (inner, e, (q, at, rest))

module _ (get_string : StringId → Text) (types : Storage) where
  mangle_pointer :
      (fuel : ℕ) (p q : TypePtr) (before : List Text)
      → get_elem? types p ≡ some (TypeInfo.pointer q)
      → mangle_type get_string types (suc fuel) p before
        ≡ continue_with
            (λ text. substitutable (80 ∷ text))
            (mangle_type get_string types fuel q before)
  unfolding mangle_type mangle_kind get_original
  mangle_pointer fuel p q before at =
      ap (λ o. mangle_found get_string (mangle_type get_string types fuel) o before)
        (ap (original_at types p) at ∙ at)

  letters_kind :
      (fuel : ℕ) (type : TypeInfo) (text : Text) (before : List Text)
      → HasLetters type text
      → mangle_kind get_string (mangle_type get_string types fuel) type before ≡ made text before
  unfolding mangle_kind
  letters_kind fuel type text before (bool width) = refl
  letters_kind fuel type text before signed_8 = refl
  letters_kind fuel type text before h = refl

  letters_at :
      (p : TypePtr) (type : TypeInfo) (text : Text)
      → get_elem? types p ≡ some type
      → HasLetters type text
      → original_at types p (some type) ≡ some type
  unfolding get_original
  letters_at p type text at (bool width) = at
  letters_at p type text at h = at

  mangle_letters :
      (fuel : ℕ) (p : TypePtr) (type : TypeInfo) (text : Text) (before : List Text)
      → get_elem? types p ≡ some type
      → HasLetters type text
      → mangle_type get_string types (suc fuel) p before ≡ made text before
  unfolding mangle_type
  mangle_letters fuel p type text before at h =
      ap (λ o. mangle_found get_string (mangle_type get_string types fuel) o before)
        (ap (original_at types p) at ∙ letters_at p type text at h)
      ∙ letters_kind fuel type text before h

  -- The pointers above a base whose text is found make a tower on it, if they are all new.
  mangle_tower :
      (base : TypePtr) (text : Text) (store : List Text) (need : ℕ)
      → ((fuel : ℕ) → need < fuel → mangle_type get_string types fuel base store ≡ made text store)
      → ((n : ℕ) → IsFresh (tower (suc n) text) (store ++ towers n text))
      → (n fuel : ℕ) (p : TypePtr) → IsAbove types base n p
      → n + need < fuel
      → mangle_type get_string types fuel p store ≡ made (tower n text) (store ++ towers n text)
  mangle_tower base text store need found fresh n zero p above lt = absurd (omega arith)
  mangle_tower base text store need found fresh zero (suc fuel) p above lt =
      subst (λ q. mangle_type get_string types (suc fuel) q store ≡ made text (store ++ []))
        (sym above) (found (suc fuel) (omega arith) ∙ ap (made text) (sym (append-nil store)))
  mangle_tower base text store need found fresh (suc n) (suc fuel) p (q, at, above) lt =
      mangle_pointer fuel p q store at
      ∙ ap (continue_with (λ t. substitutable (80 ∷ t)))
          (mangle_tower base text store need found fresh n fuel q above (omega arith))
      ∙ substitutable-fresh (tower (suc n) text) (store ++ towers n text) (fresh n)
      ∙ ap (made (tower (suc n) text))
          (append_assoc store (towers n text) (tower (suc n) text ∷ []))

  module _ (base : TypePtr) (type : TypeInfo) (text : Text) (before : List Text)
      (at : get_elem? types base ≡ some type) (letters : HasLetters type text)
      (others : All IsOther before) where
    -- The first mangling: every pointer is new.
    mangle_first :
        (n fuel : ℕ) (p : TypePtr)
        → IsAbove types base n p
        → n < fuel
        → mangle_type get_string types fuel p before ≡ made (tower n text) (before ++ towers n text)
    mangle_first n fuel p above lt =
        mangle_tower base text before 0 (letters_found)
          (λ m.
            tower-IsFresh m text before (letters-IsOther letters)
              (others-IsFresh (tower m text) before others))
          n fuel p above (omega arith)
      where
        letters_found :
            (f : ℕ) → 0 < f → mangle_type get_string types f base before ≡ made text before
        letters_found zero lt = absurd (omega arith)
        letters_found (suc f) lt = mangle_letters f base type text before at letters

    -- The lowest pointer is found behind that.
    mangle_inner :
        (n : ℕ) (inner : TypePtr)
        → get_elem? types inner ≡ some (TypeInfo.pointer base)
        → (fuel : ℕ) → 1 < fuel
        → mangle_type get_string types fuel inner (before ++ towers (suc n) text)
          ≡ made (get_substitution_name (length before)) (before ++ towers (suc n) text)
    mangle_inner n inner here zero lt = absurd (omega arith)
    mangle_inner n inner here (suc zero) lt = absurd (omega arith)
    mangle_inner n inner here (suc (suc f)) lt =
        let store = before ++ towers (suc n) text in
        let (rest, e) = towers_first n text in
        mangle_pointer (suc f) inner base store here
        ∙ ap (continue_with (λ t. substitutable (80 ∷ t)))
            (mangle_letters f base type text store at letters)
        ∙ subst
            (λ l.
              substitutable (80 ∷ text) (before ++ l)
              ≡ made (get_substitution_name (length before)) (before ++ l))
            (sym e)
            (substitutable-found (80 ∷ text) before rest (others-IsFresh text before others))

    -- The second mangling: the other pointers are new again.
    mangle_second :
        (n fuel : ℕ) (p : TypePtr)
        → IsAbove types base (suc n) p
        → suc n < fuel
        → mangle_type get_string types fuel p (before ++ towers (suc n) text)
          ≡ made
              (tower n (get_substitution_name (length before)))
              ((before ++ towers (suc n) text) ++ towers n (get_substitution_name (length before)))
    mangle_second n fuel p above lt =
        let (inner, here, rest) = lowest types base n p above in
        let name = get_substitution_name (length before) in
        mangle_tower inner name (before ++ towers (suc n) text) 1 (mangle_inner n inner here)
          (λ m.
            tower-IsFresh m name (before ++ towers (suc n) text) (name-IsOther (length before)) (
              IsFresh-append (tower (suc m) name) before (towers (suc n) text)
                (others-IsFresh (tower m name) before others)
                (towers-IsFresh (suc n) (suc m) text name (letters-IsOther letters)
                  (name-IsOther (length before)) (λ i le e. letters-name (length before) letters))))
          n fuel p rest (omega arith)

-- Let a type be n + 1 pointers above a type without parts, and let there be k substitutions, of which
-- none is the text of a pointer. Two arguments of that type are mangled as follows. The first one is
-- n + 1 times P and the letters of the type without parts, and each of the pointers is a new
-- substitution. The second one is n times P and the name of the substitution k, that of the lowest
-- pointer: the substitutions of the other pointers are not used, and each of these n texts that begin
-- with P is a new substitution again.
pub mangle_bare_function_type_twice :
    (get_string : StringId → Text) (types : Storage) (base : TypePtr) (type : TypeInfo)
    (text : Text) (before : List Text) (n fuel : ℕ) (p : TypePtr)
    → get_elem? types base ≡ some type
    → HasLetters type text
    → All IsOther before
    → IsAbove types base (suc n) p
    → suc n < fuel
    → mangle_bare_function_type (mangle_type get_string types fuel) (p ∷ p ∷ []) before
      ≡ made
          (tower (suc n) text ++ tower n (get_substitution_name (length before)))
          ((before ++ towers (suc n) text) ++ towers n (get_substitution_name (length before)))
unfolding mangle_bare_function_type
mangle_bare_function_type_twice get_string types base type text before n fuel p at letters others
      above lt =
    let mangle = mangle_type get_string types fuel in
    let name = get_substitution_name (length before) in
    let first =
      mangle_first get_string types base type text before at letters others (suc n) fuel p above
        lt in
    let second =
      mangle_second get_string types base type text before at letters others n fuel p above lt in
    ap (continue_with (λ a. mangle_all mangle (p ∷ []) >>= λ rest. pure (a ++ rest))) first
    ∙ ap (continue_with (λ rest. pure (tower (suc n) text ++ rest)))
        (ap (continue_with (λ a. pure (a ++ []))) second)
    ∙ ap (λ t. made (tower (suc n) text ++ t) ((before ++ towers (suc n) text) ++ towers n name))
        (append-nil (tower n name))
