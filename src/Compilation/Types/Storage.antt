-- ===== src/Compilation/Types/Storage.antt =====
-- The storage keeps each type once, and a pointer into it stays good.
use recursive_functions.Prelude.{
  ℕ, zero, suc, ◌+◌, ◌≡◌, refl, ap, sym, subst, ◌∙◌, ◌⊎◌, inl, inr, ◌↔◌, true, false, List, [], ◌∷◌,
  ◌++◌, none, some, arith, if◌then◌else◌, length, get_elem?, get_elem?-append_left,
  get_elem?-append_at, Bool-cases, Option-cases,
}
use recursive_functions.Compilation.Types.{
  TypeInfo, TypePtr, list_eq, type_eq, Storage, find_type, get_emplace,
}

pub list_eq_sound : (xs ys : List ℕ) → list_eq xs ys ≡ true → xs ≡ ys
unfolding list_eq
list_eq_sound [] [] h = refl
list_eq_sound [] (y ∷ ys) h = absurd (cc)
list_eq_sound (x ∷ xs) [] h = absurd (cc)
list_eq_sound (x ∷ xs) (y ∷ ys) h = ground (arith, list_eq_sound xs ys)

pub list_eq_refl : (xs : List ℕ) → list_eq xs xs ≡ true
unfolding list_eq
list_eq_refl [] = refl
list_eq_refl (x ∷ xs) = ground (arith, list_eq_refl xs)

-- What a stored type is compared by: a class, by its name alone.
unfoldable pub key : TypeInfo → TypeInfo
key (TypeInfo.class n ms) = TypeInfo.class n []
key t = t

type_eq_sound : (s t : TypeInfo) → type_eq s t ≡ true → key s ≡ key t
unfolding type_eq key
type_eq_sound (TypeInfo.signed_int a) (TypeInfo.signed_int a') h = ground (arith)
type_eq_sound (TypeInfo.signed_int a) _ h = absurd (cc)
type_eq_sound (TypeInfo.unsigned_int a) (TypeInfo.unsigned_int a') h = ground (arith)
type_eq_sound (TypeInfo.unsigned_int a) _ h = absurd (cc)
type_eq_sound (TypeInfo.bool a) (TypeInfo.bool a') h = ground (arith)
type_eq_sound (TypeInfo.bool a) _ h = absurd (cc)
type_eq_sound (TypeInfo.char a) (TypeInfo.char a') h = ground (arith)
type_eq_sound (TypeInfo.char a) _ h = absurd (cc)
type_eq_sound (TypeInfo.pointer a) (TypeInfo.pointer a') h = ground (arith)
type_eq_sound (TypeInfo.pointer a) _ h = absurd (cc)
type_eq_sound (TypeInfo.tuple a) (TypeInfo.tuple a') h = ground (arith, list_eq_sound a a')
type_eq_sound (TypeInfo.tuple a) _ h = absurd (cc)
type_eq_sound (TypeInfo.function a b) (TypeInfo.function a' b') h =
    ground (arith, list_eq_sound a a')
type_eq_sound (TypeInfo.function a b) _ h = absurd (cc)
type_eq_sound (TypeInfo.alias a b) (TypeInfo.alias a' b') h = ground (arith, list_eq_sound a a')
type_eq_sound (TypeInfo.alias a b) _ h = absurd (cc)
type_eq_sound (TypeInfo.class a b) (TypeInfo.class a' b') h = ground (arith, list_eq_sound a a')
type_eq_sound (TypeInfo.class a b) _ h = absurd (cc)
type_eq_sound TypeInfo.nullptr TypeInfo.nullptr h = refl
type_eq_sound TypeInfo.nullptr _ h = absurd (cc)

type_eq_refl : (t : TypeInfo) → type_eq t t ≡ true
unfolding type_eq
type_eq_refl (TypeInfo.signed_int a) = ground (arith)
type_eq_refl (TypeInfo.unsigned_int a) = ground (arith)
type_eq_refl (TypeInfo.bool a) = ground (arith)
type_eq_refl (TypeInfo.char a) = ground (arith)
type_eq_refl (TypeInfo.pointer a) = ground (arith)
type_eq_refl (TypeInfo.tuple a) = ground (arith, list_eq_refl a)
type_eq_refl (TypeInfo.function a b) = ground (arith, list_eq_refl a)
type_eq_refl (TypeInfo.alias a b) = ground (arith, list_eq_refl a)
type_eq_refl (TypeInfo.class a b) = ground (arith, list_eq_refl a)
type_eq_refl TypeInfo.nullptr = refl

type_eq-key : (s t : TypeInfo) → type_eq s t ≡ type_eq (key s) (key t)
unfolding type_eq key
type_eq-key (TypeInfo.signed_int a) (TypeInfo.signed_int a') = refl
type_eq-key (TypeInfo.signed_int a) (TypeInfo.unsigned_int a') = refl
type_eq-key (TypeInfo.signed_int a) (TypeInfo.bool a') = refl
type_eq-key (TypeInfo.signed_int a) (TypeInfo.char a') = refl
type_eq-key (TypeInfo.signed_int a) (TypeInfo.pointer a') = refl
type_eq-key (TypeInfo.signed_int a) (TypeInfo.tuple a') = refl
type_eq-key (TypeInfo.signed_int a) (TypeInfo.function a' b') = refl
type_eq-key (TypeInfo.signed_int a) (TypeInfo.alias a' b') = refl
type_eq-key (TypeInfo.signed_int a) (TypeInfo.class a' b') = refl
type_eq-key (TypeInfo.signed_int a) TypeInfo.nullptr = refl
type_eq-key (TypeInfo.unsigned_int a) (TypeInfo.signed_int a') = refl
type_eq-key (TypeInfo.unsigned_int a) (TypeInfo.unsigned_int a') = refl
type_eq-key (TypeInfo.unsigned_int a) (TypeInfo.bool a') = refl
type_eq-key (TypeInfo.unsigned_int a) (TypeInfo.char a') = refl
type_eq-key (TypeInfo.unsigned_int a) (TypeInfo.pointer a') = refl
type_eq-key (TypeInfo.unsigned_int a) (TypeInfo.tuple a') = refl
type_eq-key (TypeInfo.unsigned_int a) (TypeInfo.function a' b') = refl
type_eq-key (TypeInfo.unsigned_int a) (TypeInfo.alias a' b') = refl
type_eq-key (TypeInfo.unsigned_int a) (TypeInfo.class a' b') = refl
type_eq-key (TypeInfo.unsigned_int a) TypeInfo.nullptr = refl
type_eq-key (TypeInfo.bool a) (TypeInfo.signed_int a') = refl
type_eq-key (TypeInfo.bool a) (TypeInfo.unsigned_int a') = refl
type_eq-key (TypeInfo.bool a) (TypeInfo.bool a') = refl
type_eq-key (TypeInfo.bool a) (TypeInfo.char a') = refl
type_eq-key (TypeInfo.bool a) (TypeInfo.pointer a') = refl
type_eq-key (TypeInfo.bool a) (TypeInfo.tuple a') = refl
type_eq-key (TypeInfo.bool a) (TypeInfo.function a' b') = refl
type_eq-key (TypeInfo.bool a) (TypeInfo.alias a' b') = refl
type_eq-key (TypeInfo.bool a) (TypeInfo.class a' b') = refl
type_eq-key (TypeInfo.bool a) TypeInfo.nullptr = refl
type_eq-key (TypeInfo.char a) (TypeInfo.signed_int a') = refl
type_eq-key (TypeInfo.char a) (TypeInfo.unsigned_int a') = refl
type_eq-key (TypeInfo.char a) (TypeInfo.bool a') = refl
type_eq-key (TypeInfo.char a) (TypeInfo.char a') = refl
type_eq-key (TypeInfo.char a) (TypeInfo.pointer a') = refl
type_eq-key (TypeInfo.char a) (TypeInfo.tuple a') = refl
type_eq-key (TypeInfo.char a) (TypeInfo.function a' b') = refl
type_eq-key (TypeInfo.char a) (TypeInfo.alias a' b') = refl
type_eq-key (TypeInfo.char a) (TypeInfo.class a' b') = refl
type_eq-key (TypeInfo.char a) TypeInfo.nullptr = refl
type_eq-key (TypeInfo.pointer a) (TypeInfo.signed_int a') = refl
type_eq-key (TypeInfo.pointer a) (TypeInfo.unsigned_int a') = refl
type_eq-key (TypeInfo.pointer a) (TypeInfo.bool a') = refl
type_eq-key (TypeInfo.pointer a) (TypeInfo.char a') = refl
type_eq-key (TypeInfo.pointer a) (TypeInfo.pointer a') = refl
type_eq-key (TypeInfo.pointer a) (TypeInfo.tuple a') = refl
type_eq-key (TypeInfo.pointer a) (TypeInfo.function a' b') = refl
type_eq-key (TypeInfo.pointer a) (TypeInfo.alias a' b') = refl
type_eq-key (TypeInfo.pointer a) (TypeInfo.class a' b') = refl
type_eq-key (TypeInfo.pointer a) TypeInfo.nullptr = refl
type_eq-key (TypeInfo.tuple a) (TypeInfo.signed_int a') = refl
type_eq-key (TypeInfo.tuple a) (TypeInfo.unsigned_int a') = refl
type_eq-key (TypeInfo.tuple a) (TypeInfo.bool a') = refl
type_eq-key (TypeInfo.tuple a) (TypeInfo.char a') = refl
type_eq-key (TypeInfo.tuple a) (TypeInfo.pointer a') = refl
type_eq-key (TypeInfo.tuple a) (TypeInfo.tuple a') = refl
type_eq-key (TypeInfo.tuple a) (TypeInfo.function a' b') = refl
type_eq-key (TypeInfo.tuple a) (TypeInfo.alias a' b') = refl
type_eq-key (TypeInfo.tuple a) (TypeInfo.class a' b') = refl
type_eq-key (TypeInfo.tuple a) TypeInfo.nullptr = refl
type_eq-key (TypeInfo.function a b) (TypeInfo.signed_int a') = refl
type_eq-key (TypeInfo.function a b) (TypeInfo.unsigned_int a') = refl
type_eq-key (TypeInfo.function a b) (TypeInfo.bool a') = refl
type_eq-key (TypeInfo.function a b) (TypeInfo.char a') = refl
type_eq-key (TypeInfo.function a b) (TypeInfo.pointer a') = refl
type_eq-key (TypeInfo.function a b) (TypeInfo.tuple a') = refl
type_eq-key (TypeInfo.function a b) (TypeInfo.function a' b') = refl
type_eq-key (TypeInfo.function a b) (TypeInfo.alias a' b') = refl
type_eq-key (TypeInfo.function a b) (TypeInfo.class a' b') = refl
type_eq-key (TypeInfo.function a b) TypeInfo.nullptr = refl
type_eq-key (TypeInfo.alias a b) (TypeInfo.signed_int a') = refl
type_eq-key (TypeInfo.alias a b) (TypeInfo.unsigned_int a') = refl
type_eq-key (TypeInfo.alias a b) (TypeInfo.bool a') = refl
type_eq-key (TypeInfo.alias a b) (TypeInfo.char a') = refl
type_eq-key (TypeInfo.alias a b) (TypeInfo.pointer a') = refl
type_eq-key (TypeInfo.alias a b) (TypeInfo.tuple a') = refl
type_eq-key (TypeInfo.alias a b) (TypeInfo.function a' b') = refl
type_eq-key (TypeInfo.alias a b) (TypeInfo.alias a' b') = refl
type_eq-key (TypeInfo.alias a b) (TypeInfo.class a' b') = refl
type_eq-key (TypeInfo.alias a b) TypeInfo.nullptr = refl
type_eq-key (TypeInfo.class a b) (TypeInfo.signed_int a') = refl
type_eq-key (TypeInfo.class a b) (TypeInfo.unsigned_int a') = refl
type_eq-key (TypeInfo.class a b) (TypeInfo.bool a') = refl
type_eq-key (TypeInfo.class a b) (TypeInfo.char a') = refl
type_eq-key (TypeInfo.class a b) (TypeInfo.pointer a') = refl
type_eq-key (TypeInfo.class a b) (TypeInfo.tuple a') = refl
type_eq-key (TypeInfo.class a b) (TypeInfo.function a' b') = refl
type_eq-key (TypeInfo.class a b) (TypeInfo.alias a' b') = refl
type_eq-key (TypeInfo.class a b) (TypeInfo.class a' b') = refl
type_eq-key (TypeInfo.class a b) TypeInfo.nullptr = refl
type_eq-key TypeInfo.nullptr (TypeInfo.signed_int a') = refl
type_eq-key TypeInfo.nullptr (TypeInfo.unsigned_int a') = refl
type_eq-key TypeInfo.nullptr (TypeInfo.bool a') = refl
type_eq-key TypeInfo.nullptr (TypeInfo.char a') = refl
type_eq-key TypeInfo.nullptr (TypeInfo.pointer a') = refl
type_eq-key TypeInfo.nullptr (TypeInfo.tuple a') = refl
type_eq-key TypeInfo.nullptr (TypeInfo.function a' b') = refl
type_eq-key TypeInfo.nullptr (TypeInfo.alias a' b') = refl
type_eq-key TypeInfo.nullptr (TypeInfo.class a' b') = refl
type_eq-key TypeInfo.nullptr TypeInfo.nullptr = refl

-- `operator==` of the types is equality of what they are compared by.
pub type_eq_iff : (s t : TypeInfo) → (type_eq s t ≡ true) ↔ (key s ≡ key t)
type_eq_iff s t = (
  type_eq_sound s t,
  λ e. type_eq-key s t ∙ subst (λ z. type_eq (key s) z ≡ true) e (type_eq_refl (key s)),
)

-- No two places of the storage hold equal types.
abbrev pub IsInterned : Storage → Type 0
IsInterned storage =
    (i j : ℕ) (s t : TypeInfo)
    → get_elem? storage i ≡ some s
    → get_elem? storage j ≡ some t
    → key s ≡ key t
    → i ≡ j

find_type-found :
    (storage : Storage) (value : TypeInfo) (i : ℕ) {p : ℕ}
    → find_type storage value i ≡ some p
    → (k : ℕ) × (t : TypeInfo) × (p ≡ i + k) × (get_elem? storage k ≡ some t) × (key t ≡ key value)
unfolding find_type
find_type-found [] value i e = absurd (cc)
find_type-found (t ∷ storage) value i {p} e = elim (Bool-cases (type_eq t value)) [
  | inl hit ↦ (0, t, ground (arith, hit, e), refl, (type_eq_iff t value).0 hit)
  | inr miss ↦
      let (k, t', at, there, same) = find_type-found storage value (suc i) (rest miss e) in
      (suc k, t', omega (arith, at), there, same)
]
  where
    rest :
        type_eq t value ≡ false
        → (if type_eq t value then some i else find_type storage value (suc i)) ≡ some p
        → find_type storage value (suc i) ≡ some p
    rest miss e = ground arith

find_type-missing :
    (storage : Storage) (value : TypeInfo) (i k : ℕ) {t : TypeInfo}
    → find_type storage value i ≡ none
    → get_elem? storage k ≡ some t
    → ¬ (key t ≡ key value)
unfolding find_type
find_type-missing [] value i k e h same = cc
find_type-missing (s ∷ storage) value i zero {t} e h same =
    ground (arith, (type_eq_iff t value).1 same)
find_type-missing (s ∷ storage) value i (suc k) e h same =
    find_type-missing storage value (suc i) k (ground arith) h same

-- What `get_emplace` promises: the storage stays interned, every pointer into it keeps its type, and
-- the result points to a type that equals the wanted one.
abbrev pub Emplaced : Storage → TypeInfo → TypePtr × Storage → Type 0
Emplaced storage value (p, storage') =
    IsInterned storage'
    × ((i : ℕ) (t : TypeInfo) → get_elem? storage i ≡ some t → get_elem? storage' i ≡ some t)
    × ((t : TypeInfo) × (get_elem? storage' p ≡ some t) × (key t ≡ key value))

snoc-cases :
    {A : Type 0} (xs : List A) (y : A) (i : ℕ) {a : A}
    → get_elem? (xs ++ y ∷ []) i ≡ some a
    → (get_elem? xs i ≡ some a) ⊎ ((i ≡ length xs) × (a ≡ y))
snoc-cases [] y zero e = inr (refl, cc)
snoc-cases [] y (suc i) e = absurd (cc)
snoc-cases (x ∷ xs) y zero e = inl e
snoc-cases (x ∷ xs) y (suc i) e = elim (snoc-cases xs y i e) [
  | inl h ↦ inl h
  | inr (at, same) ↦ inr (ap suc at, same)
]

snoc-IsInterned :
    (storage : Storage) (value : TypeInfo)
    → IsInterned storage
    → ((k : ℕ) (t : TypeInfo) → get_elem? storage k ≡ some t → ¬ (key t ≡ key value))
    → IsInterned (storage ++ value ∷ [])
snoc-IsInterned storage value v new i j s t es et same = elim (snoc-cases storage value i es) [
  | inl hs ↦ (elim (snoc-cases storage value j et) [
    | inl ht ↦ v i j s t hs ht same
    | inr (_, last) ↦ absurd (new i s hs (same ∙ ap key last))
  ])
  | inr (at, last) ↦ (elim (snoc-cases storage value j et) [
    | inl ht ↦ absurd (new j t ht (sym same ∙ ap key last))
    | inr (at', _) ↦ at ∙ sym at'
  ])
]

-- On an interned storage, `get_emplace` gives an interned storage in which every old pointer has its
-- old type, and a pointer to a type that compares equal to the wanted one.
pub get_emplace-Emplaced :
    (storage : Storage) (value : TypeInfo)
    → IsInterned storage
    → Emplaced storage value (get_emplace storage value)
unfolding get_emplace
get_emplace-Emplaced storage value v = elim (Option-cases (find_type storage value 0)) [
  | inl e ↦
      rw (e, get_emplace)
        (
          snoc-IsInterned storage value v (λ k t h. find_type-missing storage value 0 k e h),
          λ i t h. get_elem?-append_left storage _ i h,
          (value, get_elem?-append_at storage value (length storage) refl, refl),
        )
  | inr (p, e) ↦
      let (k, t, at, there, same) = find_type-found storage value 0 e in
      let at' : p ≡ k = omega (arith, at) in
      rw (e, get_emplace) (v, λ i t h. h, (t, ap (get_elem? storage) at' ∙ there, same))
]

-- So pointers compare as the types do: on an interned storage, the same type wanted twice gives the
-- same pointer, and two types that compare differently give different pointers.
pub get_emplace_pointers :
    (storage : Storage) (s t : TypeInfo)
    → IsInterned storage
    → let (p, storage') = get_emplace storage s in
      (p ≡ (get_emplace storage' t).0) ↔ (key s ≡ key t)
get_emplace_pointers storage s t v =
    let (p, storage') = get_emplace storage s in
    let (v', keep, (s', es, same)) = get_emplace-Emplaced storage s v in
    let (q, storage'') = get_emplace storage' t in
    let (v'', keep', (t', et, same')) = get_emplace-Emplaced storage' t v' in
    (
      λ e.
          sym same
          ∙ ap key (some_inj s' t' (sym (keep' p s' es) ∙ ap (get_elem? storage'') e ∙ et))
          ∙ same',
      λ e. v'' p q s' t' (keep' p s' es) et (same ∙ e ∙ sym same'),
    )
  where
    some_inj : (a b : TypeInfo) → some a ≡ some b → a ≡ b
    some_inj a b e = cc
