-- ===== src/Prelude/Lists.antt =====
-- Lists measured and indexed by native numbers, under the library's names.
use Prim.Native.Nat.{ℕ, zero, suc, ◌+◌, ◌<◌}
use mathlib.Core.Path.{◌≡◌, refl, ap}
use mathlib.Core.Logic.{◌⊎◌, inl, inr}
use mathlib.Core.List.{List, [], ◌∷◌, ◌++◌, map}
use mathlib.Core.Option
use mathlib.Core.Option.{Option, none, some}
use native.Mathlib.Omega.{arith}

-- A predicate of every element; it computes to tuples.
abbrev pub All {ℓ κ} : {A : Type ℓ} → (A → Type κ) → List A → Type κ
All P [] = Unit
All P (x ∷ xs) = P x × All P xs

module _ {ℓ} {A : Type ℓ} where
  abbrev pub length : List A → ℕ
  length [] = 0
  length (x ∷ xs) = suc (length xs)

  abbrev pub get_elem? : List A → ℕ → Option A
  get_elem? [] i = none
  get_elem? (x ∷ xs) zero = some x
  get_elem? (x ∷ xs) (suc i) = get_elem? xs i

  pub length-append : (xs ys : List A) → length (xs ++ ys) ≡ length xs + length ys
  length-append [] ys = omega arith
  length-append (x ∷ xs) ys = omega (arith, length-append xs ys)

  pub get_elem?-some : (xs : List A) (i : ℕ) → i < length xs → (a : A) × (get_elem? xs i ≡ some a)
  get_elem?-some [] i h = elim h [ ]
  get_elem?-some (x ∷ xs) zero h = (x, refl)
  get_elem?-some (x ∷ xs) (suc i) h = get_elem?-some xs i (omega arith)

  pub get_elem?-lt : (xs : List A) (i : ℕ) {a : A} → get_elem? xs i ≡ some a → i < length xs
  get_elem?-lt [] i h = ground arith
  get_elem?-lt (x ∷ xs) zero h = omega arith
  get_elem?-lt (x ∷ xs) (suc i) h = omega (arith, get_elem?-lt xs i h)

  pub get_elem?-none : (xs : List A) (i : ℕ) → length xs < suc i → get_elem? xs i ≡ none
  get_elem?-none [] i h = refl
  get_elem?-none (x ∷ xs) zero h = absurd (omega arith)
  get_elem?-none (x ∷ xs) (suc i) h = get_elem?-none xs i (omega arith)

  pub All-get {κ} :
      (P : A → Type κ) (xs : List A) (i : ℕ) {a : A} → All P xs → get_elem? xs i ≡ some a → P a
  All-get P [] i h e = absurd (ground arith)
  All-get P (x ∷ xs) zero h e = ground (arith, h.0)
  All-get P (x ∷ xs) (suc i) h e = All-get P xs i h.1 e

pub All-snoc {ℓ κ} :
    {A : Type ℓ} (P : A → Type κ) (xs : List A) (x : A) → All P xs → P x → All P (xs ++ x ∷ [])
All-snoc P [] x h p = (p, tt)
All-snoc P (y ∷ xs) x h p = (h.0, All-snoc P xs x h.1 p)

pub get_elem?-map {ℓ κ} :
    {A : Type ℓ} {B : Type κ} (f : A → B) (xs : List A) (i : ℕ)
    → get_elem? (map f xs) i ≡ Option.map f (get_elem? xs i)
get_elem?-map f [] i = refl
get_elem?-map f (x ∷ xs) zero = refl
get_elem?-map f (x ∷ xs) (suc i) = get_elem?-map f xs i

pub length-map {ℓ κ} :
    {A : Type ℓ} {B : Type κ} (f : A → B) (xs : List A) → length (map f xs) ≡ length xs
length-map f [] = refl
length-map f (x ∷ xs) = ap suc (length-map f xs)

module _ {ℓ} {A : Type ℓ} where
  pub get_elem?-append_left :
      (xs ys : List A) (i : ℕ) {a : A} → get_elem? xs i ≡ some a → get_elem? (xs ++ ys) i ≡ some a
  get_elem?-append_left [] ys i e = absurd (ground arith)
  get_elem?-append_left (x ∷ xs) ys zero e = e
  get_elem?-append_left (x ∷ xs) ys (suc i) e = get_elem?-append_left xs ys i e

  pub get_elem?-append_at :
      (xs : List A) (y : A) (i : ℕ) → i ≡ length xs → get_elem? (xs ++ y ∷ []) i ≡ some y
  get_elem?-append_at [] y zero e = refl
  get_elem?-append_at [] y (suc i) e = absurd (omega arith)
  get_elem?-append_at (x ∷ xs) y zero e = absurd (omega arith)
  get_elem?-append_at (x ∷ xs) y (suc i) e = get_elem?-append_at xs y i (omega arith)

  pub length-snoc : (xs : List A) (y : A) → length (xs ++ y ∷ []) ≡ length xs + 1
  length-snoc [] y = omega arith
  length-snoc (x ∷ xs) y = omega (arith, length-snoc xs y)

-- A function that may fail, at every element; it fails at the first failure.
pub cons_if {ℓ} : {A : Type ℓ} → Option A → Option (List A) → Option (List A)
cons_if none ys = none
cons_if (some y) none = none
cons_if (some y) (some ys) = some (y ∷ ys)

unfoldable pub traverse {ℓ κ} :
    {A : Type ℓ} {B : Type κ} → (A → Option B) → List A → Option (List B)
unfolding cons_if
traverse f [] = some []
traverse f (x ∷ xs) = cons_if (f x) (traverse f xs)

module _ {ℓ κ} {A : Type ℓ} {B : Type κ} (f : A → Option B) where
  pub traverse-nil : (ys : List B) → traverse f [] ≡ some ys → [] ≡ ys
  unfolding traverse
  traverse-nil ys e = cc

  pub traverse-cons :
      (x : A) (xs : List A) (ys : List B)
      → traverse f (x ∷ xs) ≡ some ys
      → (z : B) × (zs : List B) × (ys ≡ z ∷ zs) × (f x ≡ some z) × (traverse f xs ≡ some zs)
  unfolding traverse
  traverse-cons x xs ys e = go (f x) (traverse f xs) e
    where
      go :
          (o : Option B) (os : Option (List B))
          → cons_if o os ≡ some ys
          → (z : B) × (zs : List B) × (ys ≡ z ∷ zs) × (o ≡ some z) × (os ≡ some zs)
      go none os d = absurd (cc)
      go (some z) none d = absurd (cc)
      go (some z) (some zs) d = (z, zs, cc, refl, refl)

  pub get_elem?-traverse :
      (xs : List A) (ys : List B) (i : ℕ) {x : A}
      → traverse f xs ≡ some ys
      → get_elem? xs i ≡ some x
      → (y : B) × (f x ≡ some y) × (get_elem? ys i ≡ some y)
  get_elem?-traverse [] ys i e d = absurd (ground arith)
  get_elem?-traverse (a ∷ xs) ys zero e d =
      let (z, zs, split, head, _) = traverse-cons a xs ys e in
      (z, ground (arith, head, d), rw split)
  get_elem?-traverse (a ∷ xs) ys (suc i) e d =
      let (z, zs, split, _, tail) = traverse-cons a xs ys e in
      let (y, fy, there) = get_elem?-traverse xs zs i tail d in (y, fy, rw split there)

  pub length-traverse :
      (xs : List A) (ys : List B) → traverse f xs ≡ some ys → length ys ≡ length xs
  unfolding traverse
  length-traverse [] ys e = ground arith
  length-traverse (a ∷ xs) ys e =
      let (z, zs, split, _, tail) = traverse-cons a xs ys e in
      rw split (omega (arith, length-traverse xs zs tail))

  -- Where the function succeeds with a good result everywhere, so does the traversal.
  pub traverse-All {μ ν} :
      (P : A → Type μ) (Q : B → Type ν)
      → ((x : A) → P x → (y : B) × (f x ≡ some y) × Q y)
      → (xs : List A) → All P xs
      → (ys : List B) × (traverse f xs ≡ some ys) × All Q ys
  unfolding traverse
  traverse-All P Q h [] p = ([], refl, tt)
  traverse-All P Q h (x ∷ xs) p =
      let (y, e, q) = h x p.0 in
      let (ys, es, qs) = traverse-All P Q h xs p.1 in (y ∷ ys, rw (e, es), (q, qs))

-- What stands in a list with one element more.
pub get_elem?-snoc {ℓ} :
    {A : Type ℓ} (xs : List A) (y : A) (k : ℕ) {x : A}
    → get_elem? (xs ++ y ∷ []) k ≡ some x
    → (get_elem? xs k ≡ some x) ⊎ ((k ≡ length xs) × (y ≡ x))
get_elem?-snoc [] y zero e = inr (refl, cc)
get_elem?-snoc [] y (suc k) e = absurd (cc)
get_elem?-snoc (z ∷ xs) y zero e = inl e
get_elem?-snoc (z ∷ xs) y (suc k) e = elim (get_elem?-snoc xs y k e) [
  | inl h ↦ inl h
  | inr h ↦ inr (ap suc h.0, h.1)
]
