-- ===== src/Prelude/Arrays.antt =====
-- Arrays as lists: writing, filling, cutting and combining, with what stands at an index afterwards.
use Prim.Native.Nat.{ℕ, zero, suc, ◌<◌}
use mathlib.Core.Path.{◌≡◌, refl, ap}
use mathlib.Core.Logic.{◌≢◌}
use mathlib.Core.List.{List, [], ◌∷◌}
use mathlib.Core.Option.{some}
use native.Mathlib.Omega.{arith}
use recursive_functions.Prelude.Lists.{length, get_elem?}
use recursive_functions.Prelude.Tests.{ltb, if◌then◌else◌}

module _ {ℓ} {A : Type ℓ} where
  -- A write out of bounds changes nothing.
  abbrev pub set : List A → ℕ → A → List A
  set [] i v = []
  set (x ∷ xs) zero v = v ∷ xs
  set (x ∷ xs) (suc i) v = x ∷ set xs i v

  abbrev pub replicate : ℕ → A → List A
  replicate zero a = []
  replicate (suc n) a = a ∷ replicate n a

  pub length-set : (xs : List A) (i : ℕ) (v : A) → length (set xs i v) ≡ length xs
  length-set [] i v = refl
  length-set (x ∷ xs) zero v = refl
  length-set (x ∷ xs) (suc i) v = ap suc (length-set xs i v)

  pub get_elem?-set_self :
      (xs : List A) (i : ℕ) (v : A) → i < length xs → get_elem? (set xs i v) i ≡ some v
  get_elem?-set_self [] i v h = elim h [ ]
  get_elem?-set_self (x ∷ xs) zero v h = refl
  get_elem?-set_self (x ∷ xs) (suc i) v h = get_elem?-set_self xs i v (omega arith)

  pub get_elem?-set_ne :
      (xs : List A) (i j : ℕ) (v : A) → i ≢ j → get_elem? (set xs i v) j ≡ get_elem? xs j
  get_elem?-set_ne [] i j v h = refl
  get_elem?-set_ne (x ∷ xs) zero zero v h = absurd (h refl)
  get_elem?-set_ne (x ∷ xs) zero (suc j) v h = refl
  get_elem?-set_ne (x ∷ xs) (suc i) zero v h = refl
  get_elem?-set_ne (x ∷ xs) (suc i) (suc j) v h = get_elem?-set_ne xs i j v (λ e. h (ap suc e))

  pub length-replicate : (n : ℕ) (a : A) → length (replicate n a) ≡ n
  length-replicate zero a = refl
  length-replicate (suc n) a = ap suc (length-replicate n a)

  pub get_elem?-replicate : (n i : ℕ) (a : A) → i < n → get_elem? (replicate n a) i ≡ some a
  get_elem?-replicate zero i a h = elim h [ ]
  get_elem?-replicate (suc n) zero a h = refl
  get_elem?-replicate (suc n) (suc i) a h = get_elem?-replicate n i a (omega arith)

  -- The first n elements are kept, and the others are overwritten by `a`.
  abbrev pub keep_first : ℕ → A → List A → List A
  keep_first n a [] = []
  keep_first zero a (x ∷ xs) = a ∷ keep_first zero a xs
  keep_first (suc n) a (x ∷ xs) = x ∷ keep_first n a xs

  pub length-keep_first : (n : ℕ) (a : A) (xs : List A) → length (keep_first n a xs) ≡ length xs
  length-keep_first n a [] = refl
  length-keep_first zero a (x ∷ xs) = ap suc (length-keep_first zero a xs)
  length-keep_first (suc n) a (x ∷ xs) = ap suc (length-keep_first n a xs)

  pub get_elem?-keep_first :
      (n : ℕ) (a : A) (xs : List A) (i : ℕ)
      → i < length xs
      → get_elem? (keep_first n a xs) i ≡ (if ltb i n then get_elem? xs i else some a)
  get_elem?-keep_first n a [] i h = elim h [ ]
  get_elem?-keep_first zero a (x ∷ xs) zero h = refl
  get_elem?-keep_first zero a (x ∷ xs) (suc i) h = ground (arith, get_elem?-keep_first zero a xs i)
  get_elem?-keep_first (suc n) a (x ∷ xs) zero h = ground arith
  get_elem?-keep_first (suc n) a (x ∷ xs) (suc i) h = ground (arith, get_elem?-keep_first n a xs i)

-- Two arrays combined element by element, as far as the shorter one goes.
abbrev pub zip_with {ℓ κ μ} :
    {A : Type ℓ} {B : Type κ} {C : Type μ} → (A → B → C) → List A → List B → List C
zip_with f [] ys = []
zip_with f (x ∷ xs) [] = []
zip_with f (x ∷ xs) (y ∷ ys) = f x y ∷ zip_with f xs ys

module _ {ℓ κ μ} {A : Type ℓ} {B : Type κ} {C : Type μ} (f : A → B → C) where
  pub get_elem?-zip_with :
      (xs : List A) (ys : List B) (i : ℕ) {x : A} {y : B}
      → get_elem? xs i ≡ some x
      → get_elem? ys i ≡ some y
      → get_elem? (zip_with f xs ys) i ≡ some (f x y)
  get_elem?-zip_with [] ys i e d = absurd (cc)
  get_elem?-zip_with (a ∷ xs) [] i e d = absurd (cc)
  get_elem?-zip_with (a ∷ xs) (b ∷ ys) zero e d = cc
  get_elem?-zip_with (a ∷ xs) (b ∷ ys) (suc i) e d = get_elem?-zip_with xs ys i e d

  pub length-zip_with :
      (xs : List A) (ys : List B) → length xs ≡ length ys → length (zip_with f xs ys) ≡ length xs
  length-zip_with [] ys h = refl
  length-zip_with (x ∷ xs) [] h = absurd (omega arith)
  length-zip_with (x ∷ xs) (y ∷ ys) h = ap suc (length-zip_with xs ys (omega arith))
