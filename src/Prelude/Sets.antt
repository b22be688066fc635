-- ===== src/Prelude/Sets.antt =====
-- Sets of numbers as lists without repetition.
use Prim.Native.Nat.{ℕ, suc, ◌≤◌, ◌<◌}
use mathlib.Core.Path.{◌≡◌, refl}
use mathlib.Core.Logic.{◌↔◌, ◌⊎◌, inl, inr}
use mathlib.Core.Bool.{Bool, true, false, ◌||◌}
use mathlib.Core.List.{List, [], ◌∷◌, ◌++◌}
use native.Mathlib.Omega.{arith}
use recursive_functions.Prelude.Lists.{length}
use recursive_functions.Prelude.Tests.{◌==◌, if◌then◌else◌, Bool-cases}

abbrev pub contains : List ℕ → ℕ → Bool
contains [] n = false
contains (x ∷ xs) n = (x == n) || contains xs n

abbrev pub insert : ℕ → List ℕ → List ℕ
insert n xs = if contains xs n then xs else n ∷ xs

-- The elements of the second set go into the first.
abbrev pub merge_into : List ℕ → List ℕ → List ℕ
merge_into xs [] = xs
merge_into xs (y ∷ ys) = insert y (merge_into xs ys)

abbrev pub remove : ℕ → List ℕ → List ℕ
remove n [] = []
remove n (x ∷ xs) = let rest = remove n xs in if x == n then xs else x ∷ rest

abbrev pub Distinct : List ℕ → Type 0
Distinct [] = Unit
Distinct (x ∷ xs) = (contains xs x ≡ false) × Distinct xs

-- Every element of the first stands in the second.
abbrev pub Subset : List ℕ → List ℕ → Type 0
Subset xs ys = (n : ℕ) → contains xs n ≡ true → contains ys n ≡ true

pub contains-insert :
    (n : ℕ) (xs : List ℕ) (m : ℕ)
    → (contains (insert n xs) m ≡ true) ↔ ((n ≡ m) ⊎ (contains xs m ≡ true))
contains-insert n xs m = ground arith

pub Distinct-insert : (n : ℕ) (xs : List ℕ) → Distinct xs → Distinct (insert n xs)
Distinct-insert n xs d = elim (Bool-cases (contains xs n)) [ inl e ↦ rw e d | inr e ↦ rw e (e, d) ]

pub contains-merge :
    (xs ys : List ℕ) (m : ℕ)
    → (contains (merge_into xs ys) m ≡ true) ↔ ((contains xs m ≡ true) ⊎ (contains ys m ≡ true))
contains-merge xs [] m = ground arith
contains-merge xs (y ∷ ys) m =
    let i = contains-insert y (merge_into xs ys) m in let r = contains-merge xs ys m in ground arith

pub Distinct-merge : (xs ys : List ℕ) → Distinct xs → Distinct (merge_into xs ys)
Distinct-merge xs [] d = d
Distinct-merge xs (y ∷ ys) d = Distinct-insert y (merge_into xs ys) (Distinct-merge xs ys d)

length-insert : (n : ℕ) (xs : List ℕ) → length xs ≤ length (insert n xs)
length-insert n xs = ground arith

length-merge : (xs ys : List ℕ) → length xs ≤ length (merge_into xs ys)
length-merge xs [] = omega arith
length-merge xs (y ∷ ys) = omega (arith, length-merge xs ys, length-insert y (merge_into xs ys))

-- A merge with something new makes the set larger.
pub length-merge_lt :
    (xs ys : List ℕ) (y : ℕ)
    → contains ys y ≡ true
    → contains xs y ≡ false
    → length xs < length (merge_into xs ys)
length-merge_lt xs [] y here new = absurd (ground arith)
length-merge_lt xs (z ∷ ys) y here new = elim (Bool-cases (contains ys y)) [
  | inl e ↦ omega (arith, length-merge_lt xs ys y e new, length-insert z (merge_into xs ys))
  | inr e ↦ let r = contains-merge xs ys y in let l = length-merge xs ys in ground arith
]

contains-remove :
    (n : ℕ) (xs : List ℕ) (m : ℕ)
    → contains xs m ≡ true
    → (n ≡ m) ⊎ (contains (remove n xs) m ≡ true)
contains-remove n [] m h = absurd (ground arith)
contains-remove n (x ∷ xs) m h = let r = contains-remove n xs m in ground arith

length-remove :
    (n : ℕ) (xs : List ℕ) → contains xs n ≡ true → suc (length (remove n xs)) ≡ length xs
length-remove n [] h = absurd (ground arith)
length-remove n (x ∷ xs) h = let r = length-remove n xs in ground arith

pub Distinct-length : (xs ys : List ℕ) → Distinct xs → Subset xs ys → length xs ≤ length ys
Distinct-length [] ys d s = omega arith
Distinct-length (x ∷ xs) ys d s =
    let r = Distinct-length xs (remove x ys) d.1 (λ n h.
      elim (contains-remove x ys n (s n (ground arith))) [
        | inl e ↦ absurd (ground arith)
        | inr k ↦ k
      ]) in
    omega (arith, r, length-remove x ys (s x (ground arith)))

-- A set inside another of the same size is the other.
pub Subset-equal :
    (xs ys : List ℕ) → Distinct xs → Subset xs ys → length ys ≤ length xs → Subset ys xs
Subset-equal xs ys d s l n h = elim (Bool-cases (contains xs n)) [
  | inl e ↦ e
  | inr e ↦
      absurd
        (omega (arith, Distinct-length (n ∷ xs) ys (e, d) (λ m k. let i = s m in ground arith)))
]

pub contains-append :
    (xs ys : List ℕ) (n : ℕ) → contains (xs ++ ys) n ≡ (contains xs n || contains ys n)
contains-append [] ys n = refl
contains-append (x ∷ xs) ys n = let r = contains-append xs ys n in ground arith

pub contains-nil : (n : ℕ) (xs : List ℕ) → xs ≡ [] → contains xs n ≡ false
contains-nil n xs e = rw e refl
