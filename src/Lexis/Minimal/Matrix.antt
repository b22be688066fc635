-- ===== src/Lexis/Minimal/Matrix.antt =====
-- The matrix of marks: what a mark changes, and how many places are left.
use recursive_functions.Prelude.{
  ℕ, zero, suc, ◌+◌, ◌*◌, ◌≡◌, ◌<◌, ◌≤◌, ◌⊎◌, ◌↔◌, inl, inr, List, [], ◌∷◌, Bool, true, false,
  arith, refl, length, get_elem?, get_elem?-some, get_elem?-set_self, get_elem?-set_ne, length-set,
  set, replicate, length-replicate, get_elem?-replicate, get_elem?-lt, Option, none, some,
  Bool-cases, Option-cases, ◌==◌, ==_iff, ap, ◌∙◌, sym, subst,
}
use recursive_functions.Lexis.Minimal.{marked, mark_at}

-- A matrix with n rows of n places.
pub record IsSquare (n : ℕ) (m : List (List Bool)) : Type 0 where
  pub rows : length m ≡ n
  pub columns : (i : ℕ) (row : List Bool) → get_elem? m i ≡ some row → length row ≡ n

pub marked-row :
    (m : List (List Bool)) (a b : ℕ) {row : List Bool}
    → get_elem? m a ≡ some row
    → (marked m a b ≡ true) ↔ (get_elem? row b ≡ some true)
unfolding marked
marked-row m a b {row} e = rw (marked, e) (bit (get_elem? row b))
  where
    bit : (o : Option Bool) → ((elim o [ none ↦ false | some x ↦ x ]) ≡ true) ↔ (o ≡ some true)
    bit none = (λ h. absurd (cc), λ h. absurd (cc))
    bit (some x) = (λ h. ap some h, λ h. cc)

marked-same :
    (m m' : List (List Bool)) (a b : ℕ)
    → get_elem? m a ≡ get_elem? m' a
    → marked m a b ≡ marked m' a b
unfolding marked
marked-same m m' a b e = rw (marked, e) refl

mark_at-row :
    (m : List (List Bool)) (i j : ℕ) {row : List Bool}
    → get_elem? m i ≡ some row
    → mark_at i j m ≡ set m i (set row j true)
unfolding mark_at
mark_at-row m i j e = rw (mark_at, e) refl

get-set-true :
    (row : List Bool) (j b : ℕ)
    → j < length row
    → (get_elem? (set row j true) b ≡ some true) ↔ ((get_elem? row b ≡ some true) ⊎ (b ≡ j))
get-set-true row j b h = elim (Bool-cases (j == b)) [
  | inl q ↦
      let same = (==_iff j b).0 q in
      (
        λ k. inr (sym same),
        λ k. ap (get_elem? (set row j true)) (sym same) ∙ get_elem?-set_self row j true h,
      )
  | inr q ↦
      let e = get_elem?-set_ne row j b true (λ z. ground arith) in
      (λ k. inl (sym e ∙ k), λ k. e ∙ elim k [ inl z ↦ z | inr z ↦ absurd (ground arith) ])
]

module _ (n : ℕ) (m : List (List Bool)) (square : IsSquare n m) (i j : ℕ) (hi : i < n)
    (hj : j < n) where
  row_at : (row : List Bool) × (get_elem? m i ≡ some row)
  row_at = get_elem?-some m i (omega (arith, hi, square.rows))

  pub mark_at-IsSquare : IsSquare n (mark_at i j m)
  mark_at-IsSquare =
      let (row, e) = row_at in
      subst (IsSquare n) (sym (mark_at-row m i j e)) (record {
        rows = length-set m i (set row j true) ∙ square.rows;
        columns = λ k other h. elim (Bool-cases (i == k)) [
          | inl q ↦
              let z : some (set row j true) ≡ some other =
                sym (get_elem?-set_self m i (set row j true) (omega (arith, hi, square.rows)))
                ∙ ap (get_elem? (set m i (set row j true))) ((==_iff i k).0 q)
                ∙ h in
              let z' : set row j true ≡ other = cc in
              subst (λ (x : List Bool). length x ≡ n) z'
                (length-set row j true ∙ square.columns i row e)
          | inr q ↦
              square.columns k other
                (sym (get_elem?-set_ne m i k (set row j true) (λ z. ground arith)) ∙ h)
        ];
      })

  pub marked-mark_at :
      (a b : ℕ)
      → (marked (mark_at i j m) a b ≡ true) ↔ ((marked m a b ≡ true) ⊎ ((a ≡ i) × (b ≡ j)))
  marked-mark_at a b =
      let (row, e) = row_at in
      subst
        (λ (x : List (List Bool)).
          (marked x a b ≡ true) ↔ ((marked m a b ≡ true) ⊎ ((a ≡ i) × (b ≡ j))))
        (sym (mark_at-row m i j e))
        (elim (Bool-cases (a == i)) [
          | inl q ↦
              let same = (==_iff a i).0 q in
              let before : get_elem? m a ≡ some row = ap (get_elem? m) same ∙ e in
              let after : get_elem? (set m i (set row j true)) a ≡ some (set row j true) =
                ap (get_elem? (set m i (set row j true))) same
                ∙ get_elem?-set_self m i (set row j true) (omega (arith, hi, square.rows)) in
              let x = marked-row m a b before in
              let y = marked-row (set m i (set row j true)) a b after in
              let w = get-set-true row j b (omega (arith, hj, square.columns i row e)) in
              ground arith
          | inr q ↦
              let z : (i ≡ a) → ⊥ = λ y. ground arith in
              let x =
                marked-same (set m i (set row j true)) m a b
                  (get_elem?-set_ne m i a (set row j true) z) in
              rw (x) (ground arith)
        ])

-- The places of a row that are not marked.
unfoldable free_row : List Bool → ℕ
free_row [] = 0
free_row (true ∷ row) = free_row row
free_row (false ∷ row) = suc (free_row row)

unfoldable pub free : List (List Bool) → ℕ
unfolding free_row
free [] = 0
free (row ∷ m) = free_row row + free m

free_row-set :
    (row : List Bool) (j : ℕ)
    → get_elem? row j ≡ some false
    → suc (free_row (set row j true)) ≡ free_row row
unfolding free_row
free_row-set [] j e = absurd (cc)
free_row-set (true ∷ row) zero e = absurd (cc)
free_row-set (false ∷ row) zero e = refl
free_row-set (true ∷ row) (suc j) e = free_row-set row j e
free_row-set (false ∷ row) (suc j) e = ap suc (free_row-set row j e)

free_row-set_le : (row : List Bool) (j : ℕ) → free_row (set row j true) ≤ free_row row
unfolding free_row
free_row-set_le [] j = omega arith
free_row-set_le (true ∷ row) zero = omega arith
free_row-set_le (false ∷ row) zero = omega arith
free_row-set_le (true ∷ row) (suc j) = free_row-set_le row j
free_row-set_le (false ∷ row) (suc j) = omega (arith, free_row-set_le row j)

free-set :
    (m : List (List Bool)) (i : ℕ) (row' : List Bool) {row : List Bool}
    → get_elem? m i ≡ some row
    → free (set m i row') + free_row row ≡ free m + free_row row'
unfolding free
free-set [] i row' e = absurd (cc)
free-set (first ∷ m) zero row' {row} e =
    let q : first ≡ row = cc in let z = ap free_row q in omega (arith, z)
free-set (first ∷ m) (suc i) row' e = omega (arith, free-set m i row' e)

pub free-mark_at : (m : List (List Bool)) (i j : ℕ) → free (mark_at i j m) ≤ free m
unfolding mark_at
free-mark_at m i j = elim (Option-cases (get_elem? m i)) [
  | inl e ↦ rw (mark_at, e) (omega arith)
  | inr e ↦
      rw (mark_at, e.1) (omega (arith, free-set m i (set e.0 j true) e.1, free_row-set_le e.0 j))
]

pub free-mark_new :
    (n : ℕ) (m : List (List Bool)) (i j : ℕ)
    → IsSquare n m
    → i < n
    → j < n
    → marked m i j ≡ false
    → suc (free (mark_at i j m)) ≡ free m
free-mark_new n m i j square hi hj unmarked =
    let (row, e) = get_elem?-some m i (omega (arith, hi, square.rows)) in
    let (bit, b) = get_elem?-some row j (omega (arith, hj, square.columns i row e)) in
    let r = marked-row m i j e in
    let z : get_elem? row j ≡ some false = elim (Bool-cases bit) [
      | inl t ↦ let k = r.1 (b ∙ ap some t) in absurd (cc)
      | inr f ↦ b ∙ ap some f
    ] in
    subst (λ (x : List (List Bool)). suc (free x) ≡ free m) (sym (mark_at-row m i j e))
      (omega (arith, free-set m i (set row j true) e, free_row-set row j z))

all_false : (n b : ℕ) → get_elem? (replicate n false) b ≡ some true → ⊥
all_false zero b h = absurd (cc)
all_false (suc n) zero h = absurd (cc)
all_false (suc n) (suc b) h = all_false n b h

rows_false : (k n a b : ℕ) → marked (replicate k (replicate n false)) a b ≡ true → ⊥
unfolding marked
rows_false zero n a b h = absurd (cc)
rows_false (suc k) n zero b h =
    all_false n b ((marked-row (replicate (suc k) (replicate n false)) 0 b refl).0 h)
rows_false (suc k) n (suc a) b h = rows_false k n a b h

-- Nothing is marked in the first matrix.
pub unmarked_first : (n a b : ℕ) → marked (replicate n (replicate n false)) a b ≡ true → ⊥
unmarked_first n a b h = rows_false n n a b h

pub first-IsSquare : (n : ℕ) → IsSquare n (replicate n (replicate n false))
first-IsSquare n = record {
  rows = length-replicate n (replicate n false);
  columns = λ i row e.
      let w = get_elem?-replicate n i (replicate n false) (
        let u = get_elem?-lt (replicate n (replicate n false)) i e in
        omega (arith, u, length-replicate n (replicate n false))) in
      let z : some (replicate n false) ≡ some row = sym w ∙ e in
      let q : replicate n false ≡ row = cc in
      subst (λ (x : List Bool). length x ≡ n) q (length-replicate n false);
}

free_row-replicate : (n : ℕ) → free_row (replicate n false) ≡ n
unfolding free_row
free_row-replicate zero = refl
free_row-replicate (suc n) = ap suc (free_row-replicate n)

free-replicate : (k : ℕ) (row : List Bool) → free (replicate k row) ≡ k * free_row row
unfolding free
free-replicate zero row = omega arith
free-replicate (suc k) row = let r = free-replicate k row in ground arith

pub free-first : (n : ℕ) → free (replicate n (replicate n false)) ≡ n * n
free-first n = free-replicate n (replicate n false) ∙ ap (λ (x : ℕ). n * x) (free_row-replicate n)
