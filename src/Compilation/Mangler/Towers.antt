-- ===== src/Compilation/Mangler/Towers.antt =====
-- src/compilation/mangling/Mangler.cpp: the texts of pointers, and the search for them among the
-- substitutions.
use recursive_functions.Prelude.{
  ℕ, zero, suc, ◌+◌, ◌≤◌, ◌≡◌, ◌≢◌, refl, ap, ◌∙◌, List, [], ◌∷◌, ◌++◌, false, none, some, All,
  arith, length,
}
use recursive_functions.Compilation.Types.{list_eq}
use recursive_functions.Compilation.Types.Storage.{list_eq_refl}
use recursive_functions.Compilation.Mangler.{
  Text, made, substitutable, consider_substitution, get_substitution_name,
}

-- n times P before a text, and the list of these texts from one P on.
abbrev pub tower : ℕ → Text → Text
tower zero text = text
tower (suc n) text = 80 ∷ tower n text

abbrev pub towers : ℕ → Text → List Text
towers zero text = []
towers (suc n) text = towers n text ++ tower (suc n) text ∷ []

-- The text is not that of a pointer.
abbrev pub IsOther : Text → Type 0
IsOther [] = Unit
IsOther (c ∷ text) = c ≢ 80

abbrev pub IsFresh : Text → List Text → Type 0
IsFresh text = All (λ s. list_eq s text ≡ false)

pub IsFresh-append :
    (text : Text) (xs ys : List Text) → IsFresh text xs → IsFresh text ys → IsFresh text (xs ++ ys)
IsFresh-append text [] ys f g = g
IsFresh-append text (x ∷ xs) ys (e, f) g = (e, IsFresh-append text xs ys f g)

consider-fresh :
    (text : Text) (store : List Text) (i : ℕ)
    → IsFresh text store
    → consider_substitution store i text ≡ none
unfolding consider_substitution
consider-fresh text [] i f = refl
consider-fresh text (s ∷ store) i (e, f) =
    rw (e, consider_substitution) (consider-fresh text store (suc i) f)

consider-found :
    (text : Text) (before rest : List Text) (i : ℕ)
    → IsFresh text before
    → consider_substitution (before ++ text ∷ rest) i text
      ≡ some (get_substitution_name (i + length before))
unfolding consider_substitution
consider-found text [] rest i f =
    rw (list_eq_refl text, consider_substitution)
      (ap (λ k. some (get_substitution_name k)) (omega arith))
consider-found text (s ∷ before) rest i (e, f) =
    rw (e, consider_substitution)
      (consider-found text before rest (suc i) f
        ∙ ap (λ k. some (get_substitution_name k)) (omega arith))

pub substitutable-fresh :
    (text : Text) (store : List Text)
    → IsFresh text store
    → substitutable text store ≡ made text (store ++ text ∷ [])
unfolding substitutable
substitutable-fresh text store f = rw (consider-fresh text store 0 f, substitutable) refl

pub substitutable-found :
    (text : Text) (before rest : List Text)
    → IsFresh text before
    → substitutable text (before ++ text ∷ rest)
      ≡ made (get_substitution_name (length before)) (before ++ text ∷ rest)
unfolding substitutable
substitutable-found text before rest f =
    rw (consider-found text before rest 0 f, substitutable)
      (ap (λ k. made (get_substitution_name k) (before ++ text ∷ rest)) (omega arith))

other-list_eq : (x text : Text) → IsOther x → list_eq x (80 ∷ text) ≡ false
unfolding list_eq
other-list_eq [] text h = refl
other-list_eq (c ∷ x) text h = ground (arith, h)

list_eq-other : (x text : Text) → IsOther x → list_eq (80 ∷ text) x ≡ false
unfolding list_eq
list_eq-other [] text h = refl
list_eq-other (c ∷ x) text h = ground (arith, h)

list_eq_pointers : (x y : Text) → list_eq x y ≡ false → list_eq (80 ∷ x) (80 ∷ y) ≡ false
unfolding list_eq
list_eq_pointers x y h = h

-- Towers of texts that are no pointers' differ if their heights do, or the texts.
tower-list_eq :
    (i j : ℕ) (x y : Text)
    → IsOther x
    → IsOther y
    → (i ≡ j → list_eq x y ≡ false)
    → list_eq (tower i x) (tower j y) ≡ false
tower-list_eq zero zero x y h k d = d refl
tower-list_eq zero (suc j) x y h k d = other-list_eq x (tower j y) h
tower-list_eq (suc i) zero x y h k d = list_eq-other y (tower i x) k
tower-list_eq (suc i) (suc j) x y h k d =
    list_eq_pointers (tower i x) (tower j y) (tower-list_eq i j x y h k (λ e. d (ap suc e)))

pub towers-IsFresh :
    (n j : ℕ) (x y : Text)
    → IsOther x
    → IsOther y
    → ((i : ℕ) → i ≤ n → i ≡ j → list_eq x y ≡ false)
    → IsFresh (tower j y) (towers n x)
towers-IsFresh zero j x y h k d = tt
towers-IsFresh (suc n) j x y h k d =
    IsFresh-append (tower j y) (towers n x) (tower (suc n) x ∷ [])
      (towers-IsFresh n j x y h k (λ i le e. d i (omega (arith, le)) e))
      (tower-list_eq (suc n) j x y h k (d (suc n) (omega arith)), tt)

pub others-IsFresh :
    (text : Text) (before : List Text) → All IsOther before → IsFresh (80 ∷ text) before
others-IsFresh text [] h = tt
others-IsFresh text (s ∷ before) (k, h) = (other-list_eq s text k, others-IsFresh text before h)

pub towers_first :
    (n : ℕ) (text : Text) → (rest : List Text) × (towers (suc n) text ≡ (80 ∷ text) ∷ rest)
towers_first zero text = ([], refl)
towers_first (suc n) text =
    let (rest, e) = towers_first n text in
    (rest ++ tower (suc (suc n)) text ∷ [], ap (λ l. l ++ tower (suc (suc n)) text ∷ []) e)

-- The next tower is new behind substitutions of other kinds and the lower towers.
pub tower-IsFresh :
    (n : ℕ) (text : Text) (store : List Text)
    → IsOther text
    → IsFresh (tower (suc n) text) store
    → IsFresh (tower (suc n) text) (store ++ towers n text)
tower-IsFresh n text store h f =
    IsFresh-append (tower (suc n) text) store (towers n text) f
      (towers-IsFresh n (suc n) text text h h (λ i le e. absurd (omega (arith, le, e))))
