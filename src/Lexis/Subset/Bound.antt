-- ===== src/Lexis/Subset/Bound.antt =====
-- A list of sets of nodes, no two the same, is no longer than 2 to the number of nodes.
use recursive_functions.Prelude.{
  ℕ, zero, suc, ◌+◌, ◌*◌, ◌^◌, ◌≡◌, ◌<◌, ◌≤◌, inl, inr, List, [], ◌∷◌, Bool, true, false,
  Bool-cases, arith, refl, length, contains, Distinct, Subset, Distinct-length, get_elem?, some,
  if◌then◌else◌, ◌==◌, ==_iff, sym, subst, ap,
}
use recursive_functions.Lexis.Subset.Moves.{SameSet}

-- The members of a set among the nodes, as a number.
unfoldable code : List ℕ → List ℕ → ℕ
code [] S = 0
code (node ∷ nodes) S = (if contains S node then 1 else 0) + 2 * code nodes S

code-lt : (nodes S : List ℕ) → code nodes S < 2 ^ length nodes
unfolding code
code-lt [] S = omega arith
code-lt (node ∷ nodes) S = let r = code-lt nodes S in ground arith

code-contains :
    (nodes S T : List ℕ) (x : ℕ)
    → code nodes S ≡ code nodes T
    → contains nodes x ≡ true
    → contains S x ≡ true
    → contains T x ≡ true
unfolding code
code-contains [] S T x e h k = absurd (ground arith)
code-contains (node ∷ nodes) S T x e h k = elim (Bool-cases (node == x)) [
  | inl q ↦
      subst (λ y. contains T y ≡ true) ((==_iff node x).0 q)
        (let k' : contains S node ≡ true =
            subst (λ y. contains S y ≡ true) (sym ((==_iff node x).0 q)) k in
          parity (contains T node) (
            subst
              (λ (b : Bool).
                (if b then 1 else 0) + 2 * code nodes S
                ≡ (if contains T node then 1 else 0) + 2 * code nodes T)
              k' e))
  | inr q ↦
      code-contains nodes S T x (halves (contains S node) (contains T node) e) (ground arith) k
]
  where
    parity : (b : Bool) → 1 + 2 * code nodes S ≡ (if b then 1 else 0) + 2 * code nodes T → b ≡ true
    parity true e = refl
    parity false e = absurd (omega (arith, e))

    halves :
        (a b : Bool)
        → (if a then 1 else 0) + 2 * code nodes S ≡ (if b then 1 else 0) + 2 * code nodes T
        → code nodes S ≡ code nodes T
    halves true true e = omega (arith, e)
    halves true false e = absurd (omega (arith, e))
    halves false true e = absurd (omega (arith, e))
    halves false false e = omega (arith, e)

unfoldable below : ℕ → List ℕ
below zero = []
below (suc n) = n ∷ below n

contains-below : (n x : ℕ) → x < n → contains (below n) x ≡ true
unfolding below
contains-below zero x h = absurd (omega arith)
contains-below (suc n) x h = let r = contains-below n x in ground arith

length-below : (n : ℕ) → length (below n) ≡ n
unfolding below
length-below zero = refl
length-below (suc n) = ap suc (length-below n)

unfoldable codes : List ℕ → List (List ℕ × ℕ) → List ℕ
unfolding code
codes nodes [] = []
codes nodes (entry ∷ entries) = code nodes entry.0 ∷ codes nodes entries

length-codes :
    (nodes : List ℕ) (entries : List (List ℕ × ℕ)) → length (codes nodes entries) ≡ length entries
unfolding codes
length-codes nodes [] = refl
length-codes nodes (entry ∷ entries) = ap suc (length-codes nodes entries)

contains-codes :
    (nodes : List ℕ) (entries : List (List ℕ × ℕ)) (c : ℕ)
    → contains (codes nodes entries) c ≡ true
    → (i : ℕ) × (entry : List ℕ × ℕ) × (get_elem? entries i ≡ some entry) × (code nodes entry.0 ≡ c)
unfolding codes
contains-codes nodes [] c h = absurd (ground arith)
contains-codes nodes (entry ∷ entries) c h = elim (Bool-cases (code nodes entry.0 == c)) [
  | inl e ↦ (0, entry, refl, (==_iff _ _).0 e)
  | inr e ↦
      let (i, other, there, q) = contains-codes nodes entries c (ground arith) in
      (suc i, other, there, q)
]

abbrev pub Different : List (List ℕ × ℕ) → Type 0
Different entries =
    (i j : ℕ) (x y : List ℕ × ℕ)
    → get_elem? entries i ≡ some x
    → get_elem? entries j ≡ some y
    → SameSet x.0 y.0
    → i ≡ j

abbrev pub Within : List ℕ → List (List ℕ × ℕ) → Type 0
Within nodes entries = (i : ℕ) (x : List ℕ × ℕ) → get_elem? entries i ≡ some x → Subset x.0 nodes

codes-Distinct :
    (nodes : List ℕ) (entries : List (List ℕ × ℕ))
    → Different entries
    → Within nodes entries
    → Distinct (codes nodes entries)
unfolding codes
codes-Distinct nodes [] d w = tt
codes-Distinct nodes (entry ∷ entries) d w = (
  elim (Bool-cases (contains (codes nodes entries) (code nodes entry.0))) [
    | inl h ↦
        let (i, other, there, q) = contains-codes nodes entries _ h in
        absurd (
          omega (
            arith,
            d 0 (suc i) entry other refl there (
              λ x k. code-contains nodes entry.0 other.0 x (sym q) (w 0 entry refl x k) k,
              λ x k. code-contains nodes other.0 entry.0 x q (w (suc i) other there x k) k,
            ),
          ))
    | inr h ↦ h
  ],
  codes-Distinct nodes entries (λ i j x y e f s. omega (arith, d (suc i) (suc j) x y e f s))
      (λ i x e. w (suc i) x e),
)

codes-below :
    (nodes : List ℕ) (entries : List (List ℕ × ℕ)) (c : ℕ)
    → contains (codes nodes entries) c ≡ true
    → c < 2 ^ length nodes
codes-below nodes entries c h =
    let (i, entry, there, q) = contains-codes nodes entries c h in
    subst (λ x. x < 2 ^ length nodes) q (code-lt nodes entry.0)

pub length-Different :
    (nodes : List ℕ) (entries : List (List ℕ × ℕ))
    → Different entries
    → Within nodes entries
    → length entries ≤ 2 ^ length nodes
length-Different nodes entries d w =
    let r =
      Distinct-length (codes nodes entries) (below (2 ^ length nodes))
        (codes-Distinct nodes entries d w)
        (λ c h. contains-below _ c (codes-below nodes entries c h)) in
    let a = length-codes nodes entries in
    let b = length-below (2 ^ length nodes) in omega (arith, r)
