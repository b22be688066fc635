-- ===== src/Lexis/Regex/Splitting.antt =====
-- src/lexis/regex/RegexParser.cpp: every search splits the text that it is given.
use recursive_functions.Prelude.{
  ℕ, zero, suc, ◌+◌, ◌-◌, ◌≤◌, ◌<◌, ◌≡◌, refl, subst, inl, inr, List, [], ◌∷◌, ◌++◌, Bool, true,
  false, not, ◌&&◌, ltb, ◌==◌, if◌then◌else◌, length, replicate, arith, length-append, Bool-cases,
}
use recursive_functions.Lexis.Regex.{
  symbol_node, Outcome, done, error, undefined, out_of_fuel, ◌>>=◌, escape, opening_bracket,
  closing_bracket, Split, found, at_end, past_end, prepend, prepend_all, closing_loop,
  get_closing_bracket, balance_after, prepended, skip_class, matching_loop, get_matching_paren,
  read_symbol, read_end, read_ranges, hyphen, caret, characters_count, flip_ranges, flip_from,
  class_of, parse_character_class,
}

-- The outcome is not for want of fuel, and a result has the property.
abbrev pub Holds {ℓ} : {A : Type ℓ} → (A → Type 0) → Outcome A → Type 0
Holds P (done a) = P a
Holds P (error e) = Unit
Holds P undefined = Unit
Holds P out_of_fuel = ⊥

pub Holds-bind {ℓ κ} :
    {A : Type ℓ} {B : Type κ} (P : A → Type 0) (Q : B → Type 0) (m : Outcome A)
    (next : A → Outcome B)
    → Holds P m
    → ((a : A) → P a → Holds Q (next a))
    → Holds Q (m >>= next)
unfolding ◌>>=◌
Holds-bind P Q (done a) next h k = k a h
Holds-bind P Q (error e) next h k = tt
Holds-bind P Q undefined next h k = tt
Holds-bind P Q out_of_fuel next h k = elim h [ ]

pub Holds-weaken {ℓ} :
    {A : Type ℓ} (P Q : A → Type 0) (m : Outcome A) → Holds P m → ((a : A) → P a → Q a) → Holds Q m
Holds-weaken P Q (done a) h k = k a h
Holds-weaken P Q (error e) h k = tt
Holds-weaken P Q undefined h k = tt
Holds-weaken P Q out_of_fuel h k = elim h [ ]

pub Holds-if {ℓ} :
    {A : Type ℓ} (P : A → Type 0) (b : Bool) (x y : Outcome A)
    → (b ≡ true → Holds P x)
    → (b ≡ false → Holds P y)
    → Holds P (if b then x else y)
Holds-if P true x y h k = h refl
Holds-if P false x y h k = k refl

pub Holds-cases {ℓ} :
    {A : Type ℓ} (P : A → Type 0) (b : Bool) (x y : Outcome A)
    → (b ≡ true → Holds P x)
    → (b ≡ false → Holds P y)
    → Holds P (elim b [ true ↦ x | false ↦ y ])
Holds-cases P true x y h k = h refl
Holds-cases P false x y h k = k refl

-- A split of a text of that length.
abbrev pub Splits : ℕ → Split → Type 0
Splits n (found before behind) = length before + suc (length behind) ≡ n
Splits n at_end = Unit
Splits n past_end = Unit

Splits-prepend : (n c : ℕ) (s : Split) → Splits n s → Splits (suc n) (prepend c s)
Splits-prepend n c (found before behind) h = omega arith
Splits-prepend n c at_end h = tt
Splits-prepend n c past_end h = tt

Splits-prepend_all :
    (n : ℕ) (before : List ℕ) (s : Split)
    → Splits n s
    → Splits (length before + n) (prepend_all before s)
Splits-prepend_all n [] s h = subst (λ m. Splits m s) (omega arith) h
Splits-prepend_all n (c ∷ cs) s h =
    subst (λ m. Splits m (prepend_all (c ∷ cs) s)) (omega arith)
      (Splits-prepend (length cs + n) c (prepend_all cs s) (Splits-prepend_all n cs s h))

pub closing_loop-Splits :
    (skip : Bool) (text : List ℕ) → Splits (length text) (closing_loop skip text)
unfolding closing_loop
closing_loop-Splits true [] = tt
closing_loop-Splits true (c ∷ cs) =
    Splits-prepend (length cs) c (closing_loop false cs) (closing_loop-Splits false cs)
closing_loop-Splits false [] = tt
closing_loop-Splits false (c ∷ cs) = elim (Bool-cases (c == closing_bracket)) [
  | inl e ↦ rw e (omega arith)
  | inr e ↦ rw e (
      Splits-prepend (length cs) c (closing_loop (c == escape) cs)
        (closing_loop-Splits (c == escape) cs))
]

prepended-Splits :
    (n : ℕ) (before : List ℕ) (o : Outcome Split)
    → Holds (Splits n) o
    → Holds (Splits (length before + n)) (prepended before o)
prepended-Splits n before (done s) h = Splits-prepend_all n before s h
prepended-Splits n before (error e) h = tt
prepended-Splits n before undefined h = tt
prepended-Splits n before out_of_fuel h = elim h [ ]

prepended-Splits_one :
    (n c : ℕ) (o : Outcome Split)
    → Holds (Splits n) o
    → Holds (Splits (suc n)) (prepended (c ∷ []) o)
prepended-Splits_one n c o h =
    subst (λ m. Holds (Splits m) (prepended (c ∷ []) o)) (omega arith)
      (prepended-Splits n (c ∷ []) o h)

skip_class-Splits :
    (n balance : ℕ) (s : Split) (next : List ℕ → Outcome Split)
    → Splits n s
    → ((behind : List ℕ) → length behind < n → Holds (Splits (length behind)) (next behind))
    → Holds (Splits n) (skip_class s balance next)
skip_class-Splits n balance past_end next h k = tt
skip_class-Splits n balance at_end next h k = Splits-if (balance == 0)
  where
    Splits-if : (b : Bool) → Splits n (if b then at_end else past_end)
    Splits-if true = tt
    Splits-if false = tt
skip_class-Splits n balance (found inside behind) next h k =
    Holds-if (Splits n) (balance == 0) (done (found inside behind))
      (prepended (inside ++ closing_bracket ∷ []) (next behind)) (λ e. h)
      (λ e.
        subst (λ m. Holds (Splits m) (prepended (inside ++ closing_bracket ∷ []) (next behind)))
          (omega (arith, length-append inside (closing_bracket ∷ []), h))
          (prepended-Splits (length behind) (inside ++ closing_bracket ∷ []) (next behind)
            (k behind (omega arith))))

matching_loop-Splits :
    (fuel : ℕ) (skip : Bool) (balance : ℕ) (text : List ℕ)
    → length text ≤ fuel
    → Holds (Splits (length text)) (matching_loop fuel skip balance text)
unfolding matching_loop
matching_loop-Splits fuel true balance [] h = tt
matching_loop-Splits fuel false balance [] h = tt
matching_loop-Splits zero skip balance (c ∷ cs) h = absurd (omega arith)
matching_loop-Splits (suc fuel) true balance (c ∷ cs) h =
    prepended-Splits_one (length cs) c (matching_loop fuel false balance cs)
      (matching_loop-Splits fuel false balance cs (omega arith))
matching_loop-Splits (suc fuel) false balance (c ∷ cs) h =
    let rest = prepended (c ∷ []) (matching_loop fuel (c == escape) (balance_after c balance) cs) in
    let closes = not (c == escape) && (balance_after c balance == 0) in
    Holds-cases (Splits (length (c ∷ cs))) (c == opening_bracket)
      (skip_class (get_closing_bracket (c ∷ cs)) balance (matching_loop fuel false balance))
      (elim closes [ true ↦ done (found [] cs) | false ↦ rest ])
      (λ e.
        skip_class-Splits (length (c ∷ cs)) balance (get_closing_bracket (c ∷ cs))
          (matching_loop fuel false balance) (closing_loop-Splits false (c ∷ cs))
          (λ behind l. matching_loop-Splits fuel false balance behind (omega arith)))
      (λ e.
        Holds-cases (Splits (length (c ∷ cs))) closes (done (found [] cs)) rest (λ f. omega arith)
          (λ f.
            prepended-Splits_one (length cs) c
              (matching_loop fuel (c == escape) (balance_after c balance) cs)
              (matching_loop-Splits fuel (c == escape) (balance_after c balance) cs (omega arith))))

pub get_matching_paren-Splits :
    (text : List ℕ) → Holds (Splits (length text)) (get_matching_paren text)
get_matching_paren-Splits text = matching_loop-Splits (length text) false 0 text (omega arith)

-- What is left is shorter than that.
abbrev pub Leaves {ℓ} : {A : Type ℓ} → ℕ → A × List ℕ → Type 0
Leaves n result = length result.1 < n

pub read_symbol-Leaves : (text : List ℕ) → Holds (Leaves (length text)) (read_symbol text)
unfolding read_symbol
read_symbol-Leaves [] = tt
read_symbol-Leaves (c ∷ []) = ground arith
read_symbol-Leaves (c ∷ d ∷ ds) = ground arith

read_end-Leaves :
    (begin : ℕ) (text : List ℕ) → Holds (Leaves (suc (length text))) (read_end begin text)
unfolding read_end
read_end-Leaves begin [] = omega arith
read_end-Leaves begin (c ∷ []) = ground arith
read_end-Leaves begin (c ∷ d ∷ ds) =
    Holds-if (Leaves (suc (length (c ∷ d ∷ ds)))) (c == hyphen) (read_symbol (d ∷ ds))
      (done (begin, c ∷ d ∷ ds))
      (λ e.
        Holds-weaken (Leaves (length (d ∷ ds))) (Leaves (suc (length (c ∷ d ∷ ds))))
          (read_symbol (d ∷ ds)) (read_symbol-Leaves (d ∷ ds)) (λ a l. omega arith))
      (λ e. omega arith)

read_ranges_total :
    (fuel : ℕ) (text : List ℕ) → length text ≤ fuel → Holds (λ ranges. Unit) (read_ranges fuel text)
unfolding read_ranges
read_ranges_total fuel [] h = tt
read_ranges_total zero (c ∷ cs) h = absurd (omega arith)
read_ranges_total (suc fuel) (c ∷ cs) h =
    Holds-bind (Leaves (length (c ∷ cs))) (λ ranges. Unit) (read_symbol (c ∷ cs))
      (λ begin. read_end begin.0 begin.1 >>= λ end.
        read_ranges fuel end.1 >>= λ ranges. done ((begin.0, end.0) ∷ ranges))
      (read_symbol-Leaves (c ∷ cs))
      (λ begin l.
        Holds-bind (Leaves (suc (length begin.1))) (λ ranges. Unit) (read_end begin.0 begin.1)
          (λ end. read_ranges fuel end.1 >>= λ ranges. done ((begin.0, end.0) ∷ ranges))
          (read_end-Leaves begin.0 begin.1)
          (λ end m.
            Holds-bind (λ ranges. Unit) (λ ranges. Unit) (read_ranges fuel end.1)
              (λ ranges. done ((begin.0, end.0) ∷ ranges))
              (read_ranges_total fuel end.1 (omega arith)) (λ ranges u. tt)))

flip_ranges_total :
    (ranges : List (ℕ × ℕ)) (bits : List Bool) → Holds (λ bits. Unit) (flip_ranges ranges bits)
flip_ranges_total [] bits = tt
flip_ranges_total ((from, to) ∷ ranges) bits =
    Holds-if (λ bits. Unit) (ltb to from) (flip_ranges ranges bits)
      (if ltb to characters_count
        then flip_ranges ranges (flip_from from (to + 1 - from) bits)
        else undefined)
      (λ e. flip_ranges_total ranges bits)
      (λ e.
        Holds-if (λ bits. Unit) (ltb to characters_count)
          (flip_ranges ranges (flip_from from (to + 1 - from) bits)) undefined
          (λ f. flip_ranges_total ranges (flip_from from (to + 1 - from) bits)) (λ f. tt))

class_of_total : (negated : Bool) (text : List ℕ) → Holds (λ node. Unit) (class_of negated text)
class_of_total negated text =
    Holds-bind (λ ranges. Unit) (λ node. Unit) (read_ranges (length text) text)
      (λ ranges.
        flip_ranges ranges (replicate characters_count negated) >>= λ bits. done (symbol_node bits))
      (read_ranges_total (length text) text (omega arith))
      (λ ranges u.
        Holds-bind (λ bits. Unit) (λ node. Unit)
          (flip_ranges ranges (replicate characters_count negated))
          (λ bits. done (symbol_node bits))
          (flip_ranges_total ranges (replicate characters_count negated)) (λ bits v. tt))

pub parse_character_class_total :
    (text : List ℕ) → Holds (λ node. Unit) (parse_character_class text)
unfolding parse_character_class
parse_character_class_total [] = tt
parse_character_class_total (c ∷ cs) =
    Holds-if (λ node. Unit) (c == caret) (class_of true cs) (class_of false (c ∷ cs))
      (λ e. class_of_total true cs) (λ e. class_of_total false (c ∷ cs))
