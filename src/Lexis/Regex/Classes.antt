-- ===== src/Lexis/Regex/Classes.antt =====
-- src/lexis/regex/RegexParser.cpp, `parse_character_class`: what a class matches, and a class without
-- its closing bracket.
use recursive_functions.Prelude.{
  ℕ, zero, suc, ◌+◌, ◌-◌, ◌≤◌, ◌<◌, ◌≡◌, ◌≢◌, refl, ap, ◌∙◌, inl, inr, List, [], ◌∷◌, Bool, true,
  false, not, ◌&&◌, ltb, leb, ◌==◌, if◌then◌else◌, length, replicate, set, arith, All, Bool-cases,
  length-replicate, length-set, lt→ltb, ==_iff,
}
use recursive_functions.Lexis.Regex.{
  symbol_node, done, ◌>>=◌, escape, hyphen, caret, read_symbol, read_end, read_ranges, is_operator,
  characters_count, match_at, flip_ranges, flip_from, class_of, parse_character_class,
}

-- A symbol that stands for itself.
pub record IsPlain (c : ℕ) : Type 0 where
  pub not_operator : is_operator c ≡ false
  pub not_escape : c ≢ escape
  pub in_charset : c < characters_count

abbrev pub RangeIsPlain : ℕ × ℕ → Type 0
RangeIsPlain (from, to) = IsPlain from × IsPlain to

-- The ranges as the text between the brackets.
abbrev pub class_text : List (ℕ × ℕ) → List ℕ
class_text [] = []
class_text ((from, to) ∷ ranges) = from ∷ hyphen ∷ to ∷ class_text ranges

abbrev pub odd_ranges : ℕ → List (ℕ × ℕ) → Bool
odd_ranges i [] = false
odd_ranges i ((from, to) ∷ ranges) =
    if leb from i && leb i to then not (odd_ranges i ranges) else odd_ranges i ranges

pub read_symbol_plain : (c : ℕ) (cs : List ℕ) → IsPlain c → read_symbol (c ∷ cs) ≡ done (c, cs)
unfolding read_symbol
read_symbol_plain c cs p = let a = p.not_operator in let b = p.not_escape in ground arith

read_end_plain :
    (begin c : ℕ) (cs : List ℕ) → IsPlain c → read_end begin (hyphen ∷ c ∷ cs) ≡ done (c, cs)
unfolding read_end
read_end_plain begin c cs p = read_symbol_plain c cs p

length-class_text : (ranges : List (ℕ × ℕ)) → length ranges ≤ length (class_text ranges)
length-class_text [] = omega arith
length-class_text ((from, to) ∷ ranges) = omega (arith, length-class_text ranges)

read_ranges-class_text :
    (fuel : ℕ) (ranges : List (ℕ × ℕ))
    → All RangeIsPlain ranges
    → length ranges ≤ fuel
    → read_ranges fuel (class_text ranges) ≡ done ranges
unfolding read_ranges ◌>>=◌
read_ranges-class_text fuel [] p h = refl
read_ranges-class_text zero ((from, to) ∷ ranges) p h = absurd (omega arith)
read_ranges-class_text (suc fuel) ((from, to) ∷ ranges) ((f, t), p) h =
    rw
      (
        read_symbol_plain from (hyphen ∷ to ∷ class_text ranges) f,
        read_end_plain from to (class_text ranges) t,
        read_ranges-class_text fuel ranges p (omega arith),
      )
      refl

match_at-set :
    (bits : List Bool) (i j : ℕ) (b : Bool)
    → i < length bits
    → match_at (set bits i b) j ≡ (if i == j then b else match_at bits j)
match_at-set [] i j b h = absurd (omega arith)
match_at-set (x ∷ bits) zero zero b h = refl
match_at-set (x ∷ bits) zero (suc j) b h = ground arith
match_at-set (x ∷ bits) (suc i) zero b h = ground arith
match_at-set (x ∷ bits) (suc i) (suc j) b h = let r = match_at-set bits i j b in ground arith

length-flip_from : (i count : ℕ) (bits : List Bool) → length (flip_from i count bits) ≡ length bits
length-flip_from i zero bits = refl
length-flip_from i (suc count) bits =
    length-flip_from (i + 1) count (set bits i (not (match_at bits i)))
    ∙ length-set bits i (not (match_at bits i))

match_at-flip_from :
    (i count : ℕ) (bits : List Bool) (j : ℕ)
    → i + count ≤ length bits
    → match_at (flip_from i count bits) j
      ≡ (if leb i j && ltb j (i + count) then not (match_at bits j) else match_at bits j)
match_at-flip_from i zero bits j h = ground arith
match_at-flip_from i (suc count) bits j h =
    let bits' = set bits i (not (match_at bits i)) in
    let r =
      match_at-flip_from (i + 1) count bits' j
        (omega (arith, length-set bits i (not (match_at bits i)))) in
    let s = match_at-set bits i j (not (match_at bits i)) (omega arith) in
    elim (Bool-cases (i == j)) [
      | inl e ↦ let same = ap (match_at bits) ((==_iff i j).0 e) in ground arith
      | inr e ↦ ground arith
    ]

-- What the ranges make of the bits.
pub flip_ranges-odd_ranges :
    (ranges : List (ℕ × ℕ)) (bits : List Bool)
    → All RangeIsPlain ranges
    → length bits ≡ characters_count
    → (result : List Bool) × (flip_ranges ranges bits ≡ done result)
      × (length result ≡ characters_count)
      × ((i : ℕ)
          → match_at result i
            ≡ (if odd_ranges i ranges then not (match_at bits i) else match_at bits i))
flip_ranges-odd_ranges [] bits p h = (bits, refl, h, λ i. refl)
flip_ranges-odd_ranges ((from, to) ∷ ranges) bits ((f, t), p) h = elim (Bool-cases (ltb to from)) [
  | inl e ↦
      let (result, r, l, tested) = flip_ranges-odd_ranges ranges bits p h in
      (result, rw (e, r) refl, l, λ i. let q = tested i in ground arith)
  | inr e ↦
      let bits' = flip_from from (to + 1 - from) bits in
      let size = length-flip_from from (to + 1 - from) bits in
      let (result, r, l, tested) = flip_ranges-odd_ranges ranges bits' p (omega (arith, size, h)) in
      let inside = t.in_charset in
      (
        result,
        rw (e, lt→ltb to characters_count inside, r) refl,
        l,
        λ i.
            let q = tested i in
            let flipped = match_at-flip_from from (to + 1 - from) bits i (ground arith) in
            ground arith,
      )
]

match_at-replicate : (n i : ℕ) (b : Bool) → i < n → match_at (replicate n b) i ≡ b
match_at-replicate zero i b h = absurd (omega arith)
match_at-replicate (suc n) zero b h = refl
match_at-replicate (suc n) (suc i) b h = match_at-replicate n i b (omega arith)

class_of-class_text :
    (negated : Bool) (ranges : List (ℕ × ℕ))
    → All RangeIsPlain ranges
    → (bits : List Bool) × (class_of negated (class_text ranges) ≡ done (symbol_node bits))
      × ((i : ℕ)
          → i < characters_count
          → match_at bits i ≡ (if odd_ranges i ranges then not negated else negated))
unfolding ◌>>=◌
class_of-class_text negated ranges p =
    let (bits, e, l, tested) =
      flip_ranges-odd_ranges ranges (replicate characters_count negated) p
        (length-replicate characters_count negated) in
    (
      bits,
      rw
          (
            read_ranges-class_text (length (class_text ranges)) ranges p (length-class_text ranges),
            e,
          )
          refl,
      λ i h.
          let q = tested i in
          let k = match_at-replicate characters_count i negated h in rw (q, k) refl,
    )

pub plain_ne_caret : (c : ℕ) → IsPlain c → (c == caret) ≡ false
unfolding is_operator
plain_ne_caret c p = let a = p.not_operator in ground arith

-- The class of ranges of plain symbols, written one after the other with their hyphens, matches the
-- symbols that stand in an odd number of the ranges; behind a `^` it matches the others.
pub parse_character_class-class_text :
    (first : ℕ × ℕ) (ranges : List (ℕ × ℕ))
    → All RangeIsPlain (first ∷ ranges)
    → (bits : List Bool) × (negated : List Bool) × (parse_character_class
          (class_text (first ∷ ranges))
        ≡ done (symbol_node bits))
      × (parse_character_class (caret ∷ class_text (first ∷ ranges)) ≡ done (symbol_node negated))
      × ((i : ℕ)
          → i < characters_count
          → (match_at bits i ≡ odd_ranges i (first ∷ ranges))
            × (match_at negated i ≡ not (odd_ranges i (first ∷ ranges))))
unfolding parse_character_class
parse_character_class-class_text (from, to) ranges p =
    let (bits, e, tested) = class_of-class_text false ((from, to) ∷ ranges) p in
    let (negated, f, untested) = class_of-class_text true ((from, to) ∷ ranges) p in
    (
      bits,
      negated,
      rw (plain_ne_caret from p.0.0) e,
      f,
      λ i h. let a = tested i h in let b = untested i h in ground arith,
    )
