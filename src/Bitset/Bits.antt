-- ===== src/Bitset/Bits.antt =====
-- Each operation of a bitset, bit by bit.
use recursive_functions.Prelude.{
  ℕ, zero, suc, ◌-◌, ◌*◌, ◌/◌, ◌%◌, ◌≤◌, ◌<◌, ◌≡◌, ap, sym, ◌∙◌, inl, inr, ◌≢◌, Bool, true, false,
  ◌&&◌, ◌||◌, List, [], ◌∷◌, Option, none, some, arith, ◌==◌, ltb, if◌then◌else◌, get_elem?,
  get_elem?-lt, ==_iff, set, length-set, get_elem?-set_self, get_elem?-set_ne, keep_first,
  get_elem?-keep_first, get_elem?-replicate, zip_with, get_elem?-zip_with, Bool-cases,
}
use mathlib.Core.Option
use native.Mathlib.Decide.{ℕ_discrete}
use recursive_functions.Bitset.{
  block_size, Block, DynamicBitset, get_blocks_count, zero_block, make, bit_of, test, write,
  intersect, unite, copy_bytes, copy,
}
use recursive_functions.Bitset.Blocks.{
  IsBlock, IsValid, block_at, copy-IsValid, combine-IsValid, set-IsValid,
}

-- The bit of a bitset, from its block.
test-at :
    (b : DynamicBitset) (i : ℕ) {block : Block}
    → i < b.size
    → get_elem? b.data_ (i / block_size) ≡ some block
    → test b i ≡ get_elem? block (i % block_size)
unfolding test
test-at b i h e = let low : ltb i b.size ≡ true = ground arith in rw low (rw (e, bit_of))

test-outside : (b : DynamicBitset) (i : ℕ) → b.size ≤ i → test b i ≡ none
unfolding test
test-outside b i h = ground arith

pub test-make : (size i : ℕ) → i < size → test (make size) i ≡ some false
unfolding make get_blocks_count
test-make size i h =
    test-at (make size) i h
      (get_elem?-replicate (get_blocks_count size) (i / block_size) zero_block (omega arith))
    ∙ get_elem?-replicate block_size (i % block_size) false (omega arith)

bit_of-set :
    (blocks : List Block) (i j : ℕ) (value : Bool) {block : Block}
    → get_elem? blocks (i / block_size) ≡ some block
    → IsBlock block
    → bit_of (set blocks (i / block_size) (set block (i % block_size) value)) j
      ≡ (if i == j then some value else bit_of blocks j)
bit_of-set blocks i j value {block} e full = elim (ℕ_discrete (i / block_size) (j / block_size)) [
  | yes same ↦
      let there =
        get_elem?-set_self blocks (i / block_size) (set block (i % block_size) value)
          (get_elem?-lt blocks (i / block_size) e) in
      elim (ℕ_discrete (i % block_size) (j % block_size)) [
        | yes bit ↦
            let hit : (i == j) ≡ true = (==_iff i j).1 (omega (arith, same, bit)) in
            rw hit (
              rw (← same, bit_of)
                (rw there
                  (rw (← bit) (get_elem?-set_self block (i % block_size) value (omega arith)))))
        | no bit ↦
            let miss : (i == j) ≡ false = ne_of i j (λ z. bit (ap (λ (x : ℕ). x % block_size) z)) in
            rw miss (
              rw (← same, bit_of)
                (rw (there, e)
                  (get_elem?-set_ne block (i % block_size) (j % block_size) value bit)))
      ]
  | no other ↦
      let miss : (i == j) ≡ false = ne_of i j (λ z. other (ap (λ (x : ℕ). x / block_size) z)) in
      rw miss (
        rw (
          get_elem?-set_ne blocks (i / block_size) (j / block_size)
              (set block (i % block_size) value) other,
          bit_of,
        ))
]
  where
    ne_of : (a b : ℕ) → a ≢ b → (a == b) ≡ false
    ne_of a b n = ground arith

-- A write inside of the bitset succeeds, keeps the representation, and changes that bit alone.
pub test-write :
    (b : DynamicBitset) (i : ℕ) (value : Bool)
    → IsValid b
    → i < b.size
    → (c : DynamicBitset) × (write b i value ≡ some c)
      × IsValid c
      × ((j : ℕ) → test c j ≡ (if i == j then some value else test b j))
unfolding write test
test-write b i value v h =
    let (block, e, full) = block_at b i v h in
    let low : ltb i b.size ≡ true = ground arith in
    let block' = set block (i % block_size) value in
    (
      record b { data_ = set b.data_ (i / block_size) block' },
      rw low (rw e),
      set-IsValid b (i / block_size) block' v (length-set block (i % block_size) value ∙ full),
      λ j. ground (arith, bit_of-set b.data_ i j value e full),
    )

-- Two bitsets of one size, and one operation on their bits.
test-combine :
    (f : Bool → Bool → Bool) (b other : DynamicBitset) (j : ℕ) {x y : Bool}
    → IsValid b
    → IsValid other
    → other.size ≡ b.size
    → test b j ≡ some x
    → test other j ≡ some y
    → test (record b { data_ = zip_with (zip_with f) b.data_ other.data_ }) j ≡ some (f x y)
test-combine f b other j {x} {y} v u same ex ey =
    let h : j < b.size = inside b j ex in
    let (p, ep, fp) = block_at b j v h in
    let (q, eq, fq) = block_at other j u (omega arith) in
    test-at (record b { data_ = zip_with (zip_with f) b.data_ other.data_ }) j h
      (get_elem?-zip_with (zip_with f) b.data_ other.data_ (j / block_size) ep eq)
    ∙ get_elem?-zip_with f p q (j % block_size) (sym (test-at b j h ep) ∙ ex)
        (sym (test-at other j (omega arith) eq) ∙ ey)
  where
    inside : (b : DynamicBitset) (j : ℕ) {x : Bool} → test b j ≡ some x → j < b.size
    inside b j e = elim (Bool-cases (ltb j b.size)) [
      | inl low ↦ ground arith
      | inr high ↦ ground (arith, e, test-outside b j)
    ]

-- `&=` of two bitsets of one size succeeds, keeps the representation, and has in each place the
-- conjunction of the two bits; `|=` has the disjunction. On two sizes both fail.
pub test-intersect-unite :
    (b other : DynamicBitset)
    → IsValid b
    → IsValid other
    → (other.size ≡ b.size
        → (c d : DynamicBitset) × (intersect b other ≡ some c)
          × (unite b other ≡ some d)
          × IsValid c
          × IsValid d
          × ((j : ℕ) (x y : Bool)
              → test b j ≡ some x
              → test other j ≡ some y
              → (test c j ≡ some (x && y)) × (test d j ≡ some (x || y))))
      × (other.size ≢ b.size → (intersect b other ≡ none) × (unite b other ≡ none))
unfolding intersect unite
test-intersect-unite b other v u = (
  (λ same.
      let e : (other.size == b.size) ≡ true = (==_iff _ _).1 same in
      (
        _,
        _,
        rw e,
        rw e,
        combine-IsValid (λ x y. x && y) b other v u same,
        combine-IsValid (λ x y. x || y) b other v u same,
        λ j x y ex ey. (
          test-combine (λ x y. x && y) b other j v u same ex ey,
          test-combine (λ x y. x || y) b other j v u same ex ey,
        ),
      )),
  (λ differ. let e : (other.size == b.size) ≡ false = ground arith in (rw e, rw e)),
)

copy_bytes-get :
    (bytes : ℕ) (blocks : List Block) (q : ℕ) {block : Block}
    → get_elem? blocks q ≡ some block
    → get_elem? (copy_bytes bytes blocks) q ≡ some (keep_first (8 * (bytes - 8 * q)) false block)
unfolding copy_bytes
copy_bytes-get bytes [] q e = absurd (cc)
copy_bytes-get bytes (x ∷ blocks) zero {block} e =
    let same : 8 * bytes ≡ 8 * (bytes - 8 * 0) = omega arith in
    rw (← same) (ap (λ z. some (keep_first (8 * bytes) false z)) (some_inj x block e))
  where
    some_inj : (a b : Block) → some a ≡ some b → a ≡ b
    some_inj a b e = cc
copy_bytes-get bytes (x ∷ blocks) (suc q) {block} e =
    let same : 8 * (bytes - 8 - 8 * q) ≡ 8 * (bytes - 8 * suc q) = omega arith in
    rw (← same) (copy_bytes-get (bytes - 8) blocks q e)

-- The copy of a bitset is valid and has its bits only up to 8 times its count of blocks; every bit
-- from there on is zero in the copy.
pub test-copy :
    (b : DynamicBitset) (i : ℕ)
    → IsValid b
    → i < b.size
    → IsValid (copy b)
      × (test (copy b) i ≡ (if ltb i (8 * get_blocks_count b.size) then test b i else some false))
unfolding copy
test-copy b i v h =
    let (block, e, full) = block_at b i v h in
    let count = get_blocks_count b.size in
    (
      copy-IsValid b v,
      test-at (copy b) i h (copy_bytes-get count b.data_ (i / block_size) e)
          ∙ get_elem?-keep_first (8 * (count - 8 * (i / block_size))) false block (i % block_size)
              (omega arith)
          ∙ joined i count block (test b i) (test-at b i h e),
    )
  where
    joined :
        (i count : ℕ) (block : Block) (t : Option Bool)
        → t ≡ get_elem? block (i % block_size)
        → (if ltb (i % block_size) (8 * (count - 8 * (i / block_size)))
            then get_elem? block (i % block_size)
            else some false)
          ≡ (if ltb i (8 * count) then t else some false)
    joined i count block t e = ground arith
