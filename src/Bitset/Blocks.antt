-- ===== src/Bitset/Blocks.antt =====
-- The representation of a bitset, kept by every operation.
use recursive_functions.Prelude.{
  ℕ, zero, suc, ◌-◌, ◌*◌, ◌/◌, ◌%◌, ◌<◌, ◌≡◌, refl, ap, sym, ◌∙◌, Bool, false, not, List, [], ◌∷◌,
  map, some, arith, length, get_elem?, get_elem?-some, length-map, set, length-set, replicate,
  length-replicate, length-keep_first, zip_with, length-zip_with, All, All-get,
}
use recursive_functions.Bitset.{
  block_size, Block, DynamicBitset, get_blocks_count, zero_block, make, mask_last, copy_bytes, copy,
}

abbrev pub IsBlock : Block → Type 0
IsBlock block = length block ≡ block_size

pub record IsValid (b : DynamicBitset) : Type 0 where
  pub count : length b.data_ ≡ get_blocks_count b.size
  pub blocks : All IsBlock b.data_

All-replicate : (n : ℕ) (block : Block) → IsBlock block → All IsBlock (replicate n block)
All-replicate zero block h = tt
All-replicate (suc n) block h = (h, All-replicate n block h)

All-set :
    (blocks : List Block) (i : ℕ) (block : Block)
    → All IsBlock blocks
    → IsBlock block
    → All IsBlock (set blocks i block)
All-set [] i block h k = tt
All-set (x ∷ blocks) zero block h k = (k, h.1)
All-set (x ∷ blocks) (suc i) block h k = (h.0, All-set blocks i block h.1 k)

All-zip_with :
    (f : Bool → Bool → Bool) (xs ys : List Block)
    → All IsBlock xs
    → All IsBlock ys
    → All IsBlock (zip_with (zip_with f) xs ys)
All-zip_with f [] ys h k = tt
All-zip_with f (x ∷ xs) [] h k = tt
All-zip_with f (x ∷ xs) (y ∷ ys) h k =
    (length-zip_with f x y (omega (arith, h.0, k.0)) ∙ h.0, All-zip_with f xs ys h.1 k.1)

All-map : (xs : List Block) → All IsBlock xs → All IsBlock (map (map not) xs)
All-map [] h = tt
All-map (x ∷ xs) h = (length-map not x ∙ h.0, All-map xs h.1)

pub make-IsValid : (size : ℕ) → IsValid (make size)
unfolding make
make-IsValid size = record {
  count = length-replicate (get_blocks_count size) zero_block;
  blocks = All-replicate (get_blocks_count size) zero_block refl;
}

-- The block of a bit, and the bit in it.
pub block_at :
    (b : DynamicBitset) (i : ℕ)
    → IsValid b
    → i < b.size
    → (block : Block) × (get_elem? b.data_ (i / block_size) ≡ some block) × IsBlock block
unfolding get_blocks_count
block_at b i v h =
    let (block, e) = get_elem?-some b.data_ (i / block_size) (omega (arith, v.count)) in
    (block, e, All-get IsBlock b.data_ (i / block_size) v.blocks e)

-- `flip` masks the last block only; its validity, and what its blocks are.
mask_last-total :
    (n : ℕ) (blocks : List Block)
    → 0 < length blocks
    → All IsBlock blocks
    → (masked : List Block) × (mask_last n blocks ≡ some masked)
      × (length masked ≡ length blocks)
      × All IsBlock masked
unfolding mask_last
mask_last-total n [] h k = elim h [ ]
mask_last-total n (block ∷ []) h k = (_, refl, refl, (length-keep_first n false block ∙ k.0, tt))
mask_last-total n (block ∷ next ∷ blocks) h k =
    let (masked, e, size, valid) = mask_last-total n (next ∷ blocks) (omega arith) k.1 in
    (block ∷ masked, rw e, ap suc size, (k.0, valid))

copy_bytes-All :
    (bytes : ℕ) (blocks : List Block) → All IsBlock blocks → All IsBlock (copy_bytes bytes blocks)
unfolding copy_bytes
copy_bytes-All bytes [] h = tt
copy_bytes-All bytes (block ∷ blocks) h =
    (length-keep_first (8 * bytes) false block ∙ h.0, copy_bytes-All (bytes - 8) blocks h.1)

length-copy_bytes :
    (bytes : ℕ) (blocks : List Block) → length (copy_bytes bytes blocks) ≡ length blocks
unfolding copy_bytes
length-copy_bytes bytes [] = refl
length-copy_bytes bytes (block ∷ blocks) = ap suc (length-copy_bytes (bytes - 8) blocks)

pub copy-IsValid : (b : DynamicBitset) → IsValid b → IsValid (copy b)
unfolding copy
copy-IsValid b v = record {
  count = length-copy_bytes (get_blocks_count b.size) b.data_ ∙ v.count;
  blocks = copy_bytes-All (get_blocks_count b.size) b.data_ v.blocks;
}

pub combine-IsValid :
    (f : Bool → Bool → Bool) (b other : DynamicBitset)
    → IsValid b
    → IsValid other
    → other.size ≡ b.size
    → IsValid (record b { data_ = zip_with (zip_with f) b.data_ other.data_ })
combine-IsValid f b other v u e = record {
  count =
      length-zip_with (zip_with f) b.data_ other.data_
        (v.count ∙ ap get_blocks_count (sym e) ∙ sym u.count)
      ∙ v.count;
  blocks = All-zip_with f b.data_ other.data_ v.blocks u.blocks;
}

pub set-IsValid :
    (b : DynamicBitset) (i : ℕ) (block : Block)
    → IsValid b
    → IsBlock block
    → IsValid (record b { data_ = set b.data_ i block })
set-IsValid b i block v h = record {
  count = length-set b.data_ i block ∙ v.count;
  blocks = All-set b.data_ i block v.blocks h;
}

pub flip-total :
    (b : DynamicBitset)
    → IsValid b
    → 0 < b.size
    → (blocks : List Block) × (mask_last (b.size % block_size) (map (map not) b.data_)
        ≡ some blocks)
      × IsValid (record b { data_ = blocks })
unfolding get_blocks_count
flip-total b v h =
    let (blocks, e, size, valid) =
      mask_last-total (b.size % block_size) (map (map not) b.data_)
        (omega (arith, v.count, length-map (map not) b.data_)) (All-map b.data_ v.blocks) in
    (blocks, e, record { count = size ∙ length-map (map not) b.data_ ∙ v.count; blocks = valid })

pub make-size : (size : ℕ) → (make size).size ≡ size
unfolding make
make-size size = refl
