-- ===== src/Bitset.antt =====
-- src/passes/analysis/dominators/DynamicBitset.h. A block of 64 bits is the list of its bits, the
-- lowest first, and the data is the list of the blocks; the first byte of a block holds its lowest
-- bits. `none` is the exception of the source, or an access outside of the data.
pub mod Blocks
pub mod Bits
use recursive_functions.Prelude.{
  ℕ, zero, suc, ◌+◌, ◌-◌, ◌*◌, ◌/◌, ◌%◌, Bool, true, false, not, ◌&&◌, ◌||◌, List, [], ◌∷◌, map,
  Option, none, some, ◌==◌, ltb, if◌then◌else◌, length, get_elem?, set, replicate, keep_first,
  zip_with,
}

-- `kBlockSize`
abbrev pub block_size : ℕ
block_size = 64

abbrev pub Block : Type 0
Block = List Bool

pub record DynamicBitset : Type 0 where
  pub size : ℕ
  pub data_ : List Block

-- The sum is taken without its wrap at 2 ^ 64, which sizes from 2 ^ 64 - 63 on would meet.
unfoldable pub get_blocks_count : ℕ → ℕ
get_blocks_count size = (size + block_size - 1) / block_size

abbrev pub zero_block : Block
zero_block = replicate block_size false

unfoldable pub make : ℕ → DynamicBitset
unfolding get_blocks_count
make size = record { size = size; data_ = replicate (get_blocks_count size) zero_block }

-- `operator[]`: the block of the bit, and the bit in the block.
abbrev pub bit_of : List Block → ℕ → Option Bool
bit_of blocks index = elim (get_elem? blocks (index / block_size)) [
  | none ↦ none
  | some block ↦ get_elem? block (index % block_size)
]

unfoldable pub test : DynamicBitset → ℕ → Option Bool
test b index = if ltb index b.size then bit_of b.data_ index else none

-- `b[index] = value`
unfoldable pub write : DynamicBitset → ℕ → Bool → Option DynamicBitset
write b index value =
    if ltb index b.size
    then (elim (get_elem? b.data_ (index / block_size)) [
      | none ↦ none
      | some block ↦ some (record b {
        data_ = set b.data_ (index / block_size) (set block (index % block_size) value);
      })
    ])
    else none

-- `size_guard`, and one operation on all blocks.
abbrev pub combine : (Bool → Bool → Bool) → DynamicBitset → DynamicBitset → Option DynamicBitset
combine f b other =
    if other.size == b.size
    then some (record b { data_ = zip_with (zip_with f) b.data_ other.data_ })
    else none

-- `operator&=` and `operator|=`
unfoldable pub intersect : DynamicBitset → DynamicBitset → Option DynamicBitset
intersect = combine (λ x y. x && y)

unfoldable pub unite : DynamicBitset → DynamicBitset → Option DynamicBitset
unite = combine (λ x y. x || y)

-- `data_[blocks_count - 1] &= mask`, for a mask of n ones; with no block at all it is outside of the data.
pub mask_last : ℕ → List Block → Option (List Block)
mask_last n [] = none
mask_last n (block ∷ []) = some (keep_first n false block ∷ [])
mask_last n (block ∷ next ∷ blocks) = elim (mask_last n (next ∷ blocks)) [
  | none ↦ none
  | some masked ↦ some (block ∷ masked)
]

unfoldable pub flip : DynamicBitset → Option DynamicBitset
unfolding mask_last
flip b = elim (mask_last (b.size % block_size) (map (map not) b.data_)) [
  | none ↦ none
  | some blocks ↦ some (record b { data_ = blocks })
]

-- `memcpy` of so many bytes into blocks of zeros.
pub copy_bytes : ℕ → List Block → List Block
copy_bytes bytes [] = []
copy_bytes bytes (block ∷ blocks) =
    keep_first (8 * bytes) false block ∷ copy_bytes (bytes - 8) blocks

-- The copy constructor. Its count of bytes is the count of blocks.
unfoldable pub copy : DynamicBitset → DynamicBitset
unfolding get_blocks_count copy_bytes
copy b = record b { data_ = copy_bytes (get_blocks_count b.size) b.data_ }
