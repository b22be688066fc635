-- ===== src/Tests/Bitset.antt =====
-- Bitsets of 3 and 64 bits.
use recursive_functions.Prelude.{
  ℕ, ◌*◌, ◌<◌, ◌≡◌, refl, true, false, none, some, arith, ◌==◌, ltb, if◌then◌else◌,
}
use mathlib.Core.Option
use recursive_functions.Bitset.{DynamicBitset, get_blocks_count, make, test, write, flip, copy}
use recursive_functions.Bitset.Blocks.{IsValid, make-IsValid, make-size}
use recursive_functions.Bitset.Bits.{test-write, test-copy}

abbrev three : DynamicBitset
three = make 3

three_bits : 1 < three.size
three_bits = rw (make-size 3) (omega arith)

-- All bits of a bitset of 64 bits are zero after `flip`.
none_flipped : (elim (flip (make 64)) [ none ↦ none | some b ↦ test b 5 ]) ≡ some false
unfolding make flip test
none_flipped = refl

-- The bit 8 of a bitset of 64 bits is lost by a copy.
bit_lost : (elim (write (make 64) 8 true) [ none ↦ none | some b ↦ test (copy b) 8 ]) ≡ some false
unfolding make write test copy
bit_lost = refl

test-write_example :
    (c : DynamicBitset) × (write three 1 true ≡ some c)
    × IsValid c
    × ((j : ℕ) → test c j ≡ (if 1 == j then some true else test three j))
test-write_example = test-write three 1 true (make-IsValid 3) three_bits

test-copy_example :
    IsValid (copy three)
    × (test (copy three) 1
        ≡ (if ltb 1 (8 * get_blocks_count three.size) then test three 1 else some false))
test-copy_example = test-copy three 1 (make-IsValid 3) three_bits
