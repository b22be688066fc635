-- ===== src/Serializer.antt =====
-- src/utils/Serializer.h: a `size_t` as its eight bytes, the lowest first, as on a little-endian
-- machine. A stream is the list of its bytes; a read at its end, which leaves the result without a
-- value, is `none`.
use recursive_functions.Prelude.{
  ℕ, zero, suc, ◌+◌, ◌*◌, ◌/◌, ◌%◌, ◌^◌, ◌<◌, ◌≡◌, refl, ap, ◌∙◌, List, [], ◌∷◌, ◌++◌, Option, none,
  some, arith, length, All,
}
use mathlib.Core.List.{append_assoc}

-- Streams that are read, with what is left of them.
abbrev pub Reader {ℓ} : Type ℓ → Type ℓ
Reader A = List ℕ → Option (A × List ℕ)

infixl 5 ◌>>=◌
abbrev pub ◌>>=◌ {ℓ κ} : {A : Type ℓ} {B : Type κ} → Reader A → (A → Reader B) → Reader B
◌>>=◌ read f stream = elim (read stream) [ none ↦ none | some (a, rest) ↦ f a rest ]

abbrev pub pure {ℓ} : {A : Type ℓ} → A → Reader A
pure a stream = some (a, stream)

-- The lowest k bytes of a number.
unfoldable pub bytes_of : ℕ → ℕ → List ℕ
bytes_of zero value = []
bytes_of (suc k) value = (value % 256) ∷ bytes_of k (value / 256)

unfoldable pub number_of : ℕ → Reader ℕ
number_of zero stream = some (0, stream)
number_of (suc k) [] = none
number_of (suc k) (byte ∷ stream) = elim (number_of k stream) [
  | none ↦ none
  | some (high, rest) ↦ some (byte + 256 * high, rest)
]

unfoldable pub write_bytes : ℕ → List ℕ
unfolding bytes_of
write_bytes value = bytes_of 8 value

unfoldable pub read_bytes : Reader ℕ
unfolding number_of
read_bytes = number_of 8

abbrev pub byte_limit : ℕ → ℕ
byte_limit zero = 1
byte_limit (suc k) = 256 * byte_limit k

number_of-bytes_of :
    (k value : ℕ) (rest : List ℕ)
    → value < byte_limit k
    → number_of k (bytes_of k value ++ rest) ≡ some (value, rest)
unfolding number_of bytes_of
number_of-bytes_of zero value rest h = ap (λ n. some (n, rest)) (omega arith)
number_of-bytes_of (suc k) value rest h =
    rw (number_of-bytes_of k (value / 256) rest (omega arith))
      (ap (λ n. some (n, rest)) (omega arith))

-- A number of 64 bits.
abbrev pub Fits64 : ℕ → Type 0
Fits64 n = n < 2 ^ 64

pub read_bytes-write_bytes :
    (value : ℕ) (rest : List ℕ)
    → Fits64 value
    → read_bytes (write_bytes value ++ rest) ≡ some (value, rest)
unfolding read_bytes write_bytes
read_bytes-write_bytes value rest h = number_of-bytes_of 8 value rest h

abbrev pub write_all {ℓ} : {A : Type ℓ} → (A → List ℕ) → List A → List ℕ
write_all write [] = []
write_all write (a ∷ items) = write a ++ write_all write items

-- n items, one after the other.
abbrev pub read_many {ℓ} : {A : Type ℓ} → Reader A → ℕ → Reader (List A)
read_many read zero stream = some ([], stream)
read_many read (suc n) stream = elim (read stream) [
  | none ↦ none
  | some (a, rest) ↦ elim (read_many read n rest) [
    | none ↦ none
    | some (items, end) ↦ some (a ∷ items, end)
  ]
]

-- Items that are read back one by one are read back as a list.
pub read_many-write_all {ℓ κ} :
    {A : Type ℓ} (write : A → List ℕ) (read : Reader A) (Fits : A → Type κ)
    → ((a : A) (rest : List ℕ) → Fits a → read (write a ++ rest) ≡ some (a, rest))
    → (items : List A) (rest : List ℕ) → All Fits items
    → read_many read (length items) (write_all write items ++ rest) ≡ some (items, rest)
read_many-write_all write read Fits back [] rest h = refl
read_many-write_all write read Fits back (a ∷ items) rest h =
    rw (append_assoc (write a) (write_all write items) rest) (
      rw (back a (write_all write items ++ rest) h.0)
        (rw (read_many-write_all write read Fits back items rest h.1)))

pub >>=-some {ℓ κ} :
    {A : Type ℓ} {B : Type κ} (m : Reader A) (f : A → Reader B) (stream : List ℕ) {a : A}
    {rest : List ℕ}
    → m stream ≡ some (a, rest)
    → (m >>= f) stream ≡ f a rest
>>=-some m f stream e = rw (◌>>=◌, e)

-- A number that is read where it was written, at the head of what was written.
pub read_bytes-head {κ} :
    {B : Type κ} (f : ℕ → Reader B) (value : ℕ) (written rest : List ℕ)
    → Fits64 value
    → (read_bytes >>= f) ((write_bytes value ++ written) ++ rest) ≡ f value (written ++ rest)
read_bytes-head f value written rest h =
    ap (read_bytes >>= f) (append_assoc (write_bytes value) written rest)
    ∙ >>=-some read_bytes f (write_bytes value ++ (written ++ rest))
        (read_bytes-write_bytes value (written ++ rest) h)

-- The same, where nothing else was written.
pub read_bytes-last {κ} :
    {B : Type κ} (f : ℕ → Reader B) (value : ℕ) (rest : List ℕ)
    → Fits64 value
    → (read_bytes >>= f) (write_bytes value ++ rest) ≡ f value rest
read_bytes-last f value rest h =
    >>=-some read_bytes f (write_bytes value ++ rest) (read_bytes-write_bytes value rest h)
