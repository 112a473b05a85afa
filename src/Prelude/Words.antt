-- ===== src/Prelude/Words.antt =====
-- Machine words: two's complement readings of 64 bits, and the big-endian codings of
-- encoding/binary over lists of bytes.
use Prim.Native.Nat.{ℕ, zero, suc, ◌+◌, ◌-◌, ◌*◌, ◌/◌, ◌%◌, ◌^◌, ◌<◌}
use mathlib.Core.Path.{◌≡◌, refl}
use mathlib.Core.List.{List, [], ◌∷◌, ◌++◌}
use native.Mathlib.Omega.{arith}
use native.Mathlib.Nat.{pow-suc}
use dropline.Prelude.Tests.{ltb, if◌then◌else◌}
use dropline.Prelude.Lists.{length, length-append}
use dropline.Prelude.Int.{ℤ, pos, negsuc}

abbrev pub IsByte : ℕ → Type 0
IsByte b = b < 256

-- uint64(x) of an int64.
unfoldable pub to_u64 : ℤ → ℕ
to_u64 (pos n) = n % 2 ^ 64
to_u64 (negsuc n) = 2 ^ 64 - 1 - n % 2 ^ 64

-- int64(x) of a uint64.
unfoldable pub to_i64 : ℕ → ℤ
to_i64 n = if ltb n (2 ^ 63) then pos n else negsuc (2 ^ 64 - 1 - n)

-- The value that an int64 operation leaves of its exact result.
unfoldable pub wrap_i64 : ℤ → ℤ
unfolding to_i64 to_u64
wrap_i64 z = to_i64 (to_u64 z)

abbrev pub IsI64 : ℤ → Type 0
IsI64 (pos n) = n < 2 ^ 63
IsI64 (negsuc n) = n < 2 ^ 63

pub to_i64_small : (n : ℕ) → n < 2 ^ 63 → to_i64 n ≡ pos n
unfolding to_i64
to_i64_small n h = ground arith

pub to_u64-lt : (z : ℤ) → to_u64 z < 2 ^ 64
unfolding to_u64
to_u64-lt (pos n) = omega arith
to_u64-lt (negsuc n) = omega arith

pub to_i64-to_u64 : (z : ℤ) → IsI64 z → to_i64 (to_u64 z) ≡ z
unfolding to_u64 to_i64
to_i64-to_u64 (pos n) h = ground arith
to_i64-to_u64 (negsuc n) h = ground arith

pub to_u64-to_i64 : (n : ℕ) → n < 2 ^ 64 → to_u64 (to_i64 n) ≡ n
unfolding to_u64 to_i64
to_u64-to_i64 n h = ground arith

-- The k lowest bytes of n, the highest first: `binary.BigEndian.PutUint64` for k = 8.
unfoldable pub put_be : ℕ → ℕ → List ℕ
put_be zero n = []
put_be (suc k) n = put_be k (n / 256) ++ (n % 256 ∷ [])

-- The number that bytes stand for, over what stands before them.
unfoldable pub read_be : ℕ → List ℕ → ℕ
read_be acc [] = acc
read_be acc (b ∷ bs) = read_be (acc * 256 + b) bs

-- `binary.BigEndian.Uint64`, and so on.
unfoldable pub get_be : List ℕ → ℕ
unfolding read_be
get_be bs = read_be 0 bs

pub length-put_be : (k n : ℕ) → length (put_be k n) ≡ k
unfolding put_be
length-put_be zero n = refl
length-put_be (suc k) n =
    omega (arith, length-append (put_be k (n / 256)) (n % 256 ∷ []), length-put_be k (n / 256))

read_be-append :
    (acc : ℕ) (bs : List ℕ) (b : ℕ) → read_be acc (bs ++ (b ∷ [])) ≡ read_be acc bs * 256 + b
unfolding read_be
read_be-append acc [] b = refl
read_be-append acc (c ∷ bs) b = read_be-append (acc * 256 + c) bs b

pub get_be-append : (bs : List ℕ) (b : ℕ) → get_be (bs ++ (b ∷ [])) ≡ get_be bs * 256 + b
unfolding get_be
get_be-append bs b = read_be-append 0 bs b

-- Reading back what was put: the coding of k bytes loses nothing below 256 ^ k.
pub get_be-put_be : (k n : ℕ) → n < 256 ^ k → get_be (put_be k n) ≡ n
unfolding put_be
get_be-put_be zero n h = unfold get_be in omega arith
get_be-put_be (suc k) n h = omega (
  arith,
  get_be-append (put_be k (n / 256)) (n % 256),
  get_be-put_be k (n / 256) (omega (arith, pow-suc 256 k)),
)
