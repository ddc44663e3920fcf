-- ===== src/Feed/Bytes.antt =====
-- Python's `int.to_bytes` and `int.from_bytes`, big-endian; a byte is a number.
use fpga_algotrading.Prelude.{
  ℕ, zero, suc, ◌+◌, ◌*◌, ◌/◌, ◌%◌, ◌^◌, ◌<◌, ◌≡◌, refl, Option, none, some, List, [], ◌∷◌, ◌++◌,
  ltb, if◌then◌else◌, arith, length, length-append,
}
use native.Mathlib.Omega.{pow_step}

unfoldable pub from_bytes_on : ℕ → List ℕ → ℕ
from_bytes_on acc [] = acc
from_bytes_on acc (b ∷ bs) = from_bytes_on (acc * 256 + b) bs

-- `int.from_bytes(bs, "big")`
abbrev pub from_bytes : List ℕ → ℕ
from_bytes bs = from_bytes_on 0 bs

-- The bytes of a value that fits.
unfoldable pub bytes_of : ℕ → ℕ → List ℕ
bytes_of zero v = []
bytes_of (suc k) v = bytes_of k (v / 256) ++ v % 256 ∷ []

-- `v.to_bytes(k, "big")`; `none` is the `OverflowError`.
unfoldable pub to_bytes : ℕ → ℕ → Option (List ℕ)
to_bytes k v = if ltb v (256 ^ k) then some (bytes_of k v) else none

pub length-bytes_of : (k v : ℕ) → length (bytes_of k v) ≡ k
unfolding bytes_of
length-bytes_of zero v = refl
length-bytes_of (suc k) v =
    omega (arith, length-append (bytes_of k (v / 256)) (v % 256 ∷ []), length-bytes_of k (v / 256))

from_bytes_on-append :
    (acc : ℕ) (xs : List ℕ) (b : ℕ)
    → from_bytes_on acc (xs ++ b ∷ []) ≡ from_bytes_on acc xs * 256 + b
unfolding from_bytes_on
from_bytes_on-append acc [] b = refl
from_bytes_on-append acc (x ∷ xs) b = from_bytes_on-append (acc * 256 + x) xs b

pub from_bytes-bytes_of : (k v : ℕ) → v < 256 ^ k → from_bytes (bytes_of k v) ≡ v
unfolding from_bytes_on bytes_of
from_bytes-bytes_of zero v h = omega arith
from_bytes-bytes_of (suc k) v h = omega (
  arith,
  from_bytes_on-append 0 (bytes_of k (v / 256)) (v % 256),
  from_bytes-bytes_of k (v / 256) (omega (arith, h, pow_step 256 k)),
)
