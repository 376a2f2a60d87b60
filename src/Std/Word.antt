-- ===== src/Std/Word.antt =====
-- `to_be_bytes` and `from_be_bytes` of unsigned integers.
use sc_helper.Prelude.{
  ℕ, zero, suc, ◌+◌, ◌*◌, ◌/◌, ◌%◌, ◌^◌, ◌<◌, ◌≡◌, refl, ap, ◌∙◌, sym, [], ◌∷◌, length, All, Bytes,
  arith,
}

-- The `n` low bytes of a number, highest first: `x.to_be_bytes()` of a word of `n` bytes.
unfoldable pub to_be_bytes : ℕ → ℕ → Bytes
to_be_bytes zero x = []
to_be_bytes (suc n) x = (x / 256 ^ n % 256) ∷ to_be_bytes n x

from_be_onto : ℕ → Bytes → ℕ
from_be_onto acc [] = acc
from_be_onto acc (b ∷ bs) = from_be_onto (acc * 256 + b) bs

unfoldable pub from_be_bytes : Bytes → ℕ
unfolding from_be_onto
from_be_bytes bs = from_be_onto 0 bs

abbrev pub IsByte : ℕ → Type 0
IsByte b = b < 256

pub length-to_be_bytes : (n x : ℕ) → length (to_be_bytes n x) ≡ n
unfolding to_be_bytes
length-to_be_bytes zero x = refl
length-to_be_bytes (suc n) x = ap suc (length-to_be_bytes n x)

pub to_be_bytes-IsByte : (n x : ℕ) → All IsByte (to_be_bytes n x)
unfolding to_be_bytes
to_be_bytes-IsByte zero x = tt
to_be_bytes-IsByte (suc n) x = (omega arith, to_be_bytes-IsByte n x)

-- A word of four bytes, and of eight, is read back.
pub from_be_bytes-to_be_bytes_four : (x : ℕ) → x < 2 ^ 32 → from_be_bytes (to_be_bytes 4 x) ≡ x
unfolding from_be_bytes to_be_bytes
from_be_bytes-to_be_bytes_four x h = omega arith

pub from_be_bytes-to_be_bytes_eight : (x : ℕ) → x < 2 ^ 64 → from_be_bytes (to_be_bytes 8 x) ≡ x
unfolding from_be_bytes to_be_bytes
from_be_bytes-to_be_bytes_eight x h = omega arith

pub to_be_bytes-injective_eight :
    (x y : ℕ) → x < 2 ^ 64 → y < 2 ^ 64 → to_be_bytes 8 x ≡ to_be_bytes 8 y → x ≡ y
to_be_bytes-injective_eight x y hx hy e =
    sym (from_be_bytes-to_be_bytes_eight x hx)
    ∙ ap from_be_bytes e
    ∙ from_be_bytes-to_be_bytes_eight y hy

-- Four bytes are the encoding of the word that they stand for, which is below 2 ^ 32.
pub to_be_bytes-from_be_bytes_four :
    (a b c d : ℕ)
    → All IsByte (a ∷ b ∷ c ∷ d ∷ [])
    → (from_be_bytes (a ∷ b ∷ c ∷ d ∷ []) < 2 ^ 32)
      × (to_be_bytes 4 (from_be_bytes (a ∷ b ∷ c ∷ d ∷ [])) ≡ a ∷ b ∷ c ∷ d ∷ [])
unfolding from_be_bytes to_be_bytes
to_be_bytes-from_be_bytes_four a b c d h = ground arith
