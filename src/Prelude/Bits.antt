-- ===== src/Prelude/Bits.antt =====
-- `|` and `^` on numbers: when the result is zero. By induction on the fuel of the digit recursion
-- that the native operations stand for.
use Prim.Native.Nat.{
  ℕ, zero, suc, ◌/◌, ◌%◌, ◌≤◌, max, differ, digits, bit_or, bit_xor, bit_or-bitwise,
  bit_xor-bitwise,
}
use mathlib.Core.Path.{◌≡◌, refl, sym, ◌∙◌}
use mathlib.Core.Logic.{◌↔◌}
use native.Mathlib.Omega.{arith}

max-digits-zero : (n a b : ℕ) → a ≤ n → digits (λ y. y) max n a b ≡ 0 → (a ≡ 0) × (b ≡ 0)
max-digits-zero zero zero b h e = (refl, e)
max-digits-zero zero (suc a) b h e = absurd (omega arith)
max-digits-zero (suc n) zero b h e = (refl, e)
max-digits-zero (suc n) (suc a) b h e =
    let ih = max-digits-zero n (suc a / 2) (b / 2) (omega arith) (omega arith) in omega (arith, ih)

pub bit_or-eq-zero : (a b : ℕ) → (bit_or a b ≡ 0) ↔ ((a ≡ 0) × (b ≡ 0))
bit_or-eq-zero a b =
    ((λ e. max-digits-zero a a b (omega arith) (sym (bit_or-bitwise a b) ∙ e)), back a b)
  where
    back : (x y : ℕ) → (x ≡ 0) × (y ≡ 0) → bit_or x y ≡ 0
    back zero zero h = refl
    back zero (suc y) h = absurd (omega arith)
    back (suc x) y h = absurd (omega arith)

differ-digits-zero : (n a b : ℕ) → a ≤ n → digits (λ y. y) differ n a b ≡ 0 → a ≡ b
differ-digits-zero zero zero b h e = sym e
differ-digits-zero zero (suc a) b h e = absurd (omega arith)
differ-digits-zero (suc n) zero b h e = sym e
differ-digits-zero (suc n) (suc a) b h e = ground (arith, differ-digits-zero n (suc a / 2) (b / 2))

differ_self : (x : ℕ) → differ x x ≡ 0
differ_self zero = refl
differ_self (suc x) = differ_self x

differ-digits_self : (n a : ℕ) → a ≤ n → digits (λ y. y) differ n a a ≡ 0
differ-digits_self zero zero h = refl
differ-digits_self zero (suc a) h = absurd (omega arith)
differ-digits_self (suc n) zero h = refl
differ-digits_self (suc n) (suc a) h =
    let ih = differ-digits_self n (suc a / 2) (omega arith) in
    omega (arith, ih, differ_self (suc a % 2))

pub bit_xor-eq-zero : (a b : ℕ) → (bit_xor a b ≡ 0) ↔ (a ≡ b)
bit_xor-eq-zero a b = (
  (λ e. differ-digits-zero a a b (omega arith) (sym (bit_xor-bitwise a b) ∙ e)),
  (λ e. rw (← e) (bit_xor-bitwise a a ∙ differ-digits_self a a (omega arith))),
)
