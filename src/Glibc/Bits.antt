-- ===== src/Glibc/Bits.antt =====
-- Masks, shifts and exclusive or of the hashes of src/memhook/glibc.cpp, as arithmetic.
use Prim.Native.Nat.{bit_and, bit_xor, digits, bitwise, bit_and-bitwise, bit_xor-bitwise, differ}
use native.Mathlib.Nat.{pow-suc, le_refl}
use memhook.Prelude.{
  ℕ, zero, suc, ◌+◌, ◌*◌, ◌/◌, ◌%◌, ◌^◌, ◌≤◌, ◌<◌, min, ◌≡◌, refl, ap, ◌∙◌, sym, arith,
}

-- What the native operations stand for: `top` answers once the first word is used up, `f` for a
-- digit of each word.
module _ (top : ℕ → ℕ) (f : ℕ → ℕ → ℕ) where
  digits-bitwise :
      (limit fuel a b : ℕ) → fuel ≤ limit → a ≤ fuel → digits top f fuel a b ≡ bitwise top f a b
  digits-bitwise limit zero zero b small enough = refl
  digits-bitwise limit (suc fuel) zero b small enough = refl
  digits-bitwise limit zero (suc a) b small enough = absurd (omega arith)
  digits-bitwise zero (suc fuel) (suc a) b small enough = absurd (omega arith)
  digits-bitwise (suc limit) (suc fuel) (suc a) b small enough =
      let high = digits-bitwise limit fuel (suc a / 2) (b / 2) (omega arith) (omega arith) in
      let same = digits-bitwise limit a (suc a / 2) (b / 2) (omega arith) (omega arith) in
      ap (λ h. h * 2 + f (suc a % 2) (b % 2)) (high ∙ sym same)

  bitwise_digit :
      ((b : ℕ) → top b ≡ top (b / 2) * 2 + f 0 (b % 2))
      → (a b : ℕ) → bitwise top f a b ≡ bitwise top f (a / 2) (b / 2) * 2 + f (a % 2) (b % 2)
  bitwise_digit used_up zero b = used_up b
  bitwise_digit used_up (suc a) b =
      ap (λ h. h * 2 + f (suc a % 2) (b % 2))
        (digits-bitwise a a (suc a / 2) (b / 2) (le_refl a) (omega arith))

and_digit : (a b : ℕ) → bit_and a b ≡ bit_and (a / 2) (b / 2) * 2 + min (a % 2) (b % 2)
and_digit a b = simp bit_and-bitwise (bitwise_digit (λ b. 0) min (λ b. omega arith) a b)

xor_digit : (a b : ℕ) → bit_xor a b ≡ bit_xor (a / 2) (b / 2) * 2 + differ (a % 2) (b % 2)
xor_digit a b = simp bit_xor-bitwise (bitwise_digit (λ b. b) differ halves a b)
  where
    digit : (b : ℕ) → differ 0 b ≡ b
    digit b = refl

    halves : (b : ℕ) → b ≡ b / 2 * 2 + differ 0 (b % 2)
    halves b = omega (arith, digit (b % 2))

-- A function of the binary digits that adds none of its own.
vanishes :
    (g : ℕ → ℕ) → g 0 ≡ 0 → ((a : ℕ) → g a ≡ g (a / 2) * 2) → (limit a : ℕ) → a ≤ limit → g a ≡ 0
vanishes g none double limit zero small = none
vanishes g none double zero (suc a) small = absurd (omega arith)
vanishes g none double (suc limit) (suc a) small =
    omega (arith, double (suc a), vanishes g none double limit (suc a / 2) (omega arith))

bit_and-zero : (a : ℕ) → bit_and a 0 ≡ 0
bit_and-zero a =
    vanishes (λ x. bit_and x 0) refl (λ x. omega (arith, and_digit x 0)) a a (le_refl a)

differ_self : (a : ℕ) → differ a a ≡ 0
differ_self zero = refl
differ_self (suc a) = differ_self a

bit_xor_self : (a : ℕ) → bit_xor a a ≡ 0
bit_xor_self a =
    vanishes (λ x. bit_xor x x) refl (λ x. omega (arith, xor_digit x x, differ_self (x % 2))) a a
      (le_refl a)

differ_digit : (a b : ℕ) → a < 2 → b < 2 → differ a b < 2
differ_digit zero b p q = q
differ_digit (suc zero) zero p q = omega arith
differ_digit (suc zero) (suc zero) p q = omega arith
differ_digit (suc zero) (suc (suc b)) p q = absurd (omega arith)
differ_digit (suc (suc a)) b p q = absurd (omega arith)

bit_xor_short : (k a b : ℕ) → a < 2 ^ k → b < 2 ^ k → bit_xor a b < 2 ^ k
bit_xor_short zero zero zero p q = omega arith
bit_xor_short zero (suc a) b p q = absurd (omega arith)
bit_xor_short zero zero (suc b) p q = absurd (omega arith)
bit_xor_short (suc k) a b p q =
    let half_a : a / 2 < 2 ^ k = omega (arith, pow-suc 2 k) in
    let half_b : b / 2 < 2 ^ k = omega (arith, pow-suc 2 k) in
    let digit = differ_digit (a % 2) (b % 2) (omega arith) (omega arith) in
    let high = bit_xor_short k (a / 2) (b / 2) half_a half_b in
    omega (arith, pow-suc 2 k, xor_digit a b, digit, high)

times_power : (k q : ℕ) → q * 2 ^ suc k ≡ q * 2 ^ k * 2
times_power k q = omega (arith, ap (λ power. q * power) (pow-suc 2 k))

-- An operation that goes digit by digit works on the upper and the lower digits of its words apart.
module _ (op : ℕ → ℕ → ℕ) (f : ℕ → ℕ → ℕ)
    (digit : (a b : ℕ) → op a b ≡ op (a / 2) (b / 2) * 2 + f (a % 2) (b % 2))
    (none : op 0 0 ≡ 0) where
  apart :
      (k p q r s : ℕ)
      → r < 2 ^ k
      → s < 2 ^ k
      → op (p * 2 ^ k + r) (q * 2 ^ k + s) ≡ op p q * 2 ^ k + op r s
  apart zero p q zero zero short_r short_s = ground (arith, none)
  apart zero p q (suc r) s short_r short_s = absurd (omega arith)
  apart zero p q zero (suc s) short_r short_s = absurd (omega arith)
  apart (suc k) p q r s short_r short_s =
      let half_r : r / 2 < 2 ^ k = omega (arith, pow-suc 2 k) in
      let half_s : s / 2 < 2 ^ k = omega (arith, pow-suc 2 k) in
      let high = apart k p q (r / 2) (s / 2) half_r half_s in
      let whole = digit (p * 2 ^ suc k + r) (q * 2 ^ suc k + s) in
      ground
        (arith, whole, high, digit r s, times_power k p, times_power k q, times_power k (op p q))

-- A mask of `k` ones.
abbrev ones : ℕ → ℕ
ones zero = 0
ones (suc k) = ones k * 2 + 1

bit_and-ones : (k q r : ℕ) → r < 2 ^ k → bit_and (q * 2 ^ k + r) (ones k) ≡ r
bit_and-ones zero q zero short = bit_and-zero _
bit_and-ones zero q (suc r) short = absurd (omega arith)
bit_and-ones (suc k) q r short =
    let half : r / 2 < 2 ^ k = omega (arith, pow-suc 2 k) in
    let high = bit_and-ones k q (r / 2) half in
    ground (arith, high, and_digit (q * 2 ^ suc k + r) (ones (suc k)), times_power k q)

-- The masks of the source.
pub bit_and_low_28 : (a : ℕ) → bit_and a 0x0fffffff ≡ a % 2 ^ 28
bit_and_low_28 a = ground (arith, bit_and-ones 28 (a / 2 ^ 28) (a % 2 ^ 28) (omega arith))

pub bit_and_low_32 : (a : ℕ) → bit_and a 0xffffffff ≡ a % 2 ^ 32
bit_and_low_32 a = ground (arith, bit_and-ones 32 (a / 2 ^ 32) (a % 2 ^ 32) (omega arith))

pub bit_and_high : (a : ℕ) → bit_and a 0xf0000000 ≡ a / 2 ^ 28 % 2 ^ 4 * 2 ^ 28
bit_and_high a = ground (
  arith,
  apart bit_and min and_digit refl 28 (a / 2 ^ 28) 15 (a % 2 ^ 28) 0 (omega arith) (omega arith),
  bit_and-ones 4 (a / 2 ^ 32) (a / 2 ^ 28 % 2 ^ 4) (omega arith),
  bit_and-zero (a % 2 ^ 28),
)

-- An exclusive or with a short word does not touch the higher digits.
pub bit_xor_low : (a b : ℕ) → b < 2 ^ 28 → bit_xor a b % 2 ^ 28 ≡ bit_xor (a % 2 ^ 28) b
bit_xor_low a b short = ground (
  arith,
  apart bit_xor differ xor_digit refl 28 (a / 2 ^ 28) 0 (a % 2 ^ 28) b (omega arith) short,
  bit_xor_short 28 (a % 2 ^ 28) b (omega arith) short,
)

-- `((a ^ b) >> 1) == 0` holds where the words agree above the lowest digit.
pub bit_xor_half : (a b : ℕ) → a / 2 ≡ b / 2 → bit_xor a b / 2 ≡ 0
bit_xor_half a b h = omega (
  arith,
  xor_digit a b,
  differ_digit (a % 2) (b % 2) (omega arith) (omega arith),
  ap (bit_xor (a / 2)) h,
  bit_xor_self (a / 2),
)

pub bit_and-one : (a : ℕ) → bit_and a 1 ≡ a % 2
bit_and-one a = omega (arith, and_digit a 1, bit_and-zero (a / 2))
