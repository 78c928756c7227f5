-- ===== src/Base/Bits/Mask.antt =====
-- Masks of low and high bits, and the test for a power of two.
use native.Mathlib.Nat.{
  pow-suc, one-le-pow, zero-div, div-add-mod, mod-lt, mod-eq_of_lt, add-mul-mod_self_left,
  div-div-eq-div-mul,
}
use Prim.Native.Nat.{ℕ, zero, suc, ◌+◌, ◌-◌, ◌*◌, ◌/◌, ◌%◌, ◌^◌, ◌<◌, bit_and, bit_or}
use mathlib.Core.Path.{◌≡◌, refl, ap, ap₂, sym, ◌∙◌}
use mathlib.Core.Bool.{true, false}
use mathlib.Core.Logic.{◌⊎◌, inl, inr}
use cortex_m3_embedded_debug.Base.Tests.{eq_or_ne, ◌!=◌, if◌then◌else◌}
use native.Mathlib.Omega.{arith}
use cortex_m3_embedded_debug.Base.Bits.Step.{bit_and_step, zero-bit_and, bit_or_step, zero-bit_or}

pub bit_and_self : (n a : ℕ) → a < 2 ^ n → bit_and a a ≡ a
bit_and_self zero a h = ground (arith, zero-bit_and a)
bit_and_self (suc n) a h =
    omega
      (arith, pow-suc 2 n, bit_and_step a a, bit_and_self n (a / 2) (omega (arith, pow-suc 2 n)))

odd_or_even :
    (a : ℕ) → ((a % 2 ≡ 1) × ((a - 1) / 2 ≡ a / 2)) ⊎ ((a % 2 ≡ 0) × ((a - 1) / 2 ≡ a / 2 - 1))
odd_or_even a = elim (eq_or_ne (a % 2) 1) [
  | inl e ↦ inl (e, omega arith)
  | inr ne ↦ inr (omega arith, omega arith)
]

-- `a & (a - 1) == 0` says that a nonzero `a` is a power of two.
pub power_of_two :
    (n a : ℕ) → 0 < a → a < 2 ^ n → bit_and a (a - 1) ≡ 0 → (k : ℕ) × ((k < n) × (a ≡ 2 ^ k))
power_of_two zero a h lt e = absurd (omega arith)
power_of_two (suc n) a h lt e = elim (odd_or_even a) [
  | inl odd ↦
      let same = ap (bit_and (a / 2)) odd.1 ∙ bit_and_self n (a / 2) (omega (arith, pow-suc 2 n)) in
      (0, (omega arith, omega (arith, bit_and_step a (a - 1), same)))
  | inr even ↦
      let half = ap (bit_and (a / 2)) even.1 in
      let rest =
        power_of_two n (a / 2) (omega arith) (omega (arith, pow-suc 2 n))
          (omega (arith, bit_and_step a (a - 1), half)) in
      (suc rest.0, (omega (arith, rest.1.0), omega (arith, rest.1.1, pow-suc 2 rest.0)))
]

shifted : (q k : ℕ) → q * 2 ^ suc k ≡ 2 * (q * 2 ^ k)
shifted q k = omega (arith, ap (λ (t : ℕ). q * t) (pow-suc 2 k))

-- A mask of `m` ones keeps what fits it.
bit_and_low : (m x : ℕ) → x < 2 ^ m → bit_and x (2 ^ m - 1) ≡ x
bit_and_low zero x h = ground (arith, zero-bit_and (2 ^ 0 - 1))
bit_and_low (suc m) x h =
    let half : (2 ^ suc m - 1) / 2 ≡ 2 ^ m - 1 = omega (arith, pow-suc 2 m, one-le-pow m) in
    let odd : (2 ^ suc m - 1) % 2 ≡ 1 = omega (arith, pow-suc 2 m, one-le-pow m) in
    omega (
      arith,
      bit_and_step x (2 ^ suc m - 1),
      ap (bit_and (x / 2)) half,
      bit_and_low m (x / 2) (omega (arith, pow-suc 2 m)),
    )

bit_and-zero : (n x : ℕ) → x < 2 ^ n → bit_and x 0 ≡ 0
bit_and-zero zero x h = ground (arith, zero-bit_and 0)
bit_and-zero (suc n) x h =
    omega (arith, bit_and_step x 0, bit_and-zero n (x / 2) (omega (arith, pow-suc 2 n)))

pub twice : (k : ℕ) → 2 ^ suc k ≡ 2 * 2 ^ k
twice k = omega (arith, pow-suc 2 k)

-- The lowest digit of a remainder apart.
pub mod_double : (p x : ℕ) → 0 < p → x % (2 * p) ≡ x % 2 + 2 * (x / 2 % p)
mod_double p x h =
    let q = x / 2 / p in
    let low = x % 2 + 2 * (x / 2 % p) in
    let parts : x ≡ low + 2 * p * q = omega (arith, div-add-mod (x / 2) p) in
    let small : low < 2 * p = omega (arith, mod-lt (x / 2) h) in
    ap (λ (y : ℕ). y % (2 * p)) parts ∙ add-mul-mod_self_left low (2 * p) q ∙ mod-eq_of_lt small

-- A mask of `m` ones is a remainder; `n` bounds the bits of the operand.
pub bit_and_mod : (m n x : ℕ) → x < 2 ^ n → bit_and x (2 ^ m - 1) ≡ x % 2 ^ m
bit_and_mod zero n x h = omega (arith, bit_and-zero n x h)
bit_and_mod (suc m) zero x h = ground (arith, zero-bit_and (2 ^ suc m - 1))
bit_and_mod (suc m) (suc n) x h =
    let half : (2 ^ suc m - 1) / 2 ≡ 2 ^ m - 1 = omega (arith, pow-suc 2 m, one-le-pow m) in
    let odd : (2 ^ suc m - 1) % 2 ≡ 1 = omega (arith, pow-suc 2 m, one-le-pow m) in
    omega (
      arith,
      bit_and_step x (2 ^ suc m - 1),
      ap (bit_and (x / 2)) half,
      bit_and_mod m n (x / 2) (omega (arith, pow-suc 2 n)),
      ap (λ (p : ℕ). x % p) (twice m),
      mod_double (2 ^ m) x (omega (arith, one-le-pow m)),
      pow-suc 2 m,
    )

-- A mask of one bit gives that bit.
pub bit_and_bit : (k n x : ℕ) → x < 2 ^ n → bit_and x (2 ^ k) ≡ x / 2 ^ k % 2 * 2 ^ k
bit_and_bit zero zero x h = ground (arith, zero-bit_and 1)
bit_and_bit zero (suc n) x h =
    omega (arith, bit_and_step x 1, bit_and-zero n (x / 2) (omega (arith, pow-suc 2 n)))
bit_and_bit (suc k) zero x h =
    let nothing : x ≡ 0 = omega arith in
    rw (nothing, zero-bit_and (2 ^ suc k), zero-div (2 ^ suc k)) (omega arith)
bit_and_bit (suc k) (suc n) x h =
    let half : 2 ^ suc k / 2 ≡ 2 ^ k = omega (arith, pow-suc 2 k) in
    let above = ap (λ (p : ℕ). x / p) (twice k) ∙ sym (div-div-eq-div-mul x 2 (2 ^ k)) in
    omega (
      arith,
      bit_and_step x (2 ^ suc k),
      ap (bit_and (x / 2)) half,
      bit_and_bit k n (x / 2) (omega (arith, pow-suc 2 n)),
      shifted (x / 2 / 2 ^ k % 2) k,
      ap (λ (b : ℕ). b % 2 * 2 ^ suc k) above,
      pow-suc 2 k,
    )

-- A mask whose lowest `k` bits are clear clears them.
pub bit_and_high :
    (k m q r : ℕ)
    → q < 2 ^ m
    → r < 2 ^ k
    → bit_and (q * 2 ^ k + r) ((2 ^ m - 1) * 2 ^ k) ≡ q * 2 ^ k
bit_and_high zero m q r hq hr =
    let all : q * 2 ^ 0 + r ≡ q = omega arith in
    let ones : (2 ^ m - 1) * 2 ^ 0 ≡ 2 ^ m - 1 = omega arith in
    rw (all, ones, bit_and_low m q hq) (omega arith)
bit_and_high (suc k) m q r hq hr =
    let half_x : (q * 2 ^ suc k + r) / 2 ≡ q * 2 ^ k + r / 2 = omega (arith, shifted q k) in
    let half_mask : (2 ^ m - 1) * 2 ^ suc k / 2 ≡ (2 ^ m - 1) * 2 ^ k =
      omega (arith, shifted (2 ^ m - 1) k) in
    omega (
      arith,
      bit_and_step (q * 2 ^ suc k + r) ((2 ^ m - 1) * 2 ^ suc k),
      ap₂ bit_and half_x half_mask,
      bit_and_high k m q (r / 2) hq (omega (arith, pow-suc 2 k)),
      shifted q k,
      shifted (2 ^ m - 1) k,
    )

-- a bit as a flag
pub bit_flag : (k n x : ℕ) → x < 2 ^ n → (if bit_and x (2 ^ k) != 0 then 1 else 0) ≡ x / 2 ^ k % 2
bit_flag k n x h = elim (eq_or_ne (x / 2 ^ k % 2) 0) [
  | inl e ↦
      let unset : (0 * 2 ^ k != 0) ≡ false = ground arith in rw (bit_and_bit k n x h, e, unset) refl
  | inr ne ↦
      let set : x / 2 ^ k % 2 ≡ 1 = omega arith in
      let nonzero : (1 * 2 ^ k != 0) ≡ true = ground (arith, one-le-pow k) in
      rw (bit_and_bit k n x h, set, nonzero) refl
]

bit_or-zero : (n x : ℕ) → x < 2 ^ n → bit_or x 0 ≡ x
bit_or-zero zero x h = ground (arith, zero-bit_or 0)
bit_or-zero (suc n) x h =
    omega (arith, bit_or_step x 0, bit_or-zero n (x / 2) (omega (arith, pow-suc 2 n)))

-- A bit is shifted in; `n` bounds the bits of the operand.
pub shift_in : (n x b : ℕ) → x < 2 ^ n → b < 2 → bit_or (x * 2) b ≡ x * 2 + b
shift_in n x b h hb =
    let rest : x * 2 / 2 ≡ x = omega arith in
    let no_more : b / 2 ≡ 0 = omega arith in
    omega (arith, bit_or_step (x * 2) b, ap₂ bit_or rest no_more, bit_or-zero n x h)
