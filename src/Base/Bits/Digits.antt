-- ===== src/Base/Bits/Digits.antt =====
-- The bits of a number, one by one.
use native.Mathlib.Nat.{pow-suc, one-le-pow}
use Prim.Native.Nat.{ℕ, zero, suc, ◌-◌, ◌/◌, ◌%◌, ◌^◌, ◌<◌, bit_and, bit_or, min, max}
use mathlib.Core.Path.{◌≡◌, ap, ◌∙◌}
use native.Mathlib.Omega.{arith}
use cortex_m3_embedded_debug.Base.Bits.Step.{bit_and_step, bit_or_step}
use cortex_m3_embedded_debug.Base.Bits.Mask.{mod_double, twice}

-- bit `i`, 0 or 1
abbrev pub bit : ℕ → ℕ → ℕ
bit zero x = x % 2
bit (suc i) x = bit i (x / 2)

pub bit-bit_and : (i a b : ℕ) → bit i (bit_and a b) ≡ min (bit i a) (bit i b)
bit-bit_and zero a b = omega (arith, bit_and_step a b)
bit-bit_and (suc i) a b =
    let half : bit_and a b / 2 ≡ bit_and (a / 2) (b / 2) = omega (arith, bit_and_step a b) in
    ap (λ (x : ℕ). bit i x) half ∙ bit-bit_and i (a / 2) (b / 2)

pub bit-bit_or : (i a b : ℕ) → bit i (bit_or a b) ≡ max (bit i a) (bit i b)
bit-bit_or zero a b = omega (arith, bit_or_step a b)
bit-bit_or (suc i) a b =
    let half : bit_or a b / 2 ≡ bit_or (a / 2) (b / 2) = omega (arith, bit_or_step a b) in
    ap (λ (x : ℕ). bit i x) half ∙ bit-bit_or i (a / 2) (b / 2)

-- The bits below `n` stay in the remainder.
pub bit-mod : (n i x : ℕ) → i < n → bit i (x % 2 ^ n) ≡ bit i x
bit-mod zero i x h = absurd (omega arith)
bit-mod (suc n) zero x h =
    omega
      (arith, ap (λ (p : ℕ). x % p) (twice n), mod_double (2 ^ n) x (omega (arith, one-le-pow n)))
bit-mod (suc n) (suc i) x h =
    let half : x % 2 ^ suc n / 2 ≡ x / 2 % 2 ^ n = omega (
      arith,
      ap (λ (p : ℕ). x % p) (twice n),
      mod_double (2 ^ n) x (omega (arith, one-le-pow n)),
    ) in
    ap (λ (y : ℕ). bit i y) half ∙ bit-mod n i (x / 2) (omega arith)

-- the complement in `n` bits
pub bit-not : (n i x : ℕ) → i < n → x < 2 ^ n → bit i (2 ^ n - 1 - x) ≡ 1 - bit i x
bit-not zero i x h small = absurd (omega arith)
bit-not (suc n) zero x h small = omega (arith, pow-suc 2 n, one-le-pow n)
bit-not (suc n) (suc i) x h small =
    let half : (2 ^ suc n - 1 - x) / 2 ≡ 2 ^ n - 1 - x / 2 =
      omega (arith, pow-suc 2 n, one-le-pow n) in
    ap (λ (y : ℕ). bit i y) half ∙ bit-not n i (x / 2) (omega arith) (omega (arith, pow-suc 2 n))

pub bit-lt : (i x : ℕ) → bit i x < 2
bit-lt zero x = omega arith
bit-lt (suc i) x = bit-lt i (x / 2)
