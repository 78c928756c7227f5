-- ===== src/PcieResource/Placement/Rounding.antt =====
-- `align_up` at a power of two.
use native.Mathlib.Nat.{one-le-pow, div-mul-le_self, lt-div-mul-add, div-lt_iff_lt-mul}
use cortex_m3_embedded_debug.Base.{
  ℕ, ◌+◌, ◌-◌, ◌*◌, ◌/◌, ◌^◌, ◌≤◌, ◌<◌, ◌≡◌, ◌⊎◌, inl, inr, arith, bit_and, sym, ap, ap₂, ◌∙◌, u32,
  sub32, leb_cases, refl, true, ◌==◌, ltb, ltb→lt, ==→eq,
}
use cortex_m3_embedded_debug.Base.Bits.{all_below, all_below_sound}
use cortex_m3_embedded_debug.Base.Bits.Mask.{bit_and_high}
use cortex_m3_embedded_debug.PcieResource.{align_up}

split_table : all_below 32 (λ k. 2 ^ (32 - k) * 2 ^ k == 4294967296) ≡ true
unfolding all_below
split_table = refl

mask_table : all_below 32 (λ k. (2 ^ (32 - k) - 1) * 2 ^ k == 4294967296 - 2 ^ k) ≡ true
unfolding all_below
mask_table = refl

small_table : all_below 32 (λ k. ltb (2 ^ k) 4294967296) ≡ true
unfolding all_below
small_table = refl

unit_word : (k : ℕ) → k < 32 → 2 ^ k < 4294967296
unit_word k h = ltb→lt _ _ (all_below_sound 32 (λ k. ltb (2 ^ k) 4294967296) k small_table h)

-- `2 ^ 32` in two factors, and a mask whose lowest `k` bits are clear
split_word : (k : ℕ) → k < 32 → 2 ^ (32 - k) * 2 ^ k ≡ 4294967296
split_word k h =
    ==→eq _ _ (all_below_sound 32 (λ k. 2 ^ (32 - k) * 2 ^ k == 4294967296) k split_table h)

high_mask : (k : ℕ) → k < 32 → (2 ^ (32 - k) - 1) * 2 ^ k ≡ 4294967296 - 2 ^ k
high_mask k h =
    ==→eq _ _
      (all_below_sound 32 (λ k. (2 ^ (32 - k) - 1) * 2 ^ k == 4294967296 - 2 ^ k) k mask_table h)

-- A word with its lowest `k` bits cleared.
clear_low : (k x : ℕ) → k < 32 → x < 4294967296 → bit_and x (4294967296 - 2 ^ k) ≡ x / 2 ^ k * 2 ^ k
clear_low k x h hx =
    let some_unit : 0 < 2 ^ k = one-le-pow k 2 (omega arith) in
    let low = div-mul-le_self x (2 ^ k) in
    let high = lt-div-mul-add {a = x} {b = 2 ^ k} some_unit in
    let whole : x / 2 ^ k * 2 ^ k + (x - x / 2 ^ k * 2 ^ k) ≡ x = omega (arith, low) in
    let few : x / 2 ^ k < 2 ^ (32 - k) =
      (div-lt_iff_lt-mul {k = 2 ^ k} {x = x} {y = 2 ^ (32 - k)} some_unit).1
        (omega (arith, split_word k h)) in
    ap₂ bit_and (sym whole) (sym (high_mask k h))
    ∙ bit_and_high k (32 - k) (x / 2 ^ k) (x - x / 2 ^ k * 2 ^ k) few (omega (arith, low, high))

align_up_rounds : (k v : ℕ) → k < 32 → align_up v (2 ^ k) ≡ u32 (v + (2 ^ k - 1)) / 2 ^ k * 2 ^ k
unfolding align_up
align_up_rounds k v h =
    let some_unit : 0 < 2 ^ k = one-le-pow k 2 (omega arith) in
    let mask : sub32 (2 ^ k) 1 ≡ 2 ^ k - 1 = omega (arith, unit_word k h) in
    let complement : 4294967295 - (2 ^ k - 1) ≡ 4294967296 - 2 ^ k = omega arith in
    rw (mask, complement) (clear_low k (u32 (v + (2 ^ k - 1))) h (omega arith))

-- `align_up` of a word at the alignment `2 ^ k`: a multiple of it, not below the word and less than
-- `2 ^ k` above it; but 0 where the sum wraps.
pub align_up_lem :
    (k v : ℕ)
    → k < 32
    → v < 4294967296
    → ((q : ℕ) × (align_up v (2 ^ k) ≡ q * 2 ^ k))
      × (((v ≤ align_up v (2 ^ k)) × (align_up v (2 ^ k) < v + 2 ^ k)) ⊎ (align_up v (2 ^ k) ≡ 0))
align_up_lem k v h hv =
    let some_unit : 0 < 2 ^ k = one-le-pow k 2 (omega arith) in
    let x = u32 (v + (2 ^ k - 1)) in
    let low = div-mul-le_self x (2 ^ k) in
    let high = lt-div-mul-add {a = x} {b = 2 ^ k} some_unit in
    let rounds = align_up_rounds k v h in
    (
      (x / 2 ^ k, rounds),
      elim (leb_cases 4294967296 (v + (2 ^ k - 1))) [
        | inr fits ↦ inl (omega (arith, rounds, low, high), omega (arith, rounds, low, high))
        | inl wraps ↦
            let few : x / 2 ^ k < 1 =
              (div-lt_iff_lt-mul {k = 2 ^ k} {x = x} {y = 1} some_unit).1
                (omega (arith, unit_word k h)) in
            let none_left : x / 2 ^ k ≡ 0 = omega (arith, few) in
            inr (omega (arith, rounds, ap (λ n. n * 2 ^ k) none_left))
      ],
    )
