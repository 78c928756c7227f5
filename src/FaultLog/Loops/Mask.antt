-- ===== src/FaultLog/Loops/Mask.antt =====
-- The bits of `valid_mask`, by checking every mask and slot.
use cortex_m3_embedded_debug.Base.{
  ℕ, ◌<◌, ◌≡◌, refl, Bool, true, false, not, ◌||◌, bit_and, bit_or, ltb, ◌==◌, ◌!=◌, u8, shl, arith,
  ltb→lt,
}
use cortex_m3_embedded_debug.Base.Bits.{all_below, all_below_sound}

abbrev pub bit : ℕ → ℕ → Bool
bit m t = bit_and m (u8 (shl 1 t)) != 0

abbrev same : Bool → Bool → Bool
same true b = b
same false b = not b

same→eq : (a b : Bool) → same a b ≡ true → a ≡ b
same→eq true true h = refl
same→eq true false h = ground arith
same→eq false true h = ground arith
same→eq false false h = refl

abbrev byte_kept : ℕ → ℕ → Bool
byte_kept s m = ltb (bit_or m (u8 (shl 1 s))) 256

byte_table : all_below 8 (λ s. all_below 256 (byte_kept s)) ≡ true
unfolding all_below
byte_table = refl

abbrev bit_kept : ℕ → ℕ → ℕ → Bool
bit_kept s t m = same (bit (bit_or m (u8 (shl 1 s))) t) ((t == s) || bit m t)

bit_table : all_below 8 (λ s. all_below 8 (λ t. all_below 256 (bit_kept s t))) ≡ true
unfolding all_below
bit_table = refl

pub bit_or-lt : (m s : ℕ) → m < 256 → s < 8 → bit_or m (u8 (shl 1 s)) < 256
bit_or-lt m s hm hs = ltb→lt _ _ (
    all_below_sound 256 (byte_kept s) m
      (all_below_sound 8 (λ s. all_below 256 (byte_kept s)) s byte_table hs) hm)

-- Setting the bit of slot `s` makes that bit true and leaves the others.
pub bit-bit_or :
    (m s t : ℕ) → m < 256 → s < 8 → t < 8 → bit (bit_or m (u8 (shl 1 s))) t ≡ ((t == s) || bit m t)
bit-bit_or m s t hm hs ht = same→eq _ _ (
    all_below_sound 256 (bit_kept s t) m
      (all_below_sound 8 (λ t. all_below 256 (bit_kept s t)) t
        (all_below_sound 8 (λ s. all_below 8 (λ t. all_below 256 (bit_kept s t))) s bit_table hs)
        ht)
      hm)
