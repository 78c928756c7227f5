-- ===== src/FaultLog/Codec/Laws.antt =====
-- The words of the fault log survive storage, and the CRC fits 32 bits.
use cortex_m3_embedded_debug.Base.{
  ℕ, zero, suc, ◌+◌, ◌-◌, ◌*◌, ◌^◌, ◌<◌, ◌≡◌, List, [], ◌∷◌, arith, Bool-cases, inl, inr,
}
use cortex_m3_embedded_debug.Base.{bit_and, bit_or, bit_xor, ◌!=◌, get_or}
use cortex_m3_embedded_debug.Base.Bits.{bit_or_above, bit_xor-lt}
use cortex_m3_embedded_debug.FaultLog.Codec.{
  load_le32, store_le32, crc_bit, crc_bits, crc_loop, crc32,
}

four_fields :
    (a b c d : ℕ)
    → a < 256
    → b < 256
    → c < 256
    → bit_or (bit_or a (b * 2 ^ 8)) (bit_or (c * 2 ^ 16) (d * 2 ^ 24))
      ≡ a + b * 2 ^ 8 + c * 2 ^ 16 + d * 2 ^ 24
four_fields a b c d ha hb hc =
    let e : c * 2 ^ 16 + d * 2 ^ 24 ≡ (c + d * 256) * 2 ^ 16 = omega arith in
    rw (bit_or_above 8 b a ha, bit_or_above 24 d (c * 2 ^ 16) (omega arith), e)
      (omega (arith, bit_or_above 16 (c + d * 256) (a + b * 2 ^ 8) (omega arith)))

-- Four bytes read as the little-endian number that they spell.
pub load_le32_sum :
    (p : List ℕ)
    → get_or p 0 0 < 256
    → get_or p 1 0 < 256
    → get_or p 2 0 < 256
    → load_le32 p
      ≡ get_or p 0 0 + get_or p 1 0 * 2 ^ 8 + get_or p 2 0 * 2 ^ 16 + get_or p 3 0 * 2 ^ 24
unfolding load_le32
load_le32_sum p h0 h1 h2 =
    four_fields (get_or p 0 0) (get_or p 1 0) (get_or p 2 0) (get_or p 3 0) h0 h1 h2

-- What `store_le32` writes, `load_le32` reads back.
pub load_le32-store_le32 : (v : ℕ) → v < 2 ^ 32 → load_le32 (store_le32 v) ≡ v
unfolding store_le32
load_le32-store_le32 v h =
    omega (arith, load_le32_sum (store_le32 v) (omega arith) (omega arith) (omega arith))

abbrev pub AllBytes : List ℕ → Type 0
AllBytes [] = Unit
AllBytes (b ∷ bs) = (b < 256) × AllBytes bs

crc_bit-lt : (crc : ℕ) → crc < 2 ^ 32 → crc_bit crc < 2 ^ 32
unfolding crc_bit
crc_bit-lt crc h = elim (Bool-cases (bit_and crc 1 != 0)) [
  | inl e ↦ rw e (bit_xor-lt 32 _ _ (omega arith) (omega arith))
  | inr e ↦ rw e (bit_xor-lt 32 _ _ (omega arith) (omega arith))
]

crc_bits-lt : (n crc : ℕ) → crc < 2 ^ 32 → crc_bits n crc < 2 ^ 32
unfolding crc_bits
crc_bits-lt zero crc h = h
crc_bits-lt (suc n) crc h = crc_bits-lt n (crc_bit crc) (crc_bit-lt crc h)

crc_loop-lt : (crc : ℕ) (bs : List ℕ) → crc < 2 ^ 32 → AllBytes bs → crc_loop crc bs < 2 ^ 32
unfolding crc_loop
crc_loop-lt crc [] h hb = h
crc_loop-lt crc (b ∷ bs) h hb =
    crc_loop-lt (crc_bits 8 (bit_xor crc b)) bs
      (crc_bits-lt 8 (bit_xor crc b) (bit_xor-lt 32 crc b h (omega arith))) hb.1

pub crc32-lt : (bs : List ℕ) → AllBytes bs → crc32 bs < 2 ^ 32
unfolding crc32
crc32-lt bs h = bit_xor-lt 32 _ _ (crc_loop-lt (2 ^ 32 - 1) bs (omega arith) h) (omega arith)
