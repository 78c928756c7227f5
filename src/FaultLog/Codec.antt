-- ===== src/FaultLog/Codec.antt =====
-- Little-endian words and the CRC of labs/lab24_eeprom_fault_logger_zephyr/src/fault_log.c.
pub mod Laws
use cortex_m3_embedded_debug.Base.{
  ℕ, zero, suc, ◌+◌, ◌-◌, ◌*◌, ◌^◌, List, [], ◌∷◌, bit_and, bit_or, bit_xor,
}
use cortex_m3_embedded_debug.Base.{get_or, u8, shr, shl, ◌!=◌, if◌then◌else◌}

-- `load_le32(p)`, the list being the bytes from `p` on
unfoldable pub load_le32 : List ℕ → ℕ
load_le32 p =
    bit_or (bit_or (get_or p 0 0) (shl (get_or p 1 0) 8))
      (bit_or (shl (get_or p 2 0) 16) (shl (get_or p 3 0) 24))

-- The loop of `store_le32` writes `(uint8_t)(v >> (8 * i))` for i = 0 .. 3.
unfoldable pub store_le32 : ℕ → List ℕ
store_le32 v = u8 (shr v 0) ∷ u8 (shr v 8) ∷ u8 (shr v 16) ∷ u8 (shr v 24) ∷ []

-- one round of the inner loop of `crc32`
crc_bit : ℕ → ℕ
crc_bit crc = bit_xor (shr crc 1) (if bit_and crc 1 != 0 then 0xedb88320 else 0)

-- `n` rounds of it
crc_bits : ℕ → ℕ → ℕ
crc_bits zero crc = crc
crc_bits (suc n) crc = crc_bits n (crc_bit crc)

crc_loop : ℕ → List ℕ → ℕ
crc_loop crc [] = crc
crc_loop crc (b ∷ bs) = crc_loop (crc_bits 8 (bit_xor crc b)) bs

unfoldable pub crc32 : List ℕ → ℕ
unfolding crc_loop crc_bits crc_bit
crc32 p = bit_xor (crc_loop (2 ^ 32 - 1) p) (2 ^ 32 - 1)
