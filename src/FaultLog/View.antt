-- ===== src/FaultLog/View.antt =====
-- What the cells of the EEPROM say: which slots hold a record, with which number and code, and
-- which contents the log leaves behind. The specification that initialisation is held to.
use cortex_m3_embedded_debug.Base.{
  ℕ, ◌+◌, ◌-◌, ◌%◌, ◌<◌, ◌≡◌, ◌≢◌, ◌⊎◌, Bool, true, false, drop, sub32,
}
use cortex_m3_embedded_debug.Zephyr.Eeprom.{slice}
use cortex_m3_embedded_debug.FaultLog.{record_valid, slot_offset, slot_size, no_slot}
use cortex_m3_embedded_debug.FaultLog.Codec.{load_le32}

unfoldable pub valid_at : (ℕ → ℕ) → ℕ → Bool
valid_at c slot = record_valid (slice c (slot_offset slot) slot_size)

unfoldable pub seq_at : (ℕ → ℕ) → ℕ → ℕ
seq_at c slot = load_le32 (drop 4 (slice c (slot_offset slot) slot_size))

unfoldable pub code_at : (ℕ → ℕ) → ℕ → ℕ
code_at c slot = load_le32 (drop 8 (slice c (slot_offset slot) slot_size))

abbrev pub Empty : (ℕ → ℕ) → Type 0
Empty c = (s : ℕ) → s < 8 → valid_at c s ≡ false

-- `j` holds a record, and every other record is one to seven appends older.
pub record IsNewest (c : ℕ → ℕ) (j : ℕ) : Type 0 where
  pub in_range : j < 8
  pub is_valid : valid_at c j ≡ true
  pub older :
      (s : ℕ)
      → s < 8
      → s ≢ j
      → valid_at c s ≡ true
      → (0 < sub32 (seq_at c j) (seq_at c s)) × (sub32 (seq_at c j) (seq_at c s) < 8)

-- The contents that appends leave behind: a record's number tells how many slots it stands behind
-- the newest one.
pub record Ring (c : ℕ → ℕ) (j q : ℕ) : Type 0 where
  pub in_range : j < 8
  pub seq_word : q < 4294967296
  pub is_valid : valid_at c j ≡ true
  pub placed : (s : ℕ) → s < 8 → valid_at c s ≡ true → seq_at c s ≡ sub32 q ((j + 8 - s) % 8)

-- the slot and the number that an initialised log keeps agree with the cells
abbrev pub Holds : (ℕ → ℕ) → ℕ → ℕ → Type 0
Holds c j q = ((j ≡ no_slot) × Empty c) ⊎ Ring c j q
