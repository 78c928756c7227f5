-- ===== src/BootLog/Region.antt =====
-- What the cells of the region say: the slots before `next_slot` hold records, the others are free.
use cortex_m3_embedded_debug.Base.{
  ℕ, ◌+◌, ◌*◌, ◌/◌, ◌^◌, ◌≤◌, ◌<◌, ◌≡◌, ◌≢◌, Bool, true, false, List, arith,
}
use mathlib.Core.Path.{fun_ext}
use cortex_m3_embedded_debug.Zephyr.Cells.{SameOutside, slice_same}
use cortex_m3_embedded_debug.Zephyr.Eeprom.{slice}
use cortex_m3_embedded_debug.Zephyr.Flash.{Flash}
use cortex_m3_embedded_debug.BootLog.{BootLog, slot_offset, capacity, is_erased}

-- the record in slot `i` of the region at `base`
unfoldable pub record_in : (ℕ → ℕ) → ℕ → ℕ → List ℕ
record_in c base i = slice c (base + i * 16) 16

abbrev pub free : (ℕ → ℕ) → ℕ → ℕ → ℕ → Bool
free c base erased i = is_erased (record_in c base i) erased

-- Of the first `total` slots, `n` hold records and the others are free.
pub record Filled (c : ℕ → ℕ) (base erased total n : ℕ) : Type 0 where
  pub in_range : n ≤ total
  pub used : (i : ℕ) → i < n → free c base erased i ≡ false
  pub unused : (i : ℕ) → n ≤ i → i < total → free c base erased i ≡ true

-- a log that `boot_log_init` or `boot_log_append` has left initialised
pub record IsValid (log : BootLog) (c : ℕ → ℕ) : Type 0 where
  pub size_word : log.region_size < 2 ^ 32
  pub has_dev : log.dev ≡ true
  pub filled : Filled c log.base log.erase_value (capacity log.region_size) log.next_slot

pub slot_offset_lem :
    (base size i : ℕ) → size < 2 ^ 32 → i < size / 16 → slot_offset base i ≡ base + i * 16
unfolding slot_offset
slot_offset_lem base size i hs hi = omega arith

-- A change inside of one slot leaves the other slots.
pub record_in-elsewhere :
    {c c' : ℕ → ℕ} (base k i : ℕ)
    → SameOutside (base + k * 16) 16 c c'
    → i ≢ k
    → record_in c' base i ≡ record_in c base i
unfolding record_in
record_in-elsewhere base k i h ne =
    slice_same (base + k * 16) 16 (base + i * 16) 16 h (ground arith)

module _ (F : Flash) where
  open F use {Dev, cells, read, read_keeps}

  pub cells-read : (d : Dev) (off n : ℕ) → cells (read d off n).2 ≡ cells d
  cells-read d off n = fun_ext λ a. read_keeps d off n a
