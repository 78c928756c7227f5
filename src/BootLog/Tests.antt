-- ===== src/BootLog/Tests.antt =====
-- Runs of the boot log on a NOR flash, and the theorems at concrete inputs.
use cortex_m3_embedded_debug.Base.{
  ℕ, ◌≡◌, ◌<◌, ◌⊎◌, true, false, List, [], ◌∷◌, arith, is_ok, ok, refl, Option, some, Rc,
}
use cortex_m3_embedded_debug.Zephyr.Flash.{nor_flash}
use cortex_m3_embedded_debug.BootLog.{
  BootLog, append, init, read_last, pos, scan, is_erased, with_parameters, scanned, region_ok,
  block_ok, capacity, slot_offset, append_at, write_record,
}
use cortex_m3_embedded_debug.BootLog.Region.{IsValid, record_in}
use cortex_m3_embedded_debug.BootLog.Append.{Appended, append_outcome}
use cortex_m3_embedded_debug.BootLog.Restart.{
  Accepted, Started, init_mounts, append_restart, restarted,
}
use cortex_m3_embedded_debug.BootLog.ReadBack.{append_then_read_last}

abbrev blank : ℕ → ℕ
blank a = 255

abbrev off_max : ℕ
off_max = 2147483647

abbrev event : List ℕ
event = 1 ∷ 2 ∷ 3 ∷ 4 ∷ 5 ∷ 6 ∷ 7 ∷ 8 ∷ 9 ∷ 10 ∷ 11 ∷ 12 ∷ 13 ∷ 14 ∷ 15 ∷ 16 ∷ []

abbrev opened : BootLog
opened = record {
  dev = true;
  base = 64;
  region_size = 64;
  next_slot = 0;
  erase_value = 255;
  initialized = true;
}

-- a run: start over blank flash, append, read back, and a start again
init-blank : (init nor_flash off_max (some opened) true (pos 64) 64 blank).1 ≡ some opened
unfolding init with_parameters scanned scan region_ok block_ok capacity slot_offset is_erased
init-blank = refl

abbrev appended : Rc × Option BootLog × (ℕ → ℕ)
appended = append nor_flash (some opened) (some event) blank

opened-IsValid : IsValid opened blank
unfolding init with_parameters scanned scan region_ok block_ok capacity slot_offset is_erased
    record_in
opened-IsValid = record {
  size_word = omega arith;
  has_dev = refl;
  filled = record {
    in_range = omega arith;
    used = λ i lt. absurd (omega arith);
    unused = λ i low high. refl;
  };
}

appended_ok : appended.0 ≡ ok
unfolding append append_at write_record capacity slot_offset is_erased
appended_ok = refl

append_example : Appended opened event blank appended.0 appended.1 appended.2
append_example = append_outcome nor_flash opened event blank refl (omega arith)

append_then_read_last_example :
    ((read_last nor_flash appended.1 true appended.2).0 ≡ ok)
    × ((read_last nor_flash appended.1 true appended.2).1 ≡ some event)
append_then_read_last_example =
    append_then_read_last nor_flash opened event blank (λ e off k. refl) refl opened-IsValid
      appended_ok refl

init_mounts_example :
    let r = init nor_flash off_max (some opened) true (pos 64) 64 blank in
    Started 64 64 r.0 r.1 r.2 × (r.2 ≡ blank)
init_mounts_example = init_mounts nor_flash off_max 64 64 opened true blank (omega arith)

appended-Accepted : Accepted nor_flash off_max opened appended.2
unfolding region_ok block_ok
appended-Accepted = record { region = refl; ready = refl; block = refl; erased = refl }

append_restart_example :
    let again = init nor_flash off_max (some opened) true (pos 64) 64 appended.2 in
    (again.0 ≡ ok)
    × (((again.1 ≡ some (restarted opened 1))
          ⊎ ((is_ok appended.0 ≡ false) × (again.1 ≡ some (restarted opened 0))))
        × ((i : ℕ) → i < 0 → record_in appended.2 64 i ≡ record_in blank 64 i))
append_restart_example =
    append_restart nor_flash off_max opened opened event blank (λ e off k. refl) refl opened-IsValid
      appended-Accepted
