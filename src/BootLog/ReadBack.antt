-- ===== src/BootLog/ReadBack.antt =====
-- What `boot_log_read_last` gives after an append.
use cortex_m3_embedded_debug.Base.{
  ℕ, ◌+◌, ◌-◌, ◌^◌, ◌<◌, ◌≡◌, inl, inr, true, false, List, length, arith, is_ok, ok, refl, ap, sym,
  ◌∙◌, subst, some, never_both, ◌==◌,
}
use cortex_m3_embedded_debug.Zephyr.Eeprom.{slice}
use cortex_m3_embedded_debug.Zephyr.Flash.{Flash}
use cortex_m3_embedded_debug.BootLog.{BootLog, slot_offset, capacity, is_erased, append, read_last}
use cortex_m3_embedded_debug.BootLog.Region.{record_in, IsValid, slot_offset_lem}
use cortex_m3_embedded_debug.BootLog.Append.{append_outcome, advanced}

module _ (F : Flash) where
  open F use {Dev, cells, is_ready, read, read_ok}

  read_last-advanced :
      (log : BootLog) (bytes : List ℕ) (d : Dev)
      → ((e : Dev) (off k : ℕ) → is_ok (read e off k).0 ≡ true)
      → is_ready d ≡ true
      → log.dev ≡ true
      → log.region_size < 2 ^ 32
      → log.next_slot < capacity log.region_size
      → is_erased bytes log.erase_value ≡ false
      → record_in (cells d) log.base log.next_slot ≡ bytes
      → ((read_last F (some (advanced log)) true d).0 ≡ ok)
        × ((read_last F (some (advanced log)) true d).1 ≡ some bytes)
  unfolding read_last record_in capacity
  read_last-advanced log bytes d reads ready dev size room fresh there =
      let some_slot : (log.next_slot + 1 == 0) ≡ false = ground arith in
      let last : log.next_slot + 1 - 1 ≡ log.next_slot = omega arith in
      let place = slot_offset_lem log.base log.region_size log.next_slot size room in
      let good = reads d (slot_offset log.base log.next_slot) 16 in
      let same =
        read_ok d (slot_offset log.base log.next_slot) 16 good
        ∙ (ap (λ off. slice (cells d) off 16) place ∙ there) in
      rw (dev, ready, some_slot, last, good, same, fresh) (refl, refl)

  -- After a boot_log_append that succeeded, of a record of sixteen bytes to a valid log, on a ready
  -- device whose reads do not fail, boot_log_read_last succeeds and gives the record.
  pub append_then_read_last :
      (log : BootLog) (bytes : List ℕ) (d : Dev)
      → ((e : Dev) (off k : ℕ) → is_ok (read e off k).0 ≡ true)
      → length bytes ≡ 16
      → IsValid log (cells d)
      → (append F (some log) (some bytes) d).0 ≡ ok
      → is_ready (append F (some log) (some bytes) d).2 ≡ true
      → let after = append F (some log) (some bytes) d in
        ((read_last F after.1 true after.2).0 ≡ ok)
        × ((read_last F after.1 true after.2).1 ≡ some bytes)
  append_then_read_last log bytes d reads hl v h ready =
      let after = append F (some log) (some bytes) d in
      elim (append_outcome F log bytes d hl v.size_word) [
        | inl s ↦
            subst
              (λ l.
                ((read_last F l true after.2).0 ≡ ok)
                × ((read_last F l true after.2).1 ≡ some bytes))
              (sym s.log_after)
              (read_last-advanced log bytes after.2 reads ready v.has_dev v.size_word s.room
                s.written s.there)
        | inr (inl s) ↦ never_both _ (ap is_ok h) s.fails
        | inr (inr s) ↦ never_both _ (ap is_ok h) s.fails
      ]
