-- ===== src/FaultLog/Restart.antt =====
-- A restart on a device that does not fail finds every log that was left.
use cortex_m3_embedded_debug.Base.{ℕ, zero, suc, ◌+◌, ◌≡◌, refl, ◌∙◌, true, some, ok, arith, leb}
use cortex_m3_embedded_debug.Base.Exec.{Outcome, value, returned, Ensures, Ensures-bind}
use cortex_m3_embedded_debug.Zephyr.Eeprom.{Eeprom, slice}
use cortex_m3_embedded_debug.FaultLog.{
  FaultLog, Scan, scan_start, slot_offset, visit, scan, recover, recovered_log, init, ages_ok,
}
use cortex_m3_embedded_debug.FaultLog.View.{Holds}
use cortex_m3_embedded_debug.FaultLog.Loops.{scan_cells}
use cortex_m3_embedded_debug.FaultLog.Found.{scanned}
use cortex_m3_embedded_debug.FaultLog.Storing.{cells-read}
use cortex_m3_embedded_debug.FaultLog.Recovery.{
  Initialised, Restored, restored_loops, init_restores,
}
use cortex_m3_embedded_debug.FaultLog.Reliable.{Reliable, read_value}

module _ (E : Eeprom) (reliable : Reliable E) where
  open E use {Dev, cells, read, is_ready, get_size}

  scan_succeeds :
      (c : ℕ → ℕ) (n k : ℕ) (s : Scan) (d : Dev)
      → cells d ≡ c
      → Ensures (scan E n k s d) (λ s' _. s' ≡ scan_cells c n k s) (λ _ _. ⊥)
  unfolding scan scan_cells
  scan_succeeds c zero k s d e = refl
  scan_succeeds c (suc n) k s d e =
      rw (read_value E reliable d (slot_offset k) 32, e)
        (scan_succeeds c n (k + 1) (visit k (slice c (slot_offset k) 32) s)
          (read d (slot_offset k) 32).2 (cells-read E d (slot_offset k) 32 ∙ e))

  recover_succeeds :
      (d : Dev)
      → ages_ok 8 0 (scanned (cells d)) ≡ true
      → Ensures (recover E true d) (λ _ _. Unit {0}) (λ _ _. ⊥)
  unfolding recover
  recover_succeeds d a =
      let room : leb 256 (get_size d) ≡ true = ground (arith, reliable.room d) in
      rw (reliable.ready d, room)
        (Ensures-bind (λ s _. s ≡ scanned (cells d)) _ (λ _ _. ⊥) (scan E 8 0 scan_start d) _
          (scan_succeeds (cells d) 8 0 scan_start d refl) (λ s d' e. rw (e, a) tt))

  recovered_ok :
      (r : Outcome Scan × Dev) → Ensures r (λ _ _. Unit {0}) (λ _ _. ⊥) → (recovered_log E r).0 ≡ ok
  unfolding recovered_log
  recovered_ok (value s, d) h = refl
  recovered_ok (returned rc, d) h = elim h [ ]

  -- A restart over cells that hold a log succeeds, on a device that does not fail.
  pub init_succeeds :
      (log : FaultLog) (d : Dev) (j q : ℕ)
      → Holds (cells d) j q
      → ((init E (some log) true d).0 ≡ ok)
        × Initialised E (cells d) (init E (some log) true d) (Restored E (cells d) j q)
  unfolding init
  init_succeeds log d j q holds = (
    recovered_ok (recover E true d) (recover_succeeds d (restored_loops E d j q holds).2),
    init_restores E log true d j q holds,
  )
