-- ===== src/FaultLog/Init.antt =====
-- `fault_log_init` over the driver: what it finds, and that it finds the log that was left.
use cortex_m3_embedded_debug.Base.{
  ℕ, zero, suc, ◌+◌, ◌≡◌, inl, inr, refl, ap, ◌∙◌, Bool, true, false, Rc, is_ok, Bool-cases, leb,
}
use cortex_m3_embedded_debug.Base.Exec.{Ensures, Ensures-bind}
use cortex_m3_embedded_debug.Zephyr.Eeprom.{Eeprom, slice}
use cortex_m3_embedded_debug.FaultLog.{
  Scan, scan_start, slot_offset, visit, read_or_return, scan, recover, ages_ok,
}
use cortex_m3_embedded_debug.FaultLog.Loops.{scan_cells}
use cortex_m3_embedded_debug.FaultLog.Found.{scanned}
use cortex_m3_embedded_debug.FaultLog.Storing.{Ensures-read}

module _ (E : Eeprom) where
  open E use {Dev, cells, is_ready, get_size, read, cells_byte}

  -- The loop over the driver ends as the loop over the cells, or with the code of a failed read.
  scan_ensures :
      (c : ℕ → ℕ) (n k : ℕ) (s : Scan) (d : Dev)
      → cells d ≡ c
      → Ensures
          (scan E n k s d)
          (λ s' d'. (s' ≡ scan_cells c n k s) × (cells d' ≡ c))
          (λ rc d'. (is_ok rc ≡ false) × (cells d' ≡ c))
  unfolding scan scan_cells
  scan_ensures c zero k s d e = (refl, e)
  scan_ensures c (suc n) k s d e =
      Ensures-bind (λ b d₁. (b ≡ slice c (slot_offset k) 32) × (cells d₁ ≡ c)) _ _
        (read_or_return E (slot_offset k) 32 d) _
        (Ensures-read E d (slot_offset k) 32 _ _
          (λ d₁ same. (ap (λ (c : ℕ → ℕ). slice c (slot_offset k) 32) e, same ∙ e))
          (λ rc d₁ bad same. (bad, same ∙ e)))
        (λ b d₁ p.
          rw p.0 (scan_ensures c n (k + 1) (visit k (slice c (slot_offset k) 32) s) d₁ p.1))

  abbrev pub Recovered : (ℕ → ℕ) → Scan → Dev → Type 0
  Recovered c s d = (s ≡ scanned c) × (ages_ok 8 0 s ≡ true) × (cells d ≡ c)

  abbrev pub Failed : (ℕ → ℕ) → Rc → Dev → Type 0
  Failed c rc d = (is_ok rc ≡ false) × (cells d ≡ c)

  pub recover_ensures :
      (has_dev : Bool) (d : Dev)
      → Ensures (recover E has_dev d) (Recovered (cells d)) (Failed (cells d))
  unfolding recover
  recover_ensures false d = (refl, refl)
  recover_ensures true d = elim (Bool-cases (is_ready d)) [
    | inr e ↦ rw e (refl, refl)
    | inl e ↦ rw e (elim (Bool-cases (leb 256 (get_size d))) [
      | inr f ↦ rw f (refl, refl)
      | inl f ↦ rw f (
          Ensures-bind (λ s d₁. (s ≡ scanned (cells d)) × (cells d₁ ≡ cells d)) _ _
            (scan E 8 0 scan_start d) _ (scan_ensures (cells d) 8 0 scan_start d refl)
            (λ s d₁ p. elim (Bool-cases (ages_ok 8 0 s)) [
              | inl a ↦ rw a (p.0, a, p.1)
              | inr a ↦ rw a (refl, p.1)
            ]))
    ])
  ]
