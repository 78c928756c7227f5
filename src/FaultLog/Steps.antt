-- ===== src/FaultLog/Steps.antt =====
-- `fault_log_append` as a whole: safe wherever it stops, and a finished one has stored the record.
use cortex_m3_embedded_debug.Base.{
  ℕ, ◌+◌, ◌≡◌, true, false, is_ok, ◌&&◌, List, take, length, bytes_eq, bytes_eq→eq, Rc, arith,
}
use cortex_m3_embedded_debug.Base.Exec.{Void, Ensures, Ensures-bind}
use cortex_m3_embedded_debug.Zephyr.Cells.{SameOutside}
use cortex_m3_embedded_debug.Zephyr.Eeprom.{Eeprom, slice}
use cortex_m3_embedded_debug.FaultLog.{
  record_valid, committed, invalid, invalidate, program, publish, store,
}
use cortex_m3_embedded_debug.FaultLog.Storing.{
  IsSafe, invalidate_torn, program_torn, publish_torn, Ensures-write_verify,
}

module _ (E : Eeprom) (base : ℕ) (body : List ℕ) (c : ℕ → ℕ) (len : length body ≡ 16) where
  open E use {Dev, cells}

  abbrev pub Stopped : Rc → Dev → Type 0
  Stopped rc d = (is_ok rc ≡ false) × IsSafe base body c (cells d)

  abbrev Cleared : Void → Dev → Type 0
  Cleared _ d = SameOutside base 32 c (cells d) × (slice (cells d) (base + 24) 8 ≡ invalid)

  abbrev Programmed : Void → Dev → Type 0
  Programmed _ d = SameOutside base 32 c (cells d) × (slice (cells d) base 16 ≡ body)

  -- what a finished append leaves in its slot
  abbrev pub Stored : Void → Dev → Type 0
  Stored _ d =
      SameOutside base 32 c (cells d)
      × (record_valid (slice (cells d) base 32) ≡ true)
      × (slice (cells d) base 16 ≡ body)

  invalidate_ensures : (d : Dev) → cells d ≡ c → Ensures (invalidate E base d) Cleared Stopped
  unfolding invalidate
  invalidate_ensures d e =
      Ensures-write_verify E d (base + 24) invalid (base + 24) 8 (λ b. bytes_eq b invalid) Cleared
        Stopped
        (λ d' w same.
          ((invalidate_torn base body c (cells d') (rw e at w)).outside, bytes_eq→eq _ _ same))
        (λ rc d' bad w. (bad, invalidate_torn base body c (cells d') (rw e at w)))

  program_ensures : (d : Dev) → Cleared tt d → Ensures (program E base body d) Programmed Stopped
  unfolding program
  program_ensures d pre =
      Ensures-write_verify E d base body base 16 (λ b. bytes_eq b body) Programmed Stopped
        (λ d' w same. (
          (program_torn base body c (cells d) (cells d') len pre.0 pre.1 w).0.outside,
          bytes_eq→eq _ _ same,
        ))
        (λ rc d' bad w. (bad, (program_torn base body c (cells d) (cells d') len pre.0 pre.1 w).0))

  publish_ensures : (d : Dev) → Programmed tt d → Ensures (publish E base body d) Stored Stopped
  unfolding publish
  publish_ensures d pre =
      Ensures-write_verify E d (base + 24) committed base 32
        (λ b. record_valid b && bytes_eq (take 16 b) body) Stored Stopped
        (λ d' w good. (
          (publish_torn base body c (cells d) (cells d') pre.0 pre.1 w).outside,
          ground arith,
          bytes_eq→eq _ _ (ground arith),
        ))
        (λ rc d' bad w. (bad, publish_torn base body c (cells d) (cells d') pre.0 pre.1 w))

  -- Wherever the append stops the slot is safe; run to its end, it has stored the record.
  pub store_ensures : (d : Dev) → cells d ≡ c → Ensures (store E base body d) Stored Stopped
  unfolding store
  store_ensures d e =
      Ensures-bind Cleared Stored Stopped (invalidate E base d) _ (invalidate_ensures d e)
        (λ _ d₁ p₁.
          Ensures-bind Programmed Stored Stopped (program E base body d₁) _ (program_ensures d₁ p₁)
            (λ _ d₂ p₂. publish_ensures d₂ p₂))
