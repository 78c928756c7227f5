-- ===== src/FaultLog/Append.antt =====
-- `fault_log_append`: the log and the cells after it, on every branch.
use cortex_m3_embedded_debug.Base.{
  ℕ, ◌^◌, ◌<◌, ◌≡◌, ◌⊎◌, inl, inr, refl, ap, sym, ◌∙◌, true, false, Option, some, List, drop, Rc,
  ok, is_ok, arith, Bool-cases,
}
use cortex_m3_embedded_debug.Base.Exec.{Void, Outcome, value, returned, Ensures}
use cortex_m3_embedded_debug.Zephyr.Cells.{SameOutside}
use cortex_m3_embedded_debug.Zephyr.Eeprom.{Eeprom, slice}
use cortex_m3_embedded_debug.FaultLog.{
  FaultLog, slot_offset, make_body, target_of, next_sequence, usable, append, appended_log,
}
use cortex_m3_embedded_debug.FaultLog.Codec.{load_le32}
use cortex_m3_embedded_debug.FaultLog.View.{valid_at, code_at, Ring}
use cortex_m3_embedded_debug.FaultLog.Storing.{IsSafe}
use cortex_m3_embedded_debug.FaultLog.Steps.{Stored, Stopped, store_ensures}
use cortex_m3_embedded_debug.FaultLog.Contents.{
  Agrees, advanced, unchanged, seq_at_body, code_at_body, length-make_body, make_body_seq,
  make_body_code,
}

-- The cells hold the log of after the append: its record stands in the target slot.
pub record IsAppended (log : FaultLog) (code : ℕ) (c : ℕ → ℕ) : Type 0 where
  pub ring : Ring c (target_of log) (next_sequence log)
  pub stored : code_at c (target_of log) ≡ code

next_sequence-lt : (log : FaultLog) → next_sequence log < 2 ^ 32
next_sequence-lt log = ground arith

module _ (log : FaultLog) (code : ℕ) (fits : code < 2 ^ 32) {c c' : ℕ → ℕ}
    (agrees : Agrees c log) where
  new_record :
      SameOutside (slot_offset (target_of log)) 32 c c'
      → valid_at c' (target_of log) ≡ true
      → slice c' (slot_offset (target_of log)) 16 ≡ make_body (next_sequence log) code
      → IsAppended log code c'
  new_record out v body = record {
    ring = advanced log agrees out v (
        seq_at_body c' (target_of log)
        ∙ ap (λ (l : List ℕ). load_le32 (drop 4 l)) body
        ∙ make_body_seq (next_sequence log) code (next_sequence-lt log));
    stored =
        code_at_body c' (target_of log)
        ∙ ap (λ (l : List ℕ). load_le32 (drop 8 l)) body
        ∙ make_body_code (next_sequence log) code fits;
  }

  -- A safe slot means the log of before, or the log of after.
  pub safe_contents :
      IsSafe (slot_offset (target_of log)) (make_body (next_sequence log) code) c c'
      → Agrees c' log ⊎ IsAppended log code c'
  unfolding valid_at
  safe_contents safe = elim (Bool-cases (valid_at c' (target_of log))) [
    | inl v ↦ elim (safe.slot v) [
      | inl (was, same) ↦ inl (
          unchanged log agrees safe.outside (λ _. (
            was,
            seq_at_body c' (target_of log)
                ∙ ap (λ (l : List ℕ). load_le32 (drop 4 l)) same
                ∙ sym (seq_at_body c (target_of log)),
          )))
      | inr body ↦ inr (new_record safe.outside v body)
    ]
    | inr no_record ↦ inl (unchanged log agrees safe.outside (λ v. cc))
  ]

-- the log that a finished append leaves in RAM
abbrev pub moved_on : FaultLog → FaultLog
moved_on log = record log {
  sequence = next_sequence log;
  newest_slot = target_of log;
  initialized = true;
}

module _ (E : Eeprom) where
  open E use {Dev, cells}

  -- a finished append, one that was refused, and one that stopped on the way
  abbrev pub Appended : FaultLog → ℕ → Dev → Rc × Option FaultLog × Dev → Type 0
  Appended log code d (rc, log', d') =
      ((rc ≡ ok) × (log' ≡ some (moved_on log)) × IsAppended log code (cells d'))
      ⊎ ((is_ok rc ≡ false) × (log' ≡ some log) × (d' ≡ d))
      ⊎ ((is_ok rc ≡ false)
          × (log' ≡ some (record log { initialized = false }))
          × (Agrees (cells d') log ⊎ IsAppended log code (cells d')))

  after_store :
      (log : FaultLog) (code : ℕ) (d : Dev)
      → code < 2 ^ 32
      → Agrees (cells d) log
      → (r : Outcome Void × Dev)
      → Ensures r
          (Stored E
            (slot_offset (target_of log))
            (make_body (next_sequence log) code)
            (cells d)
            (length-make_body (next_sequence log) code))
          (Stopped E
            (slot_offset (target_of log))
            (make_body (next_sequence log) code)
            (cells d)
            (length-make_body (next_sequence log) code))
      → Appended log code d (appended_log E log r)
  unfolding appended_log valid_at
  after_store log code d fits agrees (value _, d') h =
      inl (refl, refl, new_record log code fits agrees h.0 h.1 h.2)
  after_store log code d fits agrees (returned rc, d') h =
      inr (inr (h.0, refl, safe_contents log code fits agrees h.1))

  -- An append that starts from a log that agrees with the cells finishes with the new record
  -- stored, or is refused with nothing changed, or stops somewhere and leaves the log
  -- uninitialised over cells that hold the log of before or the log of after.
  pub append_lem :
      (log : FaultLog) (code : ℕ) (d : Dev)
      → code < 2 ^ 32
      → Agrees (cells d) log
      → Appended log code d (append E (some log) code d)
  unfolding append
  append_lem log code d fits agrees = elim (Bool-cases (is_ok (usable E (some log) d))) [
    | inl e ↦ rw e (
        after_store log code d fits agrees _ (
          store_ensures E (slot_offset (target_of log)) (make_body (next_sequence log) code)
            (cells d) (length-make_body (next_sequence log) code) d refl))
    | inr e ↦ rw e (inr (inl (e, refl, refl)))
  ]
