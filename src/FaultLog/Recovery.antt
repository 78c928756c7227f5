-- ===== src/FaultLog/Recovery.antt =====
-- Initialisation after appends, finished or not: the log is recovered.
use cortex_m3_embedded_debug.Base.{
  ℕ, ◌+◌, ◌^◌, ◌<◌, ◌≡◌, ◌≢◌, ◌⊎◌, inl, inr, refl, ap, sym, ◌∙◌, Bool, true, Option, some, drop, Rc,
  is_ok, arith,
}
use native.Mathlib.Decide.{ℕ_discrete}
use cortex_m3_embedded_debug.Base.Exec.{Outcome, value, returned, Ensures}
use cortex_m3_embedded_debug.Zephyr.Eeprom.{Eeprom, slice}
use cortex_m3_embedded_debug.FaultLog.{
  FaultLog, Scan, slot_offset, no_slot, target_of, next_sequence, recovered_log, recover, init,
  append, ages_ok,
}
use cortex_m3_embedded_debug.FaultLog.Codec.Laws.{load_le32_sum}
use cortex_m3_embedded_debug.FaultLog.View.{seq_at, code_at, Ring, IsNewest, Holds}
use cortex_m3_embedded_debug.FaultLog.Found.{
  IsFound, scanned, IsFound-sound, found_newest, found-Empty,
}
use cortex_m3_embedded_debug.FaultLog.Init.{Recovered, Failed, recover_ensures}
use cortex_m3_embedded_debug.FaultLog.Contents.{Agrees}
use cortex_m3_embedded_debug.FaultLog.Append.{IsAppended, Appended, append_lem}

-- In a ring the newest slot is the newest record, with its number.
pub Ring-IsNewest : {c : ℕ → ℕ} (j q : ℕ) → Ring c j q → IsNewest c j × (seq_at c j ≡ q)
Ring-IsNewest {c} j q r = (
  record {
    in_range = r.in_range;
    is_valid = r.is_valid;
    older = λ s lt ne v. omega (arith, own, r.placed s lt v, r.seq_word, r.in_range);
  },
  own,
)
  where
    own : seq_at c j ≡ q
    own = omega (arith, r.placed j r.in_range r.is_valid, r.seq_word, r.in_range)

-- There is at most one newest record.
pub IsNewest-unique : {c : ℕ → ℕ} (i j : ℕ) → IsNewest c i → IsNewest c j → i ≡ j
IsNewest-unique i j m n = elim (ℕ_discrete i j) [
  | yes e ↦ e
  | no ne ↦ absurd (
      omega (
        arith,
        m.older j n.in_range (λ e. ne (sym e)) n.is_valid,
        n.older i m.in_range ne m.is_valid,
      ))
]

module _ (E : Eeprom) where
  open E use {Dev, cells, cells_byte}

  seq_word : (d : Dev) (t : ℕ) → seq_at (cells d) t < 2 ^ 32
  unfolding seq_at
  seq_word d t = omega (
    arith,
    load_le32_sum (drop 4 (slice (cells d) (slot_offset t) 32)) (cells_byte d (slot_offset t + 4))
        (cells_byte d (slot_offset t + 5)) (cells_byte d (slot_offset t + 6)),
    cells_byte d (slot_offset t + 4),
    cells_byte d (slot_offset t + 5),
    cells_byte d (slot_offset t + 6),
    cells_byte d (slot_offset t + 7),
  )

  -- a successful initialisation over cells `c`
  abbrev pub Initialised : (ℕ → ℕ) → Rc × Option FaultLog × Dev → (FaultLog → Type 0) → Type 0
  Initialised c (rc, log, d) P =
      (cells d ≡ c)
      × (is_ok rc ≡ true
          → (l : FaultLog) × (log ≡ some l) × (l.dev ≡ true) × (l.initialized ≡ true) × P l)

  initialised :
      (c : ℕ → ℕ) (P : FaultLog → Type 0) (r : Outcome Scan × Dev)
      → ((q : ℕ) (j : ℕ)
          → j ≡ (scanned c).newest_slot
          → q ≡ (scanned c).sequence
          → ages_ok 8 0 (scanned c) ≡ true
          → P (record { dev = true; sequence = q; newest_slot = j; initialized = true }))
      → Ensures r (Recovered E c) (Failed E c)
      → Initialised c (recovered_log E r) P
  unfolding recovered_log
  initialised c P (value s, d) p h = (
    h.2,
    λ _. (
      record { dev = true; sequence = s.sequence; newest_slot = s.newest_slot; initialized = true },
      refl,
      refl,
      refl,
      p s.sequence s.newest_slot (ap (λ (s : Scan). s.newest_slot) h.0)
          (ap (λ (s : Scan). s.sequence) h.0) (rw h.0 at h.1),
    ),
  )
  initialised c P (returned rc, d) p h = (h.1, λ good. cc)

  Initialised_map :
      (c : ℕ → ℕ) (r : Rc × Option FaultLog × Dev) {P Q : FaultLog → Type 0}
      → ((l : FaultLog) → P l → Q l)
      → Initialised c r P
      → Initialised c r Q
  Initialised_map c (rc, log, d) f (same, h) =
      (same, λ good. let (l, e, a, b, p) = h good in (l, e, a, b, f l p))

  -- A successful initialisation keeps the newest record, or finds that there is none.
  pub init_sound :
      (log : FaultLog) (has_dev : Bool) (d : Dev)
      → Initialised
          (cells d)
          (init E (some log) has_dev d)
          (λ l. IsFound (cells d) l.newest_slot l.sequence)
  unfolding init
  init_sound log has_dev d =
      initialised (cells d) _ (recover E has_dev d)
        (λ q j ej eq a. rw (ej, eq) (IsFound-sound (cells d) a)) (recover_ensures E has_dev d)

  -- what initialisation makes of cells that hold a log: the log's slot and number again
  abbrev pub Restored : (ℕ → ℕ) → ℕ → ℕ → FaultLog → Type 0
  Restored c j q l = (l.newest_slot ≡ j) × (j ≢ no_slot → l.sequence ≡ q) × Agrees c l

  pub restored_loops :
      (d : Dev) (j q : ℕ)
      → Holds (cells d) j q
      → ((scanned (cells d)).newest_slot ≡ j)
        × (j ≢ no_slot → (scanned (cells d)).sequence ≡ q)
        × (ages_ok 8 0 (scanned (cells d)) ≡ true)
  restored_loops d j q (inl (e, none_valid)) =
      let (found, ages) = found-Empty (cells d) none_valid in
      (found ∙ sym e, λ ne. absurd (ne e), ages)
  restored_loops d j q (inr r) =
      let (newest, own) = Ring-IsNewest j q r in
      let (found, number, ages) = found_newest (cells d) (seq_word d) j newest in
      (found, λ _. number ∙ own, ages)

  restored_Holds :
      (c : ℕ → ℕ) (j q k p : ℕ) → k ≡ j → (j ≢ no_slot → p ≡ q) → Holds c j q → Holds c k p
  restored_Holds c j q k p ek ep (inl (e, none_valid)) = inl (ek ∙ e, none_valid)
  restored_Holds c j q k p ek ep (inr r) = inr (rw (ek, ep (omega (arith, r.in_range))) r)

  pub init_restores :
      (log : FaultLog) (has_dev : Bool) (d : Dev) (j q : ℕ)
      → Holds (cells d) j q
      → Initialised (cells d) (init E (some log) has_dev d) (Restored (cells d) j q)
  unfolding init
  init_restores log has_dev d j q holds =
      let (found, number, ages) = restored_loops d j q holds in
      initialised (cells d) _ (recover E has_dev d)
        (λ p k ek ep a. (
          ek ∙ found,
          (λ ne. ep ∙ number ne),
          restored_Holds (cells d) j q k p (ek ∙ found) (λ ne. ep ∙ number ne) holds,
        ))
        (recover_ensures E has_dev d)

  -- what a restart after an append may find: the log of before, or the log of after
  abbrev pub Survives : FaultLog → ℕ → (ℕ → ℕ) → FaultLog → Type 0
  Survives log code c l =
      Agrees c l
      × (((l.newest_slot ≡ log.newest_slot)
            × (log.newest_slot ≢ no_slot → l.sequence ≡ log.sequence))
          ⊎ ((l.newest_slot ≡ target_of log)
              × (l.sequence ≡ next_sequence log)
              × (code_at c (target_of log) ≡ code)))

  as_before :
      (log old : FaultLog) (code : ℕ) (d : Dev)
      → Agrees (cells d) log
      → Initialised (cells d) (init E (some old) true d) (Survives log code (cells d))
  as_before log old code d agrees =
      Initialised_map (cells d) (init E (some old) true d) (λ l r. (r.2, inl (r.0, r.1)))
        (init_restores old true d log.newest_slot log.sequence agrees)

  as_after :
      (log old : FaultLog) (code : ℕ) (d : Dev)
      → IsAppended log code (cells d)
      → Initialised (cells d) (init E (some old) true d) (Survives log code (cells d))
  as_after log old code d h =
      Initialised_map (cells d) (init E (some old) true d)
        (λ l r. (r.2, inr (r.0, r.1 (ground (arith, h.ring.in_range)), h.stored)))
        (init_restores old true d (target_of log) (next_sequence log) (inr h.ring))

  Survives-Appended :
      (log old : FaultLog) (code : ℕ) (d : Dev) (r : Rc × Option FaultLog × Dev)
      → Agrees (cells d) log
      → Appended E log code d r
      → Initialised (cells r.2) (init E (some old) true r.2) (Survives log code (cells r.2))
  Survives-Appended log old code d (rc, log', d') agrees (inl h) = as_after log old code d' h.2
  Survives-Appended log old code d (rc, log', d') agrees (inr (inl h)) =
      as_before log old code d' (rw h.2 agrees)
  Survives-Appended log old code d (rc, log', d') agrees (inr (inr (bad, _, inl h))) =
      as_before log old code d' h
  Survives-Appended log old code d (rc, log', d') agrees (inr (inr (bad, _, inr h))) =
      as_after log old code d' h

  -- Power may fail at any write of an append: a restart that can read the device finds the log of
  -- before the append, or the log with the new record and its code, and can go on from it.
  pub crash_recovery :
      (log old : FaultLog) (code : ℕ) (d : Dev)
      → code < 2 ^ 32
      → Agrees (cells d) log
      → let (rc, log', d') = append E (some log) code d in
        Initialised (cells d') (init E (some old) true d') (Survives log code (cells d'))
  crash_recovery log old code d fits agrees =
      Survives-Appended log old code d (append E (some log) code d) agrees
        (append_lem E log code d fits agrees)
