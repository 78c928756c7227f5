-- ===== src/FaultLog/Latest.antt =====
-- `fault_log_latest`, and an append followed by it.
use cortex_m3_embedded_debug.Base.{
  ℕ, ◌^◌, ◌<◌, ◌≡◌, ◌≢◌, ◌⊎◌, inl, inr, refl, ap, sym, ◌∙◌, subst, true, false, Option, some, none,
  List, drop, Rc, ok, fail, enoent, is_ok, arith, Bool-cases, ◌==◌, eq→==, eq→!=, ne→==,
  if◌then◌else◌,
}
use cortex_m3_embedded_debug.Base.Exec.{Outcome, value, returned, Ensures}
use cortex_m3_embedded_debug.Zephyr.Eeprom.{Eeprom, slice}
use cortex_m3_embedded_debug.FaultLog.{
  FaultLog, record_valid, slot_offset, no_slot, target_of, append, usable, latest, latest_read,
  read_or_return,
}
use cortex_m3_embedded_debug.FaultLog.Codec.{load_le32}
use cortex_m3_embedded_debug.FaultLog.View.{valid_at, seq_at, code_at, Ring}
use cortex_m3_embedded_debug.FaultLog.Storing.{Ensures-read}
use cortex_m3_embedded_debug.FaultLog.Contents.{Agrees}
use cortex_m3_embedded_debug.FaultLog.Append.{IsAppended, moved_on, append_lem}
use cortex_m3_embedded_debug.FaultLog.Recovery.{Ring-IsNewest}
use cortex_m3_embedded_debug.FaultLog.Reliable.{Reliable, append_succeeds, usable-ok, read_value}

module _ (E : Eeprom) where
  open E use {Dev, cells, is_ready}

  -- what a call on a log that agrees with the cells gives: the newest code, or no code
  abbrev pub IsLatest : FaultLog → (ℕ → ℕ) → Rc × Option ℕ × Option FaultLog × Dev → Type 0
  IsLatest l c (rc, out, log', d') =
      (cells d' ≡ c)
      × (log' ≡ some l)
      × (((rc ≡ ok) × (l.newest_slot ≢ no_slot) × (out ≡ some (code_at c l.newest_slot)))
          ⊎ ((is_ok rc ≡ false) × (out ≡ none)))

  -- Over a ring the newest slot reads back as the record that the log remembers.
  latest_read_value :
      (l : FaultLog) (c : ℕ → ℕ) (b : List ℕ) (d : Dev)
      → Ring c l.newest_slot l.sequence
      → b ≡ slice c (slot_offset l.newest_slot) 32
      → latest_read E l (value b, d) ≡ (ok, some (code_at c l.newest_slot), some l, d)
  unfolding latest_read valid_at seq_at code_at
  latest_read_value l c b d r e =
      let good : record_valid b ≡ true = subst (λ b. record_valid b ≡ true) (sym e) r.is_valid in
      let number : load_le32 (drop 4 b) ≡ l.sequence =
        ap (λ (b : List ℕ). load_le32 (drop 4 b)) e
        ∙ (Ring-IsNewest l.newest_slot l.sequence r).1 in
      rw (good, eq→!= _ _ number, e)

  latest_read_lem :
      (l : FaultLog) (c : ℕ → ℕ) (r : Outcome (List ℕ) × Dev)
      → Ring c l.newest_slot l.sequence
      → Ensures r
          (λ b d. (b ≡ slice c (slot_offset l.newest_slot) 32) × (cells d ≡ c))
          (λ rc d. (is_ok rc ≡ false) × (cells d ≡ c))
      → IsLatest l c (latest_read E l r)
  latest_read_lem l c (value b, d) r h =
      rw (latest_read_value l c b d r h.0) (h.1, refl, inl (refl, omega (arith, r.in_range), refl))
  latest_read_lem l c (returned rc, d) r h = unfold latest_read in (h.1, refl, inr (h.0, refl))

  usable_read :
      (l : FaultLog) (d : Dev)
      → Agrees (cells d) l
      → IsLatest l (cells d) (
          if l.newest_slot == no_slot
          then (fail enoent, none, some l, d)
          else latest_read E l (read_or_return E (slot_offset l.newest_slot) 32 d))
  usable_read l d (inl (e, none_valid)) = rw (eq→== _ _ e) (refl, refl, inr (refl, refl))
  usable_read l d (inr r) = rw (ne→== l.newest_slot no_slot (omega (arith, r.in_range))) (
      latest_read_lem l (cells d) _ r (
        Ensures-read E d (slot_offset l.newest_slot) 32 _ _ (λ d' same. (refl, same))
          (λ rc d' bad same. (bad, same))))

  -- A log that agrees with the cells is never found broken: the call gives the newest code, or a
  -- failure of its own, and changes neither the log nor the cells.
  pub latest_lem :
      (l : FaultLog) (d : Dev)
      → Agrees (cells d) l
      → IsLatest l (cells d) (latest E true (some l) d)
  unfolding latest
  latest_lem l d agrees = elim (Bool-cases (is_ok (usable E (some l) d))) [
    | inr e ↦ rw e (refl, refl, inr (e, refl))
    | inl e ↦ rw e (usable_read l d agrees)
  ]

  latest_after :
      (reliable : Reliable E) (log : FaultLog) (code : ℕ) {d : Dev}
      → log.dev ≡ true
      → IsAppended log code (cells d)
      → let (rc, out, log', d') = latest E true (some (moved_on log)) d in
        (rc ≡ ok) × (out ≡ some code)
  unfolding latest
  latest_after reliable log code {d} attached h =
      rw
        (
          usable-ok E reliable (moved_on log) d (inr h.ring) attached refl,
          ne→== (target_of log) no_slot (omega (arith, h.ring.in_range)),
          read_value E reliable d (slot_offset (target_of log)) 32,
          latest_read_value (moved_on log) (cells d)
              (slice (cells d) (slot_offset (target_of log)) 32)
              (E.read d (slot_offset (target_of log)) 32).2 h.ring refl,
        )
        (refl, ap some h.stored)

  -- After a successful append the latest code is the appended one, if the device does not fail.
  pub append_then_latest :
      (reliable : Reliable E) (log : FaultLog) (code : ℕ) (d : Dev)
      → code < 2 ^ 32
      → Agrees (cells d) log
      → log.dev ≡ true
      → log.initialized ≡ true
      → let (rc, log', d') = append E (some log) code d in
        let (rc', out, log'', d'') = latest E true log' d' in
        (rc ≡ ok) × (rc' ≡ ok) × (out ≡ some code)
  append_then_latest reliable log code d fits agrees attached init =
      let done = append_succeeds E reliable log code d agrees attached init in
      elim (append_lem E log code d fits agrees) [
        | inl (_, e, h) ↦
            let after = latest_after reliable log code attached h in
            (done, rw e after.0, rw e after.1)
        | inr (inl (bad, _, _)) ↦ cc
        | inr (inr (bad, _, _)) ↦ cc
      ]
