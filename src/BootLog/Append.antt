-- ===== src/BootLog/Append.antt =====
-- `boot_log_append` on every branch.
use cortex_m3_embedded_debug.Base.{
  ℕ, ◌+◌, ◌*◌, ◌^◌, ◌≤◌, ◌<◌, ◌≡◌, ◌⊎◌, inl, inr, true, false, Bool-cases, not, ◌||◌, List, length,
  arith, leb, is_ok, ok, refl, ap, sym, ◌∙◌, subst, Rc, Option, some, bytes_eq, bytes_eq→eq,
}
use cortex_m3_embedded_debug.Zephyr.Cells.{SameOutside}
use cortex_m3_embedded_debug.Zephyr.Eeprom.{slice}
use cortex_m3_embedded_debug.Zephyr.Flash.{Flash}
use cortex_m3_embedded_debug.BootLog.{
  BootLog, slot_offset, capacity, is_erased, record_size, append, append_at, write_record,
}
use cortex_m3_embedded_debug.BootLog.Region.{record_in, slot_offset_lem, cells-read}

abbrev pub closed : BootLog → BootLog
closed log = record log { initialized = false }

abbrev pub advanced : BootLog → BootLog
advanced log = record log { next_slot = log.next_slot + 1; initialized = true }

-- the cells of the slot that the log writes next
abbrev pub BesidesNext : BootLog → (ℕ → ℕ) → (ℕ → ℕ) → Type 0
BesidesNext log c c' = SameOutside (log.base + log.next_slot * 16) 16 c c'

module _ (log : BootLog) (bytes : List ℕ) (c : ℕ → ℕ) (rc : Rc) (log' : Option BootLog)
    (c' : ℕ → ℕ) where
  -- the record is in its slot, and the log counts it
  pub record Stored : Type 0 where
    pub succeeds : rc ≡ ok
    pub log_after : log' ≡ some (advanced log)
    pub room : log.next_slot < capacity log.region_size
    pub written : is_erased bytes log.erase_value ≡ false
    pub there : record_in c' log.base log.next_slot ≡ bytes
    pub elsewhere : BesidesNext log c c'

  -- nothing has changed
  pub record Refused : Type 0 where
    pub fails : is_ok rc ≡ false
    pub log_after : log' ≡ some log
    pub cells_after : c' ≡ c

  -- the log no longer takes calls; at most the next slot was touched
  pub record Stopped : Type 0 where
    pub fails : is_ok rc ≡ false
    pub room : log.next_slot < capacity log.region_size
    pub log_after : log' ≡ some (closed log)
    pub elsewhere : BesidesNext log c c'

  abbrev pub Appended : Type 0
  Appended = Stored ⊎ (Refused ⊎ Stopped)

module _ (F : Flash) where
  open F use {Dev, cells, is_ready, read, write, read_keeps, read_ok, write_local}

  -- the write of `bytes` at the next slot, and the read back
  module _ (log : BootLog) (bytes : List ℕ) (d : Dev) (c : ℕ → ℕ) (hc : cells d ≡ c)
      (hl : length bytes ≡ 16) (room : log.next_slot < capacity log.region_size)
      (size : log.region_size < 2 ^ 32) (fresh : is_erased bytes log.erase_value ≡ false) where
    placed : slot_offset log.base log.next_slot ≡ log.base + log.next_slot * 16
    unfolding capacity
    placed = slot_offset_lem log.base log.region_size log.next_slot size room

    write_touches : BesidesNext log c (cells (write d (slot_offset log.base log.next_slot) bytes).1)
    write_touches a h =
        write_local d _ bytes a (
          subst (λ off. (a < off) ⊎ (off + length bytes ≤ a)) (sym placed)
            (subst
              (λ n. (a < log.base + log.next_slot * 16) ⊎ (log.base + log.next_slot * 16 + n ≤ a))
              (sym hl) h))
        ∙ ap (λ (m : ℕ → ℕ). m a) hc

    -- the bytes that are read back
    read_back :
        (e : Dev)
        → is_ok (read e (slot_offset log.base log.next_slot) record_size).0 ≡ true
        → (read e (slot_offset log.base log.next_slot) record_size).1
          ≡ record_in (cells e) log.base log.next_slot
    unfolding record_in
    read_back e h = read_ok e _ 16 h ∙ ap (λ off. slice (cells e) off 16) placed

    pub write_record_lem :
        let r = write_record F (closed log) (slot_offset log.base log.next_slot) bytes d in
        Appended log bytes c r.0 r.1 (cells r.2)
    unfolding write_record
    write_record_lem =
        let off = slot_offset log.base log.next_slot in
        let d1 = (write d off bytes).1 in
        let check = read d1 off record_size in
        let same = cells-read F d1 off record_size in
        let out = subst (λ m. BesidesNext log c m) (sym same) write_touches in
        elim (Bool-cases (is_ok (write d off bytes).0)) [
          | inr bad ↦ rw bad (
              inr (
                inr (record {
                  fails = bad;
                  room = room;
                  log_after = refl;
                  elsewhere = write_touches;
                })))
          | inl good ↦ elim (Bool-cases (is_ok check.0)) [
            | inr bad ↦
                rw (good, bad)
                  (inr
                    (inr (record { fails = bad; room = room; log_after = refl; elsewhere = out })))
            | inl fine ↦ elim (Bool-cases (bytes_eq check.1 bytes)) [
              | inr bad ↦
                  rw (good, fine, bad)
                    (inr (
                      inr
                        (record { fails = refl; room = room; log_after = refl; elsewhere = out })))
              | inl e ↦
                  rw (good, fine, e)
                    (inl (record {
                      succeeds = refl;
                      log_after = refl;
                      room = room;
                      written = fresh;
                      there =
                          ap (λ m. record_in m log.base log.next_slot) same
                          ∙ (sym (read_back d1 fine) ∙ bytes_eq→eq check.1 bytes e);
                      elsewhere = out;
                    }))
            ]
          ]
        ]

  append_at_lem :
      (log : BootLog) (bytes : List ℕ) (d : Dev)
      → length bytes ≡ 16
      → log.next_slot < capacity log.region_size
      → log.region_size < 2 ^ 32
      → is_erased bytes log.erase_value ≡ false
      → let r = append_at F log (slot_offset log.base log.next_slot) bytes d in
        Appended log bytes (cells d) r.0 r.1 (cells r.2)
  unfolding append_at
  append_at_lem log bytes d hl room size fresh =
      let off = slot_offset log.base log.next_slot in
      let check = read d off record_size in
      let same = cells-read F d off record_size in
      elim (Bool-cases (is_ok check.0)) [
        | inr bad ↦
            rw bad (inr (inl (record { fails = bad; log_after = refl; cells_after = same })))
        | inl good ↦ elim (Bool-cases (is_erased check.1 log.erase_value)) [
          | inr bad ↦
              rw (good, bad)
                (inr (
                  inr (record {
                    fails = refl;
                    room = room;
                    log_after = refl;
                    elsewhere = λ a h. ap (λ (m : ℕ → ℕ). m a) same;
                  })))
          | inl e ↦
              rw (good, e) (write_record_lem log bytes check.2 (cells d) same hl room size fresh)
        ]
      ]

  -- boot_log_append, for a log whose region is smaller than 2 ^ 32 bytes and a record of sixteen
  -- bytes, does one of three things: it succeeds, the record is in the next slot, all other cells are
  -- as before and the log counts one more; it fails and neither the log nor a cell has changed; or it
  -- fails, the log is no longer initialised and no cell outside the next slot has changed.
  pub append_outcome :
      (log : BootLog) (bytes : List ℕ) (d : Dev)
      → length bytes ≡ 16
      → log.region_size < 2 ^ 32
      → let r = append F (some log) (some bytes) d in
        Appended log bytes (cells d) r.0 r.1 (cells r.2)
  unfolding append
  append_outcome log bytes d hl size = elim (Bool-cases (not log.initialized || not log.dev)) [
    | inl e ↦ rw e (inr (inl (record { fails = refl; log_after = refl; cells_after = refl })))
    | inr used ↦ elim (Bool-cases (is_ready d)) [
      | inr e ↦
          rw (used, e) (inr (inl (record { fails = refl; log_after = refl; cells_after = refl })))
      | inl ready ↦ elim (Bool-cases (is_erased bytes log.erase_value)) [
        | inl e ↦
            rw (used, ready, e)
              (inr (inl (record { fails = refl; log_after = refl; cells_after = refl })))
        | inr fresh ↦ elim (Bool-cases (leb (capacity log.region_size) log.next_slot)) [
          | inl e ↦
              rw (used, ready, fresh, e)
                (inr (inl (record { fails = refl; log_after = refl; cells_after = refl })))
          | inr e ↦
              rw (used, ready, fresh, e) (append_at_lem log bytes d hl (ground arith) size fresh)
        ]
      ]
    ]
  ]
