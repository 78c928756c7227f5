-- ===== src/BootLog/Restart.antt =====
-- What a restart finds after an append that power may have cut short, and what is read back.
use cortex_m3_embedded_debug.Base.{
  ℕ, ◌+◌, ◌/◌, ◌^◌, ◌≤◌, ◌<◌, ◌≡◌, ◌≢◌, ◌⊎◌, inl, inr, Bool, true, false, Bool-cases, not, ◌||◌,
  List, length, arith, eq_or_ne, is_ok, is_ok_lem, ok, refl, ap, sym, ◌∙◌, subst, Rc, if◌then◌else◌,
  Option, some, none,
}
use cortex_m3_embedded_debug.Zephyr.Flash.{Flash}
use cortex_m3_embedded_debug.BootLog.{
  BootLog, capacity, is_erased, append, init, pos, region_ok, block_ok, with_parameters, scan,
  scanned, zeroed,
}
use cortex_m3_embedded_debug.BootLog.Region.{Filled, IsValid, record_in, free, record_in-elsewhere}
use cortex_m3_embedded_debug.BootLog.Startup.{scan_sound, scan_complete, scan-keeps}
use cortex_m3_embedded_debug.BootLog.Append.{BesidesNext, append_outcome}

-- A change of the next slot: the region stays filled, with the slot counted if it is not free.
Filled-next :
    (log : BootLog) (c c' : ℕ → ℕ)
    → log.next_slot < capacity log.region_size
    → BesidesNext log c c'
    → Filled c log.base log.erase_value (capacity log.region_size) log.next_slot
    → Filled c' log.base log.erase_value (capacity log.region_size) (
        if free c' log.base log.erase_value log.next_slot then log.next_slot else log.next_slot + 1)
Filled-next log c c' room out f =
    elim (Bool-cases (free c' log.base log.erase_value log.next_slot)) [
      | inl e ↦ rw e (record {
        in_range = f.in_range;
        used = λ i lt. kept i (ground arith) ∙ f.used i lt;
        unused = λ i low high. elim (eq_or_ne i log.next_slot) [
          | inl same ↦ ap (free c' log.base log.erase_value) same ∙ e
          | inr ne ↦ kept i ne ∙ f.unused i low high
        ];
      })
      | inr e ↦ rw e (record {
        in_range = omega arith;
        used = λ i lt. elim (eq_or_ne i log.next_slot) [
          | inl same ↦ ap (free c' log.base log.erase_value) same ∙ e
          | inr ne ↦ kept i ne ∙ f.used i (omega arith)
        ];
        unused = λ i low high. kept i (ground arith) ∙ f.unused i (omega arith) high;
      })
    ]
  where
    kept :
        (i : ℕ)
        → i ≢ log.next_slot
        → free c' log.base log.erase_value i ≡ free c log.base log.erase_value i
    kept i ne =
        ap (λ bytes. is_erased bytes log.erase_value)
          (record_in-elsewhere log.base log.next_slot i out ne)

counted_at :
    (log : BootLog) (c c' : ℕ → ℕ) (b : Bool)
    → log.next_slot < capacity log.region_size
    → BesidesNext log c c'
    → IsValid log c
    → free c' log.base log.erase_value log.next_slot ≡ b
    → Filled c' log.base log.erase_value
        (capacity log.region_size)
        (if b then log.next_slot else log.next_slot + 1)
counted_at log c c' b room out v e =
    subst
      (λ b.
        Filled c' log.base log.erase_value (capacity log.region_size)
          (if b then log.next_slot else log.next_slot + 1))
      e (Filled-next log c c' room out v.filled)

-- the log that a start of the component makes for a region with `n` records
abbrev pub restarted : BootLog → ℕ → BootLog
restarted log n = record log { dev = true; next_slot = n; initialized = true }

whole : (size : ℕ) → capacity size ≤ size / 16
unfolding capacity
whole size = omega arith

nothing_read : {c : ℕ → ℕ} {base erased : ℕ} → Filled c base erased 0 0
nothing_read = record {
  in_range = omega arith;
  used = λ i lt. absurd (omega arith);
  unused = λ i low high. absurd (omega arith);
}

-- `boot_log_init` has succeeded with `log`
pub record Mounted (base size : ℕ) (rc : Rc) (log' : Option BootLog) (c : ℕ → ℕ) (log : BootLog)
    : Type 0 where
  pub succeeds : rc ≡ ok
  pub log_after : log' ≡ some log
  pub valid : IsValid log c
  pub placed : log.base ≡ base
  pub sized : log.region_size ≡ size
  pub on : log.initialized ≡ true

pub record Unmounted (rc : Rc) (log' : Option BootLog) (log : BootLog) : Type 0 where
  pub fails : is_ok rc ≡ false
  pub log_after : log' ≡ some log
  pub off : log.initialized ≡ false

abbrev pub Started : ℕ → ℕ → Rc → Option BootLog → (ℕ → ℕ) → Type 0
Started base size rc log' c =
    ((log : BootLog) × Mounted base size rc log' c log) ⊎ ((log : BootLog) × Unmounted rc log' log)

module _ (F : Flash) where
  open F use {Dev, cells, is_ready, write_block_size, erase_value, read, write, read_keeps, read_ok}

  -- the arguments and the device pass the tests of `boot_log_init`
  pub record Accepted (off_max : ℕ) (log : BootLog) (d : Dev) : Type 0 where
    pub region : region_ok off_max log.base log.region_size ≡ true
    pub ready : is_ready d ≡ true
    pub block : block_ok (write_block_size d) log.base ≡ true
    pub erased : erase_value d ≡ some log.erase_value

  init-Accepted :
      (off_max : ℕ) (old log : BootLog) (d : Dev)
      → Accepted off_max log d
      → init F off_max (some old) true (pos log.base) log.region_size d ≡ (
          let r = with_parameters F (some log.erase_value) log.base log.region_size d in
          (r.0, some r.1, r.2))
  unfolding init
  init-Accepted off_max old log d a = rw (a.region, a.ready, a.block, a.erased) refl

  -- A start over a filled region succeeds, on a device whose reads do not fail.
  init_complete :
      (off_max n : ℕ) (old log : BootLog) (d : Dev)
      → ((e : Dev) (off k : ℕ) → is_ok (read e off k).0 ≡ true)
      → Accepted off_max log d
      → log.region_size < 2 ^ 32
      → Filled (cells d) log.base log.erase_value (capacity log.region_size) n
      → let r = init F off_max (some old) true (pos log.base) log.region_size d in
        (r.0 ≡ ok) × (r.1 ≡ some (restarted log n))
  unfolding with_parameters scanned scan
  init_complete off_max n old log d reads a size f =
      let s =
        scan_complete F (cells d) log.base log.region_size log.erase_value
          (capacity log.region_size) size (whole log.region_size) reads n (capacity log.region_size)
          0 0 false d refl (omega arith) refl (omega arith) f in
      subst (λ r. (r.0 ≡ ok) × (r.1 ≡ some (restarted log n)))
        (sym (init-Accepted off_max old log d a)) (s.0, rw (s.0, s.1) refl)

  with_parameters-Started :
      (o : Option ℕ) (base size : ℕ) (d : Dev)
      → size < 2 ^ 32
      → let r = with_parameters F o base size d in
        Started base size r.0 (some r.1) (cells r.2) × (cells r.2 ≡ cells d)
  unfolding with_parameters scanned
  with_parameters-Started none base size d hs =
      (inr (zeroed, record { fails = refl; log_after = refl; off = refl }), refl)
  with_parameters-Started (some erased) base size d hs =
      let s = scan F (capacity size) 0 false 0 erased base d in
      let same = scan-keeps F (capacity size) 0 false 0 erased base d in
      elim (Bool-cases (is_ok s.0)) [
        | inl good ↦ (
          inl (
            _,
            record {
              succeeds = is_ok_lem s.0 good;
              log_after = refl;
              valid = record {
                size_word = hs;
                has_dev = refl;
                filled =
                    subst (λ c. Filled c base erased (capacity size) s.1) (sym same)
                      (scan_sound F (cells d) base size erased (capacity size) hs (whole size)
                        (capacity size) 0 0 false d refl (omega arith) refl nothing_read good);
              };
              placed = refl;
              sized = refl;
              on = good;
            },
          ),
          same,
        )
        | inr bad ↦ (inr (_, record { fails = bad; log_after = refl; off = bad }), same)
      ]

  -- boot_log_init with a base that is not negative and a region below 2 ^ 32 bytes changes no cell; it
  -- succeeds with an initialised log of the region that counts its records, which stand before the
  -- free slots, or it fails and leaves a log that is not initialised.
  pub init_mounts :
      (off_max base size : ℕ) (old : BootLog) (has_dev : Bool) (d : Dev)
      → size < 2 ^ 32
      → let r = init F off_max (some old) has_dev (pos base) size d in
        Started base size r.0 r.1 (cells r.2) × (cells r.2 ≡ cells d)
  unfolding init
  init_mounts off_max base size old has_dev d hs =
      elim (Bool-cases (not has_dev || not (region_ok off_max base size))) [
        | inl e ↦ rw e (inr (zeroed, record { fails = refl; log_after = refl; off = refl }), refl)
        | inr fits ↦ elim (Bool-cases (is_ready d)) [
          | inr e ↦
              rw (fits, e)
                (inr (zeroed, record { fails = refl; log_after = refl; off = refl }), refl)
          | inl ready ↦ elim (Bool-cases (block_ok (write_block_size d) base)) [
            | inr e ↦
                rw (fits, ready, e)
                  (inr (zeroed, record { fails = refl; log_after = refl; off = refl }), refl)
            | inl e ↦ rw (fits, ready, e) (with_parameters-Started (erase_value d) base size d hs)
          ]
        ]
      ]

  -- Power may fail at any write of boot_log_append: on a device whose reads do not fail, for a valid
  -- log, a record of sixteen bytes and a device that boot_log_init accepts afterwards, the next
  -- boot_log_init succeeds; it counts the records of before, or one more; one more if the append had
  -- succeeded; and the records of before are as they were.
  pub append_restart :
      (off_max : ℕ) (old log : BootLog) (bytes : List ℕ) (d : Dev)
      → ((e : Dev) (off k : ℕ) → is_ok (read e off k).0 ≡ true)
      → length bytes ≡ 16
      → IsValid log (cells d)
      → Accepted off_max log (append F (some log) (some bytes) d).2
      → let after = append F (some log) (some bytes) d in
        let again = init F off_max (some old) true (pos log.base) log.region_size after.2 in
        (again.0 ≡ ok)
        × (((again.1 ≡ some (restarted log (log.next_slot + 1)))
              ⊎ ((is_ok after.0 ≡ false) × (again.1 ≡ some (restarted log log.next_slot))))
            × ((i : ℕ)
                → i < log.next_slot
                → record_in (cells after.2) log.base i ≡ record_in (cells d) log.base i))
  append_restart off_max old log bytes d reads hl v a =
      let after = append F (some log) (some bytes) d in
      let c' = cells after.2 in
      elim (append_outcome F log bytes d hl v.size_word) [
        | inl s ↦
            let full =
              counted_at log (cells d) c' false s.room s.elsewhere v
                (ap (λ bs. is_erased bs log.erase_value) s.there ∙ s.written) in
            let found =
              init_complete off_max (log.next_slot + 1) old log after.2 reads a v.size_word full in
            (
              found.0,
              (
                inl found.1,
                λ i lt. record_in-elsewhere log.base log.next_slot i s.elsewhere (ground arith),
              ),
            )
        | inr (inl s) ↦
            let before = init_complete off_max log.next_slot old log after.2 reads a v.size_word (
              subst
                (λ c. Filled c log.base log.erase_value (capacity log.region_size) log.next_slot)
                (sym s.cells_after) v.filled) in
            (
              before.0,
              (inr (s.fails, before.1), λ i lt. ap (λ c. record_in c log.base i) s.cells_after),
            )
        | inr (inr s) ↦
            let kept = λ (i : ℕ) (lt : i < log.next_slot).
              record_in-elsewhere log.base log.next_slot i s.elsewhere (ground arith) in
            elim (Bool-cases (free c' log.base log.erase_value log.next_slot)) [
              | inl e ↦
                  let found =
                    init_complete off_max log.next_slot old log after.2 reads a v.size_word
                      (counted_at log (cells d) c' true s.room s.elsewhere v e) in
                  (found.0, (inr (s.fails, found.1), kept))
              | inr e ↦
                  let found =
                    init_complete off_max (log.next_slot + 1) old log after.2 reads a v.size_word
                      (counted_at log (cells d) c' false s.room s.elsewhere v e) in
                  (found.0, (inl found.1, kept))
            ]
      ]
