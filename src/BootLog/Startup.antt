-- ===== src/BootLog/Startup.antt =====
-- The loop of `boot_log_init`: it accepts a region exactly when the records stand before the free
-- slots.
use cortex_m3_embedded_debug.Base.{
  ℕ, zero, suc, ◌+◌, ◌*◌, ◌/◌, ◌^◌, ◌≤◌, ◌<◌, ◌≡◌, inl, inr, Bool, true, false, Bool-cases, ◌||◌,
  arith, ltb, is_ok, ok, refl, ap, sym, ◌∙◌, if◌then◌else◌, fail, eilseq, eq_or_ne, never_both,
  leb_cases, subst, min,
}
use cortex_m3_embedded_debug.Zephyr.Eeprom.{slice}
use cortex_m3_embedded_debug.Zephyr.Flash.{Flash}
use cortex_m3_embedded_debug.BootLog.{slot_offset, is_erased, record_size, scan}
use cortex_m3_embedded_debug.BootLog.Region.{Filled, record_in, free, slot_offset_lem, cells-read}

-- One round: slot `index` is read after the first `index` slots, of which `n` hold records.
Filled-free :
    (c : ℕ → ℕ) (base erased index n : ℕ)
    → Filled c base erased index n
    → free c base erased index ≡ true
    → Filled c base erased (index + 1) n
Filled-free c base erased index n f h = record {
  in_range = omega arith;
  used = f.used;
  unused = λ i low high. elim (eq_or_ne i index) [
    | inl e ↦ ap (free c base erased) e ∙ h
    | inr ne ↦ f.unused i low (omega arith)
  ];
}

Filled-record :
    (c : ℕ → ℕ) (base erased index : ℕ)
    → Filled c base erased index index
    → free c base erased index ≡ false
    → Filled c base erased (index + 1) (index + 1)
Filled-record c base erased index f h = record {
  in_range = omega arith;
  used = λ i low. elim (eq_or_ne i index) [
    | inl e ↦ ap (free c base erased) e ∙ h
    | inr ne ↦ f.used i (omega arith)
  ];
  unused = λ i low high. absurd (omega arith);
}

-- No free slot was seen, so the last slot that was read is a record.
last_used :
    {c : ℕ → ℕ} {base erased index n : ℕ} {found : Bool}
    → Filled c base erased index n
    → found ≡ ltb n index
    → found ≡ false
    → n ≡ index
last_used f hf g = ground arith

module _ (F : Flash) where
  open F use {Dev, cells, read, read_keeps, read_ok}

  pub scan-keeps :
      (n index : ℕ) (found : Bool) (next erased base : ℕ) (d : Dev)
      → cells (scan F n index found next erased base d).2 ≡ cells d
  unfolding scan
  scan-keeps zero index found next erased base d = refl
  scan-keeps (suc n) index found next erased base d =
      let (rc, data', d') = read d (slot_offset base index) record_size in
      let rest =
        scan-keeps n (index + 1) (found || is_erased data' erased)
          (if is_erased data' erased then next else index + 1) erased base d' in
      let same = cells-read F d (slot_offset base index) record_size in ground (arith, rest, same)

  -- what the read of slot `index` tells
  slot_read :
      (size index base erased : ℕ) (d : Dev) (c : ℕ → ℕ)
      → cells d ≡ c
      → size < 2 ^ 32
      → index < size / 16
      → is_ok (read d (slot_offset base index) record_size).0 ≡ true
      → is_erased (read d (slot_offset base index) record_size).1 erased ≡ free c base erased index
  unfolding record_in
  slot_read size index base erased d c hc hs hi h =
      let placed = slot_offset_lem base size index hs hi in
      ap (λ bytes. is_erased bytes erased)
        (read_ok d (slot_offset base index) 16 h
          ∙ (ap (λ off. slice (cells d) off 16) placed
              ∙ ap (λ m. slice m (base + index * 16) 16) hc))

  -- One round of the loop, on each branch: `b` says that the slot is free.
  round_stops :
      (n index next erased base : ℕ) (found : Bool) (d : Dev)
      → is_ok (read d (slot_offset base index) record_size).0 ≡ false
      → (scan F (suc n) index found next erased base d).0
        ≡ (read d (slot_offset base index) record_size).0
  unfolding scan
  round_stops n index next erased base found d h = rw h refl

  round_free :
      (n index next erased base : ℕ) (found : Bool) (d : Dev)
      → is_ok (read d (slot_offset base index) record_size).0 ≡ true
      → is_erased (read d (slot_offset base index) record_size).1 erased ≡ true
      → scan F (suc n) index found next erased base d
        ≡ scan F n (index + 1) true next erased base (read d (slot_offset base index) record_size).2
  unfolding scan
  round_free n index next erased base true d h e = rw (h, e) refl
  round_free n index next erased base false d h e = rw (h, e) refl

  round_used :
      (n index next erased base : ℕ) (found : Bool) (d : Dev)
      → is_ok (read d (slot_offset base index) record_size).0 ≡ true
      → is_erased (read d (slot_offset base index) record_size).1 erased ≡ false
      → found ≡ false
      → scan F (suc n) index found next erased base d
        ≡ scan F n
            (index + 1)
            false
            (index + 1)
            erased
            base
            (read d (slot_offset base index) record_size).2
  unfolding scan
  round_used n index next erased base true d h e f = absurd (ground arith)
  round_used n index next erased base false d h e f = rw (h, e) refl

  round_gap :
      (n index next erased base : ℕ) (found : Bool) (d : Dev)
      → is_ok (read d (slot_offset base index) record_size).0 ≡ true
      → is_erased (read d (slot_offset base index) record_size).1 erased ≡ false
      → found ≡ true
      → (scan F (suc n) index found next erased base d).0 ≡ fail eilseq
  unfolding scan
  round_gap n index next erased base true d h e f = rw (h, e) refl
  round_gap n index next erased base false d h e f = absurd (ground arith)

  module _ (c : ℕ → ℕ) (base size erased total : ℕ) (hs : size < 2 ^ 32)
      (ht : total ≤ size / 16) where
    pub scan_sound :
        (n index next : ℕ) (found : Bool) (d : Dev)
        → cells d ≡ c
        → index + n ≡ total
        → found ≡ ltb next index
        → Filled c base erased index next
        → is_ok (scan F n index found next erased base d).0 ≡ true
        → Filled c base erased total (scan F n index found next erased base d).1
    unfolding scan
    scan_sound zero index next found d hc hn hf f h =
        subst (λ t. Filled c base erased t (scan F 0 index found next erased base d).1)
          (omega arith) f
    scan_sound (suc n) index next found d hc hn hf f h =
        let off = slot_offset base index in
        let d' = (read d off record_size).2 in
        let hc' = cells-read F d off record_size ∙ hc in
        elim (Bool-cases (is_ok (read d off record_size).0)) [
          | inr bad ↦
              never_both _ h (ap is_ok (round_stops n index next erased base found d bad) ∙ bad)
          | inl good ↦
              let same = slot_read size index base erased d c hc hs (omega arith) good in
              elim (Bool-cases (is_erased (read d off record_size).1 erased)) [
                | inl e ↦
                    let step = round_free n index next erased base found d good e in
                    subst (λ r. Filled c base erased total r.1) (sym step)
                      (scan_sound n (index + 1) next true d' hc' (omega arith) (ground arith)
                        (Filled-free c base erased index next f (sym same ∙ e))
                        (ap (λ r. is_ok r.0) (sym step) ∙ h))
                | inr e ↦ elim (Bool-cases found) [
                  | inl g ↦
                      never_both _ h
                        (ap is_ok (round_gap n index next erased base found d good e g))
                  | inr g ↦
                      let step = round_used n index next erased base found d good e g in
                      subst (λ r. Filled c base erased total r.1) (sym step)
                        (scan_sound n (index + 1) (index + 1) false d' hc' (omega arith)
                          (ground arith)
                          (Filled-record c base erased index
                            (subst (λ k. Filled c base erased index k) (last_used f hf g) f)
                            (sym same ∙ e))
                          (ap (λ r. is_ok r.0) (sym step) ∙ h))
                ]
              ]
        ]

    -- The loop accepts a region that is filled, on a device whose reads do not fail.
    pub scan_complete :
        ((d : Dev) (off n : ℕ) → is_ok (read d off n).0 ≡ true)
        → (m n index next : ℕ) (found : Bool) (d : Dev) → cells d ≡ c
        → index + n ≡ total
        → found ≡ ltb next index
        → next ≡ min m index
        → Filled c base erased total m
        → ((scan F n index found next erased base d).0 ≡ ok)
          × ((scan F n index found next erased base d).1 ≡ m)
    unfolding scan
    scan_complete reads m zero index next found d hc hn hf hx f =
        (refl, (ground (arith, f.in_range)))
    scan_complete reads m (suc n) index next found d hc hn hf hx f =
        let off = slot_offset base index in
        let d' = (read d off record_size).2 in
        let hc' = cells-read F d off record_size ∙ hc in
        let good = reads d off record_size in
        let same = slot_read size index base erased d c hc hs (omega arith) good in
        elim (leb_cases m index) [
          | inl low ↦
              let e = same ∙ f.unused index low (omega arith) in
              let rest =
                scan_complete reads m n (index + 1) next true d' hc' (omega arith) (ground arith)
                  (omega arith) f in
              subst (λ r. (r.0 ≡ ok) × (r.1 ≡ m))
                (sym (round_free n index next erased base found d good e)) rest
          | inr high ↦
              let e = same ∙ f.used index high in
              let rest =
                scan_complete reads m n (index + 1) (index + 1) false d' hc' (omega arith)
                  (ground arith) (omega arith) f in
              subst (λ r. (r.0 ≡ ok) × (r.1 ≡ m))
                (sym (round_used n index next erased base found d good e (ground arith))) rest
        ]
