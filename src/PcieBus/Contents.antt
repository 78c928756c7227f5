-- ===== src/PcieBus/Contents.antt =====
-- What the bus holds after `pcie_enumerate`.
use cortex_m3_embedded_debug.Base.{
  ℕ, zero, suc, ◌+◌, ◌≤◌, ◌<◌, ◌≡◌, ◌⊎◌, refl, ap, sym, ◌∙◌, List, [], ◌∷◌, length, get_or,
  get_or-set_self, get_or-set_ne, Bool, true, false, Bool-cases, not, subst, inl, inr,
  if◌then◌else◌, arith, leb, min, get_elem?, some_inj, some, Option, ok, Rc,
}
use cortex_m3_embedded_debug.Base.Exec.{result}
use cortex_m3_embedded_debug.PcieHost.{Bdf, PcieHost, err_argument}
use cortex_m3_embedded_debug.PcieBus.{PcieBus, no_device, pcie_scan_bus, pcie_enumerate}
use cortex_m3_embedded_debug.PcieBus.Fields.{described}
use cortex_m3_embedded_debug.PcieBus.Read.{Answers}
use cortex_m3_embedded_debug.PcieBus.Scan.{
  bus_functions, entered, enter, enter_all, entered-ready, IsReady,
}
use cortex_m3_embedded_debug.PcieBus.Enumerate.{scan_devices-Enters}

-- the bus at the start of the scan
abbrev pub at_start : {S : Type 0} → PcieBus S → PcieBus S
at_start b = record b { device_count = 0 }

module _ (H : PcieHost) (s0 : H.S) (cfg : Bdf → ℕ → ℕ) where
  -- The functions `fs` stand behind the entries of `b`, as far as there is room.
  pub record Recorded (fs : List Bdf) (b : PcieBus H.S) (rc : Rc) (b' : PcieBus H.S) : Type 0 where
    pub status : rc ≡ (if leb (b.device_count + length fs) 16 then ok else err_argument)
    pub counted : b'.device_count ≡ min (b.device_count + length fs) 16
    pub ready : IsReady H s0 cfg b'
    pub listed :
        (i : ℕ) (f : Bdf)
        → get_elem? fs i ≡ some f
        → b.device_count + i < 16
        → get_or b'.devices (b.device_count + i) no_device
          ≡ described (cfg f) f (get_or b.devices (b.device_count + i) no_device)
    pub others :
        (i : ℕ)
        → (i < b.device_count) ⊎ (b.device_count + length fs ≤ i)
        → get_or b'.devices i no_device ≡ get_or b.devices i no_device

  Recorded-nil : (b : PcieBus H.S) → IsReady H s0 cfg b → b.device_count ≤ 16 → Recorded [] b ok b
  Recorded-nil b r h = record {
    status = let room : leb (b.device_count + 0) 16 ≡ true = ground arith in rw room refl;
    counted = ground arith;
    ready = r;
    listed = λ i f at lt. absurd (ground arith);
    others = λ i out. refl;
  }

  Recorded-full :
      (f : Bdf) (fs : List Bdf) (b : PcieBus H.S)
      → IsReady H s0 cfg b
      → b.device_count ≡ 16
      → Recorded (f ∷ fs) b err_argument b
  Recorded-full f fs b r h = record {
    status =
        let none_left : leb (b.device_count + suc (length fs)) 16 ≡ false = ground arith in
        rw none_left refl;
    counted = ground arith;
    ready = r;
    listed = λ i g at lt. absurd (omega arith);
    others = λ i out. refl;
  }

  Recorded-cons :
      (f : Bdf) (fs : List Bdf) (b : PcieBus H.S) (rc : Rc) (b' : PcieBus H.S)
      → IsReady H s0 cfg b
      → b.device_count < 16
      → Recorded fs (entered H s0 cfg f b) rc b'
      → Recorded (f ∷ fs) b rc b'
  Recorded-cons f fs b rc b' r h rest =
      let k = b.device_count in
      let d = described (cfg f) f (get_or b.devices k no_device) in
      let moved : b.device_count + 1 + length fs ≡ b.device_count + suc (length fs) = omega arith in
      record {
        status = rest.status ∙ ap (λ (n : ℕ). if leb n 16 then ok else err_argument) moved;
        counted = rest.counted ∙ ap (λ (n : ℕ). min n 16) moved;
        ready = rest.ready;
        listed = λ i g at lt. entry i g at lt;
        others = λ i out.
            rest.others i (elim out [ inl e ↦ inl (omega arith) | inr e ↦ inr (omega arith) ])
            ∙ get_or-set_ne b.devices k i d no_device (elim out [
              | inl e ↦ (λ same. absurd (omega arith))
              | inr e ↦ (λ same. absurd (omega arith))
            ]);
      }
    where
      entry :
          (i : ℕ) (g : Bdf)
          → get_elem? (f ∷ fs) i ≡ some g
          → b.device_count + i < 16
          → get_or b'.devices (b.device_count + i) no_device
            ≡ described (cfg g) g (get_or b.devices (b.device_count + i) no_device)
      entry zero g at lt =
          let k = b.device_count in
          let old = get_or b.devices k no_device in
          let here : k + 0 ≡ k = omega arith in
          rw (here, sym (some_inj at))
            (rest.others k (inl (omega arith))
              ∙ get_or-set_self b.devices k (described (cfg f) f old) no_device
                  (omega (arith, r.sixteen)))
      entry (suc i) g at lt =
          let k = b.device_count in
          let d = described (cfg f) f (get_or b.devices k no_device) in
          let there : k + suc i ≡ k + 1 + i = omega arith in
          rw there (
            rest.listed i g at (omega arith)
            ∙ ap (described (cfg g) g)
                (get_or-set_ne b.devices k (k + 1 + i) d no_device (λ same. absurd (omega arith))))

  enter_all-Recorded :
      (fs : List Bdf) (b : PcieBus H.S)
      → IsReady H s0 cfg b
      → b.device_count ≤ 16
      → let out = result (enter_all H s0 cfg fs b) in Recorded fs b out.0 out.1
  unfolding enter_all enter
  enter_all-Recorded [] b r h = Recorded-nil b r h
  enter_all-Recorded (f ∷ fs) b r h = elim (Bool-cases (leb 16 b.device_count)) [
    | inl full ↦ rw full (Recorded-full f fs b r (ground arith))
    | inr room ↦
        let more : b.device_count + 1 ≤ 16 = ground arith in
        rw room (
          Recorded-cons f fs b _ _ r (omega arith)
            (enter_all-Recorded fs (entered H s0 cfg f b) (entered-ready H s0 cfg f b r) more))
  ]

module _ (H : PcieHost) (s0 : H.S) (cfg : Bdf → ℕ → ℕ) (answers : Answers H s0 cfg) where
  -- pcie_enumerate on a bus whose host answers every configuration read from the same words does
  -- what the entry of the functions that answer does, in the order of device and function: the
  -- same status and the same bus.
  pub enumerate_refines :
      (b : PcieBus H.S)
      → IsReady H s0 cfg b
      → pcie_enumerate H (some b) ≡ (
          let out = result (enter_all H s0 cfg (bus_functions H s0 cfg 32 0 0) (at_start b)) in
          (out.0, some out.1))
  unfolding pcie_enumerate pcie_scan_bus
  enumerate_refines b r =
      let start : IsReady H s0 cfg (at_start b) = record {
        hosted = r.hosted;
        at_host = r.at_host;
        sixteen = r.sixteen;
        six = r.six;
      } in
      let scan = scan_devices-Enters H s0 cfg answers 32 0 0 (omega arith) (at_start b) start in
      let answer : Rc × PcieBus H.S → Rc × Option (PcieBus H.S) = λ out. (out.0, some out.1) in
      ap
        (λ (h : Bool).
          if not h
          then answer (err_argument, b)
          else answer (result (pcie_scan_bus H 0 (at_start b))))
        r.hosted
      ∙ ap (λ o. answer (result o)) scan

  -- pcie_enumerate on a bus whose host answers every configuration read from the same words: it
  -- succeeds exactly if at most 16 functions answer, counts them up to 16, stores for the i-th of
  -- them, in the order of device and function, in entry i what its words say, and leaves the
  -- entries behind them, the host and the sizes of the arrays as they were.
  pub enumerate_records :
      (b : PcieBus H.S)
      → IsReady H s0 cfg b
      → (b' : PcieBus H.S) × (((pcie_enumerate H (some b)).1 ≡ some b')
          × Recorded H s0 cfg
              (bus_functions H s0 cfg 32 0 0)
              (at_start b)
              (pcie_enumerate H (some b)).0
              b')
  enumerate_records b r =
      let fs = bus_functions H s0 cfg 32 0 0 in
      let start : IsReady H s0 cfg (at_start b) = record {
        hosted = r.hosted;
        at_host = r.at_host;
        sixteen = r.sixteen;
        six = r.six;
      } in
      let out = result (enter_all H s0 cfg fs (at_start b)) in
      (
        out.1,
        (
          ap (λ o. o.1) (enumerate_refines b r),
          subst (λ rc. Recorded H s0 cfg fs (at_start b) rc out.1)
              (sym (ap (λ o. o.0) (enumerate_refines b r)))
              (enter_all-Recorded H s0 cfg fs (at_start b) start (omega arith)),
        ),
      )
