-- ===== src/PcieBus/Scan.antt =====
-- The scan of a bus is the entry, one by one, of the functions that answer.
use cortex_m3_embedded_debug.Base.{
  ℕ, zero, suc, ◌+◌, ◌/◌, ◌%◌, ◌^◌, ◌<◌, ◌≡◌, refl, ap, sym, ◌∙◌, List, [], ◌∷◌, ◌++◌, length, set,
  get_or, length-set, get_or-set_self, get_or-set_ne, eq_or_ne, subst, Bool, true, Bool-cases, not,
  inl, inr, ◌==◌, if◌then◌else◌, arith, leb,
}
use cortex_m3_embedded_debug.Base.Exec.{
  Void, Exec, value, returned, continue, ◌>>◌, pure, Ensures, Ensures-bind, Ensures-map,
  continue_same,
}
use cortex_m3_embedded_debug.PcieHost.{Bdf, PcieHost, err_argument}
use cortex_m3_embedded_debug.PcieBus.{PcieBus, PcieDevice, bdf_of, no_device}
use cortex_m3_embedded_debug.PcieBus.Fields.{described}

module _ (H : PcieHost) (s0 : H.S) (cfg : Bdf → ℕ → ℕ) where
  -- the functions that answer

  abbrev pub present : Bdf → Bool
  present f = not (cfg f 0 % 2 ^ 16 == 65535)

  abbrev pub if_present : Bdf → List Bdf
  if_present f = if present f then f ∷ [] else []

  -- of `n` functions of a device, from `function` on
  abbrev pub functions : ℕ → ℕ → ℕ → ℕ → List Bdf
  functions zero bus device function = []
  functions (suc n) bus device function =
      if_present (bdf_of bus device function) ++ functions n bus device (suc function)

  -- A device has further functions where its function 0 says so in the header.
  abbrev pub device_functions : ℕ → ℕ → List Bdf
  device_functions bus device =
      let first = bdf_of bus device 0 in
      if present first
      then first ∷ (if cfg first 12 / 2 ^ 23 % 2 == 1 then functions 7 bus device 1 else [])
      else []

  -- of `n` devices from `device` on
  abbrev pub bus_functions : ℕ → ℕ → ℕ → List Bdf
  bus_functions zero bus device = []
  bus_functions (suc n) bus device = device_functions bus device ++ bus_functions n bus (suc device)

  -- their entry into the bus

  abbrev pub entered : Bdf → PcieBus H.S → PcieBus H.S
  entered f b = record b {
    devices =
        set b.devices b.device_count
          (described (cfg f) f (get_or b.devices b.device_count no_device));
    device_count = b.device_count + 1;
  }

  unfoldable pub enter : Bdf → Exec (PcieBus H.S) Void
  enter f b = if leb 16 b.device_count then (returned err_argument, b) else (value tt, entered f b)

  unfoldable pub enter_all : List Bdf → Exec (PcieBus H.S) Void
  enter_all [] = pure tt
  enter_all (f ∷ fs) = enter f >> enter_all fs

  -- the arrays have their sizes, and the host is there in its state
  pub record IsReady (b : PcieBus H.S) : Type 0 where
    pub hosted : b.has_host ≡ true
    pub at_host : b.host ≡ s0
    pub sixteen : length b.devices ≡ 16
    pub six : (i : ℕ) → i < 16 → length (get_or b.devices i no_device).bars ≡ 6

  described-six :
      (f : Bdf) (old : PcieDevice) → length old.bars ≡ 6 → length (described (cfg f) f old).bars ≡ 6
  unfolding described
  described-six f old h = elim (Bool-cases (cfg f 12 / 2 ^ 16 % 2 ^ 7 == 0)) [
    | inl e ↦ rw e refl
    | inr e ↦ rw e h
  ]

  pub entered-ready : (f : Bdf) (b : PcieBus H.S) → IsReady b → IsReady (entered f b)
  entered-ready f b r = record {
    hosted = r.hosted;
    at_host = r.at_host;
    sixteen = length-set b.devices b.device_count _ ∙ r.sixteen;
    six = λ i lt. elim (eq_or_ne b.device_count i) [
      | inl e ↦
          let d = described (cfg f) f (get_or b.devices i no_device) in
          subst
            (λ (k : ℕ).
              length
                (get_or (set b.devices k (described (cfg f) f (get_or b.devices k no_device))) i
                  no_device).bars
              ≡ 6)
            (sym e)
            (rw (get_or-set_self b.devices i d no_device (omega (arith, r.sixteen)))
              (described-six f (get_or b.devices i no_device) (r.six i lt)))
      | inr ne ↦ rw (get_or-set_ne b.devices b.device_count i _ no_device ne) (r.six i lt)
    ];
  }

  enter-ready :
      (f : Bdf) (b : PcieBus H.S)
      → IsReady b
      → Ensures (enter f b) (λ _ b'. IsReady b') (λ _ b'. IsReady b')
  unfolding enter
  enter-ready f b r = elim (Bool-cases (leb 16 b.device_count)) [
    | inl e ↦ rw e r
    | inr e ↦ rw e (entered-ready f b r)
  ]

  enter_all-ready :
      (fs : List Bdf) (b : PcieBus H.S)
      → IsReady b
      → Ensures (enter_all fs b) (λ _ b'. IsReady b') (λ _ b'. IsReady b')
  unfolding enter_all
  enter_all-ready [] b r = r
  enter_all-ready (f ∷ fs) b r =
      Ensures-bind _ _ _ (enter f b) (λ _. enter_all fs) (enter-ready f b r)
        (λ _ b' r'. enter_all-ready fs b' r')

  enter_all-append :
      (xs ys : List Bdf) (b : PcieBus H.S)
      → enter_all (xs ++ ys) b ≡ continue (enter_all xs b) (λ _. enter_all ys)
  unfolding enter_all enter
  enter_all-append [] ys b = refl
  enter_all-append (x ∷ xs) ys b = elim (Bool-cases (leb 16 b.device_count)) [
    | inl e ↦ rw e refl
    | inr e ↦ rw e (enter_all-append xs ys (entered x b))
  ]

  -- `m` is the entry of `fs`, on every bus that is ready
  abbrev pub Enters : Exec (PcieBus H.S) Void → List Bdf → Type 0
  Enters m fs = (b : PcieBus H.S) → IsReady b → m b ≡ enter_all fs b

  pub Enters-then :
      {m k : Exec (PcieBus H.S) Void} (xs ys : List Bdf)
      → Enters m xs
      → Enters k ys
      → Enters (m >> k) (xs ++ ys)
  Enters-then {m} {k} xs ys hm hk b r =
      ap (λ out. continue out (λ _. k)) (hm b r)
      ∙ continue_same (enter_all xs b) (λ _. k) (λ _. enter_all ys)
          (Ensures-map (enter_all xs b) (enter_all-ready xs b r) (λ _ s r'. hk s r')
            (λ rc s r'. tt))
      ∙ sym (enter_all-append xs ys b)
