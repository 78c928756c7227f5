-- ===== src/PcieBus/Exact.antt =====
-- `pcie_enumerate` finds the functions that answer, and nothing else.
use mathlib.Core.List.{Memᴰ}
use mathlib.Core.List.Memᴰ
use cortex_m3_embedded_debug.Base.{
  ℕ, zero, suc, ◌+◌, ◌≤◌, ◌<◌, ◌≡◌, ◌≢◌, inl, inr, refl, ap, sym, ◌∙◌, subst, true, false,
  leb_cases, leb, some, some_inj, List, [], ◌∷◌, get_elem?, get_or, length, arith, ok, Rc, min,
}
use cortex_m3_embedded_debug.PcieHost.{Bdf, PcieHost, err_argument}
use cortex_m3_embedded_debug.PcieBus.{PcieBus, no_device, pcie_enumerate}
use cortex_m3_embedded_debug.PcieBus.Fields.{described}
use cortex_m3_embedded_debug.PcieBus.Read.{Answers}
use cortex_m3_embedded_debug.PcieBus.Scan.{bus_functions, IsReady}
use cortex_m3_embedded_debug.PcieBus.Contents.{Recorded, at_start, enumerate_records}
use cortex_m3_embedded_debug.PcieBus.Found.{
  place, Rising, IsAnswering, bus_functions-Rising, bus_functions_sound, bus_functions_complete,
}

ok-err : ok ≢ err_argument
ok-err e = absurd (ground arith)

elem_at : (fs : List Bdf) (i : ℕ) → i < length fs → (f : Bdf) × (get_elem? fs i ≡ some f)
elem_at [] i h = absurd (omega arith)
elem_at (f ∷ fs) zero h = (f, refl)
elem_at (f ∷ fs) (suc i) h = elem_at fs i (omega arith)

elem-Mem : (fs : List Bdf) (i : ℕ) (f : Bdf) → get_elem? fs i ≡ some f → Memᴰ f fs
elem-Mem [] i f e = absurd (ground arith)
elem-Mem (x ∷ fs) zero f e = Memᴰ.head (sym (some_inj e))
elem-Mem (x ∷ fs) (suc i) f e = Memᴰ.tail (elem-Mem fs i f e)

Mem-elem :
    (fs : List Bdf) (f : Bdf) → Memᴰ f fs → (i : ℕ) × ((i < length fs) × (get_elem? fs i ≡ some f))
Mem-elem [] f m = absurd (Memᴰ.not-nil m)
Mem-elem (x ∷ fs) f m = elim (Memᴰ.cases_cons m) [
  | inl e ↦ (0, (omega arith, ap some (sym e)))
  | inr k ↦ let (i, (h, e)) = Mem-elem fs f k in (suc i, (omega (arith, h), e))
]

Rising-from :
    (lo hi : ℕ) (fs : List Bdf) (i : ℕ) (f : Bdf)
    → Rising lo fs hi
    → get_elem? fs i ≡ some f
    → lo ≤ place f
Rising-from lo hi [] i f r e = absurd (ground arith)
Rising-from lo hi (x ∷ fs) zero f r e = subst (λ y. lo ≤ place y) (some_inj e) r.0
Rising-from lo hi (x ∷ fs) (suc i) f r e =
    let h = Rising-from (place x + 1) hi fs i f r.1 e in omega (arith, h, r.0)

Rising-lt :
    (lo hi : ℕ) (fs : List Bdf) (i j : ℕ) (f g : Bdf)
    → Rising lo fs hi
    → i < j
    → get_elem? fs i ≡ some f
    → get_elem? fs j ≡ some g
    → place f < place g
Rising-lt lo hi [] i j f g r h e k = absurd (ground arith)
Rising-lt lo hi (x ∷ fs) i zero f g r h e k = absurd (omega arith)
Rising-lt lo hi (x ∷ fs) zero (suc j) f g r h e k =
    let above = Rising-from (place x + 1) hi fs j g r.1 k in
    subst (λ y. place y < place g) (some_inj e) (omega (arith, above))
Rising-lt lo hi (x ∷ fs) (suc i) (suc j) f g r h e k =
    Rising-lt (place x + 1) hi fs i j f g r.1 (omega arith) e k

module _ (H : PcieHost) (s0 : H.S) (cfg : Bdf → ℕ → ℕ) where
  -- Entry `i` of the bus is what the words of `f` say.
  abbrev pub IsEntry : PcieBus H.S → PcieBus H.S → ℕ → Bdf → Type 0
  IsEntry b b' i f =
      get_or b'.devices i no_device ≡ described (cfg f) f (get_or b.devices i no_device)

  pub record Exact (b : PcieBus H.S) (rc : Rc) (b' : PcieBus H.S) : Type 0 where
    pub bounded : b'.device_count ≤ 16
    pub each :
        (i : ℕ) → i < b'.device_count → (f : Bdf) × (IsAnswering H s0 cfg f × IsEntry b b' i f)
    pub all :
        rc ≡ ok
        → (f : Bdf) → IsAnswering H s0 cfg f
        → (i : ℕ) × ((i < b'.device_count) × IsEntry b b' i f)
    pub full : rc ≢ ok → (rc ≡ err_argument) × (b'.device_count ≡ 16)
    pub ordered :
        (i j : ℕ)
        → i < j
        → j < b'.device_count
        → place (get_or b'.devices i no_device).bdf < place (get_or b'.devices j no_device).bdf

  module _ (fs : List Bdf) (b : PcieBus H.S) (rc : Rc) (b' : PcieBus H.S)
      (r : Recorded H s0 cfg fs (at_start b) rc b') where
    counted : b'.device_count ≡ min (length fs) 16
    counted = r.counted ∙ omega arith

    IsEntry-of : (i : ℕ) (f : Bdf) → get_elem? fs i ≡ some f → i < 16 → IsEntry b b' i f
    IsEntry-of i f e h =
        let same : 0 + i ≡ i = omega arith in
        subst (λ (k : ℕ). IsEntry b b' k f) same (r.listed i f e (omega arith))

    entry :
        (i : ℕ) → i < b'.device_count → (f : Bdf) × ((get_elem? fs i ≡ some f) × IsEntry b b' i f)
    entry i h =
        let (f, e) = elem_at fs i (omega (arith, counted)) in
        (f, (e, IsEntry-of i f e (omega (arith, counted))))

    entry_ordered :
        (i j : ℕ)
        → Rising 0 fs 256
        → i < j
        → j < b'.device_count
        → place (get_or b'.devices i no_device).bdf < place (get_or b'.devices j no_device).bdf
    unfolding described
    entry_ordered i j rising lt h =
        let (f, (ef, df)) = entry i (omega arith) in
        let (g, (eg, dg)) = entry j h in rw (df, dg) (Rising-lt 0 256 fs i j f g rising lt ef eg)

    success_fits : rc ≡ ok → length fs ≤ 16
    success_fits success = elim (leb_cases (0 + length fs) 16) [
      | inl h ↦ omega arith
      | inr h ↦
          let full : leb (0 + length fs) 16 ≡ false = ground arith in
          let failed : rc ≡ err_argument = r.status ∙ rw full refl in
          absurd (ok-err (sym success ∙ failed))
    ]

    failure_full : rc ≢ ok → (rc ≡ err_argument) × (b'.device_count ≡ 16)
    failure_full failed = elim (leb_cases (0 + length fs) 16) [
      | inl h ↦
          let fits : leb (0 + length fs) 16 ≡ true = ground arith in
          absurd (failed (r.status ∙ rw fits refl))
      | inr h ↦
          let full : leb (0 + length fs) 16 ≡ false = ground arith in
          (r.status ∙ rw full refl, omega (arith, counted))
    ]

    Recorded-Exact :
        Rising 0 fs 256
        → ((f : Bdf) → Memᴰ f fs → IsAnswering H s0 cfg f)
        → ((f : Bdf) → IsAnswering H s0 cfg f → Memᴰ f fs)
        → Exact b rc b'
    Recorded-Exact rising sound complete = record {
      bounded = omega (arith, counted);
      each = λ i h. let (f, (e, d)) = entry i h in (f, (sound f (elem-Mem fs i f e), d));
      all = λ success f a.
          let (i, (h, e)) = Mem-elem fs f (complete f a) in
          let fits = success_fits success in
          (i, (omega (arith, h, counted), IsEntry-of i f e (omega (arith, h))));
      full = failure_full;
      ordered = λ i j. entry_ordered i j rising;
    }

module _ (H : PcieHost) (s0 : H.S) (cfg : Bdf → ℕ → ℕ) (answers : Answers H s0 cfg) where
  -- pcie_enumerate on a bus whose host answers every configuration read from the same words. Each
  -- counted entry describes a function that answers: function 0 of a device, or another one of a
  -- device whose function 0 answers and has the multifunction bit. The entries rise in the order of
  -- device and function, so none is there twice. On success every such function has an entry; the
  -- only failure is PCIE_ERR_ARGUMENT with all 16 entries in use.
  pub enumerate-Exact :
      (b : PcieBus H.S)
      → IsReady H s0 cfg b
      → (b' : PcieBus H.S) × (((pcie_enumerate H (some b)).1 ≡ some b')
          × Exact H s0 cfg b (pcie_enumerate H (some b)).0 b')
  enumerate-Exact b r =
      let (b', (e, recorded)) = enumerate_records H s0 cfg answers b r in
      (
        b',
        (
          e,
          Recorded-Exact H s0 cfg (bus_functions H s0 cfg 32 0 0) b _ b' recorded
              (bus_functions-Rising H s0 cfg 32 0)
              (λ f. bus_functions_sound H s0 cfg 32 0 f (omega arith))
              (λ f a.
                bus_functions_complete H s0 cfg 32 0 f a (omega arith) (omega (arith, a.valid.0))),
        ),
      )
