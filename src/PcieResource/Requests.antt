-- ===== src/PcieResource/Requests.antt =====
-- A series of requests to one window, and the translation of the addresses that it gave out.
use cortex_m3_embedded_debug.Base.{
  ℕ, ◌+◌, ◌-◌, ◌≤◌, ◌<◌, ◌≡◌, ◌⊎◌, inl, inr, arith, sym, u32, sub32, true, ◌||◌, ltb, leb,
  Bool-cases, Option, some, none, List, [], ◌∷◌, subst, refl,
}
use cortex_m3_embedded_debug.PcieResource.{
  Window, LabPcieStatus, lab_pcie_ok, err_no_resource, alloc, translate,
}
use cortex_m3_embedded_debug.PcieResource.Placement.{
  IsValid, IsValid-filled_to, alloc_places, filled_to,
}

-- the list of granted ranges with one more answer
abbrev pub collect : ℕ → Option ℕ → List (ℕ × ℕ) → List (ℕ × ℕ)
collect size none ranges = ranges
collect size (some a) ranges = (a, size) ∷ ranges

-- Requests of a size and an alignment, one after the other: the ranges that were granted.
unfoldable pub serve : Option Window → List (ℕ × ℕ) → List (ℕ × ℕ)
serve w [] = []
serve w ((size, alignment) ∷ requests) =
    let (status, addr, w') = alloc w (u32 size) (u32 alignment) true in
    collect (u32 size) addr (serve w' requests)

-- Ranges in rising order from `low` to `limit`, no two of which meet.
unfoldable pub Separate : ℕ → ℕ → List (ℕ × ℕ) → Type 0
Separate low limit [] = low ≤ limit
Separate low limit ((a, n) ∷ rest) = (low ≤ a) × ((a + n ≤ limit) × Separate (a + n) limit rest)

-- Whatever a client asks of a valid window, and in which order: the ranges that
-- lab_pcie_resource_alloc grants lie between `next` and the end of the window, in rising order, and no
-- two of them meet.
pub serve-Separate :
    (w : Window) (requests : List (ℕ × ℕ))
    → IsValid w
    → Separate w.next (w.pci_base + w.size) (serve (some w) requests)
unfolding serve Separate
serve-Separate w [] v = v.open_end
serve-Separate w ((size, alignment) ∷ requests) v =
    let Goal = λ (r : LabPcieStatus × Option ℕ × Option Window).
      Separate w.next (w.pci_base + w.size) (collect (u32 size) r.1 (serve r.2 requests)) in
    elim (alloc_places w (u32 size) (u32 alignment) true v (omega arith) (omega arith)) [
      | inl p ↦
          let rest =
            serve-Separate (filled_to w (p.0 + u32 size)) requests
              (IsValid-filled_to w (u32 size) (u32 alignment) p.0 v p.1.0) in
          subst Goal (sym p.1.1) (p.1.0.behind, (p.1.0.inside, rest))
      | inr (inl e) ↦ subst Goal (sym e) (serve-Separate w requests v)
      | inr (inr e) ↦ subst Goal (sym e) (serve-Separate w requests v)
    ]

-- lab_pcie_resource_translate, for a window both of whose views end below 2 ^ 32: an address of the
-- window keeps its distance from the base, every other address is refused.
pub translate_lem :
    (w : Window) (addr : ℕ)
    → w.pci_base + w.size < 4294967296
    → w.cpu_base + w.size < 4294967296
    → addr < 4294967296
    → ((w.pci_base ≤ addr)
        × ((addr < w.pci_base + w.size)
            × (translate (some w) addr true
                ≡ (lab_pcie_ok, some (w.cpu_base + (addr - w.pci_base))))))
      ⊎ (((addr < w.pci_base) ⊎ (w.pci_base + w.size ≤ addr))
          × (translate (some w) addr true ≡ (err_no_resource, none)))
unfolding translate
translate_lem w addr hp hc ha =
    let limit : u32 (w.pci_base + w.size) ≡ w.pci_base + w.size = omega arith in
    elim (Bool-cases (ltb addr w.pci_base || leb (u32 (w.pci_base + w.size)) addr)) [
      | inl e ↦ inr (ground (arith, limit), rw e refl)
      | inr e ↦
          let low : w.pci_base ≤ addr = ground arith in
          let high : addr < w.pci_base + w.size = ground (arith, limit) in
          let same : u32 (w.cpu_base + sub32 addr w.pci_base) ≡ w.cpu_base + (addr - w.pci_base) =
            omega arith in
          inl (low, (high, rw (e, same) refl))
    ]
