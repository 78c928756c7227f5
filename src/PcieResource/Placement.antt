-- ===== src/PcieResource/Placement.antt =====
-- Where the window places a resource: aligned, inside of the window, behind all that was placed.
pub mod Rounding
use cortex_m3_embedded_debug.Base.{
  ℕ, zero, suc, ◌+◌, ◌-◌, ◌*◌, ◌^◌, ◌≤◌, ◌<◌, ◌≡◌, ◌≢◌, ◌⊎◌, inl, inr, arith, bit_and, sym, ap, ◌∙◌,
  u32, sub32, leb_cases, refl, true, false, not, ◌==◌, ◌!=◌, ◌||◌, ltb, leb, Bool, Bool-cases,
  Option, some, none, List, [], ◌∷◌, subst, if◌then◌else◌, ==→ne,
}
use cortex_m3_embedded_debug.Base.Bits.Mask.{power_of_two}
use cortex_m3_embedded_debug.PcieResource.{
  Window, LabPcieStatus, lab_pcie_ok, err_argument, err_no_resource, alloc, place, translate,
  align_up,
}
use Rounding.{align_up_lem}

-- The window lies above address 0 and below the end of the address space, and `next` is inside of it.
pub record IsValid (w : Window) : Type 0 where
  pub positive : 0 < w.pci_base
  pub started : w.pci_base ≤ w.next
  pub open_end : w.next ≤ w.pci_base + w.size
  pub fits : w.pci_base + w.size < 4294967296

-- `addr` is a good place for `size` bytes in `w`
pub record IsPlace (w : Window) (size alignment addr : ℕ) : Type 0 where
  pub aligned : (q : ℕ) × (addr ≡ q * alignment)
  pub behind : w.next ≤ addr
  pub inside : addr + size ≤ w.pci_base + w.size

abbrev pub filled_to : Window → ℕ → Window
filled_to w n = record w { next = n }

abbrev pub Placed : Window → ℕ → ℕ → LabPcieStatus × Option ℕ × Option Window → Type 0
Placed w size alignment r =
    (addr : ℕ) × (IsPlace w size alignment addr
      × (r ≡ (lab_pcie_ok, some addr, some (filled_to w (addr + size)))))

abbrev pub NotPlaced : Window → LabPcieStatus × Option ℕ × Option Window → Type 0
NotPlaced w r = (r ≡ (err_argument, none, some w)) ⊎ (r ≡ (err_no_resource, none, some w))

-- what the three tests of the code say when none of them holds
in_window :
    (base size start n : ℕ)
    → base + size < 4294967296
    → (ltb start base || ltb (u32 (base + size)) start || ltb (sub32 (u32 (base + size)) start) n)
      ≡ false
    → (base ≤ start) × (start + n ≤ base + size)
in_window base size start n fits h =
    let limit : u32 (base + size) ≡ base + size = omega arith in
    let low : base ≤ start = ground arith in
    let high : start ≤ base + size = ground (arith, limit) in
    let room : sub32 (u32 (base + size)) start ≡ base + size - start = omega (arith, limit) in
    (low, ground (arith, limit, room))

place_lem :
    (w : Window) (size k : ℕ)
    → IsValid w
    → size < 4294967296
    → k < 32
    → let r = place w size (2 ^ k) in
      Placed w size (2 ^ k) (r.0, r.1, some r.2) ⊎ NotPlaced w (r.0, r.1, some r.2)
unfolding place
place_lem w size k v hs hk =
    let start = align_up w.next (2 ^ k) in
    let rounded = align_up_lem k w.next hk (omega (arith, v.open_end, v.fits)) in
    elim (Bool-cases (
      ltb start w.pci_base
      || ltb (u32 (w.pci_base + w.size)) start
      || ltb (sub32 (u32 (w.pci_base + w.size)) start) size)) [
        | inl e ↦ rw e (inr (inr refl))
        | inr e ↦
            let good = in_window w.pci_base w.size start size v.fits e in
            let behind : w.next ≤ start = ground (arith, rounded.1, good.0, v.positive) in
            let end : u32 (start + size) ≡ start + size = omega (arith, good.1, v.fits) in
            rw (e, end)
              (inl
                (start, (record { aligned = rounded.0; behind = behind; inside = good.1 }, refl)))
      ]

-- lab_pcie_resource_alloc, for a window with a positive base that ends below 2 ^ 32 and has `next`
-- from its base to its end, and words as arguments, either places the resource at a multiple of the
-- alignment, inside of the window and not before `next`, and moves `next` to the end of the resource,
-- or answers an error and leaves the window as it is.
pub alloc_places :
    (w : Window) (size alignment : ℕ) (has_addr : Bool)
    → IsValid w
    → size < 4294967296
    → alignment < 4294967296
    → Placed w size alignment (alloc (some w) size alignment has_addr)
      ⊎ NotPlaced w (alloc (some w) size alignment has_addr)
unfolding alloc
alloc_places w size alignment has_addr v hs ha =
    elim (Bool-cases (not has_addr || size == 0 || alignment == 0)) [
      | inl e ↦ rw e (inr (inl refl))
      | inr e ↦ elim (Bool-cases (bit_and alignment (alignment - 1) != 0)) [
        | inl f ↦ rw (e, f) (inr (inl refl))
        | inr f ↦
            let power = power_of_two 32 alignment (ground arith) ha (ground arith) in
            rw (e, f)
              (subst
                (λ a.
                  Placed w size a ((place w size a).0, (place w size a).1, some (place w size a).2)
                  ⊎ NotPlaced w ((place w size a).0, (place w size a).1, some (place w size a).2))
                (sym power.1.1) (place_lem w size power.0 v hs power.1.0))
      ]
    ]

-- A placed resource leaves a valid window.
pub IsValid-filled_to :
    (w : Window) (size alignment addr : ℕ)
    → IsValid w
    → IsPlace w size alignment addr
    → IsValid (filled_to w (addr + size))
IsValid-filled_to w size alignment addr v p = record {
  positive = v.positive;
  started = omega (arith, v.started, p.behind);
  open_end = p.inside;
  fits = v.fits;
}
