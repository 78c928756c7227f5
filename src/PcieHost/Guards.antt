-- ===== src/PcieHost/Guards.antt =====
-- Which accesses reach the host.
use cortex_m3_embedded_debug.Base.{
  ℕ, ◌%◌, ◌<◌, ◌≡◌, ◌⊎◌, refl, ◌∙◌, Bool, true, false, inl, inr, eq_or_ne, leb_cases, ◌!=◌, arith,
  ltb, leb, ok, fail, Errno, other,
}
use cortex_m3_embedded_debug.Base.Bits.Mask.{bit_and_mod}
use cortex_m3_embedded_debug.PcieHost.{
  Bdf, PcieHost, err_bdf, err_offset, pcie_config_read32, pcie_config_write32, pcie_validate_bdf,
  pcie_validate_offset,
}

-- a device and a function that a bus can have
abbrev pub IsBdf : Bdf → Type 0
IsBdf bdf = (bdf.device < 32) × (bdf.function < 8)

-- the offset of a word of the configuration space
abbrev pub IsOffset : ℕ → Type 0
IsOffset off = (off < 256) × (off % 4 ≡ 0)

validate_bdf-ok : (bdf : Bdf) → IsBdf bdf → pcie_validate_bdf bdf ≡ ok
unfolding pcie_validate_bdf
validate_bdf-ok bdf h =
    let device : ltb 31 bdf.device ≡ false = ground (arith, h.0) in
    let function : ltb 7 bdf.function ≡ false = ground (arith, h.1) in rw (device, function) refl

validate_offset-ok : (off : ℕ) → IsOffset off → pcie_validate_offset off ≡ ok
unfolding pcie_validate_offset
validate_offset-ok off (lt, aligned) =
    let inside : leb 256 off ≡ false = ground arith in
    let low = bit_and_mod 2 8 off lt ∙ aligned in rw (inside, low) refl

IsBdf-cases : (bdf : Bdf) → IsBdf bdf ⊎ ((¬ IsBdf bdf) × (pcie_validate_bdf bdf ≡ err_bdf))
unfolding pcie_validate_bdf
IsBdf-cases bdf = elim (leb_cases 32 bdf.device) [
  | inl h ↦
      let high : ltb 31 bdf.device ≡ true = ground arith in
      inr ((λ (k : IsBdf bdf). absurd (omega (arith, k.0))), rw high refl)
  | inr h ↦ elim (leb_cases 8 bdf.function) [
    | inl g ↦
        let device : ltb 31 bdf.device ≡ false = ground arith in
        let high : ltb 7 bdf.function ≡ true = ground arith in
        inr ((λ (k : IsBdf bdf). absurd (omega (arith, k.1))), rw (device, high) refl)
    | inr g ↦ inl (h, g)
  ]
]

IsOffset-cases :
    (off : ℕ) → IsOffset off ⊎ ((¬ IsOffset off) × (pcie_validate_offset off ≡ err_offset))
unfolding pcie_validate_offset
IsOffset-cases off = elim (leb_cases 256 off) [
  | inl h ↦
      let high : leb 256 off ≡ true = ground arith in
      inr ((λ (k : IsOffset off). absurd (omega (arith, k.0))), rw high refl)
  | inr h ↦ elim (eq_or_ne (off % 4) 0) [
    | inl e ↦ inl (h, e)
    | inr ne ↦
        let inside : leb 256 off ≡ false = ground arith in
        let low = bit_and_mod 2 8 off h in
        let odd : (off % 4 != 0) ≡ true = ground arith in
        inr ((λ (k : IsOffset off). ne k.1), rw (inside, low, odd) refl)
  ]
]

module _ (H : PcieHost) where
  pub config_read32-valid :
      (bdf : Bdf) (off : ℕ) (s : H.S)
      → IsBdf bdf
      → IsOffset off
      → pcie_config_read32 H true bdf off s ≡ H.config_read32 s bdf off
  unfolding pcie_config_read32
  config_read32-valid bdf off s hb ho = rw (validate_bdf-ok bdf hb, validate_offset-ok off ho) refl

  pub config_write32-valid :
      (bdf : Bdf) (off v : ℕ) (s : H.S)
      → IsBdf bdf
      → IsOffset off
      → pcie_config_write32 H true bdf off v s ≡ H.config_write32 s bdf off v
  unfolding pcie_config_write32
  config_write32-valid bdf off v s hb ho =
      rw (validate_bdf-ok bdf hb, validate_offset-ok off ho) refl

  -- the access is answered without the host
  abbrev pub Refused : Bdf → ℕ → ℕ → Bool → H.S → Type 0
  Refused bdf off v pointers s =
      (e : Errno) × ((pcie_config_read32 H pointers bdf off s ≡ (fail e, 0, s))
        × (pcie_config_write32 H pointers bdf off v s ≡ (fail e, s)))

  abbrev pub IsAccess : Bool → Bdf → ℕ → Type 0
  IsAccess pointers bdf off = (pointers ≡ true) × (IsBdf bdf × IsOffset off)

  abbrev pub Reaches : Bdf → ℕ → ℕ → Bool → H.S → Type 0
  Reaches bdf off v pointers s =
      (pcie_config_read32 H pointers bdf off s ≡ H.config_read32 s bdf off)
      × (pcie_config_write32 H pointers bdf off v s ≡ H.config_write32 s bdf off v)

  bdf_refused :
      (bdf : Bdf) (off v : ℕ) (s : H.S) → pcie_validate_bdf bdf ≡ err_bdf → Refused bdf off v true s
  unfolding pcie_config_read32 pcie_config_write32
  bdf_refused bdf off v s e = (other 1, (rw e refl, rw e refl))

  offset_refused :
      (bdf : Bdf) (off v : ℕ) (s : H.S)
      → IsBdf bdf
      → pcie_validate_offset off ≡ err_offset
      → Refused bdf off v true s
  unfolding pcie_config_read32 pcie_config_write32
  offset_refused bdf off v s hb e =
      (other 3, (rw (validate_bdf-ok bdf hb, e) refl, rw (validate_bdf-ok bdf hb, e) refl))

  -- pcie_config_read32 and pcie_config_write32, whatever they are given: either no pointer is NULL,
  -- the device is below 32, the function below 8, the offset below 256 and a multiple of 4, and the
  -- answer is the host's own; or one of these fails, and the answer is an error that leaves the
  -- host as it was.
  pub config_guarded :
      (pointers : Bool) (bdf : Bdf) (off v : ℕ) (s : H.S)
      → (IsAccess pointers bdf off × Reaches bdf off v pointers s)
        ⊎ ((¬ IsAccess pointers bdf off) × Refused bdf off v pointers s)
  unfolding pcie_config_read32 pcie_config_write32
  config_guarded false bdf off v s =
      inr (λ h. absurd (ground (arith, h.0)), (other 1, (refl, refl)))
  config_guarded true bdf off v s = elim (IsBdf-cases bdf) [
    | inr h ↦ inr ((λ k. h.0 k.1.0), bdf_refused bdf off v s h.1)
    | inl hb ↦ elim (IsOffset-cases off) [
      | inr h ↦ inr ((λ k. h.0 k.1.1), offset_refused bdf off v s hb h.1)
      | inl ho ↦ inl (
        (refl, (hb, ho)),
        (config_read32-valid bdf off s hb ho, config_write32-valid bdf off v s hb ho),
      )
    ]
  ]
