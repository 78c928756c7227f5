-- ===== src/PcieHost.antt =====
-- labs/lab18_pcie_enumeration/pcie_host.c: the guards before the operations of a PCIe host.
pub mod Guards
use cortex_m3_embedded_debug.Base.{
  ℕ, Bool, true, false, not, ◌||◌, ◌==◌, ◌!=◌, ltb, leb, if◌then◌else◌, bit_and, Rc, ok, fail,
  is_ok, other,
}

-- `enum pcie_status`; the value of PCIE_ERR_BDF is that of PCIE_ERR_ARGUMENT.
abbrev pub err_argument : Rc
err_argument = fail (other 1)

abbrev pub err_bdf : Rc
err_bdf = fail (other 1)

abbrev pub err_offset : Rc
err_offset = fail (other 3)

-- `struct pcie_bdf`
pub record Bdf : Type 0 where
  pub bus : ℕ
  pub device : ℕ
  pub function : ℕ

-- The operations of a host over its state. A read gives a status and the word.
pub record PcieHost : Type 1 where
  pub S : Type 0
  pub config_read32 : S → Bdf → ℕ → Rc × ℕ × S
  pub config_write32 : S → Bdf → ℕ → ℕ → Rc × S

unfoldable pub pcie_validate_bdf : Bdf → Rc
pcie_validate_bdf bdf =
    if ltb 31 bdf.device then err_bdf else if ltb 7 bdf.function then err_bdf else ok

unfoldable pub pcie_validate_offset : ℕ → Rc
pcie_validate_offset offset =
    if leb 256 offset then err_offset else if bit_and offset 3 != 0 then err_offset else ok

module _ (H : PcieHost) where
  open H use {S, config_read32, config_write32}

  -- `pointers` says that no pointer which the function tests is NULL.
  unfoldable pub pcie_config_read32 : Bool → Bdf → ℕ → S → Rc × ℕ × S
  unfolding pcie_validate_bdf pcie_validate_offset
  pcie_config_read32 pointers bdf offset s =
      if not pointers
      then (err_argument, 0, s)
      else if not (is_ok (pcie_validate_bdf bdf))
      then (pcie_validate_bdf bdf, 0, s)
      else if not (is_ok (pcie_validate_offset offset))
      then (pcie_validate_offset offset, 0, s)
      else config_read32 s bdf offset

  unfoldable pub pcie_config_write32 : Bool → Bdf → ℕ → ℕ → S → Rc × S
  unfolding pcie_validate_bdf pcie_validate_offset
  pcie_config_write32 pointers bdf offset value s =
      if not pointers
      then (err_argument, s)
      else if not (is_ok (pcie_validate_bdf bdf))
      then (pcie_validate_bdf bdf, s)
      else if not (is_ok (pcie_validate_offset offset))
      then (pcie_validate_offset offset, s)
      else config_write32 s bdf offset value
