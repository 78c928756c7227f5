-- ===== src/PcieResource.antt =====
-- labs/lab19_pcie_bar_resource_zephyr/pcie_resource.c: the window of addresses from which the BARs of
-- the devices are placed. `uintptr_t` and `size_t` are words of 32 bits.
pub mod Placement
pub mod Requests
mod Tests
use cortex_m3_embedded_debug.Base.{
  ℕ, ◌+◌, ◌-◌, Bool, true, false, not, ◌&&◌, ◌||◌, Option, some, none, ◌==◌, ◌!=◌, ltb, leb,
  if◌then◌else◌, u32, sub32, not32, bit_and,
}

-- `enum lab_pcie_status`
pub data LabPcieStatus : Type 0 where
  lab_pcie_ok : LabPcieStatus
  err_argument err_bdf err_reg err_platform err_no_resource err_unsupported : LabPcieStatus

-- `struct lab_pcie_resource_window`
pub record Window : Type 0 where
  pub pci_base : ℕ
  pub cpu_base : ℕ
  pub size : ℕ
  pub next : ℕ

unfoldable pub align_up : ℕ → ℕ → ℕ
align_up value alignment = let mask = sub32 alignment 1 in bit_and (u32 (value + mask)) (not32 mask)

-- `lab_pcie_resource_window_init`: a NULL window is `none`.
unfoldable pub window_init : Option Window → ℕ → ℕ → ℕ → LabPcieStatus × Option Window
window_init none pci_base cpu_base size = (err_argument, none)
window_init (some w) pci_base cpu_base size = if size == 0 then (err_argument, some w) else (
  lab_pcie_ok,
  some (record { pci_base = pci_base; cpu_base = cpu_base; size = size; next = pci_base }),
)

-- from `align_up` on; the address is what goes through `pci_addr`
unfoldable pub place : Window → ℕ → ℕ → LabPcieStatus × Option ℕ × Window
place w size alignment =
    let start = align_up w.next alignment in
    let limit = u32 (w.pci_base + w.size) in
    if ltb start w.pci_base || ltb limit start || ltb (sub32 limit start) size
    then (err_no_resource, none, w)
    else (lab_pcie_ok, some start, record w { next = u32 (start + size) })

-- `lab_pcie_resource_alloc(window, size, alignment, pci_addr)`
unfoldable pub alloc : Option Window → ℕ → ℕ → Bool → LabPcieStatus × Option ℕ × Option Window
unfolding place
alloc none size alignment has_addr = (err_argument, none, none)
alloc (some w) size alignment has_addr =
    let (status, addr, w') = place w size alignment in
    if not has_addr || size == 0 || alignment == 0
    then (err_argument, none, some w)
    else if bit_and alignment (alignment - 1) != 0
    then (err_argument, none, some w)
    else (status, addr, some w')

-- `lab_pcie_resource_translate(window, pci_addr, cpu_addr)`
unfoldable pub translate : Option Window → ℕ → Bool → LabPcieStatus × Option ℕ
translate none pci_addr has_addr = (err_argument, none)
translate (some w) pci_addr has_addr =
    if not has_addr
    then (err_argument, none)
    else if ltb pci_addr w.pci_base || leb (u32 (w.pci_base + w.size)) pci_addr
    then (err_no_resource, none)
    else (lab_pcie_ok, some (u32 (w.cpu_base + sub32 pci_addr w.pci_base)))
