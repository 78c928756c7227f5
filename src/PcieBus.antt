-- ===== src/PcieBus.antt =====
-- labs/lab18_pcie_enumeration/pcie_bus.c: the scan of a bus for the functions that answer.
pub mod Fields
pub mod Read
pub mod Scan
pub mod Enumerate
pub mod Contents
pub mod Found
pub mod Exact
use cortex_m3_embedded_debug.Base.{
  ℕ, zero, suc, ◌+◌, ◌*◌, Bool, true, false, not, ◌||◌, Option, some, none, List, [], ◌∷◌, set,
  get_or, ◌==◌, ◌!=◌, leb, if◌then◌else◌, u8, u16, shr, bit_and, Rc, ok, fail, is_ok,
}
use cortex_m3_embedded_debug.Base.Exec.{
  Void, Exec, Outcome, value, returned, ◌>>=◌, ◌>>◌, pure, leave, result,
}
use cortex_m3_embedded_debug.PcieHost.{Bdf, PcieHost, pcie_config_read32, err_argument}

abbrev pub max_devices : ℕ
max_devices = 16

abbrev pub max_bars : ℕ
max_bars = 6

abbrev pub cfg_vendor_device : ℕ
cfg_vendor_device = 0x00

abbrev pub cfg_class_revision : ℕ
cfg_class_revision = 0x08

abbrev pub cfg_header : ℕ
cfg_header = 0x0c

abbrev pub cfg_bar0 : ℕ
cfg_bar0 = 0x10

abbrev pub cfg_interrupt : ℕ
cfg_interrupt = 0x3c

abbrev pub header_type_normal : ℕ
header_type_normal = 0

-- `struct pcie_bar`
pub record PcieBar : Type 0 where
  pub raw : ℕ
  pub address : ℕ
  pub is_io : ℕ
  pub is_64bit : ℕ
  pub prefetchable : ℕ

-- `struct pcie_device`
pub record PcieDevice : Type 0 where
  pub bdf : Bdf
  pub vendor_id : ℕ
  pub device_id : ℕ
  pub revision : ℕ
  pub prog_if : ℕ
  pub subclass : ℕ
  pub class_code : ℕ
  pub header_type : ℕ
  pub multifunction : ℕ
  pub bars : List PcieBar
  pub irq_line : ℕ
  pub irq_pin : ℕ

-- `struct pcie_bus`, with the state of its host; `has_host` is `host != NULL`.
pub record PcieBus (S : Type 0) : Type 0 where
  pub has_host : Bool
  pub host : S
  pub devices : List PcieDevice
  pub device_count : ℕ

-- What an array of the bus gives out of its bounds.
abbrev pub no_bar : PcieBar
no_bar = record { raw = 0; address = 0; is_io = 0; is_64bit = 0; prefetchable = 0 }

abbrev pub no_device : PcieDevice
no_device = record {
  bdf = record { bus = 0; device = 0; function = 0 };
  vendor_id = 0;
  device_id = 0;
  revision = 0;
  prog_if = 0;
  subclass = 0;
  class_code = 0;
  header_type = 0;
  multifunction = 0;
  bars = [];
  irq_line = 0;
  irq_pin = 0;
}

-- `pcie_decode_bar`
unfoldable pub pcie_decode_bar : ℕ → PcieBar → PcieBar
pcie_decode_bar raw bar =
    if bit_and raw 0x1 != 0
    then record bar {
      raw = raw;
      is_io = 1;
      is_64bit = 0;
      prefetchable = 0;
      address = bit_and raw 0xfffffffc;
    }
    else record bar {
      raw = raw;
      is_io = 0;
      is_64bit = (if bit_and (shr raw 1) 0x3 == 0x2 then 1 else 0);
      prefetchable = (if bit_and raw 0x8 != 0 then 1 else 0);
      address = bit_and raw 0xfffffff0;
    }

-- what the words of the configuration space write into the device
abbrev pub put_ids : Bdf → ℕ → PcieDevice → PcieDevice
put_ids bdf v dev = record dev {
  bdf = bdf;
  vendor_id = u16 (bit_and v 0xffff);
  device_id = u16 (shr v 16);
}

abbrev pub put_class : ℕ → PcieDevice → PcieDevice
put_class v dev = record dev {
  revision = u8 (bit_and v 0xff);
  subclass = u8 (bit_and (shr v 16) 0xff);
  class_code = u8 (bit_and (shr v 24) 0xff);
}

abbrev pub put_header : ℕ → PcieDevice → PcieDevice
put_header v dev = record dev {
  header_type = u8 (bit_and (shr v 16) 0x7f);
  multifunction = (if bit_and v 0x00800000 != 0 then 1 else 0);
}

abbrev pub put_bar : ℕ → ℕ → PcieDevice → PcieDevice
put_bar index v dev = record dev {
  bars = set dev.bars index (pcie_decode_bar v (get_or dev.bars index no_bar));
}

abbrev pub put_irq : ℕ → PcieDevice → PcieDevice
put_irq v dev = record dev { irq_line = u8 (bit_and v 0xff); irq_pin = u8 (bit_and (shr v 8) 0xff) }

abbrev pub bdf_of : ℕ → ℕ → ℕ → Bdf
bdf_of bus_number device_number function_number = record {
  bus = bus_number;
  device = device_number;
  function = function_number;
}

module _ (H : PcieHost) where
  open H use {S}

  -- `result = pcie_read32(...); if (result != PCIE_OK) return result;`
  unfoldable pub pcie_read32 : Bdf → ℕ → Exec (PcieBus S) ℕ
  pcie_read32 bdf offset b =
      let (rc, v, s) = pcie_config_read32 H b.has_host bdf offset b.host in
      let b' = record b { host = s } in if is_ok rc then (value v, b') else (returned rc, b')

  -- `dev` is `&bus->devices[bus->device_count]`.
  unfoldable pub at_dev : (PcieDevice → PcieDevice) → Exec (PcieBus S) Void
  at_dev f b = (
    value tt,
    record b {
      devices = set b.devices b.device_count (f (get_or b.devices b.device_count no_device));
    },
  )

  -- `n` rounds of the loop over the BARs from `index` on
  unfoldable pub read_bars : ℕ → ℕ → Bdf → Exec (PcieBus S) Void
  read_bars zero index bdf = pure tt
  read_bars (suc n) index bdf = do
    v ← pcie_read32 bdf (u16 (cfg_bar0 + index * 4))
    at_dev (put_bar index v)
    read_bars n (suc index) bdf

  -- the BARs, where the header has them
  unfoldable pub read_normal : ℕ → Bdf → Exec (PcieBus S) Void
  read_normal header bdf =
      if u8 (bit_and (shr header 16) 0x7f) == header_type_normal
      then read_bars max_bars 0 bdf
      else pure tt

  unfoldable pub pcie_read_function : Bdf → Exec (PcieBus S) Void
  pcie_read_function bdf = do
    ids ← pcie_read32 bdf cfg_vendor_device
    at_dev (put_ids bdf ids)
    class ← pcie_read32 bdf cfg_class_revision
    at_dev (put_class class)
    header ← pcie_read32 bdf cfg_header
    at_dev (put_header header)
    read_normal header bdf
    irq ← pcie_read32 bdf cfg_interrupt
    at_dev (put_irq irq)

  -- the function answers: it is read and counted, where there is room
  unfoldable pub add_function : Bdf → Exec (PcieBus S) Void
  add_function bdf b =
      if leb max_devices b.device_count
      then (returned err_argument, b)
      else (do
        pcie_read_function bdf
        (λ b'. (value tt, record b' { device_count = b'.device_count + 1 })))
          b

  unfoldable pub pcie_scan_function : ℕ → ℕ → ℕ → Exec (PcieBus S) Void
  pcie_scan_function bus_number device_number function_number = do
    id ← pcie_read32 (bdf_of bus_number device_number function_number) cfg_vendor_device
    if u16 (bit_and id 0xffff) == 0xffff
        then pure tt
        else add_function (bdf_of bus_number device_number function_number)

  -- `n` rounds of the loop over the functions from `function` on
  unfoldable pub scan_functions : ℕ → ℕ → ℕ → ℕ → Exec (PcieBus S) Void
  scan_functions zero bus_number device_number function = pure tt
  scan_functions (suc n) bus_number device_number function = do
    pcie_scan_function bus_number device_number (u8 function)
    scan_functions n bus_number device_number (suc function)

  -- the device answers
  unfoldable pub scan_present : ℕ → ℕ → Exec (PcieBus S) Void
  scan_present bus_number device_number = do
    pcie_scan_function bus_number device_number 0
    header ← pcie_read32 (bdf_of bus_number device_number 0) cfg_header
    if bit_and header 0x00800000 == 0 then pure tt else scan_functions 7 bus_number device_number 1

  unfoldable pub pcie_scan_device : ℕ → ℕ → Exec (PcieBus S) Void
  pcie_scan_device bus_number device_number = do
    id ← pcie_read32 (bdf_of bus_number device_number 0) cfg_vendor_device
    if u16 (bit_and id 0xffff) == 0xffff then pure tt else scan_present bus_number device_number

  -- `n` rounds of the loop over the devices from `device` on
  unfoldable pub scan_devices : ℕ → ℕ → ℕ → Exec (PcieBus S) Void
  scan_devices zero bus_number device = pure tt
  scan_devices (suc n) bus_number device = do
    pcie_scan_device bus_number (u8 device)
    scan_devices n bus_number (suc device)

  unfoldable pub pcie_scan_bus : ℕ → Exec (PcieBus S) Void
  pcie_scan_bus bus_number = scan_devices 32 bus_number 0

  -- `pcie_bus_init`; `host` is `none` for NULL.
  unfoldable pub pcie_bus_init : Option (PcieBus S) → Option S → Rc × Option (PcieBus S)
  pcie_bus_init none host = (err_argument, none)
  pcie_bus_init (some b) none = (err_argument, some b)
  pcie_bus_init (some b) (some s) =
      (ok, some (record b { has_host = true; host = s; device_count = 0 }))

  unfoldable pub pcie_enumerate : Option (PcieBus S) → Rc × Option (PcieBus S)
  pcie_enumerate none = (err_argument, none)
  pcie_enumerate (some b) =
      let (rc, b') = result (pcie_scan_bus 0 (record b { device_count = 0 })) in
      if not b.has_host then (err_argument, some b) else (rc, some b')
