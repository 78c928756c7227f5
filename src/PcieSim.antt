-- ===== src/PcieSim.antt =====
-- labs/lab18_pcie_enumeration/pcie_sim_host.c: a host that keeps its configuration spaces in memory.
pub mod Memory
mod Tests
use cortex_m3_embedded_debug.Base.{
  ℕ, zero, suc, ◌+◌, Bool, true, false, ◌&&◌, Option, some, none, List, [], ◌∷◌, set, get_or,
  replicate, ◌==◌, ◌!=◌, if◌then◌else◌, u32, shr, shl, bit_or, Rc, ok,
}
use cortex_m3_embedded_debug.PcieHost.{Bdf, PcieHost, err_argument}
use cortex_m3_embedded_debug.PcieBus.{
  bdf_of, cfg_vendor_device, cfg_class_revision, cfg_bar0, cfg_interrupt,
}

abbrev pub config_dwords : ℕ
config_dwords = 64

-- `struct pcie_sim_function`
pub record PcieSimFunction : Type 0 where
  pub bdf : Bdf
  pub present : ℕ
  pub config : List ℕ

-- `struct pcie_sim_controller`
pub record PcieSimController : Type 0 where
  pub functions : List PcieSimFunction
  pub function_count : ℕ

-- What the array of the functions gives out of its bounds.
abbrev pub no_function : PcieSimFunction
no_function = record {
  bdf = record { bus = 0; device = 0; function = 0 };
  present = 0;
  config = [];
}

-- the condition of the loop's `if`
unfoldable pub is_function : PcieSimFunction → Bdf → Bool
is_function fn bdf =
    (fn.present != 0)
    && ((fn.bdf.bus == bdf.bus)
        && ((fn.bdf.device == bdf.device) && (fn.bdf.function == bdf.function)))

-- `n` rounds of the loop from `index` on; a function is given by its index, NULL by `none`.
unfoldable pub find_from : PcieSimController → Bdf → ℕ → ℕ → Option ℕ
unfolding is_function
find_from c bdf zero index = none
find_from c bdf (suc n) index =
    let rest = find_from c bdf n (suc index) in
    if is_function (get_or c.functions index no_function) bdf then some index else rest

unfoldable pub sim_find_function : PcieSimController → Bdf → Option ℕ
unfolding find_from
sim_find_function c bdf = find_from c bdf c.function_count 0

-- `fn->config[offset >> 2U]`
abbrev pub word_at : PcieSimController → ℕ → ℕ → ℕ
word_at c i offset = get_or (get_or c.functions i no_function).config (shr offset 2) 0

abbrev pub put_word : PcieSimController → ℕ → ℕ → ℕ → PcieSimController
put_word c i offset value = record c {
  functions = set c.functions i (record (get_or c.functions i no_function) {
    config = set (get_or c.functions i no_function).config (shr offset 2) value;
  });
}

-- the word that is read, and the controller after a write, where `fn` is what the search gave
abbrev pub found_word : PcieSimController → ℕ → Option ℕ → ℕ
found_word c offset none = 0xffffffff
found_word c offset (some i) = word_at c i offset

abbrev pub found_put : PcieSimController → ℕ → ℕ → Option ℕ → PcieSimController
found_put c offset value none = c
found_put c offset value (some i) = put_word c i offset value

-- `priv` is the controller, and `none` for NULL.
unfoldable pub sim_config_read32 :
    Option PcieSimController → Bdf → ℕ → Rc × ℕ × Option PcieSimController
sim_config_read32 none bdf offset = (err_argument, 0, none)
sim_config_read32 (some c) bdf offset = (ok, found_word c offset (sim_find_function c bdf), some c)

unfoldable pub sim_config_write32 :
    Option PcieSimController → Bdf → ℕ → ℕ → Rc × Option PcieSimController
sim_config_write32 none bdf offset value = (err_argument, none)
sim_config_write32 (some c) bdf offset value =
    (ok, some (found_put c offset value (sim_find_function c bdf)))

-- `g_pcie_sim_host_ops`
abbrev pub sim_host : PcieHost
sim_host = record {
  S = Option PcieSimController;
  config_read32 = sim_config_read32;
  config_write32 = sim_config_write32;
}

-- The arguments of `sim_init_function` behind `fn`; it does not use `header_type`.
pub record SimArgs : Type 0 where
  pub bus : ℕ
  pub device : ℕ
  pub function : ℕ
  pub vendor : ℕ
  pub device_id : ℕ
  pub class_code : ℕ
  pub subclass : ℕ
  pub header_type : ℕ
  pub bar0 : ℕ
  pub irq_line : ℕ
  pub irq_pin : ℕ

-- the words that it writes
abbrev pub init_words : SimArgs → List ℕ
init_words a =
    let zeros = replicate config_dwords 0 in
    let ids = set zeros (shr cfg_vendor_device 2) (bit_or (u32 (shl a.device_id 16)) a.vendor) in
    let class =
      set ids (shr cfg_class_revision 2)
        (bit_or (bit_or (u32 (shl a.class_code 24)) (u32 (shl a.subclass 16))) 0x01) in
    let bar = set class (shr cfg_bar0 2) a.bar0 in
    set bar (shr cfg_interrupt 2) (bit_or (u32 (shl a.irq_pin 8)) a.irq_line)

abbrev pub sim_init_function : SimArgs → PcieSimFunction → PcieSimFunction
sim_init_function a fn = record fn {
  bdf = bdf_of a.bus a.device a.function;
  present = 1;
  config = init_words a;
}

-- `sim_init_function(&controller->functions[index], ...)`
abbrev pub init_at : ℕ → SimArgs → PcieSimController → PcieSimController
init_at index a c = record c {
  functions = set c.functions index (sim_init_function a (get_or c.functions index no_function));
}

-- the arguments of the four calls of `pcie_sim_controller_init`
abbrev pub first_args : SimArgs
first_args = record {
  bus = 0;
  device = 1;
  function = 0;
  vendor = 0x1234;
  device_id = 0x5678;
  class_code = 0x02;
  subclass = 0x00;
  header_type = 0x00;
  bar0 = 0x50000000;
  irq_line = 5;
  irq_pin = 1;
}

abbrev pub second_args : SimArgs
second_args = record {
  bus = 0;
  device = 3;
  function = 0;
  vendor = 0xabc;
  device_id = 0x1000;
  class_code = 0x01;
  subclass = 0x06;
  header_type = 0x00;
  bar0 = 0x51000000;
  irq_line = 7;
  irq_pin = 1;
}

abbrev pub third_args : SimArgs
third_args = record {
  bus = 0;
  device = 5;
  function = 0;
  vendor = 0xcafe;
  device_id = 0x0001;
  class_code = 0x04;
  subclass = 0x01;
  header_type = 0x80;
  bar0 = 0x52000000;
  irq_line = 9;
  irq_pin = 1;
}

abbrev pub fourth_args : SimArgs
fourth_args = record {
  bus = 0;
  device = 5;
  function = 0;
  vendor = 0xcafe;
  device_id = 0x0002;
  class_code = 0x03;
  subclass = 0x00;
  header_type = 0x00;
  bar0 = 0x53000000;
  irq_line = 10;
  irq_pin = 1;
}

-- `pcie_sim_controller_init`; `none` is NULL.
unfoldable pub pcie_sim_controller_init : Option PcieSimController → Option PcieSimController
pcie_sim_controller_init none = none
pcie_sim_controller_init (some c) = some (
    init_at 3 fourth_args (
      init_at 2 third_args
        (init_at 1 second_args (init_at 0 first_args (record c { function_count = 4 })))))
