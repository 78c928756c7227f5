-- ===== src/PcieSim/Tests.antt =====
-- The enumeration of the simulated host, and the theorems of both at it.
use cortex_m3_embedded_debug.Base.{
  ℕ, zero, suc, ◌^◌, ◌<◌, ◌≡◌, refl, Bool, true, false, ltb, if◌then◌else◌, some, List, [], ◌∷◌,
  length, get_or, get_or-replicate, replicate, shr, arith, ok, ◌≢◌, ◌⊎◌,
}
use cortex_m3_embedded_debug.PcieHost.{
  Bdf, pcie_config_read32, pcie_config_write32, pcie_validate_bdf, pcie_validate_offset,
}
use cortex_m3_embedded_debug.PcieHost.Guards.{
  IsBdf, IsOffset, IsAccess, Reaches, Refused, config_guarded,
}
use cortex_m3_embedded_debug.PcieBus.Read.{Answers}
use cortex_m3_embedded_debug.Base.Exec.{result}
use cortex_m3_embedded_debug.PcieBus.{
  PcieBus, PcieDevice, bdf_of, no_bar, no_device, pcie_enumerate, pcie_scan_bus, scan_devices,
  pcie_scan_device, scan_present, scan_functions, pcie_scan_function, add_function,
  pcie_read_function, read_normal, read_bars, at_dev, pcie_read32, pcie_decode_bar,
}
use cortex_m3_embedded_debug.PcieBus.Scan.{IsReady, bus_functions, enter_all}
use cortex_m3_embedded_debug.PcieBus.Contents.{
  Recorded, at_start, enumerate_records, enumerate_refines,
}
use cortex_m3_embedded_debug.PcieBus.Exact.{Exact, enumerate-Exact}
use cortex_m3_embedded_debug.PcieSim.{
  PcieSimController, no_function, sim_init_function, first_args, second_args, third_args,
  fourth_args, sim_host, sim_config_read32, sim_find_function, find_from, is_function,
  pcie_sim_controller_init,
}
use cortex_m3_embedded_debug.PcieSim.Memory.{IsSim, IsWords, sim_word, sim-Answers, write_then_read}

-- the controller after `pcie_sim_controller_init`
abbrev controller : PcieSimController
controller = record {
  functions =
      sim_init_function first_args no_function
      ∷ sim_init_function second_args no_function
      ∷ sim_init_function third_args no_function
      ∷ sim_init_function fourth_args no_function
      ∷ [];
  function_count = 4;
}

controller-init :
    pcie_sim_controller_init
      (some (record { functions = replicate 4 no_function; function_count = 0 }))
    ≡ some controller
unfolding pcie_sim_controller_init
controller-init = refl

abbrev empty_entry : PcieDevice
empty_entry = record no_device { bars = replicate 6 no_bar }

abbrev bus : PcieBus sim_host.S
bus = record {
  has_host = true;
  host = some controller;
  devices = replicate 16 empty_entry;
  device_count = 9;
}

all_words : List ℕ → Bool
all_words [] = true
all_words (w ∷ ws) = if ltb w (2 ^ 32) then all_words ws else false

all_words-bound : (ws : List ℕ) (i : ℕ) → all_words ws ≡ true → get_or ws i 0 < 2 ^ 32
unfolding all_words
all_words-bound [] i h = omega arith
all_words-bound (w ∷ ws) zero h = ground arith
all_words-bound (w ∷ ws) (suc i) h = all_words-bound ws i (ground arith)

abbrev config : ℕ → List ℕ
config i = (get_or controller.functions i no_function).config

controller-IsWords : IsWords controller
unfolding all_words
controller-IsWords zero off = all_words-bound (config 0) (shr off 2) refl
controller-IsWords (suc zero) off = all_words-bound (config 1) (shr off 2) refl
controller-IsWords (suc (suc zero)) off = all_words-bound (config 2) (shr off 2) refl
controller-IsWords (suc (suc (suc zero))) off = all_words-bound (config 3) (shr off 2) refl
controller-IsWords (suc (suc (suc (suc i)))) off = omega arith

bus-IsReady : IsReady sim_host (some controller) (sim_word controller) bus
bus-IsReady = record {
  hosted = refl;
  at_host = refl;
  sixteen = refl;
  six = λ i lt. rw (get_or-replicate 16 i empty_entry no_device lt) refl;
}

answers : Answers sim_host (some controller) (sim_word controller)
answers = sim-Answers controller controller-IsWords

-- The search gives the first of two functions with one address, so three functions are found; the
-- fourth one of the controller, which has the address of the third, is not.
found_three :
    bus_functions sim_host (some controller) (sim_word controller) 32 0 0
    ≡ bdf_of 0 1 0 ∷ bdf_of 0 3 0 ∷ bdf_of 0 5 0 ∷ []
unfolding sim_find_function find_from is_function
found_three = refl

enumerated : (pcie_enumerate sim_host (some bus)).0 ≡ ok
unfolding pcie_enumerate pcie_scan_bus scan_devices pcie_scan_device scan_present scan_functions
    pcie_scan_function add_function pcie_read_function read_normal read_bars at_dev pcie_read32
    pcie_config_read32 pcie_validate_bdf pcie_validate_offset pcie_decode_bar sim_config_read32
    sim_find_function find_from is_function
enumerated = refl

enumerate_refines_example : pcie_enumerate sim_host (some bus) ≡ (
    let out = result (
      enter_all sim_host
        (some controller)
        (sim_word controller)
        (bus_functions sim_host (some controller) (sim_word controller) 32 0 0)
        (at_start bus)) in
    (out.0, some out.1))
enumerate_refines_example =
    enumerate_refines sim_host (some controller) (sim_word controller) answers bus bus-IsReady

enumerate_records_example :
    (b' : PcieBus sim_host.S) × (((pcie_enumerate sim_host (some bus)).1 ≡ some b')
      × Recorded sim_host
          (some controller)
          (sim_word controller)
          (bus_functions sim_host (some controller) (sim_word controller) 32 0 0)
          (at_start bus)
          (pcie_enumerate sim_host (some bus)).0
          b')
enumerate_records_example =
    enumerate_records sim_host (some controller) (sim_word controller) answers bus bus-IsReady

enumerate-Exact_example :
    (b' : PcieBus sim_host.S) × (((pcie_enumerate sim_host (some bus)).1 ≡ some b')
      × Exact sim_host
          (some controller)
          (sim_word controller)
          bus
          (pcie_enumerate sim_host (some bus)).0
          b')
enumerate-Exact_example =
    enumerate-Exact sim_host (some controller) (sim_word controller) answers bus bus-IsReady

controller-IsSim : IsSim controller
controller-IsSim = record { counted = omega arith; sized = sized }
  where
    sized : (i : ℕ) → i < 4 → length (config i) ≡ 64
    sized zero h = refl
    sized (suc zero) h = refl
    sized (suc (suc zero)) h = refl
    sized (suc (suc (suc zero))) h = refl
    sized (suc (suc (suc (suc i)))) h = absurd (omega arith)

found_second : sim_find_function controller (bdf_of 0 3 0) ≡ some 1
unfolding sim_find_function find_from is_function
found_second = refl

write_then_read_example :
    (c' : PcieSimController) × ((pcie_config_write32 sim_host true
          (bdf_of 0 3 0)
          16
          4096
          (some controller)
        ≡ (ok, some c'))
      × ((pcie_config_read32 sim_host true (bdf_of 0 3 0) 16 (some c') ≡ (ok, 4096, some c'))
          × ((b : Bdf) (o : ℕ)
              → IsBdf b
              → IsOffset o
              → (b ≢ bdf_of 0 3 0) ⊎ (o ≢ 16)
              → (pcie_config_read32 sim_host true b o (some c')).1
                ≡ (pcie_config_read32 sim_host true b o (some controller)).1)))
write_then_read_example =
    write_then_read controller (bdf_of 0 3 0) 16 4096 1 controller-IsSim (omega arith, omega arith)
      (omega arith, refl) found_second

config_guarded_example :
    (IsAccess sim_host true (bdf_of 0 32 0) 16
      × Reaches sim_host (bdf_of 0 32 0) 16 7 true (some controller))
    ⊎ ((¬ IsAccess sim_host true (bdf_of 0 32 0) 16)
        × Refused sim_host (bdf_of 0 32 0) 16 7 true (some controller))
config_guarded_example = config_guarded sim_host true (bdf_of 0 32 0) 16 7 (some controller)
