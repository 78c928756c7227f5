-- ===== src/PcieBus/Enumerate.antt =====
-- `pcie_enumerate` against the entry of the functions that answer.
use cortex_m3_embedded_debug.Base.{
  ℕ, zero, suc, ◌+◌, ◌/◌, ◌%◌, ◌^◌, ◌≤◌, ◌<◌, ◌≡◌, refl, ap, sym, ◌∙◌, List, [], ◌∷◌, ◌++◌, length,
  Bool-cases, eq_or_ne, not, inl, inr, ◌==◌, if◌then◌else◌, u8, u16, bit_and, arith, leb,
}
use cortex_m3_embedded_debug.Base.Exec.{◌>>=◌, pure, continue-pure}
use cortex_m3_embedded_debug.Base.Bits.Mask.{bit_and_mod, bit_and_bit}
use cortex_m3_embedded_debug.PcieHost.{Bdf, PcieHost}
use cortex_m3_embedded_debug.PcieHost.Guards.{IsBdf}
use cortex_m3_embedded_debug.PcieBus.{
  PcieBus, bdf_of, pcie_read32, cfg_header, add_function, pcie_scan_function, scan_functions,
  scan_present, pcie_scan_device, scan_devices,
}
use cortex_m3_embedded_debug.PcieBus.Read.{Answers, IsHosted, read32-at, read_function-at}
use cortex_m3_embedded_debug.PcieBus.Scan.{
  if_present, functions, device_functions, bus_functions, enter, enter_all, IsReady, Enters,
  Enters-then,
}

module _ (H : PcieHost) (s0 : H.S) (cfg : Bdf → ℕ → ℕ) (answers : Answers H s0 cfg) where
  host_of : (b : PcieBus H.S) → IsReady H s0 cfg b → IsHosted H s0 cfg answers b
  host_of b r = record { hosted = r.hosted; at_host = r.at_host }

  add_function-enter :
      (f : Bdf) (b : PcieBus H.S)
      → IsBdf f
      → IsReady H s0 cfg b
      → add_function H f b ≡ enter H s0 cfg f b
  unfolding add_function enter
  add_function-enter f b hf r = elim (Bool-cases (leb 16 b.device_count)) [
    | inl e ↦ rw e refl
    | inr e ↦
        let room : b.device_count < length b.devices = ground (arith, r.sixteen) in
        rw
          (
            e,
            read_function-at H s0 cfg answers f b hf (host_of b r) room
                (λ i lt. r.six i (omega (arith, r.sixteen))),
          )
          refl
  ]

  vendor : (f : Bdf) → u16 (bit_and (cfg f 0) 0xffff) ≡ cfg f 0 % 2 ^ 16
  vendor f = rw (bit_and_mod 16 32 (cfg f 0) (answers.words f 0)) (omega arith)

  scan_function-Enters :
      (bus device function : ℕ)
      → device < 32
      → function < 8
      → Enters H s0 cfg
          (pcie_scan_function H bus device function)
          (if_present H s0 cfg (bdf_of bus device function))
  unfolding pcie_scan_function enter_all
  scan_function-Enters bus device function hd hf b r =
      let f = bdf_of bus device function in
      let first =
        read32-at H s0 cfg answers f 0 b (hd, hf) (omega arith) (omega arith) (host_of b r) in
      elim (Bool-cases (cfg f 0 % 2 ^ 16 == 65535)) [
        | inl e ↦ rw (first, vendor f, e) refl
        | inr e ↦
            rw (first, vendor f, e)
              (add_function-enter f b (hd, hf) r ∙ sym (continue-pure (enter H s0 cfg f b)))
      ]

  scan_functions-Enters :
      (n bus device function : ℕ)
      → device < 32
      → function + n ≤ 8
      → Enters H s0 cfg
          (scan_functions H n bus device function)
          (functions H s0 cfg n bus device function)
  unfolding scan_functions enter_all
  scan_functions-Enters zero bus device function hd h b r = refl
  scan_functions-Enters (suc n) bus device function hd h b r =
      let low : u8 function ≡ function = omega arith in
      rw low (
        Enters-then H s0 cfg (if_present H s0 cfg (bdf_of bus device function))
          (functions H s0 cfg n bus device (suc function))
          (scan_function-Enters bus device function hd (omega arith))
          (scan_functions-Enters n bus device (suc function) hd (omega arith)) b r)

  -- the functions behind function 0
  further : ℕ → ℕ → List Bdf
  further bus device =
      if cfg (bdf_of bus device 0) 12 / 2 ^ 23 % 2 == 1
      then functions H s0 cfg 7 bus device 1
      else []

  further-Enters :
      (bus device : ℕ)
      → device < 32
      → Enters H s0 cfg
          (do
            header ← pcie_read32 H (bdf_of bus device 0) cfg_header
            if bit_and header 0x00800000 == 0 then pure tt else scan_functions H 7 bus device 1)
          (further bus device)
  unfolding further enter_all
  further-Enters bus device hd b r =
      let f = bdf_of bus device 0 in
      let h = cfg f 12 in
      let read =
        read32-at H s0 cfg answers f 12 b (hd, omega arith) (omega arith) (omega arith)
          (host_of b r) in
      let flag = bit_and_bit 23 32 h (answers.words f 12) in
      elim (eq_or_ne (h / 2 ^ 23 % 2) 1) [
        | inl e ↦ rw (read, flag, e) (scan_functions-Enters 7 bus device 1 hd (omega arith) b r)
        | inr ne ↦ let clear : h / 2 ^ 23 % 2 ≡ 0 = omega arith in rw (read, flag, clear) refl
      ]

  scan_device-Enters :
      (bus device : ℕ)
      → device < 32
      → Enters H s0 cfg (pcie_scan_device H bus device) (device_functions H s0 cfg bus device)
  unfolding pcie_scan_device scan_present further enter_all
  scan_device-Enters bus device hd b r =
      let f = bdf_of bus device 0 in
      let read =
        read32-at H s0 cfg answers f 0 b (hd, omega arith) (omega arith) (omega arith)
          (host_of b r) in
      elim (Bool-cases (cfg f 0 % 2 ^ 16 == 65535)) [
        | inl e ↦ rw (read, vendor f, e) refl
        | inr e ↦
            let one = ap (λ t. (if not t then f ∷ [] else []) ++ further bus device) e in
            rw (read, vendor f, e)
              (Enters-then H s0 cfg (if_present H s0 cfg f) (further bus device)
                  (scan_function-Enters bus device 0 hd (omega arith))
                  (further-Enters bus device hd) b r
                ∙ ap (λ fs. enter_all H s0 cfg fs b) one)
      ]

  pub scan_devices-Enters :
      (n bus device : ℕ)
      → device + n ≤ 32
      → Enters H s0 cfg (scan_devices H n bus device) (bus_functions H s0 cfg n bus device)
  unfolding scan_devices enter_all
  scan_devices-Enters zero bus device h b r = refl
  scan_devices-Enters (suc n) bus device h b r =
      let low : u8 device ≡ device = omega arith in
      rw low (
        Enters-then H s0 cfg (device_functions H s0 cfg bus device)
          (bus_functions H s0 cfg n bus (suc device)) (scan_device-Enters bus device (omega arith))
          (scan_devices-Enters n bus (suc device) (omega arith)) b r)
