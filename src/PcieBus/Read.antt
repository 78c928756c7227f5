-- ===== src/PcieBus/Read.antt =====
-- `pcie_read_function` on a host that answers every read from one configuration space.
use cortex_m3_embedded_debug.Base.{
  ℕ, zero, suc, ◌+◌, ◌*◌, ◌%◌, ◌^◌, ◌≤◌, ◌<◌, ◌≡◌, refl, ap, sym, ◌∙◌, List, length, set, get_or,
  get_or-set_self, set-set, set-get_or, true, Bool-cases, inl, inr, ◌==◌, if◌then◌else◌, u8, u16,
  shr, bit_and, arith, ok,
}
use cortex_m3_embedded_debug.Base.Exec.{value}
use cortex_m3_embedded_debug.PcieHost.{Bdf, PcieHost}
use cortex_m3_embedded_debug.PcieHost.Guards.{IsBdf, config_read32-valid}
use cortex_m3_embedded_debug.PcieBus.{
  PcieBus, PcieDevice, pcie_read32, at_dev, read_bars, read_normal, pcie_read_function, put_ids,
  put_class, put_header, put_bar, put_irq, no_device, header_type_normal,
}
use cortex_m3_embedded_debug.PcieBus.Fields.{put_bars, described, written-described}

-- The host answers every read with the word of the configuration space `cfg`, and a read changes
-- nothing of it.
pub record Answers (H : PcieHost) (s0 : H.S) (cfg : Bdf → ℕ → ℕ) : Type 0 where
  pub reads : (bdf : Bdf) (off : ℕ) → H.config_read32 s0 bdf off ≡ (ok, cfg bdf off, s0)
  pub words : (bdf : Bdf) (off : ℕ) → cfg bdf off < 2 ^ 32

module _ (H : PcieHost) (s0 : H.S) (cfg : Bdf → ℕ → ℕ) (answers : Answers H s0 cfg) where
  abbrev pub Bus : Type 0
  Bus = PcieBus H.S

  pub record IsHosted (b : Bus) : Type 0 where
    pub hosted : b.has_host ≡ true
    pub at_host : b.host ≡ s0

  pub read32-at :
      (bdf : Bdf) (off : ℕ) (b : Bus)
      → IsBdf bdf
      → off < 256
      → off % 4 ≡ 0
      → IsHosted b
      → pcie_read32 H bdf off b ≡ (value (cfg bdf off), b)
  unfolding pcie_read32
  read32-at bdf off b hb lt aligned at =
      rw
        (
          at.hosted,
          at.at_host,
          config_read32-valid H bdf off s0 hb (lt, aligned),
          answers.reads bdf off,
        )
        refl

  -- the bus with `d` as the entry behind the last one
  abbrev pub put : Bus → PcieDevice → Bus
  put b d = record b { devices = set b.devices b.device_count d }

  put-get : (b : Bus) → put b (get_or b.devices b.device_count no_device) ≡ b
  put-get b =
      ap (λ (l : List PcieDevice). record b { devices = l })
        (set-get_or b.devices b.device_count no_device)

  read32-put :
      (bdf : Bdf) (off : ℕ) (b : Bus) (d : PcieDevice)
      → IsBdf bdf
      → off < 256
      → off % 4 ≡ 0
      → IsHosted b
      → pcie_read32 H bdf off (put b d) ≡ (value (cfg bdf off), put b d)
  read32-put bdf off b d hb lt aligned at =
      read32-at bdf off (put b d) hb lt aligned
        (record { hosted = at.hosted; at_host = at.at_host })

  at_dev-put :
      (f : PcieDevice → PcieDevice) (b : Bus) (d : PcieDevice)
      → b.device_count < length b.devices
      → at_dev H f (put b d) ≡ (value tt, put b (f d))
  unfolding at_dev
  at_dev-put f b d room =
      rw
        (
          get_or-set_self b.devices b.device_count d no_device room,
          set-set b.devices b.device_count d (f d),
        )
        refl

  module _ (bdf : Bdf) (b : Bus) (hb : IsBdf bdf) (at : IsHosted b)
      (room : b.device_count < length b.devices) where
    read_bars-put :
        (n index : ℕ) (d : PcieDevice)
        → index + n ≤ 6
        → read_bars H n index bdf (put b d) ≡ (value tt, put b (put_bars (cfg bdf) n index d))
    unfolding read_bars
    read_bars-put zero index d h = refl
    read_bars-put (suc n) index d h =
        let off = 16 + index * 4 in
        let fits : u16 off ≡ off = omega arith in
        rw
          (
            fits,
            read32-put bdf off b d hb (omega arith) (omega arith) at,
            at_dev-put (put_bar index (cfg bdf off)) b d room,
          )
          (read_bars-put n (suc index) (put_bar index (cfg bdf off) d) (omega arith))

    read_normal-put :
        (header : ℕ) (d : PcieDevice)
        → read_normal H header bdf (put b d) ≡ (
          value tt,
          put b (
              if u8 (bit_and (shr header 16) 0x7f) == header_type_normal
              then put_bars (cfg bdf) 6 0 d
              else d),
        )
    unfolding read_normal
    read_normal-put header d =
        elim (Bool-cases (u8 (bit_and (shr header 16) 0x7f) == header_type_normal)) [
          | inl e ↦ rw e (read_bars-put 6 0 d (omega arith))
          | inr e ↦ rw e refl
        ]

    pub read_function-at :
        ((i : ℕ) → i < length b.devices → length (get_or b.devices i no_device).bars ≡ 6)
        → pcie_read_function H bdf b
          ≡ (value tt, put b (described (cfg bdf) bdf (get_or b.devices b.device_count no_device)))
    unfolding pcie_read_function
    read_function-at six =
        let d0 = get_or b.devices b.device_count no_device in
        let d1 = put_ids bdf (cfg bdf 0) d0 in
        let d2 = put_class (cfg bdf 8) d1 in
        let d3 = put_header (cfg bdf 12) d2 in
        let d4 =
          if u8 (bit_and (shr (cfg bdf 12) 16) 0x7f) == header_type_normal
          then put_bars (cfg bdf) 6 0 d3
          else d3 in
        ap (pcie_read_function H bdf) (sym (put-get b))
        ∙ rw
            (
              read32-put bdf 0 b d0 hb (omega arith) (omega arith) at,
              at_dev-put (put_ids bdf (cfg bdf 0)) b d0 room,
              read32-put bdf 8 b d1 hb (omega arith) (omega arith) at,
              at_dev-put (put_class (cfg bdf 8)) b d1 room,
              read32-put bdf 12 b d2 hb (omega arith) (omega arith) at,
              at_dev-put (put_header (cfg bdf 12)) b d2 room,
              read_normal-put (cfg bdf 12) d3,
              read32-put bdf 60 b d4 hb (omega arith) (omega arith) at,
              at_dev-put (put_irq (cfg bdf 60)) b d4 room,
            )
            (ap (λ d. (value tt, put b d))
              (written-described (cfg bdf) bdf d0 (answers.words bdf) (six b.device_count room)))
