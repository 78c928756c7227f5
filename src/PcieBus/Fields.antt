-- ===== src/PcieBus/Fields.antt =====
-- What the words of a configuration space say of a function, as plain arithmetic.
use native.Mathlib.Nat.{one-le-pow, div-add-mod', mod-lt}
use cortex_m3_embedded_debug.Base.{
  ℕ, zero, suc, ◌+◌, ◌-◌, ◌*◌, ◌/◌, ◌%◌, ◌^◌, ◌<◌, ◌≡◌, refl, ap, sym, ◌∙◌, List, [], ◌∷◌, length,
  Bool, Bool-cases, inl, inr, eq_or_ne, ◌==◌, ◌!=◌, if◌then◌else◌, u8, u16, shr, bit_and, arith,
}
use cortex_m3_embedded_debug.Base.Bits.Mask.{bit_and_mod, bit_flag, bit_and_high}
use cortex_m3_embedded_debug.PcieHost.{Bdf}
use cortex_m3_embedded_debug.PcieBus.{
  PcieBar, PcieDevice, pcie_decode_bar, put_ids, put_class, put_header, put_bar, put_irq,
}

-- the BAR that a word describes
unfoldable pub bar_of : ℕ → PcieBar
bar_of raw =
    if raw % 2 == 1
    then record { raw = raw; address = raw / 4 * 4; is_io = 1; is_64bit = 0; prefetchable = 0 }
    else record {
      raw = raw;
      address = raw / 16 * 16;
      is_io = 0;
      is_64bit = (if raw / 2 % 4 == 2 then 1 else 0);
      prefetchable = raw / 8 % 2;
    }

-- the bits from `k` on
clear_low : (k m x : ℕ) → x / 2 ^ k < 2 ^ m → bit_and x ((2 ^ m - 1) * 2 ^ k) ≡ x / 2 ^ k * 2 ^ k
clear_low k m x h =
    let parts : x / 2 ^ k * 2 ^ k + x % 2 ^ k ≡ x = div-add-mod' x (2 ^ k) in
    ap (λ (y : ℕ). bit_and y ((2 ^ m - 1) * 2 ^ k)) (sym parts)
    ∙ bit_and_high k m (x / 2 ^ k) (x % 2 ^ k) h (mod-lt x (omega (arith, one-le-pow k)))

decode_bar-of : (raw : ℕ) (bar : PcieBar) → raw < 2 ^ 32 → pcie_decode_bar raw bar ≡ bar_of raw
unfolding pcie_decode_bar bar_of
decode_bar-of raw bar h =
    let io : bit_and raw 0x1 ≡ raw % 2 = bit_and_mod 1 32 raw h in
    let io_address : bit_and raw 0xfffffffc ≡ raw / 4 * 4 = clear_low 2 30 raw (omega arith) in
    let address : bit_and raw 0xfffffff0 ≡ raw / 16 * 16 = clear_low 4 28 raw (omega arith) in
    let kind : bit_and (raw / 2) 0x3 ≡ raw / 2 % 4 = bit_and_mod 2 32 (raw / 2) (omega arith) in
    let prefetch : (if bit_and raw 0x8 != 0 then 1 else 0) ≡ raw / 8 % 2 = bit_flag 3 32 raw h in
    elim (eq_or_ne (raw % 2) 1) [
      | inl e ↦ rw (io, e, io_address) refl
      | inr ne ↦ let even : raw % 2 ≡ 0 = omega arith in rw (io, even, address, kind, prefetch) refl
    ]

-- the six BARs from the words at 0x10 to 0x24
abbrev pub bars_of : (ℕ → ℕ) → List PcieBar
bars_of w =
    bar_of (w 16)
    ∷ bar_of (w 20)
    ∷ bar_of (w 24)
    ∷ bar_of (w 28)
    ∷ bar_of (w 32)
    ∷ bar_of (w 36)
    ∷ []

-- The function `bdf` with the configuration space `w`, stored over the entry `old`. The program
-- leaves `prog_if` as it was, and the BARs of a bridge.
unfoldable pub described : (ℕ → ℕ) → Bdf → PcieDevice → PcieDevice
described w bdf old = record old {
  bdf = bdf;
  vendor_id = w 0 % 2 ^ 16;
  device_id = w 0 / 2 ^ 16;
  revision = w 8 % 2 ^ 8;
  subclass = w 8 / 2 ^ 16 % 2 ^ 8;
  class_code = w 8 / 2 ^ 24;
  header_type = w 12 / 2 ^ 16 % 2 ^ 7;
  multifunction = w 12 / 2 ^ 23 % 2;
  bars = (if w 12 / 2 ^ 16 % 2 ^ 7 == 0 then bars_of w else old.bars);
  irq_line = w 60 % 2 ^ 8;
  irq_pin = w 60 / 2 ^ 8 % 2 ^ 8;
}

-- `n` BARs from `index` on, in the array
abbrev pub put_bars : (ℕ → ℕ) → ℕ → ℕ → PcieDevice → PcieDevice
put_bars w zero index dev = dev
put_bars w (suc n) index dev = put_bars w n (suc index) (put_bar index (w (16 + index * 4)) dev)

-- what the program writes into the entry, in its order
abbrev pub written : (ℕ → ℕ) → Bdf → PcieDevice → PcieDevice
written w bdf dev =
    let named = put_header (w 12) (put_class (w 8) (put_ids bdf (w 0) dev)) in
    put_irq (w 60) (if u8 (bit_and (shr (w 12) 16) 0x7f) == 0 then put_bars w 6 0 named else named)

put_bars-all :
    (w : ℕ → ℕ) (dev : PcieDevice)
    → ((off : ℕ) → w off < 2 ^ 32)
    → length dev.bars ≡ 6
    → put_bars w 6 0 dev ≡ record dev { bars = bars_of w }
put_bars-all w dev words six = over dev.bars six
  where
    over :
        (l : List PcieBar)
        → length l ≡ 6
        → put_bars w 6 0 (record dev { bars = l }) ≡ record dev { bars = bars_of w }
    over (a ∷ b ∷ c ∷ d ∷ e ∷ f ∷ []) h =
        rw
          (
            decode_bar-of (w 16) a (words 16),
            decode_bar-of (w 20) b (words 20),
            decode_bar-of (w 24) c (words 24),
            decode_bar-of (w 28) d (words 28),
            decode_bar-of (w 32) e (words 32),
            decode_bar-of (w 36) f (words 36),
          )
          refl
    over (a ∷ b ∷ c ∷ d ∷ e ∷ f ∷ g ∷ l) h = absurd (omega arith)
    over (a ∷ b ∷ c ∷ d ∷ e ∷ []) h = absurd (omega arith)
    over (a ∷ b ∷ c ∷ d ∷ []) h = absurd (omega arith)
    over (a ∷ b ∷ c ∷ []) h = absurd (omega arith)
    over (a ∷ b ∷ []) h = absurd (omega arith)
    over (a ∷ []) h = absurd (omega arith)
    over [] h = absurd (omega arith)

byte : (x : ℕ) → x < 2 ^ 32 → u8 (bit_and x 0xff) ≡ x % 2 ^ 8
byte x h = rw (bit_and_mod 8 32 x h) (omega arith)

pub written-described :
    (w : ℕ → ℕ) (bdf : Bdf) (old : PcieDevice)
    → ((off : ℕ) → w off < 2 ^ 32)
    → length old.bars ≡ 6
    → written w bdf old ≡ described w bdf old
unfolding described
written-described w bdf old words six =
    let vendor : u16 (bit_and (w 0) 0xffff) ≡ w 0 % 2 ^ 16 =
      rw (bit_and_mod 16 32 (w 0) (words 0)) (omega arith) in
    let device : u16 (shr (w 0) 16) ≡ w 0 / 2 ^ 16 = omega (arith, words 0) in
    let subclass : u8 (bit_and (w 8 / 2 ^ 16) 0xff) ≡ w 8 / 2 ^ 16 % 2 ^ 8 =
      byte _ (omega (arith, words 8)) in
    let class : u8 (bit_and (w 8 / 2 ^ 24) 0xff) ≡ w 8 / 2 ^ 24 =
      byte _ (omega (arith, words 8)) ∙ omega (arith, words 8) in
    let kind : u8 (bit_and (w 12 / 2 ^ 16) 0x7f) ≡ w 12 / 2 ^ 16 % 2 ^ 7 =
      rw (bit_and_mod 7 32 (w 12 / 2 ^ 16) (omega (arith, words 12))) (omega arith) in
    let pin : u8 (bit_and (w 60 / 2 ^ 8) 0xff) ≡ w 60 / 2 ^ 8 % 2 ^ 8 =
      byte _ (omega (arith, words 60)) in
    let multi = bit_flag 23 32 (w 12) (words 12) in
    let named = put_header (w 12) (put_class (w 8) (put_ids bdf (w 0) old)) in
    let branch = λ (b : Bool). put_irq (w 60) (if b then put_bars w 6 0 named else named) in
    let test = ap (λ (h : ℕ). h == 0) kind in
    elim (Bool-cases (w 12 / 2 ^ 16 % 2 ^ 7 == 0)) [
      | inl e ↦
          ap branch (test ∙ e)
          ∙ ap (put_irq (w 60)) (put_bars-all w named words six)
          ∙ rw
              (
                e,
                kind,
                vendor,
                device,
                byte (w 8) (words 8),
                subclass,
                class,
                multi,
                byte (w 60) (words 60),
                pin,
              )
              refl
      | inr e ↦
          ap branch (test ∙ e)
          ∙ rw
              (
                e,
                kind,
                vendor,
                device,
                byte (w 8) (words 8),
                subclass,
                class,
                multi,
                byte (w 60) (words 60),
                pin,
              )
              refl
    ]
