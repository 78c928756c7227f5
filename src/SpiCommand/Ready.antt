-- ===== src/SpiCommand/Ready.antt =====
-- When a client is ready.
use cortex_m3_embedded_debug.Base.{
  ℕ, ◌≡◌, ◌≢◌, inl, inr, refl, Bool, true, false, Bool-cases, not, ◌||◌, ◌==◌, ◌!=◌, if◌then◌else◌,
  not32, bit_and, Rc, Errno, ok, fail, arith, ==→ne, ne→==, eq→!=, einval, enotsup, enodev,
}
use cortex_m3_embedded_debug.Zephyr.Spi.{SpiFlags, SpiConfig, Spi}
use cortex_m3_embedded_debug.SpiCommand.{allowed, same, cs_ready, config_ready}

-- a check that was passed
passed :
    (e : Errno) (b : Bool) {rest : Rc}
    → (if b then fail e else rest) ≡ ok
    → (b ≡ false) × (rest ≡ ok)
passed e true h = absurd (ground arith)
passed e false h = (refl, h)

-- the branch that was taken
branch_true : (c : Bool) (y : Rc) {x : Rc} → c ≡ true → (if c then x else y) ≡ ok → x ≡ ok
branch_true true y e h = h
branch_true false y e h = absurd (ground arith)

branch_false : (c : Bool) (x : Rc) {y : Rc} → c ≡ false → (if c then x else y) ≡ ok → y ≡ ok
branch_false true x e h = absurd (ground arith)
branch_false false x e h = h

neither : (a b : Bool) → (a || b) ≡ false → (a ≡ false) × (b ≡ false)
neither true b h = absurd (ground arith)
neither false b h = (refl, h)

negated : (b : Bool) → not b ≡ false → b ≡ true
negated true h = refl
negated false h = absurd (ground arith)

zero_of : (a b : ℕ) → (a != b) ≡ false → a ≡ b
zero_of a b h = ground arith

module _ (Z : SpiFlags) (P : Spi) (config : SpiConfig) (b : P.Bus) where
  -- the chip select is one that the driver can use
  pub data IsSelectable : Type 0 where
    gpio :
        config.cs_is_gpio ≡ true
        → config.has_port ≡ true
        → P.gpio_ready b ≡ true
        → same
            (bit_and config.dt_flags Z.gpio_active_low != 0)
            (bit_and config.operation Z.cs_active_high != 0)
          ≡ false
        → IsSelectable
    looped : config.cs_is_gpio ≡ false → bit_and config.operation Z.mode_loop ≢ 0 → IsSelectable

  -- bytes of 8 bits as a controller, with no flag but those of the clock, the loop and the select
  pub record IsUsable : Type 0 where
    pub clocked : config.frequency ≢ 0
    pub controller : Z.op_mode_get config.operation ≡ Z.op_mode_controller
    pub word : Z.word_size_get config.operation ≡ 8
    pub no_other : bit_and config.operation (not32 (allowed Z P)) ≡ 0
    pub full_duplex : bit_and config.operation Z.half_duplex ≡ 0
    pub not_ti : bit_and config.operation Z.frame_format_ti ≡ 0
    pub not_held : bit_and config.operation Z.hold_on_cs ≡ 0
    pub not_locked : bit_and config.operation Z.lock_on ≡ 0
    pub bus_ready : P.is_ready b ≡ true
    pub selectable : IsSelectable

  cs_ready-IsSelectable : cs_ready Z P config b ≡ ok → IsSelectable
  unfolding cs_ready
  cs_ready-IsSelectable h = elim (Bool-cases config.cs_is_gpio) [
    | inl g ↦
        let (port, h1) =
          passed einval (not config.has_port) (branch_true config.cs_is_gpio _ g h) in
        let (ready, h2) = passed enodev (not (P.gpio_ready b)) h1 in
        let (polarity, h3) =
          passed einval
            (same (bit_and config.dt_flags Z.gpio_active_low != 0)
              (bit_and config.operation Z.cs_active_high != 0))
            h2 in
        gpio g (negated config.has_port port) (negated (P.gpio_ready b) ready) polarity
    | inr g ↦
        let (loop, h1) =
          passed enotsup (bit_and config.operation Z.mode_loop == 0)
            (branch_false config.cs_is_gpio _ g h) in
        looped g (==→ne (bit_and config.operation Z.mode_loop) 0 loop)
  ]

  pub config_ready-IsUsable : config_ready Z P config b ≡ ok → IsUsable
  unfolding config_ready
  config_ready-IsUsable h =
      let (frequency, h1) = passed einval (config.frequency == 0) h in
      let (mode, h2) = passed enotsup (Z.op_mode_get config.operation != Z.op_mode_controller) h1 in
      let (flags, h3) =
        passed enotsup
          ((Z.word_size_get config.operation != 8)
            || (bit_and config.operation (not32 (allowed Z P)) != 0))
          h2 in
      let (word, other) =
        neither (Z.word_size_get config.operation != 8)
          (bit_and config.operation (not32 (allowed Z P)) != 0) flags in
      let (half, h4) = passed enotsup (bit_and config.operation Z.half_duplex != 0) h3 in
      let (ti, h5) = passed enotsup (bit_and config.operation Z.frame_format_ti != 0) h4 in
      let (holds, h6) =
        passed enotsup
          ((bit_and config.operation Z.hold_on_cs != 0)
            || (bit_and config.operation Z.lock_on != 0))
          h5 in
      let (hold, lock) =
        neither (bit_and config.operation Z.hold_on_cs != 0)
          (bit_and config.operation Z.lock_on != 0) holds in
      let (bus, h7) = passed enodev (not (P.is_ready b)) h6 in
      record {
        clocked = ==→ne config.frequency 0 frequency;
        controller = zero_of _ _ mode;
        word = zero_of _ _ word;
        no_other = zero_of _ _ other;
        full_duplex = zero_of _ _ half;
        not_ti = zero_of _ _ ti;
        not_held = zero_of _ _ hold;
        not_locked = zero_of _ _ lock;
        bus_ready = negated (P.is_ready b) bus;
        selectable = cs_ready-IsSelectable h7;
      }

  cs_selected : IsSelectable → cs_ready Z P config b ≡ ok
  unfolding cs_ready
  cs_selected (gpio g p r s) = rw (g, p, r, s) refl
  cs_selected (looped g l) = rw (g, ne→== (bit_and config.operation Z.mode_loop) 0 l) refl

  pub config_ready_complete : IsUsable → config_ready Z P config b ≡ ok
  unfolding config_ready
  config_ready_complete u =
      rw
        (
          ne→== config.frequency 0 u.clocked,
          u.controller,
          u.word,
          u.no_other,
          u.full_duplex,
          u.not_ti,
          u.not_held,
          u.not_locked,
          u.bus_ready,
          cs_selected u.selectable,
        )
        (rw (eq→!= Z.op_mode_controller Z.op_mode_controller refl) refl)
