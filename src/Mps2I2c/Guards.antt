-- ===== src/Mps2I2c/Guards.antt =====
-- The checks before a transfer, without the masks of the code.
use cortex_m3_embedded_debug.Base.{
  ℕ, ◌/◌, ◌%◌, ◌<◌, ◌≡◌, ◌≢◌, ◌⊎◌, inl, inr, refl, sym, Bool, true, false, not, ◌&&◌, ◌||◌, ◌==◌,
  ◌!=◌, leb, Option, none, some, List, [], ◌∷◌, length, Errno, fail, other, bit_and, not32,
  eq_or_ne, ne→==, arith,
}
use cortex_m3_embedded_debug.Base.Bits.{all_below, all_below_sound}
use cortex_m3_embedded_debug.Base.Exec.{result}
use cortex_m3_embedded_debug.I2cLine.{Pins, Mps2I2cBus}
use cortex_m3_embedded_debug.Mps2I2c.{
  Mps2I2cMsg, Transfer, allowed, has_flag, msg_stop, msg_restart, bus_valid, messages_valid,
  all_messages, mps2_i2c_transfer,
}

-- the flags of `uint8_t`
abbrev pub AllBytes : List Mps2I2cMsg → Type 0
AllBytes [] = Unit
AllBytes (m ∷ ms) = (m.flags < 256) × AllBytes ms

-- a buffer, a byte, and none but the three flags
abbrev pub IsFilled : Mps2I2cMsg → Type 0
IsFilled m = (m.has_buf ≡ true) × ((0 < m.len) × (m.flags < 8))

-- The messages behind one with the flags of the option: a message that does not follow a STOP
-- (flag 2) asks for a restart (flag 4).
abbrev pub AllJoined : Option ℕ → List Mps2I2cMsg → Type 0
AllJoined before [] = Unit
AllJoined none (m ∷ ms) = IsFilled m × AllJoined (some m.flags) ms
AllJoined (some flags) (m ∷ ms) =
    IsFilled m × (((flags / 2 % 2 ≡ 1) ⊎ (m.flags / 4 % 2 ≡ 1)) × AllJoined (some m.flags) ms)

-- what a transfer needs
pub record IsProper (bus : Mps2I2cBus) (ms : List Mps2I2cMsg) (target_addr : ℕ) : Type 0 where
  pub registers : bus.has_regs ≡ true
  pub some_delay : bus.delay_cycles ≢ 0
  pub some_timeout : bus.timeout_cycles ≢ 0
  pub some_message : length ms ≢ 0
  pub some_address : target_addr ≢ 0x7f
  pub joined : AllJoined none ms

agree : Bool → Bool → Bool
agree true b = b
agree false b = not b

agree_eq : (a b : Bool) → agree a b ≡ true → a ≡ b
unfolding agree
agree_eq true b h = sym h
agree_eq false true h = absurd (ground arith)
agree_eq false false h = refl

other_table : all_below 256 (λ f. agree (bit_and f (not32 allowed) != 0) (leb 8 f)) ≡ true
unfolding all_below agree
other_table = refl

stop_table : all_below 256 (λ f. agree (has_flag f msg_stop) (f / 2 % 2 == 1)) ≡ true
unfolding all_below agree
stop_table = refl

restart_table : all_below 256 (λ f. agree (has_flag f msg_restart) (f / 4 % 2 == 1)) ≡ true
unfolding all_below agree
restart_table = refl

-- the checks of one message, and those between two
abbrev wrong : Mps2I2cMsg → Bool
wrong m = not m.has_buf || (m.len == 0 || bit_and m.flags (not32 allowed) != 0)

wrong_lem :
    (m : Mps2I2cMsg)
    → m.flags < 256
    → ((wrong m ≡ true) × (¬ IsFilled m)) ⊎ ((wrong m ≡ false) × IsFilled m)
wrong_lem m h =
    let same = agree_eq _ _ (all_below_sound 256 _ m.flags other_table h) in
    cases m.has_buf m.len (bit_and m.flags (not32 allowed) != 0) same
  where
    cases :
        (b : Bool) (n : ℕ) (others : Bool)
        → others ≡ leb 8 m.flags
        → (((not b || (n == 0 || others)) ≡ true) × (¬ ((b ≡ true) × ((0 < n) × (m.flags < 8)))))
          ⊎ (((not b || (n == 0 || others)) ≡ false) × ((b ≡ true) × ((0 < n) × (m.flags < 8))))
    cases b n others same = ground arith

apart_lem :
    (before after : ℕ)
    → before < 256
    → after < 256
    → (((not (has_flag before msg_stop) && not (has_flag after msg_restart)) ≡ true)
        × (¬ ((before / 2 % 2 ≡ 1) ⊎ (after / 4 % 2 ≡ 1))))
      ⊎ (((not (has_flag before msg_stop) && not (has_flag after msg_restart)) ≡ false)
          × ((before / 2 % 2 ≡ 1) ⊎ (after / 4 % 2 ≡ 1)))
apart_lem before after hb ha =
    cases (has_flag before msg_stop) (has_flag after msg_restart)
      (agree_eq _ _ (all_below_sound 256 _ before stop_table hb))
      (agree_eq _ _ (all_below_sound 256 _ after restart_table ha))
  where
    cases :
        (s r : Bool)
        → s ≡ (before / 2 % 2 == 1)
        → r ≡ (after / 4 % 2 == 1)
        → (((not s && not r) ≡ true) × (¬ ((before / 2 % 2 ≡ 1) ⊎ (after / 4 % 2 ≡ 1))))
          ⊎ (((not s && not r) ≡ false) × ((before / 2 % 2 ≡ 1) ⊎ (after / 4 % 2 ≡ 1)))
    cases s r hs hr = ground arith

abbrev Decided : Option ℕ → List Mps2I2cMsg → Type 0
Decided before ms =
    ((messages_valid before ms ≡ true) × AllJoined before ms)
    ⊎ ((messages_valid before ms ≡ false) × (¬ AllJoined before ms))

-- a message with nothing before it
first-Decided :
    (m : Mps2I2cMsg) (ms : List Mps2I2cMsg)
    → m.flags < 256
    → Decided (some m.flags) ms
    → Decided none (m ∷ ms)
unfolding messages_valid
first-Decided m ms h rest = elim (wrong_lem m h) [
  | inl (bad, not_filled) ↦ inr (rw bad refl, λ all. not_filled all.0)
  | inr (good, filled) ↦ elim rest [
    | inl (valid, all) ↦ inl (rw (good, valid) refl, (filled, all))
    | inr (refused, none_joined) ↦ inr (rw (good, refused) refl, λ all. none_joined all.1)
  ]
]

-- a message behind another one
next-Decided :
    (before : ℕ) (m : Mps2I2cMsg) (ms : List Mps2I2cMsg)
    → before < 256
    → m.flags < 256
    → Decided (some m.flags) ms
    → Decided (some before) (m ∷ ms)
unfolding messages_valid
next-Decided before m ms hb h rest = elim (wrong_lem m h) [
  | inl (bad, not_filled) ↦ inr (rw bad refl, λ all. not_filled all.0)
  | inr (good, filled) ↦ elim (apart_lem before m.flags hb h) [
    | inl (apart, not_joined) ↦ inr (rw (good, apart) refl, λ all. not_joined all.1.0)
    | inr (together, joins) ↦ elim rest [
      | inl (valid, all) ↦ inl (rw (good, together, valid) refl, (filled, (joins, all)))
      | inr (refused, none_joined) ↦
          inr (rw (good, together, refused) refl, λ all. none_joined all.1.1)
    ]
  ]
]

behind-Decided :
    (before : ℕ) (ms : List Mps2I2cMsg) → before < 256 → AllBytes ms → Decided (some before) ms
unfolding messages_valid
behind-Decided before [] hb h = inl (refl, tt)
behind-Decided before (m ∷ ms) hb h =
    next-Decided before m ms hb h.0 (behind-Decided m.flags ms h.0 h.1)

messages-Decided : (ms : List Mps2I2cMsg) → AllBytes ms → Decided none ms
unfolding messages_valid
messages-Decided [] h = inl (refl, tt)
messages-Decided (m ∷ ms) h = first-Decided m ms h.0 (behind-Decided m.flags ms h.0 h.1)

bus_lem :
    (bus : Mps2I2cBus)
    → ((bus_valid bus ≡ true)
        × ((bus.has_regs ≡ true) × ((bus.delay_cycles ≢ 0) × (bus.timeout_cycles ≢ 0))))
      ⊎ ((bus_valid bus ≡ false)
          × (¬ ((bus.has_regs ≡ true) × ((bus.delay_cycles ≢ 0) × (bus.timeout_cycles ≢ 0)))))
unfolding bus_valid
bus_lem bus = cases bus.has_regs bus.delay_cycles bus.timeout_cycles
  where
    cases :
        (r : Bool) (d t : ℕ)
        → (((r && (d != 0 && t != 0)) ≡ true) × ((r ≡ true) × ((d ≢ 0) × (t ≢ 0))))
          ⊎ (((r && (d != 0 && t != 0)) ≡ false) × (¬ ((r ≡ true) × ((d ≢ 0) × (t ≢ 0)))))
    cases r d t = ground arith

module _ (P : Pins) (bus : Mps2I2cBus) where
  abbrev Guarded : List Mps2I2cMsg → ℕ → Transfer P.W → Type 0
  Guarded ms target_addr x =
      let out = mps2_i2c_transfer P bus (some ms) target_addr x in
      (IsProper bus ms target_addr × (out ≡ result (all_messages P bus target_addr ms 0 false x)))
      ⊎ ((¬ IsProper bus ms target_addr) × ((e : Errno) × (out ≡ (fail e, x))))

  -- with a usable bus
  inspected :
      (ms : List Mps2I2cMsg) (target_addr : ℕ) (x : Transfer P.W)
      → AllBytes ms
      → bus_valid bus ≡ true
      → bus.has_regs ≡ true
      → bus.delay_cycles ≢ 0
      → bus.timeout_cycles ≢ 0
      → Guarded ms target_addr x
  unfolding mps2_i2c_transfer
  inspected ms target_addr x h v b d t = elim (eq_or_ne (length ms) 0) [
    | inl n ↦ inr ((λ p. p.some_message n), (other 1, rw (v, n) refl))
    | inr n ↦ elim (eq_or_ne target_addr 0x7f) [
      | inl a ↦ inr ((λ p. p.some_address a), (other 2, rw (v, ne→== (length ms) 0 n, a) refl))
      | inr a ↦ elim (messages-Decided ms h) [
        | inl (valid, all) ↦ inl (
          record {
            registers = b;
            some_delay = d;
            some_timeout = t;
            some_message = n;
            some_address = a;
            joined = all;
          },
          rw (v, ne→== (length ms) 0 n, ne→== target_addr 0x7f a, valid) refl,
        )
        | inr (refused, none_joined) ↦ inr (
          (λ p. none_joined p.joined),
          (other 1, rw (v, ne→== (length ms) 0 n, ne→== target_addr 0x7f a, refused) refl),
        )
      ]
    ]
  ]

  -- mps2_i2c_transfer, for a message array with flags of one byte each: with registers, delay and
  -- timeout of the bus, at least one message, an address other than 0x7F, in each message a buffer, a
  -- byte and none but the flags READ, STOP and RESTART, and RESTART in each message that does not
  -- follow a STOP, it goes through the messages. Without one of these it is an error, and neither
  -- a line nor a buffer is touched.
  pub transfer_guarded :
      (ms : List Mps2I2cMsg) (target_addr : ℕ) (x : Transfer P.W)
      → AllBytes ms
      → let out = mps2_i2c_transfer P bus (some ms) target_addr x in
        (IsProper bus ms target_addr × (out ≡ result (all_messages P bus target_addr ms 0 false x)))
        ⊎ ((¬ IsProper bus ms target_addr) × ((e : Errno) × (out ≡ (fail e, x))))
  unfolding mps2_i2c_transfer
  transfer_guarded ms target_addr x h = elim (bus_lem bus) [
    | inl (v, (b, (d, t))) ↦ inspected ms target_addr x h v b d t
    | inr (v, unusable) ↦
        inr ((λ p. unusable (p.registers, (p.some_delay, p.some_timeout))), (other 1, rw v refl))
  ]
