-- ===== src/Eeprom/Wait.antt =====
-- The polling for the end of a write.
use cortex_m3_embedded_debug.Base.{
  ℕ, zero, suc, ◌*◌, ◌<◌, ◌≡◌, ◌≢◌, refl, ap, sym, ◌∙◌, subst, Bool, true, false, is_ok, ok, Rc,
  if◌then◌else◌, some, not, ◌||◌, ◌==◌, ne→==, arith,
}
use cortex_m3_embedded_debug.I2cLine.{Mps2I2cBus}
use cortex_m3_embedded_debug.I2cTarget.{Wires}
use cortex_m3_embedded_debug.I2cTarget.Slave.{Device, Shift}
use cortex_m3_embedded_debug.Mps2I2c.{bus_valid}
use cortex_m3_embedded_debug.Mps2I2c.Rest.{idle, at_rest}
use cortex_m3_embedded_debug.Mps2I2c.Conversation.{pins, probed, probe_answers}
use cortex_m3_embedded_debug.Eeprom.{
  EepromDevice, eeprom_wait_ready, poll_ready, is_nack, eeprom_err_argument, err_not_ready,
  err_transfer,
}

has_all :
    (device : EepromDevice)
    → device.has_bus ≡ true
    → device.ready_poll_limit ≢ 0
    → (not device.has_bus || (device.ready_poll_limit == 0)) ≡ false
has_all device h some_polls = rw (h, ne→== device.ready_poll_limit 0 some_polls) refl

module _ (V : Device) (bus : Mps2I2cBus) (quick : (e : V.E) → V.holds e < bus.timeout_cycles)
    (bytes : (e : V.E) → V.offer e < 256) (valid : bus_valid bus ≡ true) (target_addr : ℕ)
    (small : target_addr < 128) where
  open V use {E, address, stopped}

  -- the device after `n` probes, and whether it acknowledges the next one
  unfoldable pub after_probes : ℕ → E → E
  after_probes zero e = e
  after_probes (suc n) e = after_probes n (stopped (address (target_addr * 2) e).1)

  abbrev pub acknowledges : ℕ → E → Bool
  acknowledges n e = (address (target_addr * 2) (after_probes n e)).0

  -- what a wait with at most `n` probes ends with
  pub data Waited (n : ℕ) (e : E) (out : Rc × Wires (Shift V)) : Type 0 where
    ready :
        (k : ℕ)
        → k < n
        → acknowledges k e ≡ true
        → ((j : ℕ) → j < k → acknowledges j e ≡ false)
        → out ≡ (ok, at_rest V idle (after_probes (suc k) e))
        → Waited n e out
    never :
        ((j : ℕ) → j < n → acknowledges j e ≡ false)
        → out ≡ (err_not_ready, at_rest V idle (after_probes n e))
        → Waited n e out

  next : E → E
  next e = stopped (address (target_addr * 2) e).1

  before_first :
      (P : ℕ → Type 0) (k : ℕ) → P 0 → ((j : ℕ) → j < k → P (suc j)) → (j : ℕ) → j < suc k → P j
  before_first P k h rest zero lt = h
  before_first P k h rest (suc j) lt = rest j (omega arith)

  later :
      (n : ℕ) (e : E) (out : Rc × Wires (Shift V))
      → acknowledges 0 e ≡ false
      → Waited n (next e) out
      → Waited (suc n) e out
  unfolding after_probes next
  later n e out no_ack (ready k lt ack before same) =
      ready (suc k) (omega arith) ack (before_first (λ j. acknowledges j e ≡ false) k no_ack before)
        same
  later n e out no_ack (never before same) =
      never (before_first (λ j. acknowledges j e ≡ false) n no_ack before) same

  poll-Waited :
      (n : ℕ) (e : E)
      → Waited n e (poll_ready (pins V bus quick bytes) bus n target_addr (at_rest V idle e))
  unfolding poll_ready after_probes next
  poll-Waited zero e = never (λ j lt. absurd (omega arith)) refl
  poll-Waited (suc n) e = rw (probe_answers V bus quick bytes target_addr idle e valid small) (
      step (address (target_addr * 2) e) refl
        (poll-Waited n (stopped (address (target_addr * 2) e).1)))
    where
      step :
          (a : Bool × E)
          → address (target_addr * 2) e ≡ a
          → Waited n (stopped (address (target_addr * 2) e).1) (
              poll_ready
                (pins V bus quick bytes)
                bus
                n
                target_addr
                (at_rest V idle (stopped (address (target_addr * 2) e).1)))
          → Waited (suc n) e (
              let (rc, w') = probed V bus quick bytes a in
              let rest = poll_ready (pins V bus quick bytes) bus n target_addr w' in
              if is_ok rc then (ok, w') else if is_nack rc then rest else (err_transfer, w'))
      step (true, e') h r =
          ready 0 (omega arith) (ap (λ (p : Bool × E). p.0) h) (λ j lt. absurd (omega arith))
            (ap (λ (p : Bool × E). (ok, at_rest V idle (stopped p.1))) (sym h))
      step (false, e') h r = later n e _ (ap (λ (p : Bool × E). p.0) h) (
          subst
            (λ d.
              Waited n (stopped (address (target_addr * 2) e).1)
                (poll_ready (pins V bus quick bytes) bus n target_addr (at_rest V idle d)))
            (ap (λ (p : Bool × E). stopped p.1) h) r)

  -- eeprom_wait_ready on free lines ends, with at most ready_poll_limit probes: EEPROM_OK after the
  -- first probe that the chip acknowledges, EEPROM_ERR_NOT_READY where it acknowledges none of them.
  pub wait_ready_ends :
      (device : EepromDevice) (e : E)
      → device.has_bus ≡ true
      → device.target_addr ≡ target_addr
      → device.ready_poll_limit ≢ 0
      → Waited device.ready_poll_limit e
          (eeprom_wait_ready (pins V bus quick bytes) bus (some device) (at_rest V idle e))
  unfolding eeprom_wait_ready
  wait_ready_ends device e h same some_polls =
      let refused : Rc × Wires (Shift V) = (eeprom_err_argument, at_rest V idle e) in
      subst (λ o. Waited device.ready_poll_limit e o)
        (sym (
          ap
            (λ (t : Bool).
              if t
              then refused
              else poll_ready (pins V bus quick bytes) bus device.ready_poll_limit
                  device.target_addr (at_rest V idle e))
            (has_all device h some_polls)
          ∙ ap
              (λ (a : ℕ).
                poll_ready (pins V bus quick bytes) bus device.ready_poll_limit a
                  (at_rest V idle e))
              same))
        (poll-Waited device.ready_poll_limit e)
