-- ===== src/RxManager/Alive.antt =====
-- Reception goes on: the manager always has a buffer for the driver.
use cortex_m3_embedded_debug.Base.{
  ℕ, ◌+◌, ◌<◌, ◌≡◌, inl, inr, refl, ap, sym, ◌∙◌, subst, Bool, true, false, Bool-cases, List, [],
  ◌∷◌, ◌==◌, ◌!=◌, ltb, u8, u32, bit_and, arith,
}
use cortex_m3_embedded_debug.Zephyr.RingBuf.{RingBuf}
use cortex_m3_embedded_debug.UartAsync.{
  World, is_active, state_rxor, state_rxbf, data_mask, int_rx, Uart, Regs,
}
use cortex_m3_embedded_debug.RxManager.{rx_manager_init}
use cortex_m3_embedded_debug.RxManager.Events.{Manager}
use cortex_m3_embedded_debug.RxManager.Machine.{
  Phase, off, on, Machine, world, world_of, interrupt, byte_in, handled, first_requested,
}
use cortex_m3_embedded_debug.RxManager.Refine.{Fits, isr_refines}
use cortex_m3_embedded_debug.RxManager.System.{
  Input, irq, reads, stop, step, run, read-world, read-zero, after_read,
}
use cortex_m3_embedded_debug.RxManager.Service.{IsFresh, initial, init-initial}

-- no overrun and no stop
abbrev pub Calm : Input → Type 0
Calm (irq status datum) = bit_and status state_rxor ≡ 0
Calm (reads n) = Unit {0}
Calm stop = ⊥

abbrev pub AllCalm : List Input → Type 0
AllCalm [] = Unit {0}
AllCalm (i ∷ is) = Calm i × AllCalm is

-- a buffer is being filled and no stop is due
abbrev Running : Phase → Type 0
Running off = ⊥
Running (on s first true pos) = ⊥
Running (on s first false pos) = pos < 8

module _ (B : RingBuf) where
  abbrev Serves : World (Manager B) → Type 0
  Serves w = (a : Machine B) × ((w ≡ world_of B a) × Running a.phase)

  byte-Running :
      (c : ℕ) (s : Bool) (pos : ℕ) (u : Uart) (g : Regs) (mem : ℕ → ℕ) (m : Manager B)
      → pos < 8
      → Running (byte_in B c s pos u g mem m).phase
  byte-Running c s pos u g mem m fits = elim (Bool-cases (ltb (pos + 1) 8)) [
    | inl e ↦ rw e (ground arith)
    | inr e ↦ rw e (omega arith)
  ]

  interrupt-Running :
      (status datum : ℕ) (p : Phase) (u : Uart) (g : Regs) (mem : ℕ → ℕ) (m : Manager B)
      → bit_and status state_rxor ≡ 0
      → Running p
      → Running (handled B status datum p u g mem m).phase
  interrupt-Running status datum off u g mem m calm r = r
  interrupt-Running status datum (on s first true pos) u g mem m calm r = absurd r
  interrupt-Running status datum (on s first false pos) u g mem m calm r =
      let none_over : (bit_and status state_rxor != 0) ≡ false = ground arith in
      elim (Bool-cases (bit_and status state_rxbf == 0)) [
        | inl e ↦ rw (none_over, e) r
        | inr e ↦
            rw (none_over, e)
              (byte-Running (u8 (bit_and datum data_mask)) s pos u g mem (first_requested B first m)
                r)
      ]

  interrupt-stays :
      (status datum : ℕ) (a : Machine B)
      → bit_and status state_rxor ≡ 0
      → Running a.phase
      → Running (interrupt B status datum a).phase
  unfolding interrupt
  interrupt-stays status datum a calm r =
      interrupt-Running status datum a.phase
        (record (a.uart) { irq_entries = u32 (a.uart.irq_entries + 1) })
        (record (a.regs) { intclear = int_rx }) a.mem a.manager calm r

  Running-Fits : (p : Phase) → Running p → Fits B p
  Running-Fits off r = tt
  Running-Fits (on s first true pos) r = absurd r
  Running-Fits (on s first false pos) r = r

  Running-active :
      (p : Phase) (u : Uart) (g : Regs) (mem : ℕ → ℕ) (m : Manager B)
      → Running p
      → is_active (world B p u g mem m).uart.state ≡ true
  Running-active off u g mem m r = absurd r
  Running-active (on s first true pos) u g mem m r = absurd r
  Running-active (on s first false pos) u g mem m r = refl

  step-Serves : (i : Input) (w : World (Manager B)) → Calm i → Serves w → Serves (step B i w).1
  unfolding step
  step-Serves (irq status datum) w calm (a, (e, r)) =
      subst (λ v. Serves (step B (irq status datum) v).1) (sym e)
        (
          interrupt B status datum a,
          (
            isr_refines B status datum a (Running-Fits a.phase r),
            interrupt-stays status datum a calm r,
          ),
        )
  step-Serves (reads n) w calm (a, (e, r)) =
      subst (λ v. Serves (step B (reads n) v).1) (sym e)
        (elim (Bool-cases (n == 0)) [
          | inl z ↦ (a, (ap (λ q. q.1) (read-zero B n (world_of B a) z), r))
          | inr p ↦ (
            record a { manager = after_read B n a.manager },
            (ap (λ q. q.1) (read-world B n a.phase a.uart a.regs a.mem a.manager p), r),
          )
        ])
  step-Serves stop w calm s = absurd calm

  run-Serves :
      (is : List Input) (w : World (Manager B)) → AllCalm is → Serves w → Serves (run B is w).2
  unfolding run
  run-Serves [] w calm s = s
  run-Serves (i ∷ is) w calm s = run-Serves is (step B i w).1 calm.1 (step-Serves i w calm.0 s)

  Serves-active : (w : World (Manager B)) → Serves w → is_active w.uart.state ≡ true
  Serves-active w (a, (e, r)) =
      ap (λ v. is_active v.uart.state) e ∙ Running-active a.phase a.uart a.regs a.mem a.manager r

  -- After rx_manager_init on a fresh driver: as long as the hardware reports no overrun and the
  -- application does not stop the reception, whatever comes in and however seldom the application
  -- reads, the driver receives; it never ends for want of a buffer.
  pub run_stays_active :
      (w : World (Manager B)) (is : List Input)
      → IsFresh B w
      → AllCalm is
      → is_active (run B is (rx_manager_init B true true true w).1).2.uart.state ≡ true
  run_stays_active w is f calm =
      let e = init-initial B w f in
      let start : Serves (rx_manager_init B true true true w).1 =
        (initial B w, (ap (λ r. r.1) e, omega arith)) in
      Serves-active _ (run-Serves is _ calm start)
