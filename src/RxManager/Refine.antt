-- ===== src/RxManager/Refine.antt =====
-- The interrupt handler of the driver, with the manager as its callback, is the handler of the
-- machine.
use cortex_m3_embedded_debug.Base.{
  ℕ, ◌+◌, ◌<◌, ◌≡◌, inl, inr, refl, ap, ◌∙◌, Bool, true, false, Bool-cases, not, some, none, ◌==◌,
  ◌!=◌, ltb, u8, u32, arith, bit_and,
}
use cortex_m3_embedded_debug.Zephyr.RingBuf.{RingBuf}
use cortex_m3_embedded_debug.UartAsync.{
  Uart, Regs, state_rxor, state_rxbf, store, data_mask, int_rx, int_rxor,
}
use cortex_m3_embedded_debug.UartAsync.Isr.{
  isr, serve_active, serve_status, receive, buffer_full, pass_buffer, first_request, finish_rx,
  error_overrun,
}
use cortex_m3_embedded_debug.RxManager.{rx_manager_event, buf_at}
use cortex_m3_embedded_debug.RxManager.Events.{
  index, Manager, at, reported, released, emit-released, request-at,
}
use cortex_m3_embedded_debug.RxManager.Finish.{
  holding, idle, quiet, disabled, rest_reported, stop_noted, finish-at, report-at,
}
use cortex_m3_embedded_debug.RxManager.Machine.{
  Phase, off, on, Machine, world, world_of, receiving, enabled_with, requested, first_requested,
  ended, turned, byte_in, served, interrupt,
}

-- the driver after `swap_buffers`, with the buffer `s` as the current one
abbrev swapped : Bool → ℕ → Uart → Uart
swapped s base u = record u {
  current_buf = some (buf_at base (index s));
  current_len = 8;
  current_pos = 0;
  reported = 0;
  next_buf = none;
  next_len = 0;
}

module _ (B : RingBuf) where
  open B use {Ring}

  -- the machine's manager after the buffer `s` is passed on
  pass-at :
      (s : Bool) (u : Uart) (g : Regs) (mem : ℕ → ℕ) (m : Manager B)
      → pass_buffer (rx_manager_event B) (
          at B
            (holding s true 8 8 m.driver_buf (receiving false false u))
            g
            mem
            (enabled_with B s true m))
        ≡ world B
            (on (not s) false false 0)
            u
            g
            mem
            (requested B (record m { released_events = u32 (m.released_events + 1) }))
  unfolding pass_buffer
  pass-at false u g mem m =
      let u' = swapped (not false) m.driver_buf (receiving false false u) in
      let m' = enabled_with B false true m in
      rw (emit-released B u' g mem m' false refl, request-at B u' g mem (released B false m') true)
        refl
  pass-at true u g mem m =
      let u' = swapped (not true) m.driver_buf (receiving false false u) in
      let m' = enabled_with B true true m in
      rw (emit-released B u' g mem m' true refl, request-at B u' g mem (released B true m') false)
        refl

  full-at :
      (s : Bool) (u : Uart) (g : Regs) (mem : ℕ → ℕ) (m : Manager B)
      → buffer_full (rx_manager_event B) (
          at B
            (holding s true 8 0 m.driver_buf (receiving false false u))
            g
            mem
            (enabled_with B s true m))
        ≡ world B (on (not s) false false 0) u g mem (turned B s mem m)
  unfolding buffer_full
  full-at s u g mem m =
      ap (pass_buffer (rx_manager_event B)) (
        report-at B s true 8 (receiving false false u) g mem (record m { enabled = true })
          (omega arith) refl)
      ∙ pass-at s u g mem (reported B s 8 mem m)

  receive-at :
      (datum : ℕ) (s : Bool) (pos : ℕ) (u : Uart) (g : Regs) (mem : ℕ → ℕ) (m : Manager B)
      → pos < 8
      → receive (rx_manager_event B) datum (world B (on s false false pos) u g mem m)
        ≡ world_of B (byte_in B (u8 (bit_and datum data_mask)) s pos u g mem m)
  unfolding receive
  receive-at datum s pos u g mem m fits =
      let next : u32 (pos + 1) ≡ pos + 1 = omega arith in
      elim (Bool-cases (ltb (pos + 1) 8)) [
        | inl e ↦ rw (next, e) refl
        | inr e ↦
            let full : pos + 1 ≡ 8 = ground arith in
            rw (next, e)
              (rw full (
                full-at s (record u { hardware_bytes = u32 (u.hardware_bytes + 1) }) g
                  (store (some (buf_at m.driver_buf (index s) + pos)) (u8 (bit_and datum data_mask))
                    mem)
                  m))
      ]

  -- `enabled` is set again at the end, so it does not matter before.
  enabled_before :
      (reason : ℕ) (s next : Bool) (pos : ℕ) (mem : ℕ → ℕ) (m : Manager B)
      → disabled B next
          (rest_reported B s pos mem (stop_noted B reason (record m { enabled = true })))
        ≡ disabled B next (rest_reported B s pos mem (stop_noted B reason m))
  enabled_before reason s next pos mem m = elim (Bool-cases (pos == 0)) [
    | inl e ↦ elim (Bool-cases (reason == 0)) [ inl f ↦ rw (e, f) refl | inr f ↦ rw (e, f) refl ]
    | inr e ↦ elim (Bool-cases (reason == 0)) [ inl f ↦ rw (e, f) refl | inr f ↦ rw (e, f) refl ]
  ]

  end-at :
      (reason : ℕ) (s first stop : Bool) (pos : ℕ) (u : Uart) (g : Regs) (mem : ℕ → ℕ)
      (m : Manager B)
      → pos < 8
      → finish_rx (rx_manager_event B) reason (world B (on s first stop pos) u g mem m)
        ≡ world_of B (ended B reason s (not first) pos u g mem m)
  end-at reason s first stop pos u g mem m fits =
      finish-at B s (not first) pos reason (receiving first stop u) g mem
        (record m { enabled = true }) (omega arith)
      ∙ ap (at B (idle u) (quiet g) mem) (enabled_before reason s (not first) pos mem m)

  serve-at :
      (status datum : ℕ) (s : Bool) (pos : ℕ) (u : Uart) (g : Regs) (mem : ℕ → ℕ) (m : Manager B)
      → pos < 8
      → serve_status (rx_manager_event B) status datum (world B (on s false false pos) u g mem m)
        ≡ world_of B (served B status datum s pos u g mem m)
  unfolding serve_status
  serve-at status datum s pos u g mem m fits = elim (Bool-cases (bit_and status state_rxor != 0)) [
    | inl e ↦ rw e (
        end-at error_overrun s false false pos
          (record u { hardware_overruns = u32 (u.hardware_overruns + 1) })
          (record g { intclear = int_rxor }) mem m fits)
    | inr e ↦ elim (Bool-cases (bit_and status state_rxbf == 0)) [
      | inl f ↦ rw (e, f) refl
      | inr f ↦ rw (e, f) (receive-at datum s pos u g mem m fits)
    ]
  ]

  active-at :
      (status datum : ℕ) (s first : Bool) (pos : ℕ) (u : Uart) (g : Regs) (mem : ℕ → ℕ)
      (m : Manager B)
      → pos < 8
      → serve_active (rx_manager_event B) status datum (world B (on s first false pos) u g mem m)
        ≡ world_of B (served B status datum s pos u g mem (first_requested B first m))
  unfolding serve_active first_request
  active-at status datum s false pos u g mem m fits = serve-at status datum s pos u g mem m fits
  active-at status datum s true pos u g mem m fits =
      rw
        (request-at B (holding s false pos 0 m.driver_buf (receiving false false u)) g mem
          (record m { enabled = true }) s)
        (serve-at status datum s pos u g mem (requested B m) fits)

  -- the fill of the current buffer, in a machine that receives
  abbrev pub Fits : Phase → Type 0
  Fits off = Unit
  Fits (on s first stop pos) = pos < 8

  isr-at :
      (status datum : ℕ) (p : Phase) (u : Uart) (g : Regs) (mem : ℕ → ℕ) (m : Manager B)
      → Fits p
      → isr (rx_manager_event B) status datum (world B p u g mem m)
        ≡ world_of B (
            interrupt B status datum
              (record { phase = p; uart = u; regs = g; mem = mem; manager = m }))
  unfolding isr interrupt
  isr-at status datum off u g mem m fits = refl
  isr-at status datum (on s first true pos) u g mem m fits =
      end-at 0 s first true pos (record u { irq_entries = u32 (u.irq_entries + 1) })
        (record g { intclear = int_rx }) mem m fits
  isr-at status datum (on s first false pos) u g mem m fits =
      active-at status datum s first pos (record u { irq_entries = u32 (u.irq_entries + 1) })
        (record g { intclear = int_rx }) mem m fits

  -- lab20_uart_isr with rx_manager_event as its callback, in the world of a machine whose current
  -- buffer is not full, does exactly the step of the machine, whatever the registers show.
  pub isr_refines :
      (status datum : ℕ) (a : Machine B)
      → Fits a.phase
      → isr (rx_manager_event B) status datum (world_of B a)
        ≡ world_of B (interrupt B status datum a)
  isr_refines status datum a fits = isr-at status datum a.phase a.uart a.regs a.mem a.manager fits
