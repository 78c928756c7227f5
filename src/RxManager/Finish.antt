-- ===== src/RxManager/Finish.antt =====
-- The end of a reception: the rest of the buffer is reported, and the buffers come back.
use cortex_m3_embedded_debug.Base.{
  ℕ, ◌+◌, ◌≤◌, ◌≡◌, inl, inr, refl, ap, ◌∙◌, Bool, true, false, Bool-cases, not, Option, some, none,
  List, [], ◌∷◌, get_or, set, ◌==◌, if◌then◌else◌, u32, sub32, arith, fail, eio, bit_and, not32,
}
use cortex_m3_embedded_debug.Zephyr.RingBuf.{RingBuf}
use cortex_m3_embedded_debug.UartAsync.{Uart, Regs, rx_idle, rx_stopping, ctrl_rx, int_rx}
use cortex_m3_embedded_debug.UartAsync.Isr.{report_current, stop_rx, close_rx, finish_rx}
use cortex_m3_embedded_debug.RxManager.{rx_manager_event, buf_at}
use cortex_m3_embedded_debug.RxManager.Events.{
  index, only, Manager, at, reported, released, emit_rdy, emit-released, emit_disabled,
  emit_stopped,
}

-- the owners, with and without a second buffer
abbrev pub owners : Bool → Bool → List Bool
owners s false = only s
owners s true = true ∷ true ∷ []

abbrev pub next_of : Bool → Bool → ℕ → Option ℕ
next_of s false base = none
next_of s true base = some (buf_at base (index (not s)))

abbrev pub next_size : Bool → ℕ
next_size false = 0
next_size true = 8

-- The driver with `pos` bytes in the buffer `s`, `seen` of them reported.
abbrev pub holding : Bool → Bool → ℕ → ℕ → ℕ → Uart → Uart
holding s next pos seen base u = record u {
  current_buf = some (buf_at base (index s));
  current_len = 8;
  current_pos = pos;
  reported = seen;
  next_buf = next_of s next base;
  next_len = next_size next;
}

abbrev pub stopping : Uart → Uart
stopping u = record u { state = rx_stopping; initial_request = false; request_outstanding = false }

abbrev pub idle : Uart → Uart
idle u = record u {
  state = rx_idle;
  initial_request = false;
  request_outstanding = false;
  current_buf = none;
  current_len = 0;
  current_pos = 0;
  reported = 0;
  next_buf = none;
  next_len = 0;
}

abbrev pub quiet : Regs → Regs
quiet g = record g { ctrl = bit_and g.ctrl (not32 ctrl_rx); intclear = int_rx }

abbrev forgotten : Uart → Uart
forgotten u = record u {
  current_buf = none;
  current_len = 0;
  current_pos = 0;
  reported = 0;
  next_buf = none;
  next_len = 0;
}

owners_own : (s next : Bool) → get_or (owners s next) (index s) false ≡ true
owners_own false false = refl
owners_own false true = refl
owners_own true false = refl
owners_own true true = refl

other_own : (s : Bool) → get_or (set (owners s true) (index s) false) (index (not s)) false ≡ true
other_own false = refl
other_own true = refl

back_one : (s : Bool) → set (owners s false) (index s) false ≡ false ∷ false ∷ []
back_one false = refl
back_one true = refl

back_two :
    (s : Bool)
    → set (set (owners s true) (index s) false) (index (not s)) false ≡ false ∷ false ∷ []
back_two false = refl
back_two true = refl

module _ (B : RingBuf) where
  open B use {Ring}

  abbrev pub owning : Bool → Bool → Manager B → Manager B
  owning s next m = record m { driver_owned = owners s next }

  abbrev pub stopped : ℕ → Manager B → Manager B
  stopped reason m = record m {
    stopped_events = u32 (m.stopped_events + 1);
    last_stop_reason = u32 reason;
    last_error = fail eio;
  }

  abbrev pub stop_noted : ℕ → Manager B → Manager B
  stop_noted reason m = if reason == 0 then m else stopped reason m

  abbrev pub rest_reported : Bool → ℕ → (ℕ → ℕ) → Manager B → Manager B
  rest_reported s pos mem m = if pos == 0 then m else reported B s pos mem m

  abbrev pub returned_count : Bool → ℕ → ℕ
  returned_count false n = u32 (n + 1)
  returned_count true n = u32 (u32 (n + 1) + 1)

  -- both buffers are back and the manager is disabled
  abbrev pub disabled : Bool → Manager B → Manager B
  disabled next m = record m {
    driver_owned = false ∷ false ∷ [];
    released_events = returned_count next m.released_events;
    enabled = false;
    disabled_events = u32 (m.disabled_events + 1);
  }

  close-at :
      (s next : Bool) (pos seen : ℕ) (u : Uart) (g : Regs) (mem : ℕ → ℕ) (m : Manager B)
      → close_rx
          (rx_manager_event B)
          (at B (holding s next pos seen m.driver_buf (stopping u)) g mem (owning s next m))
        ≡ at B (idle u) g mem (disabled next m)
  unfolding close_rx
  close-at s false pos seen u g mem m =
      rw
        (
          emit-released B (forgotten (stopping u)) g mem (owning s false m) s (owners_own s false),
          emit_disabled B (idle u) g mem (released B s (owning s false m)),
          back_one s,
        )
        refl
  close-at s true pos seen u g mem m =
      rw
        (
          emit-released B (forgotten (stopping u)) g mem (owning s true m) s (owners_own s true),
          emit-released B (forgotten (stopping u)) g mem (released B s (owning s true m)) (not s)
              (other_own s),
          emit_disabled B (idle u) g mem (released B (not s) (released B s (owning s true m))),
          back_two s,
        )
        refl

  -- the report of what the buffer holds, in a driver that keeps its other fields
  pub report-at :
      (s next : Bool) (pos : ℕ) (u : Uart) (g : Regs) (mem : ℕ → ℕ) (m : Manager B)
      → pos ≤ 8
      → (pos == 0) ≡ false
      → report_current
          (rx_manager_event B)
          (at B (holding s next pos 0 m.driver_buf u) g mem (owning s next m))
        ≡ at B
            (holding s next pos pos m.driver_buf u)
            g
            mem
            (owning s next (reported B s pos mem m))
  unfolding report_current
  report-at s next pos u g mem m fits some_byte =
      let all : sub32 pos 0 ≡ pos = omega arith in
      rw (some_byte, all)
        (emit_rdy B (holding s next pos pos m.driver_buf u) g mem (owning s next m) s pos
          (owners_own s next) fits)

  tail-at :
      (s next : Bool) (pos : ℕ) (u : Uart) (g : Regs) (mem : ℕ → ℕ) (m : Manager B)
      → pos ≤ 8
      → close_rx (rx_manager_event B) (
          report_current
            (rx_manager_event B)
            (at B (holding s next pos 0 m.driver_buf (stopping u)) g mem (owning s next m)))
        ≡ at B (idle u) g mem (disabled next (rest_reported s pos mem m))
  tail-at s next pos u g mem m fits = elim (Bool-cases (pos == 0)) [
    | inl e ↦ rw e (none_left e)
    | inr e ↦ rw e (
        ap (close_rx (rx_manager_event B)) (report-at s next pos (stopping u) g mem m fits e)
        ∙ close-at s next pos pos u g mem (reported B s pos mem m))
  ]
    where
      none_left :
          (pos == 0) ≡ true
          → close_rx (rx_manager_event B) (
              report_current
                (rx_manager_event B)
                (at B (holding s next pos 0 m.driver_buf (stopping u)) g mem (owning s next m)))
            ≡ at B (idle u) g mem (disabled next m)
      none_left e = unfold report_current in rw e (close-at s next pos 0 u g mem m)

  -- `finish_rx`: what the buffer holds is reported, the buffers come back, the manager is disabled
  pub finish-at :
      (s next : Bool) (pos reason : ℕ) (u : Uart) (g : Regs) (mem : ℕ → ℕ) (m : Manager B)
      → pos ≤ 8
      → finish_rx
          (rx_manager_event B)
          reason
          (at B (holding s next pos 0 m.driver_buf u) g mem (owning s next m))
        ≡ at B
            (idle u)
            (quiet g)
            mem
            (disabled next (rest_reported s pos mem (stop_noted reason m)))
  unfolding finish_rx stop_rx
  finish-at s next pos reason u g mem m fits = elim (Bool-cases (reason == 0)) [
    | inl e ↦ rw e (tail-at s next pos u (quiet g) mem m fits)
    | inr e ↦
        rw
          (
            e,
            emit_stopped B (holding s next pos 0 m.driver_buf (stopping u)) (quiet g) mem
                (owning s next m) reason (some (buf_at m.driver_buf (index s))) 0 (sub32 pos 0),
          )
          (tail-at s next pos u (quiet g) mem (stopped reason m) fits)
  ]
