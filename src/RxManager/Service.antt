-- ===== src/RxManager/Service.antt =====
-- What the receive manager promises its reader, from `rx_manager_init` on.
use cortex_m3_embedded_debug.Base.{
  ℕ, ◌+◌, ◌<◌, ◌≡◌, refl, ap, sym, ◌∙◌, subst, Bool, true, false, ◌||◌, some, none, List, [], ◌∷◌,
  ◌++◌, length, length-append, ◌==◌, bit_or, arith, get_or, ok,
}
use mathlib.Core.List.{append_assoc, append-nil}
use cortex_m3_embedded_debug.Zephyr.Eeprom.{slice}
use cortex_m3_embedded_debug.Zephyr.Cells.{length-slice}
use cortex_m3_embedded_debug.Zephyr.RingBuf.{RingBuf}
use cortex_m3_embedded_debug.UartAsync.{
  World, Uart, Regs, Pointer, rx_idle, callback_set, rx_enable, ctrl_rx, int_rx,
}
use cortex_m3_embedded_debug.RxManager.{rx_manager_init, buf_at, rx_ring_size, blank, cleared}
use cortex_m3_embedded_debug.RxManager.Events.{index, Manager}
use cortex_m3_embedded_debug.RxManager.Machine.{Phase, off, on, Machine, world, world_of}
use cortex_m3_embedded_debug.RxManager.Refine.{Fits}
use cortex_m3_embedded_debug.RxManager.Account.{Account, Part, none_left}
use cortex_m3_embedded_debug.RxManager.Delivery.{Balanced, Managed, pending}
use cortex_m3_embedded_debug.RxManager.System.{Input, step, run, on_line, step-Steps}

-- `p` is a buffer that the driver has
abbrev pub points_to : Pointer → ℕ → Bool
points_to none a = false
points_to (some p) a = p == a

-- `n` bytes of memory from the pointer on
abbrev pub in_memory : Pointer → ℕ → (ℕ → ℕ) → List ℕ
in_memory none n mem = []
in_memory (some p) n mem = slice mem p n

-- Where no byte was dropped, and the counter has not come round, all that was reported was kept.
nothing_lost :
    {out : List ℕ} {received buffered dropped read hardware : ℕ} (line done rest kept : List ℕ)
    → Account line out done rest kept received buffered dropped read hardware
    → length line < 4294967296
    → dropped ≡ 0
    → line ≡ kept ++ rest
nothing_lost line done rest kept a short none_dropped =
    let size : length line ≡ length done + length rest =
      ap length a.split ∙ length-append done rest in
    a.split
    ∙ ap (λ l. l ++ rest)
        (sym (a.exact (omega (arith, a.dropped_rest, a.at_most, size, none_dropped, short))))

module _ (B : RingBuf) where
  open B use {Ring, contents, init, init_contents}

  -- a driver that has been initialised and not been used, and a world without a fault
  pub record IsFresh (w : World (Manager B)) : Type 0 where
    pub not_running : w.uart.state ≡ rx_idle
    pub not_called : w.uart.in_callback ≡ false
    pub none_yet : w.uart.hardware_bytes ≡ 0
    pub no_fault : w.fault ≡ false

  -- the machine that `rx_manager_init` leaves
  abbrev pub initial : World (Manager B) → Machine B
  initial w = record {
    phase = on false true false 0;
    uart = w.uart;
    regs = record (w.regs) { intclear = int_rx; ctrl = bit_or w.regs.ctrl ctrl_rx; pending = true };
    mem = cleared w.client.driver_buf w.mem;
    manager = blank B w.client.driver_buf;
  }

  pub init-initial :
      (w : World (Manager B))
      → IsFresh w
      → rx_manager_init B true true true w ≡ (ok, world_of B (initial w))
  unfolding rx_manager_init callback_set rx_enable
  init-initial w f = rw (f.not_running, f.not_called, f.no_fault) refl

  pub initial-Balanced : (w : World (Manager B)) → IsFresh w → Balanced B [] [] (initial w)
  initial-Balanced w f = record {
    done = [];
    account = record {
      split = refl;
      received_all = refl;
      buffered_kept = omega (arith, none_kept);
      dropped_rest = omega (arith, none_kept);
      read_out = refl;
      counted = f.none_yet;
      at_most = omega (arith, none_kept);
      in_order = subst (λ (l : List ℕ). Part l []) (sym (init_contents rx_ring_size)) none_left;
      exact = λ e. init_contents rx_ring_size;
    };
    fits = omega arith;
  }
    where
      none_kept : length (contents (init rx_ring_size)) ≡ 0
      none_kept = ap length (init_contents rx_ring_size)

  -- the bytes of the buffer that the driver is filling, up to where it has come
  abbrev pub in_buffer : World (Manager B) → List ℕ
  in_buffer w = in_memory w.uart.current_buf w.uart.current_pos w.mem

  -- The books of a world: `done` was reported, and what the driver has in its buffer was not.
  pub record Delivered (line out : List ℕ) (w : World (Manager B)) : Type 0 where
    pub done : List ℕ
    pub account :
        Account line out done
          (in_buffer w)
          (out ++ contents w.client.app_ring)
          w.client.bytes_received
          w.client.bytes_buffered
          w.client.dropped_bytes
          w.client.bytes_read
          w.uart.hardware_bytes
    pub few : length (in_buffer w) < 8
    pub no_fault : w.fault ≡ false
    pub owned :
        (s : Bool)
        → get_or w.client.driver_owned (index s) false ≡ (
            points_to w.uart.current_buf (buf_at w.client.driver_buf (index s))
            || points_to w.uart.next_buf (buf_at w.client.driver_buf (index s)))

  few-pending : (p : Phase) (base : ℕ) (mem : ℕ → ℕ) → Fits B p → length (pending p base mem) < 8
  few-pending off base mem h = omega arith
  few-pending (on s first due pos) base mem h =
      omega (arith, length-slice mem (buf_at base (index s)) pos)

  owned-world :
      (p : Phase) (u : Uart) (g : Regs) (mem : ℕ → ℕ) (m : Manager B) (s : Bool)
      → get_or (world B p u g mem m).client.driver_owned (index s) false ≡ (
          points_to (world B p u g mem m).uart.current_buf (buf_at m.driver_buf (index s))
          || points_to (world B p u g mem m).uart.next_buf (buf_at m.driver_buf (index s)))
  owned-world off u g mem m false = refl
  owned-world off u g mem m true = refl
  owned-world (on false false due pos) u g mem m false = ground arith
  owned-world (on false false due pos) u g mem m true = ground arith
  owned-world (on false true due pos) u g mem m false = ground arith
  owned-world (on false true due pos) u g mem m true = ground arith
  owned-world (on true false due pos) u g mem m false = ground arith
  owned-world (on true false due pos) u g mem m true = ground arith
  owned-world (on true true due pos) u g mem m false = ground arith
  owned-world (on true true due pos) u g mem m true = ground arith

  Managed-Delivered :
      (line out done : List ℕ) (p : Phase) (u : Uart) (g : Regs) (mem : ℕ → ℕ) (m : Manager B)
      → Fits B p
      → Managed B line out done (pending p m.driver_buf mem) m u.hardware_bytes
      → Delivered line out (world B p u g mem m)
  Managed-Delivered line out done off u g mem m fits a = record {
    done = done;
    account = a;
    few = omega arith;
    no_fault = refl;
    owned = owned-world off u g mem m;
  }
  Managed-Delivered line out done (on s first due pos) u g mem m fits a = record {
    done = done;
    account = a;
    few = few-pending (on s first due pos) m.driver_buf mem fits;
    no_fault = refl;
    owned = owned-world (on s first due pos) u g mem m;
  }

  -- a world that some machine with these books stands for
  abbrev Reached : List ℕ → List ℕ → World (Manager B) → Type 0
  Reached line out w = (a : Machine B) × ((w ≡ world_of B a) × Balanced B line out a)

  step-Reached :
      (i : Input) (line out : List ℕ) (w : World (Manager B))
      → Reached line out w
      → Reached (line ++ on_line i w.uart) (out ++ (step B i w).0) (step B i w).1
  step-Reached i line out w (a, (e, b)) =
      subst (λ v. Reached (line ++ on_line i v.uart) (out ++ (step B i v).0) (step B i v).1) (sym e)
        (step-Steps B i line out a b)

  Reached-Delivered :
      (line out : List ℕ) (w : World (Manager B)) → Reached line out w → Delivered line out w
  Reached-Delivered line out w (a, (e, b)) =
      subst (Delivered line out) (sym e)
        (Managed-Delivered line out b.done a.phase a.uart a.regs a.mem a.manager b.fits b.account)

  run-Reached :
      (is : List Input) (line out : List ℕ) (w : World (Manager B))
      → Reached line out w
      → Reached (line ++ (run B is w).0) (out ++ (run B is w).1) (run B is w).2
  unfolding run
  run-Reached [] line out w r =
      subst (λ l. Reached l (out ++ []) w) (sym (append-nil line))
        (subst (λ o. Reached line o w) (sym (append-nil out)) r)
  run-Reached (i ∷ is) line out w r =
      let w' = (step B i w).1 in
      let rest =
        run-Reached is (line ++ on_line i w.uart) (out ++ (step B i w).0) w'
          (step-Reached i line out w r) in
      subst (λ l. Reached l (out ++ ((step B i w).0 ++ (run B is w').1)) (run B is w').2)
        (append_assoc line (on_line i w.uart) (run B is w').0)
        (subst (λ o. Reached ((line ++ on_line i w.uart) ++ (run B is w').0) o (run B is w').2)
          (append_assoc out (step B i w).0 (run B is w').1) rest)

  -- After rx_manager_init on a fresh driver, which succeeds, and any series of interrupts, reads and
  -- stops: the bytes of the line are those that were reported and then those that stand in the memory
  -- of the driver's current buffer below its position, at most seven, none if there is no such buffer;
  -- what has been read and what is in the ring is a part of the reported bytes, in their order, and
  -- all of them if as many were kept as reported; the four counters, the dropped bytes among them,
  -- and the count of the driver say so modulo 2 ^ 32; a buffer is marked as owned exactly if the
  -- driver has it as its current or next one; and NULL was neither called nor written through.
  pub run_delivers :
      (w : World (Manager B)) (is : List Input)
      → IsFresh w
      → let start = rx_manager_init B true true true w in
        let r = run B is start.1 in (start.0 ≡ ok) × Delivered r.0 r.1 r.2
  run_delivers w is f =
      let e = init-initial w f in
      let start : Reached [] [] (rx_manager_init B true true true w).1 =
        (initial w, (ap (λ r. r.1) e, initial-Balanced w f)) in
      let last = run-Reached is [] [] (rx_manager_init B true true true w).1 start in
      (ap (λ r. r.0) e, Reached-Delivered _ _ _ last)

  -- After rx_manager_init on a fresh driver and any such series, while the line has brought less than
  -- 2 ^ 32 bytes and `dropped_bytes` is 0: what was read, what is in the ring and what stands in the
  -- memory of the driver's current buffer below its position, at most seven bytes, is the line, in
  -- order.
  pub run_lossless :
      (w : World (Manager B)) (is : List Input)
      → IsFresh w
      → length (run B is (rx_manager_init B true true true w).1).0 < 4294967296
      → (run B is (rx_manager_init B true true true w).1).2.client.dropped_bytes ≡ 0
      → let r = run B is (rx_manager_init B true true true w).1 in
        (length (in_buffer r.2) < 8)
        × (r.0 ≡ (r.1 ++ contents r.2.client.app_ring) ++ in_buffer r.2)
  run_lossless w is f short none_dropped =
      let r = run B is (rx_manager_init B true true true w).1 in
      let d = (run_delivers w is f).1 in
      (d.few, nothing_lost r.0 d.done (in_buffer r.2) _ d.account short none_dropped)
