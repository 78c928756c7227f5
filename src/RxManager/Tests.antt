-- ===== src/RxManager/Tests.antt =====
-- A run of the receive manager over a list as its ring, and the theorems at it.
use cortex_m3_embedded_debug.Base.{
  ◌<◌, ◌≡◌, refl, true, false, none, List, [], ◌∷◌, ◌++◌, length, arith, ok,
}
use cortex_m3_embedded_debug.Zephyr.RingBuf.{list_ring}
use cortex_m3_embedded_debug.UartAsync.{
  World, rx_idle, callback_set, rx_enable, is_active, rx_buf_rsp, buffers_overlap,
}
use cortex_m3_embedded_debug.UartAsync.Isr.{
  isr, serve_active, first_request, request_buffer, emit, serve_status, receive, buffer_full,
  report_current, pass_buffer,
}
use cortex_m3_embedded_debug.RxManager.{
  blank, rx_manager_init, rx_manager_read, rx_manager_event, buffer_index,
}
use cortex_m3_embedded_debug.RxManager.Events.{Manager}
use cortex_m3_embedded_debug.RxManager.Machine.{Machine, on, interrupt, world_of}
use cortex_m3_embedded_debug.RxManager.Refine.{isr_refines}
use cortex_m3_embedded_debug.RxManager.System.{Input, irq, reads, step, run, on_line}
use cortex_m3_embedded_debug.RxManager.Service.{
  IsFresh, Delivered, in_buffer, run_delivers, run_lossless,
}
use cortex_m3_embedded_debug.RxManager.Alive.{run_stays_active}

abbrev fresh : World (Manager list_ring)
fresh = record {
  uart = record {
    callback = false;
    state = rx_idle;
    in_callback = false;
    initial_request = false;
    request_outstanding = false;
    current_buf = none;
    current_len = 0;
    current_pos = 0;
    reported = 0;
    next_buf = none;
    next_len = 0;
    irq_entries = 0;
    hardware_bytes = 0;
    hardware_overruns = 0;
  };
  regs = record { tx_data = 0; ctrl = 1; intclear = 0; bauddiv = 217; pending = false };
  mem = λ a. 170;
  client = blank list_ring 536870912;
  fault = false;
}

fresh-IsFresh : IsFresh list_ring fresh
fresh-IsFresh = record { not_running = refl; not_called = refl; none_yet = refl; no_fault = refl }

abbrev ready : World (Manager list_ring)
ready = (rx_manager_init list_ring true true true fresh).1

-- nine bytes, with the pended first interrupt before and a read in between
abbrev nine : List Input
nine =
    irq 0 0
    ∷ irq 2 11
    ∷ irq 2 12
    ∷ irq 2 13
    ∷ reads 16
    ∷ irq 2 14
    ∷ irq 2 15
    ∷ irq 2 16
    ∷ irq 2 17
    ∷ irq 2 18
    ∷ reads 3
    ∷ irq 2 275
    ∷ []

run-nine :
    ((run list_ring nine ready).0 ≡ 11 ∷ 12 ∷ 13 ∷ 14 ∷ 15 ∷ 16 ∷ 17 ∷ 18 ∷ 19 ∷ [])
    × ((run list_ring nine ready).1 ≡ 11 ∷ 12 ∷ 13 ∷ [])
unfolding run step on_line rx_manager_init callback_set rx_enable rx_manager_read isr serve_active
    first_request request_buffer emit rx_manager_event buffer_index rx_buf_rsp buffers_overlap
    serve_status receive buffer_full report_current pass_buffer
run-nine = (refl, refl)

nine_none_dropped : (run list_ring nine ready).2.client.dropped_bytes ≡ 0
unfolding run step on_line rx_manager_init callback_set rx_enable rx_manager_read isr serve_active
    first_request request_buffer emit rx_manager_event buffer_index rx_buf_rsp buffers_overlap
    serve_status receive buffer_full report_current pass_buffer
nine_none_dropped = refl

run_delivers_example :
    ((rx_manager_init list_ring true true true fresh).0 ≡ ok)
    × Delivered list_ring
        (run list_ring nine ready).0
        (run list_ring nine ready).1
        (run list_ring nine ready).2
run_delivers_example = run_delivers list_ring fresh nine fresh-IsFresh

run_lossless_example :
    (length (in_buffer list_ring (run list_ring nine ready).2) < 8)
    × ((run list_ring nine ready).0
        ≡ ((run list_ring nine ready).1 ++ (run list_ring nine ready).2.client.app_ring.1)
          ++ in_buffer list_ring (run list_ring nine ready).2)
run_lossless_example =
    run_lossless list_ring fresh nine fresh-IsFresh (rw (run-nine.0) (omega arith))
      nine_none_dropped

run_stays_active_example : is_active (run list_ring nine ready).2.uart.state ≡ true
run_stays_active_example = run_stays_active list_ring fresh nine fresh-IsFresh (omega arith)

-- a machine with seven bytes in its second buffer
abbrev almost_full : Machine list_ring
almost_full = record {
  phase = on true false false 7;
  uart = fresh.uart;
  regs = fresh.regs;
  mem = fresh.mem;
  manager = fresh.client;
}

isr_refines_example :
    isr (rx_manager_event list_ring) 2 99 (world_of list_ring almost_full)
    ≡ world_of list_ring (interrupt list_ring 2 99 almost_full)
isr_refines_example = isr_refines list_ring 2 99 almost_full (omega arith)
