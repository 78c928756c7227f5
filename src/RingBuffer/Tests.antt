-- ===== src/RingBuffer/Tests.antt =====
-- Runs of the ring and of the echo loop, and the theorems at such runs.
use cortex_m3_embedded_debug.Base.{◌≡◌, refl, false, some, List, [], ◌∷◌, ◌++◌, arith, replicate}
use cortex_m3_embedded_debug.RingBuffer.{RingBuffer, empty, push, pop}
use cortex_m3_embedded_debug.RingBuffer.Fifo.{
  IsValid, contents, fifo_push, fifo_pop, push_refines, pop_refines,
}
use cortex_m3_embedded_debug.RingBuffer.Echo.{
  Echo, testing, receive, proceed, Event, step, run, accepted, Inv, stored,
}
use cortex_m3_embedded_debug.RingBuffer.Echo.Order.{run_order, run_overflow, dropped}

-- three bytes, one of them past the end of the array
abbrev wrapped : RingBuffer
wrapped = record { buf = 30 ∷ replicate 61 0 ++ (10 ∷ 20 ∷ []); head = 1; tail = 62 }

wrapped-IsValid : IsValid wrapped
wrapped-IsValid = omega arith

wrapped_contents : contents wrapped ≡ 10 ∷ 20 ∷ 30 ∷ []
unfolding contents
wrapped_contents = refl

pop-wrapped : (pop wrapped).1 ≡ some 10
unfolding pop
pop-wrapped = refl

push_refines_example :
    let (done, rb) = push wrapped 300 in
    IsValid rb × ((done, contents rb) ≡ fifo_push (contents wrapped) 44)
push_refines_example = push_refines wrapped-IsValid 300

pop_refines_example :
    let (done, out, rb) = pop wrapped in
    IsValid rb × ((done, out, contents rb) ≡ fifo_pop (contents wrapped))
pop_refines_example = pop_refines wrapped-IsValid

abbrev start : Echo
start = record { rx_rb = wrapped; rx_overflow = false; place = testing; sent = [] }

start-Inv : Inv start
start-Inv = record { valid = wrapped-IsValid; knows = tt }

-- the interrupt comes between the test and the read, and before the write of `tail`
abbrev schedule : List Event
schedule = proceed ∷ receive 7 ∷ proceed ∷ receive 8 ∷ proceed ∷ proceed ∷ proceed ∷ []

run-schedule : (run start schedule).sent ≡ 10 ∷ []
unfolding run step push empty
run-schedule = refl

run_order_example :
    Inv (run start schedule)
    × (stored (run start schedule) ≡ stored start ++ accepted start schedule)
run_order_example = run_order start schedule start-Inv

run_overflow_example : (run start schedule).rx_overflow ≡ dropped start schedule
run_overflow_example = run_overflow start schedule
