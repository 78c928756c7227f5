-- ===== src/RingBuffer/Echo.antt =====
-- main.c of labs/lab11_uart_ringbuffer: the receive interrupt pushes, the main loop pops and
-- transmits. The interrupt may come between any two accesses that `rb_pop` makes to the ring.
pub mod Order
use cortex_m3_embedded_debug.Base.{
  ℕ, zero, suc, ◌+◌, ◌-◌, ◌%◌, ◌≤◌, ◌<◌, ◌≡◌, ◌≢◌, ◌⊎◌, inl, inr, refl, ap, ap₂, sym, ◌∙◌, subst,
  Bool, true, false, not, ◌||◌, Option, some, none, List, [], ◌∷◌, ◌++◌, arith, length, get_or,
  ◌==◌, if◌then◌else◌, u8, Bool-cases,
}
use mathlib.Core.List.{append_assoc, append-nil}
use cortex_m3_embedded_debug.RingBuffer.{RingBuffer, rb_size, empty, next, push}
use cortex_m3_embedded_debug.RingBuffer.Fifo.{
  IsValid, contents, used, held, held_first, push_refines, fifo_push, length-contents,
}

-- where the main loop stands: before the test of `rb_empty`, before the read of the byte, before
-- the write of `tail`, before `uart_putc`
pub data Place : Type 0 where
  testing reading : Place
  advancing sending : ℕ → Place

pub record Echo : Type 0 where
  pub rx_rb : RingBuffer
  pub rx_overflow : Bool
  pub place : Place
  pub sent : List ℕ

-- `UART0_Handler`, for the byte in the data register
pub handler : ℕ → Echo → Echo
handler c s =
    let (done, rb) = push s.rx_rb c in
    record s { rx_rb = rb; rx_overflow = s.rx_overflow || not done }

-- one access of the main loop
pub main_at : Place → Echo → Echo
main_at testing s = if empty s.rx_rb then s else record s { place = reading }
main_at reading s = record s { place = advancing (get_or s.rx_rb.buf s.rx_rb.tail 0) }
main_at (advancing c) s = record s {
  rx_rb = record (s.rx_rb) { tail = next s.rx_rb.tail };
  place = sending c;
}
main_at (sending c) s = record s { sent = s.sent ++ (c ∷ []); place = testing }

pub data Event : Type 0 where
  receive : ℕ → Event
  proceed : Event

unfoldable pub step : Echo → Event → Echo
unfolding handler main_at
step s (receive c) = handler c s
step s proceed = main_at s.place s

unfoldable pub run : Echo → List Event → Echo
run s [] = s
run s (e ∷ es) = run (step s e) es

-- the bytes that the handler could store, in the order in which they came
unfoldable pub accepted : Echo → List Event → List ℕ
accepted s [] = []
accepted s (receive c ∷ es) =
    let rest = accepted (step s (receive c)) es in if (push s.rx_rb c).0 then u8 c ∷ rest else rest
accepted s (proceed ∷ es) = accepted (step s proceed) es

-- the byte that has left the ring and is not yet sent
abbrev pub in_flight : Place → List ℕ
in_flight (sending c) = c ∷ []
in_flight _ = []

-- what the loop knows where it stands
abbrev pub Knows : Place → RingBuffer → Type 0
Knows testing rb = Unit
Knows reading rb = used rb ≢ 0
Knows (advancing c) rb = (used rb ≢ 0) × (c ≡ get_or rb.buf rb.tail 0)
Knows (sending c) rb = Unit

pub record Inv (s : Echo) : Type 0 where
  pub valid : IsValid s.rx_rb
  pub knows : Knows s.place s.rx_rb

-- every byte that has been stored: sent, on its way, or in the ring
abbrev pub stored : Echo → List ℕ
stored s = s.sent ++ (in_flight s.place ++ contents s.rx_rb)
