-- ===== src/RingBuffer.antt =====
-- labs/lab11_uart_ringbuffer: ringbuffer.c, and the echo loop of main.c that shares one ring
-- between the receive interrupt and the main loop.
pub mod Fifo
pub mod Echo
mod Tests
use cortex_m3_embedded_debug.Base.{
  ℕ, ◌+◌, ◌%◌, Bool, true, false, Option, some, none, List, set, get_elem?, ◌==◌, if◌then◌else◌,
  u32, u8,
}

abbrev pub rb_size : ℕ
rb_size = 64

-- `ringbuffer_t`
pub record RingBuffer : Type 0 where
  pub buf : List ℕ
  pub head : ℕ
  pub tail : ℕ

pub init : RingBuffer → RingBuffer
init rb = record rb { head = 0; tail = 0 }

unfoldable pub empty : RingBuffer → Bool
empty rb = rb.head == rb.tail

abbrev pub next : ℕ → ℕ
next i = u32 (i + 1) % rb_size

pub full : RingBuffer → Bool
full rb = next rb.head == rb.tail

-- A write out of range changes nothing; `Fifo.IsValid` rules it out.
unfoldable pub push : RingBuffer → ℕ → Bool × RingBuffer
unfolding full
push rb c =
    if full rb
    then (false, rb)
    else (true, record rb { buf = set rb.buf rb.head (u8 c); head = next rb.head })

-- The option is what goes through `c`.
unfoldable pub pop : RingBuffer → Bool × Option ℕ × RingBuffer
unfolding empty
pop rb =
    if empty rb
    then (false, none, rb)
    else (true, get_elem? rb.buf rb.tail, record rb { tail = next rb.tail })
