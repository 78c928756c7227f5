-- ===== src/Mps2I2c/Rest.antt =====
-- The lines before and behind a message, and what a conversation is on them.
use cortex_m3_embedded_debug.Base.{◌<◌, Bool, true, false, List, [], ◌∷◌, if◌then◌else◌}
use cortex_m3_embedded_debug.Base.Exec.{Void, Outcome, value, returned}
use cortex_m3_embedded_debug.I2cTarget.{Wires, up, low}
use cortex_m3_embedded_debug.I2cTarget.Slave.{Device, Phase, Shift, off, getting, slave}
use cortex_m3_embedded_debug.Mps2I2c.{Mps2I2cMsg, Transfer, has_flag, msg_read, msg_stop}
use cortex_m3_embedded_debug.Mps2I2c.Talk.{Talk}

-- The lines between two bytes or messages: free, or with SCL low and a target that has left the
-- transfer or waits for a byte.
pub data Rest : Type 0 where
  idle : Rest
  left : Bool → Rest
  waits : Bool → Rest

module _ (V : Device) where
  open V use {E, offer, stopped}

  abbrev pub at_rest : Rest → E → Wires (Shift V)
  at_rest idle e = up (slave V) true (off, e)
  at_rest (left s) e = low (slave V) s (off, e)
  at_rest (waits s) e = low (slave V) s (getting false 0 0, e)

  abbrev pub on_lines : Rest → Talk E → Transfer (Wires (Shift V))
  on_lines r x = record { wires = at_rest r x.dev; bufs = x.bufs }

  -- The target has the phase `p`, and SCL is low.
  abbrev pub mid : Bool → Phase → Talk E → Transfer (Wires (Shift V))
  mid s p x = record { wires = low (slave V) s (p, x.dev); bufs = x.bufs }

  -- A result of the conversation on the lines: on success they rest as said, else as said next.
  abbrev pub concluded :
      Rest → Rest → Outcome Void × Talk E → Outcome Void × Transfer (Wires (Shift V))
  concluded r r' (value _, x) = (value tt, on_lines r x)
  concluded r r' (returned rc, x) = (returned rc, on_lines r' x)

  -- the lines behind a message that was not ended by a STOP
  abbrev pub rest_behind : Bool → Rest
  rest_behind reads = if reads then left true else waits true

  -- after a message
  abbrev pub rest_of : Mps2I2cMsg → Rest
  rest_of m = if has_flag m.flags msg_stop then idle else rest_behind (has_flag m.flags msg_read)

  abbrev pub rest_of_all : Rest → List Mps2I2cMsg → Rest
  rest_of_all r [] = r
  rest_of_all r (m ∷ ms) = rest_of_all (rest_of m) ms

-- every message has a byte
abbrev pub AllFilled : List Mps2I2cMsg → Type 0
AllFilled [] = Unit
AllFilled (m ∷ ms) = (0 < m.len) × AllFilled ms
