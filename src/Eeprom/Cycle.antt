-- ===== src/Eeprom/Cycle.antt =====
-- The write cycle of a chip: while it lasts the chip answers no call and its cells are not settled.
use cortex_m3_embedded_debug.Base.{
  ℕ, zero, suc, ◌+◌, ◌*◌, ◌≤◌, ◌<◌, ◌≡◌, refl, ap, sym, ◌∙◌, subst, Bool, true, false, List, [],
  ◌∷◌, ◌++◌, length, length-append, get_or, if◌then◌else◌, u8, bit_or, arith,
}
use cortex_m3_embedded_debug.Base.Exec.{
  Void, Outcome, value, returned, continue, Ensures, Ensures-map, act, pure, on_error_of,
}
use cortex_m3_embedded_debug.I2cTarget.Slave.{Device}
use cortex_m3_embedded_debug.Mps2I2c.{Mps2I2cMsg, msg_read, msg_restart, msg_stop}
use cortex_m3_embedded_debug.Mps2I2c.Talk.{
  Talk, reply, tell, hear, bye, address_byte, talk, talk_one, talk_message,
}
use cortex_m3_embedded_debug.Eeprom.Chip.{Chip}
use cortex_m3_embedded_debug.Eeprom.Fetched.{read_messages, hear_lem}

-- `memory` is what stands in the cells; the `cells` of the chip are what will stand there when the
-- write cycle is over. A chip is awake when it is in no cycle: it has acknowledged a call that a STOP
-- followed; awake it acknowledges its calls and the bytes of a word address, and stays awake.
pub record WriteCycle (V : Device) (target_addr width page : ℕ) (C : Chip V target_addr width page)
    : Type 0 where
  pub memory : V.E → ℕ → ℕ
  pub awake : V.E → Bool
  pub settled : (e : V.E) → awake e ≡ true → memory e ≡ C.cells e
  pub probe_awake :
      (e : V.E)
      → (V.address (target_addr * 2) e).0 ≡ true
      → awake (V.stopped (V.address (target_addr * 2) e).1) ≡ true
  pub call_acknowledged :
      (reads : Bool) (e : V.E)
      → awake e ≡ true
      → (V.address (target_addr * 2 + (if reads then 1 else 0)) e).0 ≡ true
  pub call_awake :
      (reads : Bool) (e : V.E)
      → awake e ≡ true
      → awake (V.address (target_addr * 2 + (if reads then 1 else 0)) e).1 ≡ true
  pub take_acknowledged :
      (v : ℕ) (e : V.E) → awake e ≡ true → length (C.got e) < width → (V.take v e).0 ≡ true
  pub take_awake : (v : ℕ) (e : V.E) → awake e ≡ true → awake (V.take v e).1 ≡ true

module _ (V : Device) (target_addr width page : ℕ) (C : Chip V target_addr width page)
    (K : WriteCycle V target_addr width page C) where
  open V use {E, address, take}
  open C use {got}
  open K use {awake}

  -- The conversation ends without an error.
  abbrev pub Succeeds : Outcome Void × Talk E → Type 0
  Succeeds o = Ensures o (λ _ y. Unit {0}) (λ rc y. ⊥)

  tell-awake :
      (n byte : ℕ) (x : Talk E)
      → awake x.dev ≡ true
      → length (got x.dev) + n ≤ width
      → Ensures (tell V n 0 byte x) (λ _ y. (awake y.dev ≡ true) × (y.bufs ≡ x.bufs)) (λ rc y. ⊥)
  unfolding tell
  tell-awake zero byte x h room = (h, refl)
  tell-awake (suc n) byte x h room =
      let v = u8 (get_or (get_or x.bufs 0 []) byte 0) in
      step (take v x.dev) (K.take_acknowledged v x.dev h (omega arith)) (K.take_awake v x.dev h)
        (C.take_got v x.dev) (λ e. tell-awake n (suc byte) (record { dev = e; bufs = x.bufs }))
    where
      step :
          (a : Bool × E)
          → a.0 ≡ true
          → awake a.1 ≡ true
          → got a.1 ≡ (
              if a.0
              then got x.dev ++ (u8 (get_or (get_or x.bufs 0 []) byte 0) ∷ [])
              else got x.dev)
          → ((e : E)
              → awake e ≡ true
              → length (got e) + n ≤ width
              → Ensures
                  (tell V n 0 (suc byte) (record { dev = e; bufs = x.bufs }))
                  (λ _ y. (awake y.dev ≡ true) × (y.bufs ≡ x.bufs))
                  (λ rc y. ⊥))
          → Ensures
              (continue (reply V x.bufs a) (λ (v : Void). tell V n 0 (suc byte)))
              (λ _ y. (awake y.dev ≡ true) × (y.bufs ≡ x.bufs))
              (λ rc y. ⊥)
      step (true, e) ack up g rest =
          let v = u8 (get_or (get_or x.bufs 0 []) byte 0) in
          let longer : length (got e) ≡ length (got x.dev) + 1 =
            ap (λ (l : List ℕ). length l) g ∙ length-append (got x.dev) (v ∷ []) in
          rest e up (omega (arith, longer, room))
      step (false, e) ack up g rest = absurd (ground arith)

  module _ (small : target_addr < 128) (len : ℕ) where
    -- the message that reads
    abbrev reading : List Mps2I2cMsg
    reading =
        record { has_buf = true; len = len; flags = bit_or (bit_or msg_read msg_restart) msg_stop }
        ∷ []

    heard :
        (o : Outcome Void × Talk E)
        → Ensures o (λ _ y. Unit {0}) (λ rc y. ⊥)
        → Succeeds
            (continue (continue (on_error_of o (bye V)) (λ _. act (bye V))) (λ (v : Void). pure tt))
    heard (value v, y) h = tt
    heard (returned rc, y) h = absurd h

    read_part :
        (abuf payload : List ℕ) (d : E)
        → awake d ≡ true
        → Succeeds (talk V target_addr reading 1 (record { dev = d; bufs = abuf ∷ payload ∷ [] }))
    unfolding talk talk_one talk_message
    read_part abuf payload d h =
        let same : target_addr * 2 + 1 ≡ address_byte V target_addr true = omega arith in
        answered (address (address_byte V target_addr true) d)
          (ap (λ (b : ℕ). (address b d).0) (sym same) ∙ K.call_acknowledged true d h)
      where
        answered :
            (a : Bool × E)
            → a.0 ≡ true
            → Succeeds (
                continue
                  (continue
                    (on_error_of
                      (continue
                        (reply V (abuf ∷ payload ∷ []) a)
                        (λ (v : Void). hear V len 1 len 0))
                      (bye V))
                    (λ (v : Void). act (bye V)))
                  (λ (v : Void). pure tt))
        answered (true, e') ack =
            heard (hear V len 1 len 0 (record { dev = e'; bufs = abuf ∷ payload ∷ [] })) (
              Ensures-map (hear V len 1 len 0 (record { dev = e'; bufs = abuf ∷ payload ∷ [] }))
                (hear_lem V target_addr width page C len len 0 (C.cursor e') abuf payload e' refl)
                (λ _ y q. tt) (λ rc y q. q))
        answered (false, e') ack = absurd (ground arith)

    -- A chip that is awake serves a read.
    pub talk-Succeeds :
        (abuf payload : List ℕ) (e : E)
        → awake e ≡ true
        → Succeeds (
            talk V target_addr
              (read_messages width len)
              0
              (record { dev = e; bufs = abuf ∷ payload ∷ [] }))
    unfolding talk talk_one talk_message
    talk-Succeeds abuf payload e h =
        let same : target_addr * 2 + 0 ≡ address_byte V target_addr false = omega arith in
        answered (address (address_byte V target_addr false) e)
          (ap (λ (b : ℕ). (address b e).0) (sym same) ∙ K.call_acknowledged false e h)
          (ap (λ (b : ℕ). awake (address b e).1) (sym same) ∙ K.call_awake false e h)
          (C.address_got (address_byte V target_addr false) e)
      where
        then_read :
            (o : Outcome Void × Talk E)
            → Ensures o (λ _ y. (awake y.dev ≡ true) × (y.bufs ≡ abuf ∷ payload ∷ [])) (λ rc y. ⊥)
            → Succeeds (
                continue
                  (continue (on_error_of o (bye V)) (λ (v : Void). pure tt))
                  (λ (v : Void). talk V target_addr reading 1))
        then_read (value v, y) (up, b) =
            subst
              (λ (l : List (List ℕ)).
                Succeeds (talk V target_addr reading 1 (record { dev = y.dev; bufs = l })))
              (sym b) (read_part abuf payload y.dev up)
        then_read (returned rc, y) q = absurd q

        answered :
            (a : Bool × E)
            → a.0 ≡ true
            → awake a.1 ≡ true
            → got a.1 ≡ []
            → Succeeds (
                continue
                  (continue
                    (on_error_of
                      (continue (reply V (abuf ∷ payload ∷ []) a) (λ (v : Void). tell V width 0 0))
                      (bye V))
                    (λ (v : Void). pure tt))
                  (λ (v : Void). talk V target_addr reading 1))
        answered (true, e') ack up g =
            then_read (tell V width 0 0 (record { dev = e'; bufs = abuf ∷ payload ∷ [] })) (
              tell-awake width 0 (record { dev = e'; bufs = abuf ∷ payload ∷ [] }) up
                (omega (arith, ap (λ (l : List ℕ). length l) g)))
        answered (false, e') ack up g = absurd (ground arith)
