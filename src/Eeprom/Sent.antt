-- ===== src/Eeprom/Sent.antt =====
-- The conversation of a write with a chip, and the probes behind it.
use cortex_m3_embedded_debug.Base.{
  ℕ, zero, suc, get_or, ◌≤◌, ◌≡◌, refl, ap, ◌∙◌, Bool, true, false, List, [], ◌∷◌, ◌++◌, is_ok,
  bit_or, arith,
}
use cortex_m3_embedded_debug.Base.Exec.{
  Void, Outcome, value, returned, continue, Ensures, Ensures-map, act, pure, on_error_of,
}
use cortex_m3_embedded_debug.I2cTarget.Slave.{Device}
use cortex_m3_embedded_debug.Mps2I2c.{Mps2I2cMsg, msg_write, msg_stop}
use cortex_m3_embedded_debug.Mps2I2c.Talk.{
  Talk, call, reply, tell, bye, address_byte, talk, talk_one, talk_message,
}
use cortex_m3_embedded_debug.Eeprom.Chip.{Chip, programmed, store_page}
use cortex_m3_embedded_debug.Eeprom.Got.{bytes_from, tell-Told}

abbrev pub write_message : ℕ → Mps2I2cMsg
write_message n = record { has_buf = true; len = n; flags = bit_or msg_write msg_stop }

-- A STOP behind no byte changes nothing.
programmed-nil : (width page : ℕ) (cells : ℕ → ℕ) → programmed width page [] cells ≡ cells
unfolding programmed store_page
programmed-nil zero page cells = refl
programmed-nil (suc n) page cells = refl

module _ (V : Device) (target_addr width page : ℕ) (C : Chip V target_addr width page) where
  open V use {E, address, stopped}
  open C use {cells, got}

  -- A call alone, with its STOP, leaves the cells.
  pub called_cells : (byte : ℕ) (e : E) → cells (stopped (address byte e).1) ≡ cells e
  called_cells byte e =
      C.stopped_cells (address byte e).1
      ∙ ap (λ (l : List ℕ). programmed width page l (cells (address byte e).1))
          (C.address_got byte e)
      ∙ programmed-nil width page (cells (address byte e).1)
      ∙ C.address_cells byte e

  -- The chip has taken the first `k` bytes of the buffer into its cells.
  abbrev pub Took : ℕ → List ℕ → E → E → Type 0
  Took k buf e e' = cells e' ≡ programmed width page (bytes_from k 0 buf) (cells e)

  -- a message to the chip before its STOP, with the buffers as they were
  abbrev pub Heard : ℕ → List (List ℕ) → E → Outcome Void × Talk E → Type 0
  Heard n bufs e o =
      Ensures o
        (λ _ y.
          (y.bufs ≡ bufs)
          × ((got y.dev ≡ bytes_from n 0 (get_or bufs 0 [])) × (cells y.dev ≡ cells e)))
        (λ rc y.
          (is_ok rc ≡ false)
          × ((y.bufs ≡ bufs)
              × ((k : ℕ) × ((k ≤ n)
                    × ((got y.dev ≡ bytes_from k 0 (get_or bufs 0 []))
                        × (cells y.dev ≡ cells e))))))

  pub call-Heard :
      (n : ℕ) (bufs : List (List ℕ)) (e : E)
      → Heard n bufs e (
          continue (call V target_addr false (record { dev = e; bufs = bufs })) (λ _. tell V n 0 0))
  call-Heard n bufs e =
      let byte = address_byte V target_addr false in
      answered (address byte e) (C.address_got byte e) (C.address_cells byte e)
    where
      answered :
          (a : Bool × E)
          → got a.1 ≡ []
          → cells a.1 ≡ cells e
          → Heard n bufs e (continue (reply V bufs a) (λ _. tell V n 0 0))
      answered (true, e') g c =
          let start : Talk E = record { dev = e'; bufs = bufs } in
          Ensures-map (tell V n 0 0 start) (tell-Told V target_addr width page C n 0 0 start)
            (λ _ y q. (
              q.1.1,
              (q.0 ∙ ap (λ (l : List ℕ). l ++ bytes_from n 0 (get_or bufs 0 [])) g, q.1.0 ∙ c),
            ))
            (λ rc y q.
              let (same_bufs, (k, (lt, (same_got, same_cells)))) = q.1 in
              (
                q.0,
                (
                  same_bufs,
                  (
                    k,
                    (
                      omega (arith, lt),
                      (
                        same_got ∙ ap (λ (l : List ℕ). l ++ bytes_from k 0 (get_or bufs 0 [])) g,
                        same_cells ∙ c,
                      ),
                    ),
                  ),
                ),
              ))
      answered (false, e') g c = (refl, (refl, (0, (omega arith, (g, c)))))

  took :
      (k : ℕ) (buf : List ℕ) (e e' : E)
      → got e' ≡ bytes_from k 0 buf
      → cells e' ≡ cells e
      → Took k buf e (stopped e')
  took k buf e e' g c =
      C.stopped_cells e'
      ∙ ap (λ (l : List ℕ). programmed width page l (cells e')) g
      ∙ ap (λ (m : ℕ → ℕ). programmed width page (bytes_from k 0 buf) m) c

  -- The whole buffer, or after an error the first bytes of it.
  abbrev pub Sent : ℕ → List ℕ → E → Outcome Void × Talk E → Type 0
  Sent n buf e o =
      Ensures o (λ _ y. Took n buf e y.dev)
        (λ rc y. (is_ok rc ≡ false) × ((k : ℕ) × ((k ≤ n) × Took k buf e y.dev)))

  pub talk-Sent :
      (n : ℕ) (buf : List ℕ) (e : E)
      → Sent n buf e
          (talk V target_addr (write_message n ∷ []) 0 (record { dev = e; bufs = buf ∷ [] }))
  unfolding talk talk_one talk_message
  talk-Sent n buf e =
      ended (talk_message V target_addr 0 (write_message n) (record { dev = e; bufs = buf ∷ [] }))
        (call-Heard n (buf ∷ []) e)
    where
      ended :
          (o : Outcome Void × Talk E)
          → Heard n (buf ∷ []) e o
          → Sent n buf e
              (continue (continue (on_error_of o (bye V)) (λ _. act (bye V))) (λ _. pure tt))
      ended (value v, y) (b, (g, c)) = took n buf e y.dev g c
      ended (returned rc, y) (bad, (b, (k, (le, (g, c))))) =
          (bad, (k, (le, took k buf e y.dev g c)))
