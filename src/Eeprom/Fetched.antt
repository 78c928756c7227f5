-- ===== src/Eeprom/Fetched.antt =====
-- The conversation of a read with a chip.
use cortex_m3_embedded_debug.Base.{
  ℕ, zero, suc, ◌+◌, ◌*◌, ◌≤◌, ◌<◌, ◌≡◌, refl, ap, sym, ◌∙◌, subst, Bool, true, false, List, [],
  ◌∷◌, length, length-set, drop, get_or, set, get_or-set_self, get_or-set_ne, u8, is_ok, bit_or,
  ltb, arith,
}
use cortex_m3_embedded_debug.Base.Exec.{
  Void, Outcome, value, returned, continue, Ensures, Ensures-map, act, pure, on_error_of,
}
use cortex_m3_embedded_debug.I2cTarget.Slave.{Device}
use cortex_m3_embedded_debug.Mps2I2c.{Mps2I2cMsg, msg_write, msg_read, msg_restart, msg_stop}
use cortex_m3_embedded_debug.Mps2I2c.Talk.{
  Talk, reply, tell, hear, bye, call, address_byte, talk, talk_one, talk_message,
}
use cortex_m3_embedded_debug.Eeprom.Chip.{Chip, programmed, store_page, pointer}
use cortex_m3_embedded_debug.Eeprom.Got.{bytes_from, length-bytes_from}
use cortex_m3_embedded_debug.Eeprom.Sent.{Heard, call-Heard}

-- the buffer after `n` cells from `at` on came into it, from `byte` on
abbrev pub with_cells : (ℕ → ℕ) → ℕ → ℕ → ℕ → List ℕ → List ℕ
with_cells cells at zero byte buf = buf
with_cells cells at (suc n) byte buf =
    with_cells cells (at + 1) n (suc byte) (set buf byte (u8 (cells at)))

with_cells-keeps :
    (cells : ℕ → ℕ) (at n byte : ℕ) (buf : List ℕ) (j : ℕ)
    → j < byte
    → get_or (with_cells cells at n byte buf) j 0 ≡ get_or buf j 0
with_cells-keeps cells at zero byte buf j h = refl
with_cells-keeps cells at (suc n) byte buf j h =
    with_cells-keeps cells (at + 1) n (suc byte) (set buf byte (u8 (cells at))) j (omega arith)
    ∙ get_or-set_ne buf byte j (u8 (cells at)) 0 (λ same. absurd (omega arith))

-- Byte `i` of the buffer is cell `at + i`.
pub with_cells-at :
    (cells : ℕ → ℕ) (at n byte : ℕ) (buf : List ℕ) (i : ℕ)
    → byte + n ≤ length buf
    → i < n
    → get_or (with_cells cells at n byte buf) (byte + i) 0 ≡ u8 (cells (at + i))
with_cells-at cells at zero byte buf i h lt = absurd (omega arith)
with_cells-at cells at (suc n) byte buf zero h lt =
    let here : byte + 0 ≡ byte = omega arith in
    let same : at + 0 ≡ at = omega arith in
    rw (here, same)
      (with_cells-keeps cells (at + 1) n (suc byte) (set buf byte (u8 (cells at))) byte
          (omega arith)
        ∙ get_or-set_self buf byte (u8 (cells at)) 0 (omega arith))
with_cells-at cells at (suc n) byte buf (suc i) h lt =
    let there : byte + suc i ≡ suc byte + i = omega arith in
    let cell : at + suc i ≡ at + 1 + i = omega arith in
    rw (there, cell)
      (with_cells-at cells (at + 1) n (suc byte) (set buf byte (u8 (cells at))) i
        (omega (arith, length-set buf byte (u8 (cells at)))) (omega arith))

-- A buffer as long as the word address says nothing behind it.
drop-short : (n k byte : ℕ) (buf : List ℕ) → k ≤ n → drop n (bytes_from k byte buf) ≡ []
drop-short zero zero byte buf h = refl
drop-short zero (suc k) byte buf h = absurd (omega arith)
drop-short (suc n) zero byte buf h = refl
drop-short (suc n) (suc k) byte buf h = drop-short n k (suc byte) buf (omega arith)

abbrev pub read_messages : ℕ → ℕ → List Mps2I2cMsg
read_messages width len =
    record { has_buf = true; len = width; flags = msg_write }
    ∷ record { has_buf = true; len = len; flags = bit_or (bit_or msg_read msg_restart) msg_stop }
    ∷ []

module _ (V : Device) (target_addr width page : ℕ) (C : Chip V target_addr width page) where
  open V use {E, address, stopped, given}
  open C use {cells, got, cursor}

  -- A STOP behind nothing but a word address leaves the cells.
  quiet :
      (k : ℕ) (buf : List ℕ) (e : E)
      → k ≤ width
      → got e ≡ bytes_from k 0 buf
      → cells (stopped e) ≡ cells e
  unfolding programmed store_page
  quiet k buf e h g =
      C.stopped_cells e
      ∙ ap (λ (l : List ℕ). programmed width page l (cells e)) g
      ∙ ap (λ (l : List ℕ). store_page page (pointer width (bytes_from k 0 buf)) l (cells e))
          (drop-short width k 0 buf h)

  -- What is heard are the cells from the cursor on.
  pub hear_lem :
      (n len byte at : ℕ) (a b : List ℕ) (e : E)
      → cursor e ≡ at
      → Ensures
          (hear V n 1 len byte (record { dev = e; bufs = a ∷ b ∷ [] }))
          (λ _ y.
            (y.bufs ≡ a ∷ with_cells (cells e) at n byte b ∷ [])
            × ((cells y.dev ≡ cells e) × (got y.dev ≡ got e)))
          (λ rc y. ⊥)
  unfolding hear
  hear_lem zero len byte at a b e h = (refl, (refl, refl))
  hear_lem (suc n) len byte at a b e h =
      let wanted = ltb (byte + 1) len in
      let v : V.offer e ≡ u8 (cells e at) = C.offer_cell e ∙ ap (λ (c : ℕ). u8 (cells e c)) h in
      let same = C.given_cells wanted e in
      rw v (
        Ensures-map
          (hear V n 1 len (suc byte)
            (record { dev = given wanted e; bufs = a ∷ set b byte (u8 (cells e at)) ∷ [] }))
          (hear_lem n len (suc byte) (at + 1) a (set b byte (u8 (cells e at))) (given wanted e)
            (C.given_cursor wanted e ∙ ap (λ (c : ℕ). c + 1) h))
          (λ _ y q. (
            q.0
                ∙ ap
                    (λ (c : ℕ → ℕ).
                      a ∷ with_cells c (at + 1) n (suc byte) (set b byte (u8 (cells e at))) ∷ [])
                    same,
            (q.1.0 ∙ same, q.1.1 ∙ C.given_got wanted e),
          ))
          (λ rc y q. q))

  module _ (small : target_addr < 128) (e : E) (abuf payload : List ℕ) (at len : ℕ)
      (pointed : pointer width (bytes_from width 0 abuf) ≡ at) where
    -- The cells from `at` on have come, or there was an error and the buffer is as it was; no cell
    -- has changed.
    abbrev pub Fetched : Outcome Void × Talk E → Type 0
    Fetched o =
        Ensures o
          (λ _ y.
            (cells y.dev ≡ cells e) × (get_or y.bufs 1 [] ≡ with_cells (cells e) at len 0 payload))
          (λ rc y. (is_ok rc ≡ false) × ((cells y.dev ≡ cells e) × (get_or y.bufs 1 [] ≡ payload)))

    abbrev second : Mps2I2cMsg
    second = record {
      has_buf = true;
      len = len;
      flags = bit_or (bit_or msg_read msg_restart) msg_stop;
    }

    fetched :
        (o : Outcome Void × Talk E)
        → Ensures o
            (λ _ y.
              (y.bufs ≡ abuf ∷ with_cells (cells e) at len 0 payload ∷ [])
              × ((cells y.dev ≡ cells e) × (got y.dev ≡ [])))
            (λ rc y. ⊥)
        → Fetched (continue (continue (on_error_of o (bye V)) (λ _. act (bye V))) (λ _. pure tt))
    fetched (value v, y) (b, (c, g)) =
        (quiet 0 [] y.dev (omega arith) g ∙ c, ap (λ (l : List (List ℕ)). get_or l 1 []) b)
    fetched (returned rc, y) h = absurd h

    from_pointer :
        (d : E)
        → got d ≡ bytes_from width 0 abuf
        → cells d ≡ cells e
        → Fetched
            (talk V target_addr (second ∷ []) 1 (record { dev = d; bufs = abuf ∷ payload ∷ [] }))
    unfolding talk talk_one talk_message
    from_pointer d g c =
        let byte = address_byte V target_addr true in
        let same : target_addr * 2 + 1 ≡ byte = omega arith in
        let count : length (got d) ≡ width =
          ap (λ (l : List ℕ). length l) g ∙ length-bytes_from width 0 abuf in
        answered (address byte d) (C.address_cells byte d ∙ c) (C.address_got byte d) (
          ap (λ (b : ℕ). cursor (address b d).1) (sym same)
          ∙ C.address_cursor d count
          ∙ ap (λ (l : List ℕ). pointer width l) g
          ∙ pointed)
      where
        answered :
            (a : Bool × E)
            → cells a.1 ≡ cells e
            → got a.1 ≡ []
            → cursor a.1 ≡ at
            → Fetched (
                continue
                  (continue
                    (on_error_of
                      (continue (reply V (abuf ∷ payload ∷ []) a) (λ _. hear V len 1 len 0))
                      (bye V))
                    (λ _. act (bye V)))
                  (λ _. pure tt))
        answered (true, e') c' g' cur =
            fetched (hear V len 1 len 0 (record { dev = e'; bufs = abuf ∷ payload ∷ [] })) (
              Ensures-map (hear V len 1 len 0 (record { dev = e'; bufs = abuf ∷ payload ∷ [] }))
                (hear_lem len len 0 at abuf payload e' cur)
                (λ _ y q. (
                  q.0 ∙ ap (λ (m : ℕ → ℕ). abuf ∷ with_cells m at len 0 payload ∷ []) c',
                  (q.1.0 ∙ c', q.1.1 ∙ g'),
                ))
                (λ rc y q. q))
        answered (false, e') c' g' cur = (refl, (quiet 0 [] e' (omega arith) g' ∙ c', refl))

    pub talk-Fetched : Fetched (
        talk V target_addr
          (read_messages width len)
          0
          (record { dev = e; bufs = abuf ∷ payload ∷ [] }))
    unfolding talk talk_one talk_message
    talk-Fetched =
        pointed_by
          (continue (call V target_addr false (record { dev = e; bufs = abuf ∷ payload ∷ [] }))
            (λ _. tell V width 0 0))
          (call-Heard V target_addr width page C width (abuf ∷ payload ∷ []) e)
      where
        pointed_by :
            (o : Outcome Void × Talk E)
            → Heard V target_addr width page C width (abuf ∷ payload ∷ []) e o
            → Fetched (
                continue
                  (continue (on_error_of o (bye V)) (λ _. pure tt))
                  (λ (v : Void). talk V target_addr (second ∷ []) 1))
        pointed_by (value v, y) (b, (g, c)) =
            subst
              (λ (l : List (List ℕ)).
                Fetched (talk V target_addr (second ∷ []) 1 (record { dev = y.dev; bufs = l })))
              (sym b) (from_pointer y.dev g c)
        pointed_by (returned rc, y) (bad, (b, (k, (le, (g, c))))) =
            (bad, (quiet k abuf y.dev le g ∙ c, ap (λ (l : List (List ℕ)). get_or l 1 []) b))
