-- ===== src/Eeprom/Chip.antt =====
-- What the documents of serial EEPROMs say of a chip: the word address comes first, a write is taken
-- into the cells at the STOP and wraps within its page, a read goes on from the word address.
use cortex_m3_embedded_debug.Base.{
  ℕ, ◌+◌, ◌-◌, ◌*◌, ◌%◌, ◌≡◌, Bool, List, [], ◌∷◌, ◌++◌, length, drop, get_or, u8, ◌==◌,
  if◌then◌else◌,
}
use cortex_m3_embedded_debug.I2cTarget.Slave.{Device}

-- the word address of `width` bytes
abbrev pub pointer : ℕ → List ℕ → ℕ
pointer width bytes =
    if width == 1 then get_or bytes 0 0 else get_or bytes 0 0 * 256 + get_or bytes 1 0

abbrev pub update : (ℕ → ℕ) → ℕ → ℕ → ℕ → ℕ
update cells at v a = if a == at then v else cells a

-- the cell behind `at` in its page
abbrev pub next_in_page : ℕ → ℕ → ℕ
next_in_page page at = at - at % page + (at % page + 1) % page

unfoldable pub store_page : ℕ → ℕ → List ℕ → (ℕ → ℕ) → ℕ → ℕ
store_page page at [] cells = cells
store_page page at (v ∷ vs) cells = store_page page (next_in_page page at) vs (update cells at v)

-- the cells after a STOP behind the bytes `got`
unfoldable pub programmed : ℕ → ℕ → List ℕ → (ℕ → ℕ) → ℕ → ℕ
programmed width page got cells = store_page page (pointer width got) (drop width got) cells

-- `cells` is the memory, `got` the bytes since the chip was called, `cursor` where a read goes on.
pub record Chip (V : Device) (target_addr width page : ℕ) : Type 0 where
  pub cells : V.E → ℕ → ℕ
  pub got : V.E → List ℕ
  pub cursor : V.E → ℕ
  pub offer_cell : (e : V.E) → V.offer e ≡ u8 (cells e (cursor e))
  pub address_cells : (a : ℕ) (e : V.E) → cells (V.address a e).1 ≡ cells e
  pub address_got : (a : ℕ) (e : V.E) → got (V.address a e).1 ≡ []
  pub address_cursor :
      (e : V.E)
      → length (got e) ≡ width
      → cursor (V.address (target_addr * 2 + 1) e).1 ≡ pointer width (got e)
  pub take_cells : (v : ℕ) (e : V.E) → cells (V.take v e).1 ≡ cells e
  pub take_got :
      (v : ℕ) (e : V.E) → got (V.take v e).1 ≡ (if (V.take v e).0 then got e ++ (v ∷ []) else got e)
  pub given_cells : (wanted : Bool) (e : V.E) → cells (V.given wanted e) ≡ cells e
  pub given_got : (wanted : Bool) (e : V.E) → got (V.given wanted e) ≡ got e
  pub given_cursor : (wanted : Bool) (e : V.E) → cursor (V.given wanted e) ≡ cursor e + 1
  pub stopped_cells : (e : V.E) → cells (V.stopped e) ≡ programmed width page (got e) (cells e)
  pub stopped_got : (e : V.E) → got (V.stopped e) ≡ []
