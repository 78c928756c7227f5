-- ===== src/Zephyr/Flash.antt =====
-- The flash driver (zephyr/drivers/flash.h), as the boot log uses it, and a concrete one.
use cortex_m3_embedded_debug.Base.{
  ℕ, ◌+◌, ◌-◌, ◌≤◌, ◌<◌, ◌≡◌, ◌⊎◌, refl, Bool, true, ◌&&◌, Option, some, List, length, get_or, Rc,
  ok, is_ok, leb, ltb, if◌then◌else◌, bit_and, arith,
}
use cortex_m3_embedded_debug.Zephyr.Eeprom.{slice}

-- A call may fail at any time. A read that succeeds gives the cells; a write, whether it succeeds or
-- is cut short, touches no cell outside its range, in which it may leave anything.
pub record Flash : Type 1 where
  pub Dev : Type 0
  pub is_ready : Dev → Bool
  pub write_block_size : Dev → ℕ
  pub erase_value : Dev → Option ℕ
  pub read : Dev → ℕ → ℕ → Rc × List ℕ × Dev
  pub write : Dev → ℕ → List ℕ → Rc × Dev
  pub cells : Dev → ℕ → ℕ
  pub read_ok :
      (d : Dev) (off n : ℕ)
      → is_ok (read d off n).0 ≡ true
      → (read d off n).1 ≡ slice (cells d) off n
  pub read_keeps : (d : Dev) (off n a : ℕ) → cells (read d off n).2 a ≡ cells d a
  pub write_local :
      (d : Dev) (off : ℕ) (bs : List ℕ) (a : ℕ)
      → (a < off) ⊎ (off + length bs ≤ a)
      → cells (write d off bs).1 a ≡ cells d a

-- NOR flash: programming clears bits and sets none.
abbrev pub programmed : (ℕ → ℕ) → ℕ → List ℕ → ℕ → ℕ
programmed c off bs a =
    if leb off a && ltb a (off + length bs) then bit_and (c a) (get_or bs (a - off) 0) else c a

pub programmed_local :
    (c : ℕ → ℕ) (off : ℕ) (bs : List ℕ) (a : ℕ)
    → (a < off) ⊎ (off + length bs ≤ a)
    → programmed c off bs a ≡ c a
programmed_local c off bs a h = ground arith

abbrev pub nor_flash : Flash
nor_flash = record {
  Dev = ℕ → ℕ;
  is_ready = λ c. true;
  write_block_size = λ c. 4;
  erase_value = λ c. some 255;
  read = λ c off n. (ok, slice c off n, c);
  write = λ c off bs. (ok, programmed c off bs);
  cells = λ c. c;
  read_ok = λ c off n h. refl;
  read_keeps = λ c off n a. refl;
  write_local = programmed_local;
}
