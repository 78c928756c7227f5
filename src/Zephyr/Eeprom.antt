-- ===== src/Zephyr/Eeprom.antt =====
-- The EEPROM driver (zephyr/drivers/eeprom.h), as the fault log uses it.
use cortex_m3_embedded_debug.Base.{ℕ, zero, suc, ◌+◌, ◌≤◌, ◌<◌, ◌≡◌, ◌⊎◌, Bool, true, List, [], ◌∷◌}
use cortex_m3_embedded_debug.Base.{Rc, is_ok, length, get_or, u8}

abbrev pub tabulate : ℕ → (ℕ → ℕ) → List ℕ
tabulate zero g = []
tabulate (suc n) g = g 0 ∷ tabulate n (λ i. g (suc i))

-- the `n` cells from address `off` on
abbrev pub slice : (ℕ → ℕ) → ℕ → ℕ → List ℕ
slice c off n = tabulate n (λ i. c (off + i))

-- A call may fail at any time. A failed write has written some of the bytes that it was given, each
-- cell holding the old byte or the new one, and touches no other cell; a read changes nothing.
pub record Eeprom : Type 1 where
  pub Dev : Type 0
  pub is_ready : Dev → Bool
  pub get_size : Dev → ℕ
  pub read : Dev → ℕ → ℕ → Rc × List ℕ × Dev
  pub write : Dev → ℕ → List ℕ → Rc × Dev
  pub cells : Dev → ℕ → ℕ
  pub cells_byte : (d : Dev) (a : ℕ) → cells d a < 256
  pub read_ok :
      (d : Dev) (off n : ℕ)
      → is_ok (read d off n).0 ≡ true
      → (read d off n).1 ≡ slice (cells d) off n
  pub read_keeps : (d : Dev) (off n a : ℕ) → cells (read d off n).2 a ≡ cells d a
  pub write_ok :
      (d : Dev) (off : ℕ) (bs : List ℕ) (i : ℕ)
      → is_ok (write d off bs).0 ≡ true
      → i < length bs
      → cells (write d off bs).1 (off + i) ≡ u8 (get_or bs i 0)
  pub write_each :
      (d : Dev) (off : ℕ) (bs : List ℕ) (i : ℕ)
      → i < length bs
      → (cells (write d off bs).1 (off + i) ≡ cells d (off + i))
        ⊎ (cells (write d off bs).1 (off + i) ≡ u8 (get_or bs i 0))
  pub write_local :
      (d : Dev) (off : ℕ) (bs : List ℕ) (a : ℕ)
      → (a < off) ⊎ (off + length bs ≤ a)
      → cells (write d off bs).1 a ≡ cells d a
