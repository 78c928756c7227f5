-- ===== src/Zephyr/I2c.antt =====
-- The I2C controller driver (zephyr/drivers/i2c.h), as the register access uses it: targets that
-- hold registers of one byte, each at an address of the bus.
use cortex_m3_embedded_debug.Base.{ℕ, ◌≡◌, ◌≢◌, ◌⊎◌, Bool, true, List, [], ◌∷◌, Rc, is_ok}

-- A transfer may fail at any time; a failed write has or has not reached its register.
pub record I2c : Type 1 where
  pub Bus : Type 0
  pub is_ready : Bus → Bool
  pub write_read : Bus → ℕ → List ℕ → ℕ → Rc × List ℕ × Bus
  pub write : Bus → List ℕ → ℕ → Rc × Bus
  pub register : Bus → ℕ → ℕ → ℕ
  pub read_ok :
      (b : Bus) (addr reg : ℕ)
      → is_ok (write_read b addr (reg ∷ []) 1).0 ≡ true
      → (write_read b addr (reg ∷ []) 1).1 ≡ register b addr reg ∷ []
  pub read_keeps :
      (b : Bus) (addr reg a r : ℕ)
      → register (write_read b addr (reg ∷ []) 1).2 a r ≡ register b a r
  pub write_ok :
      (b : Bus) (addr reg v : ℕ)
      → is_ok (write b (reg ∷ v ∷ []) addr).0 ≡ true
      → register (write b (reg ∷ v ∷ []) addr).1 addr reg ≡ v
  pub write_each :
      (b : Bus) (addr reg v : ℕ)
      → (register (write b (reg ∷ v ∷ []) addr).1 addr reg ≡ register b addr reg)
        ⊎ (register (write b (reg ∷ v ∷ []) addr).1 addr reg ≡ v)
  pub write_local :
      (b : Bus) (addr reg v a r : ℕ)
      → (a ≢ addr) ⊎ (r ≢ reg)
      → register (write b (reg ∷ v ∷ []) addr).1 a r ≡ register b a r
