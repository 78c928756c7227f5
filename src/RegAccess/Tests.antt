-- ===== src/RegAccess/Tests.antt =====
-- A bus whose transfers never fail, and the register update on it.
use cortex_m3_embedded_debug.Base.{
  ℕ, ◌≡◌, ◌≢◌, ◌⊎◌, inr, refl, true, ◌&&◌, [], ◌∷◌, ok, ◌==◌, if◌then◌else◌, arith, get_or, some,
}
use cortex_m3_embedded_debug.Zephyr.I2c.{I2c}
use cortex_m3_embedded_debug.RegAccess.{
  I2cClient, merged, reg_update_byte, reg_read_byte, reg_write_byte, validate_client, update_read,
}
use cortex_m3_embedded_debug.RegAccess.Update.{Updated, reg_update_byte_lem}

abbrev stored : (ℕ → ℕ → ℕ) → ℕ → ℕ → ℕ → ℕ → ℕ → ℕ
stored b addr reg v a r = if (a == addr) && (r == reg) then v else b a r

stored_here : (b : ℕ → ℕ → ℕ) (addr reg v : ℕ) → stored b addr reg v addr reg ≡ v
stored_here b addr reg v = ground arith

stored_elsewhere :
    (b : ℕ → ℕ → ℕ) (addr reg v a r : ℕ) → (a ≢ addr) ⊎ (r ≢ reg) → stored b addr reg v a r ≡ b a r
stored_elsewhere b addr reg v a r h = ground arith

abbrev targets : I2c
targets = record {
  Bus = ℕ → ℕ → ℕ;
  is_ready = λ b. true;
  write_read = λ b addr out n. (ok, b addr (get_or out 0 0) ∷ [], b);
  write = λ b out addr. (ok, stored b addr (get_or out 0 0) (get_or out 1 0));
  register = λ b. b;
  read_ok = λ b addr reg h. refl;
  read_keeps = λ b addr reg a r. refl;
  write_ok = λ b addr reg v h. stored_here b addr reg v;
  write_each = λ b addr reg v. inr (stored_here b addr reg v);
  write_local = stored_elsewhere;
}

abbrev client : I2cClient
client = record { has_bus = true; addr = 0x68 }

abbrev bus : ℕ → ℕ → ℕ
bus a r = 0xa5

-- `0xa5` with the low half replaced by that of `0x3c`
updated_byte : (reg_update_byte targets (some client) 7 15 60 bus).1 104 7 ≡ 172
unfolding reg_update_byte update_read reg_read_byte reg_write_byte validate_client merged
updated_byte = refl

reg_update_byte_lem_example :
    let r = reg_update_byte targets (some client) 7 15 60 bus in
    Updated targets 104 7 15 60 bus r.0 r.1
reg_update_byte_lem_example = reg_update_byte_lem targets client 7 15 60 bus (omega arith)
