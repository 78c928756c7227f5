-- ===== src/RegAccess/Update.antt =====
-- What `reg_update_byte` does to the registers of all targets.
use Prim.Native.Nat.{min, max}
use cortex_m3_embedded_debug.Base.Bits.Digits.{
  bit, bit-bit_and, bit-bit_or, bit-mod, bit-not, bit-lt,
}
use cortex_m3_embedded_debug.Base.{
  ap₂, subst, ◌-◌, ◌<◌, u8, not8, bit_and, bit_or, arith, ℕ, ◌≡◌, ◌≢◌, ◌⊎◌, inl, inr, refl, false,
  Bool-cases, some, [], ◌∷◌, ◌==◌, ==→eq, get_or, Rc, ok, is_ok, sym, ap, ◌∙◌,
}
use cortex_m3_embedded_debug.Zephyr.I2c.{I2c}
use cortex_m3_embedded_debug.RegAccess.{
  I2cClient, merged, reg_update_byte, reg_read_byte, reg_write_byte, validate_client, update_read,
}

-- Bit by bit: those of the value under the mask, those of the old byte elsewhere.
pub record Merged (new old mask value : ℕ) : Type 0 where
  pub under : (i : ℕ) → i < 8 → bit i mask ≡ 1 → bit i new ≡ bit i value
  pub elsewhere : (i : ℕ) → i < 8 → bit i mask ≡ 0 → bit i new ≡ bit i old
  pub one_byte : new < 256

merged-lt : (old mask value : ℕ) → merged old mask value < 256
unfolding merged
merged-lt old mask value = omega arith

bit-merged :
    (old mask value i : ℕ)
    → mask < 256
    → i < 8
    → bit i (merged old mask value)
      ≡ max (min (bit i old) (1 - bit i mask)) (min (bit i value) (bit i mask))
unfolding merged
bit-merged old mask value i h lt =
    bit-mod 8 i (bit_or (u8 (bit_and old (not8 mask))) (bit_and value mask)) lt
    ∙ bit-bit_or i (u8 (bit_and old (not8 mask))) (bit_and value mask)
    ∙ ap₂ max
        (bit-mod 8 i (bit_and old (not8 mask)) lt
          ∙ bit-bit_and i old (not8 mask)
          ∙ ap (λ (b : ℕ). min (bit i old) b) (bit-not 8 i mask lt h))
        (bit-bit_and i value mask)

merged-Merged : (old mask value : ℕ) → mask < 256 → Merged (merged old mask value) old mask value
merged-Merged old mask value h = record {
  under = λ i lt set.
      omega (arith, bit-merged old mask value i h lt, bit-lt i old, bit-lt i value, set);
  elsewhere = λ i lt clear.
      omega (arith, bit-merged old mask value i h lt, bit-lt i old, bit-lt i value, clear);
  one_byte = merged-lt old mask value;
}

module _ (I : I2c) where
  open I use {
    Bus, is_ready, write_read, write, register, read_ok, read_keeps, write_ok, write_each,
    write_local,
  }

  -- After the call the register holds the merged byte, or the call has failed with the register as
  -- before or merged; every other register is as before.
  record Written (addr reg mask value : ℕ) (b : Bus) (rc : Rc) (b' : Bus) : Type 0 where
    target :
        (register b' addr reg ≡ merged (register b addr reg) mask value)
        ⊎ ((is_ok rc ≡ false) × (register b' addr reg ≡ register b addr reg))
    others : (a r : ℕ) → (a ≢ addr) ⊎ (r ≢ reg) → register b' a r ≡ register b a r

  -- what the write of `v` does, `v` being the merged byte
  written :
      (client : I2cClient) (reg mask value v : ℕ) (b b' : Bus)
      → ((a r : ℕ) → register b' a r ≡ register b a r)
      → merged (register b client.addr reg) mask value ≡ v
      → let w = write b' (reg ∷ v ∷ []) client.addr in Written client.addr reg mask value b w.0 w.1
  written client reg mask value v b b' kept e =
      let w = write b' (reg ∷ v ∷ []) client.addr in
      let others = λ (a r : ℕ) (h : (a ≢ client.addr) ⊎ (r ≢ reg)).
        write_local b' client.addr reg v a r h ∙ kept a r in
      elim (Bool-cases (is_ok w.0)) [
        | inl good ↦ record {
          target = inl (write_ok b' client.addr reg v good ∙ sym e);
          others = others;
        }
        | inr bad ↦ record {
          target = elim (write_each b' client.addr reg v) [
            | inl old ↦ inr (bad, old ∙ kept client.addr reg)
            | inr new ↦ inl (new ∙ sym e)
          ];
          others = others;
        }
      ]

  -- the call from the test of the merged byte on; `b'` is the bus after the read
  carried :
      (client : I2cClient) (reg mask value : ℕ) (b b' : Bus)
      → ((a r : ℕ) → register b' a r ≡ register b a r)
      → let r =
          update_read I (some client) reg mask value (ok, some (register b client.addr reg), b') in
        Written client.addr reg mask value b r.0 r.1
  unfolding update_read reg_write_byte
  carried client reg mask value b b' kept =
      let old = register b client.addr reg in
      let new = merged old mask value in
      elim (Bool-cases (new == old)) [
        | inl e ↦ rw e (record {
          target = inl (kept client.addr reg ∙ sym (==→eq new old e));
          others = λ a r h. kept a r;
        })
        | inr e ↦ elim (Bool-cases (is_ok (validate_client I (some client) b'))) [
          | inl valid ↦ rw (e, valid) (written client reg mask value new b b' kept refl)
          | inr bad ↦
              rw (e, bad)
                (record { target = inr (bad, kept client.addr reg); others = λ a r h. kept a r })
        ]
      ]

  updated_by :
      (client : I2cClient) (reg mask value : ℕ) (b : Bus)
      → let r = reg_update_byte I (some client) reg mask value b in
        Written client.addr reg mask value b r.0 r.1
  unfolding reg_update_byte reg_read_byte update_read reg_write_byte
  updated_by client reg mask value b =
      let rd = write_read b client.addr (reg ∷ []) 1 in
      let kept = read_keeps b client.addr reg in
      elim (Bool-cases (is_ok (validate_client I (some client) b))) [
        | inr e ↦ rw e (record { target = inr (e, refl); others = λ a r h. refl })
        | inl valid ↦ elim (Bool-cases (is_ok rd.0)) [
          | inr e ↦
              rw (valid, e)
                (record { target = inr (e, kept client.addr reg); others = λ a r h. kept a r })
          | inl good ↦
              let byte = ap (λ bytes. get_or bytes 0 0) (read_ok b client.addr reg good) in
              rw (valid, good, byte) (carried client reg mask value b rd.2 kept)
        ]
      ]

  -- After the call the register holds the byte with the bits of the value under the mask, or the
  -- call has failed with the register as before; every other register is as before.
  pub record Updated (addr reg mask value : ℕ) (b : Bus) (rc : Rc) (b' : Bus) : Type 0 where
    pub target :
        Merged (register b' addr reg) (register b addr reg) mask value
        ⊎ ((is_ok rc ≡ false) × (register b' addr reg ≡ register b addr reg))
    pub others : (a r : ℕ) → (a ≢ addr) ⊎ (r ≢ reg) → register b' a r ≡ register b a r

  -- reg_update_byte, with a client and a mask of one byte: if it succeeds, each of the eight bits of
  -- the register is that of the value where the mask has a 1, and as before where it has a 0; if it
  -- fails, the register holds that byte or its old one; and no other register of any target has
  -- changed.
  pub reg_update_byte_lem :
      (client : I2cClient) (reg mask value : ℕ) (b : Bus)
      → mask < 256
      → let r = reg_update_byte I (some client) reg mask value b in
        Updated client.addr reg mask value b r.0 r.1
  reg_update_byte_lem client reg mask value b h =
      let r = reg_update_byte I (some client) reg mask value b in
      let w = updated_by client reg mask value b in
      let old = register b client.addr reg in
      record {
        target = elim (w.target) [
          | inl new ↦ inl (
              subst (λ (v : ℕ). Merged v old mask value) (sym new) (merged-Merged old mask value h))
          | inr kept ↦ inr kept
        ];
        others = w.others;
      }
