-- ===== src/Zephyr/Memory.antt =====
-- A concrete EEPROM, which shows that the interface can be met: cells in a function, and a budget
-- of calls after which the power is gone (`none` is power for ever). The first call without power
-- still writes one byte.
use cortex_m3_embedded_debug.Base.{
  ℕ, zero, suc, ◌+◌, ◌-◌, ◌≤◌, ◌<◌, ◌≡◌, ◌⊎◌, inl, inr, refl, Bool, true, false, ◌&&◌, Option, some,
  none, List, length, get_or, Rc, ok, fail, eio, is_ok, arith, leb, ltb, u8, if◌then◌else◌, ◌==◌,
  Bool-cases, ap, ltb→lt,
}
use cortex_m3_embedded_debug.Zephyr.Eeprom.{Eeprom, slice}

pub record Memory : Type 0 where
  pub contents : ℕ → ℕ
  pub budget : Option ℕ

abbrev pub byte_at : Memory → ℕ → ℕ
byte_at m a = u8 (m.contents a)

-- the cells with the first `n` of `bs` put at `off`
abbrev pub put : ℕ → ℕ → List ℕ → (ℕ → ℕ) → ℕ → ℕ
put n off bs c a = if leb off a && ltb a (off + n) then get_or bs (a - off) 0 else c a

abbrev pub powered : Option ℕ → Bool
powered none = true
powered (some zero) = false
powered (some (suc n)) = true

abbrev pub spend : Option ℕ → Option ℕ
spend none = none
spend (some zero) = some 0
spend (some (suc n)) = some n

abbrev pub read_memory : Memory → ℕ → ℕ → Rc × List ℕ × Memory
read_memory m off n = (
  (if powered m.budget then ok else fail eio),
  slice (byte_at m) off n,
  record m { budget = spend m.budget },
)

-- one byte of a nonempty write
abbrev pub torn : List ℕ → ℕ
torn bs = if length bs == 0 then 0 else 1

abbrev pub write_memory : Memory → ℕ → List ℕ → Rc × Memory
write_memory m off bs = (
  (if powered m.budget then ok else fail eio),
  record {
    contents = put (if powered m.budget then length bs else torn bs) off bs m.contents;
    budget = spend m.budget;
  },
)

put_in :
    (n off : ℕ) (bs : List ℕ) (c : ℕ → ℕ) (i : ℕ) → i < n → put n off bs c (off + i) ≡ get_or bs i 0
put_in n off bs c i lt =
    let e : off + i - off ≡ i = omega arith in ground (arith, ap (λ (k : ℕ). get_or bs k 0) e)

put_out :
    (n off : ℕ) (bs : List ℕ) (c : ℕ → ℕ) (i : ℕ) → n ≤ i → put n off bs c (off + i) ≡ c (off + i)
put_out n off bs c i h = ground arith

pub write_ok_law :
    (m : Memory) (off : ℕ) (bs : List ℕ) (i : ℕ)
    → is_ok (write_memory m off bs).0 ≡ true
    → i < length bs
    → byte_at (write_memory m off bs).1 (off + i) ≡ u8 (get_or bs i 0)
write_ok_law m off bs i h lt = elim (Bool-cases (powered m.budget)) [
  | inl e ↦ rw e (ap u8 (put_in (length bs) off bs m.contents i lt))
  | inr e ↦ ground arith
]

pub write_each_law :
    (m : Memory) (off : ℕ) (bs : List ℕ) (i : ℕ)
    → i < length bs
    → (byte_at (write_memory m off bs).1 (off + i) ≡ byte_at m (off + i))
      ⊎ (byte_at (write_memory m off bs).1 (off + i) ≡ u8 (get_or bs i 0))
write_each_law m off bs i lt =
    let n = if powered m.budget then length bs else torn bs in
    elim (Bool-cases (ltb i n)) [
      | inl e ↦ inr (ap u8 (put_in n off bs m.contents i (ltb→lt i n e)))
      | inr e ↦ inl (ap u8 (put_out n off bs m.contents i (ground arith)))
    ]

pub write_local_law :
    (m : Memory) (off : ℕ) (bs : List ℕ) (a : ℕ)
    → (a < off) ⊎ (off + length bs ≤ a)
    → byte_at (write_memory m off bs).1 a ≡ byte_at m a
write_local_law m off bs a h = ground arith

abbrev pub memory : Eeprom
memory = record {
  Dev = Memory;
  is_ready = λ m. true;
  get_size = λ m. 1024;
  read = read_memory;
  write = write_memory;
  cells = byte_at;
  cells_byte = λ m a. omega arith;
  read_ok = λ m off n h. refl;
  read_keeps = λ m off n a. refl;
  write_ok = write_ok_law;
  write_each = write_each_law;
  write_local = write_local_law;
}

-- An EEPROM that never fails: its cells alone.
abbrev pub cell_byte : (ℕ → ℕ) → ℕ → ℕ
cell_byte c a = u8 (c a)

pub put_ok_law :
    (c : ℕ → ℕ) (off : ℕ) (bs : List ℕ) (i : ℕ)
    → i < length bs
    → cell_byte (put (length bs) off bs c) (off + i) ≡ u8 (get_or bs i 0)
put_ok_law c off bs i lt = ap u8 (put_in (length bs) off bs c i lt)

pub put_local_law :
    (c : ℕ → ℕ) (off : ℕ) (bs : List ℕ) (a : ℕ)
    → (a < off) ⊎ (off + length bs ≤ a)
    → cell_byte (put (length bs) off bs c) a ≡ cell_byte c a
put_local_law c off bs a h = ground arith

abbrev pub steady : Eeprom
steady = record {
  Dev = ℕ → ℕ;
  is_ready = λ c. true;
  get_size = λ c. 1024;
  read = λ c off n. (ok, slice (cell_byte c) off n, c);
  write = λ c off bs. (ok, put (length bs) off bs c);
  cells = cell_byte;
  cells_byte = λ c a. omega arith;
  read_ok = λ c off n h. refl;
  read_keeps = λ c off n a. refl;
  write_ok = λ c off bs i h lt. put_ok_law c off bs i lt;
  write_each = λ c off bs i lt. inr (put_ok_law c off bs i lt);
  write_local = put_local_law;
}
