-- ===== src/FaultLog/Loops.antt =====
-- The two loops of `fault_log_init`, over cells that do not change.
pub mod Mask
use cortex_m3_embedded_debug.Base.{
  ℕ, zero, suc, ◌+◌, ◌-◌, ◌*◌, ◌%◌, ◌^◌, ◌≤◌, ◌<◌, ◌≡◌, ◌≢◌, ◌⊎◌, ◌↔◌, inl, inr, refl, ap, ◌∙◌,
  ◌||◌, Bool, true, false, ◌&&◌, bit_and, bit_or, ltb, if◌then◌else◌, ◌==◌, ◌!=◌, set, get_or,
  length, length-set, get_or-set_self, get_or-set_ne, u8, shl, sub32, arith, Bool-cases, drop,
}
use cortex_m3_embedded_debug.Zephyr.Eeprom.{slice}
use cortex_m3_embedded_debug.FaultLog.{
  Scan, scan_start, note, visit, age_ok, ages_ok, slot_offset, slot_size, no_slot, newer,
  slot_count,
}
use cortex_m3_embedded_debug.FaultLog.View.{valid_at, seq_at, Empty, IsNewest}
use Mask.{bit-bit_or, bit_or-lt}
use Prim.Native.Nat.{bit_and-bitwise}
use mathlib.Core.Path.{subst}
use native.Mathlib.Decide.{ℕ_discrete}

-- the first loop with its reads taken from the cells
unfoldable pub scan_cells : (ℕ → ℕ) → ℕ → ℕ → Scan → Scan
scan_cells c zero slot s = s
scan_cells c (suc n) slot s =
    scan_cells c n (slot + 1) (visit slot (slice c (slot_offset slot) slot_size) s)

-- what the first loop knows after the slots below `k`
pub record Seen (c : ℕ → ℕ) (k : ℕ) (s : Scan) : Type 0 where
  pub mask_byte : s.valid_mask < 256
  pub bits :
      (t : ℕ) → t < 8 → (bit_and s.valid_mask (u8 (shl 1 t)) != 0) ≡ (ltb t k && valid_at c t)
  pub room : length s.sequences ≡ 8
  pub numbers : (t : ℕ) → t < k → valid_at c t ≡ true → get_or s.sequences t 0 ≡ seq_at c t
  pub best :
      ((s.newest_slot ≡ no_slot) × ((t : ℕ) → t < k → valid_at c t ≡ false))
      ⊎ ((s.newest_slot < k)
          × (valid_at c s.newest_slot ≡ true)
          × (s.sequence ≡ seq_at c s.newest_slot))

pub visit_at :
    (c : ℕ → ℕ) (k : ℕ) (s : Scan)
    → visit k (slice c (slot_offset k) slot_size) s
      ≡ (if valid_at c k then note k (seq_at c k) s else s)
unfolding visit valid_at seq_at
visit_at c k s = refl

sequences-note : (k q : ℕ) (s : Scan) → (note k q s).sequences ≡ set s.sequences k q
unfolding note
sequences-note k q s = ground arith

valid_mask-note :
    (k q : ℕ) (s : Scan) → (note k q s).valid_mask ≡ bit_or s.valid_mask (u8 (shl 1 k))
unfolding note
valid_mask-note k q s = ground arith

note_numbers :
    (c : ℕ → ℕ) (k : ℕ) (s : Scan)
    → k < 8
    → Seen c k s
    → (t : ℕ) → t < k + 1
    → valid_at c t ≡ true
    → get_or (note k (seq_at c k) s).sequences t 0 ≡ seq_at c t
note_numbers c k s hk h t ht v = elim (ℕ_discrete k t) [
  | yes e ↦
      rw (sequences-note, ← e)
        (get_or-set_self s.sequences k (seq_at c k) 0 (omega (arith, h.room)))
  | no ne ↦
      rw sequences-note
        (get_or-set_ne s.sequences k t (seq_at c k) 0 ne ∙ h.numbers t (omega arith) v)
]

note-Seen :
    (c : ℕ → ℕ) (k : ℕ) (s : Scan)
    → k < 8
    → valid_at c k ≡ true
    → Seen c k s
    → Seen c (k + 1) (note k (seq_at c k) s)
unfolding note
note-Seen c k s hk hv h = record {
  mask_byte = ground (arith, bit_or-lt s.valid_mask k h.mask_byte hk);
  bits = λ t ht. ground (arith, bit-bit_or s.valid_mask k t h.mask_byte hk ht, h.bits t ht);
  room = ground (arith, length-set s.sequences k (seq_at c k), h.room);
  numbers = note_numbers c k s hk h;
  best = elim (Bool-cases ((s.newest_slot == no_slot) || newer (seq_at c k) s.sequence)) [
    | inl e ↦ rw e (inr (omega arith, hv, refl))
    | inr e ↦ rw e (elim h.best [
      | inl (a, b) ↦ absurd (ground arith)
      | inr (a, b, q) ↦ inr (omega arith, b, q)
    ])
  ];
}

skip-Seen :
    (c : ℕ → ℕ) (k : ℕ) (s : Scan) → k < 8 → valid_at c k ≡ false → Seen c k s → Seen c (k + 1) s
skip-Seen c k s hk hv h = record {
  mask_byte = h.mask_byte;
  bits = λ t ht. ground (arith, h.bits t ht);
  room = h.room;
  numbers = λ t ht v. ground (arith, h.numbers t);
  best = elim h.best [
    | inl (a, b) ↦ inl (a, λ t ht. ground (arith, b t))
    | inr (a, b, e) ↦ inr (omega arith, b, e)
  ];
}

pub visit-Seen :
    (c : ℕ → ℕ) (k : ℕ) (s : Scan)
    → k < 8
    → Seen c k s
    → Seen c (k + 1) (visit k (slice c (slot_offset k) slot_size) s)
visit-Seen c k s hk h = elim (Bool-cases (valid_at c k)) [
  | inl v ↦ rw (visit_at c k s, v) (note-Seen c k s hk v h)
  | inr v ↦ rw (visit_at c k s, v) (skip-Seen c k s hk v h)
]

pub Seen-start : (c : ℕ → ℕ) → Seen c 0 scan_start
Seen-start c = record {
  mask_byte = omega arith;
  bits = λ t ht. ground (arith, bit_and-bitwise 0 (u8 (shl 1 t)));
  room = refl;
  numbers = λ t ht v. absurd (omega arith);
  best = inl (refl, λ t ht. absurd (omega arith));
}

pub scan_cells-Seen :
    (c : ℕ → ℕ) (n k : ℕ) (s : Scan) → k + n ≡ 8 → Seen c k s → Seen c 8 (scan_cells c n k s)
unfolding scan_cells
scan_cells-Seen c zero k s e h = subst (λ m. Seen c m s) (omega arith) h
scan_cells-Seen c (suc n) k s e h =
    scan_cells-Seen c n (k + 1) (visit k (slice c (slot_offset k) slot_size) s) (omega arith)
      (visit-Seen c k s (omega arith) h)

pub ages_ok_iff :
    (n k : ℕ) (s : Scan)
    → (ages_ok n k s ≡ true) ↔ ((t : ℕ) → k ≤ t → t < k + n → age_ok t s ≡ true)
unfolding ages_ok
ages_ok_iff zero k s = (λ h t lo hi. absurd (omega arith), λ h. refl)
ages_ok_iff (suc n) k s = (
  λ h t lo hi. elim (ℕ_discrete k t) [
    | yes e ↦ ground arith
    | no ne ↦ (ages_ok_iff n (k + 1) s).0 (ground arith) t (omega arith) (omega arith)
  ],
  λ h. ground (
    arith,
    h k (omega arith) (omega arith),
    (ages_ok_iff n (k + 1) s).1 (λ t lo hi. h t (omega arith) (omega arith)),
  ),
)
