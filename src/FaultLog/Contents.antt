-- ===== src/FaultLog/Contents.antt =====
-- What a safe slot means for the ring: the cells hold the log before the append, or the one after.
use cortex_m3_embedded_debug.Base.{
  ℕ, ◌+◌, ◌-◌, ◌%◌, ◌^◌, ◌<◌, ◌≡◌, ◌≢◌, inl, inr, refl, ap, sym, ◌∙◌, subst, true, false, List,
  drop, length, u32, sub32, arith,
}
use native.Mathlib.Decide.{ℕ_discrete}
use cortex_m3_embedded_debug.Zephyr.Cells.{SameOutside, slice_same}
use cortex_m3_embedded_debug.Zephyr.Eeprom.{slice}
use cortex_m3_embedded_debug.FaultLog.{
  FaultLog, record_valid, slot_offset, make_body, target_of, next_sequence,
}
use cortex_m3_embedded_debug.FaultLog.Codec.{load_le32, store_le32}
use cortex_m3_embedded_debug.FaultLog.Codec.Laws.{load_le32-store_le32}
use cortex_m3_embedded_debug.FaultLog.View.{valid_at, seq_at, code_at, Empty, Ring, Holds}

pub seq_at_body : (c : ℕ → ℕ) (s : ℕ) → seq_at c s ≡ load_le32 (drop 4 (slice c (slot_offset s) 16))
unfolding seq_at load_le32
seq_at_body c s = refl

pub code_at_body :
    (c : ℕ → ℕ) (s : ℕ) → code_at c s ≡ load_le32 (drop 8 (slice c (slot_offset s) 16))
unfolding code_at load_le32
code_at_body c s = refl

pub length-make_body : (q code : ℕ) → length (make_body q code) ≡ 16
unfolding make_body store_le32
length-make_body q code = refl

-- The body spells its number and its code.
pub make_body_seq : (q code : ℕ) → q < 2 ^ 32 → load_le32 (drop 4 (make_body q code)) ≡ q
unfolding make_body load_le32 store_le32
make_body_seq q code h = load_le32-store_le32 q h

pub make_body_code : (q code : ℕ) → code < 2 ^ 32 → load_le32 (drop 8 (make_body q code)) ≡ code
unfolding make_body load_le32 store_le32
make_body_code q code h = load_le32-store_le32 code h

-- the contents of a slot that an append elsewhere leaves alone
module _ {c c' : ℕ → ℕ} (t : ℕ) (out : SameOutside (slot_offset t) 32 c c') where
  slot_same : (s : ℕ) → s ≢ t → slice c' (slot_offset s) 32 ≡ slice c (slot_offset s) 32
  slot_same s ne = slice_same (slot_offset t) 32 (slot_offset s) 32 out (ground arith)

  pub valid_same : (s : ℕ) → s ≢ t → valid_at c' s ≡ valid_at c s
  unfolding valid_at
  valid_same s ne = ap record_valid (slot_same s ne)

  pub seq_same : (s : ℕ) → s ≢ t → seq_at c' s ≡ seq_at c s
  unfolding seq_at
  seq_same s ne = ap (λ (l : List ℕ). load_le32 (drop 4 l)) (slot_same s ne)

-- The ring stays as it was if slot `t` holds its old record or none.
Ring-unchanged :
    {c c' : ℕ → ℕ} (j q t : ℕ)
    → SameOutside (slot_offset t) 32 c c'
    → j ≢ t
    → (valid_at c' t ≡ true → (valid_at c t ≡ true) × (seq_at c' t ≡ seq_at c t))
    → Ring c j q
    → Ring c' j q
Ring-unchanged {c} {c'} j q t out ne old r = record {
  in_range = r.in_range;
  seq_word = r.seq_word;
  is_valid = valid_same t out j ne ∙ r.is_valid;
  placed = λ s lt v. elim (ℕ_discrete s t) [
    | yes e ↦
        subst (λ s. seq_at c' s ≡ sub32 q ((j + 8 - s) % 8)) (sym e)
          (ground (arith, old, r.placed t))
    | no other ↦ seq_same t out s other ∙ r.placed s lt (sym (valid_same t out s other) ∙ v)
  ];
}

-- The ring moves on if slot `t`, the one behind the newest, holds the next number.
Ring-advanced :
    {c c' : ℕ → ℕ} (j q t q' : ℕ)
    → SameOutside (slot_offset t) 32 c c'
    → t ≡ (j + 1) % 8
    → q' ≡ u32 (q + 1)
    → valid_at c' t ≡ true
    → seq_at c' t ≡ q'
    → Ring c j q
    → Ring c' t q'
Ring-advanced {c} {c'} j q t q' out te qe v e r = record {
  in_range = omega arith;
  seq_word = omega arith;
  is_valid = v;
  placed = λ s lt vs. elim (ℕ_discrete s t) [
    | yes same ↦ subst (λ s. seq_at c' s ≡ sub32 q' ((t + 8 - s) % 8)) (sym same) (e ∙ omega arith)
    | no other ↦ omega (
      arith,
      seq_same t out s other,
      r.placed s lt (sym (valid_same t out s other) ∙ vs),
      r.seq_word,
      r.in_range,
    )
  ];
}

-- The first record starts the ring.
Ring-started :
    {c c' : ℕ → ℕ} (t q' : ℕ)
    → SameOutside (slot_offset t) 32 c c'
    → t ≡ 0
    → q' ≡ 1
    → valid_at c' t ≡ true
    → seq_at c' t ≡ q'
    → Empty c
    → Ring c' t q'
Ring-started {c} {c'} t q' out te qe v e none_valid = record {
  in_range = omega arith;
  seq_word = omega arith;
  is_valid = v;
  placed = λ s lt vs. elim (ℕ_discrete s t) [
    | yes same ↦ subst (λ s. seq_at c' s ≡ sub32 q' ((t + 8 - s) % 8)) (sym same) (e ∙ omega arith)
    | no other ↦ ground (arith, valid_same t out s other, none_valid s lt)
  ];
}

Empty-unchanged :
    {c c' : ℕ → ℕ} (t : ℕ)
    → SameOutside (slot_offset t) 32 c c'
    → valid_at c' t ≡ false
    → Empty c
    → Empty c'
Empty-unchanged {c} {c'} t out no_record none_valid = λ s lt. elim (ℕ_discrete s t) [
  | yes same ↦ rw same no_record
  | no other ↦ valid_same t out s other ∙ none_valid s lt
]

-- the log's slot and number agree with the cells
abbrev pub Agrees : (ℕ → ℕ) → FaultLog → Type 0
Agrees c log = Holds c log.newest_slot log.sequence

-- The new record in the target slot makes the log after the append.
pub advanced :
    (log : FaultLog) {c c' : ℕ → ℕ}
    → Agrees c log
    → SameOutside (slot_offset (target_of log)) 32 c c'
    → valid_at c' (target_of log) ≡ true
    → seq_at c' (target_of log) ≡ next_sequence log
    → Ring c' (target_of log) (next_sequence log)
advanced log (inl (e, none_valid)) out v q =
    Ring-started (target_of log) (next_sequence log) out (ground arith) (ground arith) v q
      none_valid
advanced log (inr r) out v q =
    Ring-advanced log.newest_slot log.sequence (target_of log) (next_sequence log) out
      (ground (arith, r.in_range)) (ground (arith, r.in_range)) v q r

-- The old record there, or none, leaves the log as it was.
pub unchanged :
    (log : FaultLog) {c c' : ℕ → ℕ}
    → Agrees c log
    → SameOutside (slot_offset (target_of log)) 32 c c'
    → (valid_at c' (target_of log) ≡ true
        → (valid_at c (target_of log) ≡ true)
          × (seq_at c' (target_of log) ≡ seq_at c (target_of log)))
    → Agrees c' log
unchanged log {c} {c'} (inl (e, none_valid)) out old = inl (
  e,
  Empty-unchanged (target_of log) out
      (ground (arith, old, none_valid (target_of log) (ground arith))) none_valid,
)
unchanged log (inr r) out old = inr (
    Ring-unchanged log.newest_slot log.sequence (target_of log) out (ground (arith, r.in_range)) old
      r)
