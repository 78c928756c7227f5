-- ===== src/FaultLog/Found.antt =====
-- What the two loops of `fault_log_init` decide: the newest record, where there is one.
use cortex_m3_embedded_debug.Base.{
  ℕ, zero, suc, ◌+◌, ◌^◌, ◌<◌, ◌≡◌, ◌≢◌, ◌⊎◌, ◌↔◌, inl, inr, refl, sym, subst, ◌∙◌, true, false,
  sub32, arith, Bool-cases,
}
use native.Mathlib.Decide.{ℕ_discrete}
use cortex_m3_embedded_debug.Zephyr.Eeprom.{slice}
use cortex_m3_embedded_debug.FaultLog.{
  Scan, scan_start, note, visit, age_ok, ages_ok, slot_offset, slot_size, no_slot, newer,
}
use cortex_m3_embedded_debug.FaultLog.View.{valid_at, seq_at, Empty, IsNewest}
use cortex_m3_embedded_debug.FaultLog.Loops.{
  scan_cells, Seen, Seen-start, visit_at, visit-Seen, scan_cells-Seen, ages_ok_iff,
}

-- what a successful initialisation promises of the slot and number that it keeps
abbrev pub IsFound : (ℕ → ℕ) → ℕ → ℕ → Type 0
IsFound c j q = ((j ≡ no_slot) × Empty c) ⊎ (IsNewest c j × (q ≡ seq_at c j))

abbrev pub scanned : (ℕ → ℕ) → Scan
scanned c = scan_cells c 8 0 scan_start

scanned-Seen : (c : ℕ → ℕ) → Seen c 8 (scanned c)
scanned-Seen c = scan_cells-Seen c 8 0 scan_start refl (Seen-start c)

-- the second loop, over what the first has seen
age_ok_iff :
    (c : ℕ → ℕ) (s : Scan) (t : ℕ)
    → t < 8
    → Seen c 8 s
    → (age_ok t s ≡ true) ↔ (
        valid_at c t ≡ true
        → t ≢ s.newest_slot
        → (0 < sub32 s.sequence (seq_at c t)) × (sub32 s.sequence (seq_at c t) < 8))
unfolding age_ok
age_ok_iff c s t ht h = (
  λ a v ne. ground (arith, h.bits t ht, h.numbers t ht v),
  λ k. elim (Bool-cases (valid_at c t)) [
    | inl v ↦ ground (arith, h.bits t ht, h.numbers t ht v, k v)
    | inr v ↦ ground (arith, h.bits t ht)
  ],
)

-- Accepted by both loops, the newest slot is the newest record, or no slot holds one.
pub IsFound-sound :
    (c : ℕ → ℕ)
    → ages_ok 8 0 (scanned c) ≡ true
    → IsFound c (scanned c).newest_slot (scanned c).sequence
IsFound-sound c a = elim (scanned-Seen c).best [
  | inl h ↦ inl h
  | inr (lt, v, q) ↦ inr (
    record {
      in_range = lt;
      is_valid = v;
      older = λ t ht ne vt. rw (← q) (
          (age_ok_iff c (scanned c) t ht (scanned-Seen c)).0
            ((ages_ok_iff 8 0 (scanned c)).0 a t (omega arith) ht) vt ne);
    },
    q,
  )
]

newer_of_older :
    (a b : ℕ)
    → a < 2 ^ 32
    → b < 2 ^ 32
    → (0 < sub32 a b) × (sub32 a b < 8)
    → (newer a b ≡ true) × (newer b a ≡ false)
newer_of_older a b ha hb h = ground arith

kept_number :
    {c : ℕ → ℕ} (j k : ℕ) (s : Scan)
    → j < k
    → Seen c k s
    → s.newest_slot ≡ j
    → j < 8
    → s.sequence ≡ seq_at c j
kept_number j k s lt h was lt8 = elim h.best [
  | inl (e, _) ↦ absurd (omega arith)
  | inr (a, v, q) ↦ rw (← was) q
]

module _ (c : ℕ → ℕ) (word : (t : ℕ) → seq_at c t < 2 ^ 32) where
  -- At its own round the newest record is chosen.
  visit_self :
      (k : ℕ) (s : Scan)
      → IsNewest c k
      → Seen c k s
      → (visit k (slice c (slot_offset k) slot_size) s).newest_slot ≡ k
  unfolding note
  visit_self k s n h =
      rw (visit_at c k s, n.is_valid)
        (elim h.best [
          | inl (none_yet, _) ↦ ground arith
          | inr (lt, v, q) ↦ ground (
            arith,
            newer_of_older (seq_at c k) s.sequence (word k) (rw q (word s.newest_slot)),
            n.older s.newest_slot (omega (arith, n.in_range)) (omega arith) v,
          )
        ])

  -- Later rounds leave it chosen.
  visit_later :
      (j k : ℕ) (s : Scan)
      → IsNewest c j
      → j < k
      → k < 8
      → Seen c k s
      → s.newest_slot ≡ j
      → (visit k (slice c (slot_offset k) slot_size) s).newest_slot ≡ j
  unfolding note
  visit_later j k s n lt hk h was = elim (Bool-cases (valid_at c k)) [
    | inl v ↦
        rw (visit_at c k s, v)
          (ground (
            arith,
            kept_number j k s lt h was n.in_range,
            newer_of_older (seq_at c j) (seq_at c k) (word j) (word k),
            n.older k hk (omega arith) v,
            n.in_range,
          ))
    | inr v ↦ rw (visit_at c k s, v) was
  ]

  visit_newest :
      (j k : ℕ) (s : Scan)
      → IsNewest c j
      → k < 8
      → Seen c k s
      → (j < k → s.newest_slot ≡ j)
      → j < k + 1
      → (visit k (slice c (slot_offset k) slot_size) s).newest_slot ≡ j
  visit_newest j k s n hk h was lt = elim (ℕ_discrete j k) [
    | yes e ↦ rw e (visit_self k s (subst (IsNewest c) e n) h)
    | no ne ↦ visit_later j k s n (omega arith) hk h (was (omega arith))
  ]

  scan_newest :
      (j n k : ℕ) (s : Scan)
      → IsNewest c j
      → k + n ≡ 8
      → Seen c k s
      → (j < k → s.newest_slot ≡ j)
      → (scan_cells c n k s).newest_slot ≡ j
  unfolding scan_cells
  scan_newest j zero k s n e h was = was (omega (arith, n.in_range))
  scan_newest j (suc m) k s n e h was =
      scan_newest j m (k + 1) (visit k (slice c (slot_offset k) slot_size) s) n (omega arith)
        (visit-Seen c k s (omega arith) h) (visit_newest j k s n (omega arith) h was)

  pub found_newest :
      (j : ℕ)
      → IsNewest c j
      → ((scanned c).newest_slot ≡ j)
        × ((scanned c).sequence ≡ seq_at c j)
        × (ages_ok 8 0 (scanned c) ≡ true)
  found_newest j n =
      let e = scan_newest j 8 0 scan_start n refl (Seen-start c) (λ h. absurd (omega arith)) in
      let q = kept_number j 8 (scanned c) n.in_range (scanned-Seen c) e n.in_range in
      (
        e,
        q,
        (ages_ok_iff 8 0 (scanned c)).1 (λ t lo hi.
            (age_ok_iff c (scanned c) t hi (scanned-Seen c)).1
              (λ v ne. rw q (n.older t hi (λ a. ne (a ∙ sym e)) v))),
      )

pub found-Empty :
    (c : ℕ → ℕ) → Empty c → ((scanned c).newest_slot ≡ no_slot) × (ages_ok 8 0 (scanned c) ≡ true)
found-Empty c e = (
  elim (scanned-Seen c).best [
    | inl (a, b) ↦ a
    | inr (lt, v, q) ↦ ground (arith, e (scanned c).newest_slot)
  ],
  (ages_ok_iff 8 0 (scanned c)).1
      (λ t lo hi. (age_ok_iff c (scanned c) t hi (scanned-Seen c)).1 (λ v. ground (arith, e t))),
)
