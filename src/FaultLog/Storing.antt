-- ===== src/FaultLog/Storing.antt =====
-- The three steps of `fault_log_append`: what is in the cells wherever they stop.
use cortex_m3_embedded_debug.Base.{
  ℕ, zero, suc, ◌+◌, ◌<◌, ◌≡◌, ◌≢◌, ◌⊎◌, inl, inr, refl, ap, sym, ◌∙◌, Bool, true, false, ◌&&◌,
  ◌==◌, List, [], ◌∷◌, take, drop, length, replicate, subst, bytes_eq, bytes_eq→eq, Rc, fail, is_ok,
  Bool-cases, arith, eio, u8, get_or,
}
use mathlib.Core.Path.{fun_ext}
use cortex_m3_embedded_debug.Base.Exec.{Void, ◌>>=◌, Ensures, Ensures-bind, Ensures-guard, guard}
use cortex_m3_embedded_debug.Zephyr.Cells.{SameOutside, slice_same}
use cortex_m3_embedded_debug.Zephyr.Eeprom.{Eeprom, slice, tabulate}
use cortex_m3_embedded_debug.FaultLog.Codec.{load_le32, crc32}
use cortex_m3_embedded_debug.FaultLog.{
  record_valid, committed, invalid, read_or_return, write_or_return, magic,
}

-- what a write of `bytes` at `off`, finished or not, does to the cells
pub record Written (off : ℕ) (bytes : List ℕ) (c c' : ℕ → ℕ) : Type 0 where
  pub elsewhere : SameOutside off (length bytes) c c'
  pub each :
      (i : ℕ)
      → i < length bytes
      → (c' (off + i) ≡ c (off + i)) ⊎ (c' (off + i) ≡ u8 (get_or bytes i 0))

-- a successful write reads back as what was written
module _ (E : Eeprom) where
  open E use {Dev, cells, read, write, read_ok, read_keeps, write_each, write_local}

  pub cells-read : (d : Dev) (off n : ℕ) → cells (read d off n).2 ≡ cells d
  cells-read d off n = fun_ext λ a. read_keeps d off n a

  -- The rule of a checked read: it changes nothing, and gives what the cells hold.
  pub Ensures-read :
      (d : Dev) (off n : ℕ) (Q : List ℕ → Dev → Type 0) (R : Rc → Dev → Type 0)
      → ((d' : Dev) → cells d' ≡ cells d → Q (slice (cells d) off n) d')
      → ((rc : Rc) (d' : Dev) → is_ok rc ≡ false → cells d' ≡ cells d → R rc d')
      → Ensures (read_or_return E off n d) Q R
  Ensures-read d off n Q R q r = elim (Bool-cases (is_ok (read d off n).0)) [
    | inl e ↦ rw (e, read_ok d off n e) (q (read d off n).2 (cells-read d off n))
    | inr e ↦ rw e (r (read d off n).0 (read d off n).2 e (cells-read d off n))
  ]

  -- The rule of a checked write: it changes nothing outside its range, and in it each cell is
  -- the old byte or the new.
  pub Ensures-write :
      (d : Dev) (off : ℕ) (bytes : List ℕ) (Q : Void → Dev → Type 0) (R : Rc → Dev → Type 0)
      → ((d' : Dev) → Written off bytes (cells d) (cells d') → Q tt d')
      → ((rc : Rc) (d' : Dev) → is_ok rc ≡ false → Written off bytes (cells d) (cells d') → R rc d')
      → Ensures (write_or_return E off bytes d) Q R
  Ensures-write d off bytes Q R q r = elim (Bool-cases (is_ok (write d off bytes).0)) [
    | inl e ↦ rw e (q (write d off bytes).1 written)
    | inr e ↦ rw e (r (write d off bytes).0 (write d off bytes).1 e written)
  ]
    where
      written : Written off bytes (cells d) (cells (write d off bytes).1)
      written = record { elsewhere = write_local d off bytes; each = write_each d off bytes }

  -- The rule of one step of an append: write, read back, compare.
  pub Ensures-write_verify :
      (d : Dev) (off : ℕ) (bytes : List ℕ) (at n : ℕ) (test : List ℕ → Bool)
      (Q : Void → Dev → Type 0) (R : Rc → Dev → Type 0)
      → ((d' : Dev)
          → Written off bytes (cells d) (cells d')
          → test (slice (cells d') at n) ≡ true
          → Q tt d')
      → ((rc : Rc) (d' : Dev) → is_ok rc ≡ false → Written off bytes (cells d) (cells d') → R rc d')
      → Ensures
          ((write_or_return E off bytes >>= λ _. read_or_return E at n >>= λ b. guard (test b) eio)
            d)
          Q
          R
  Ensures-write_verify d off bytes at n test Q R q r =
      Ensures-bind (λ _ d₁. Written off bytes (cells d) (cells d₁)) Q R
        (write_or_return E off bytes d) _ (Ensures-write d off bytes _ R (λ d₁ w. w) r)
        (λ _ d₁ w.
          Ensures-bind
            (λ b d₂. Written off bytes (cells d) (cells d₂) × (b ≡ slice (cells d₂) at n)) Q R
            (read_or_return E at n d₁) _
            (Ensures-read d₁ at n _ R (λ d₂ s. (rw s w, rw s refl))
              (λ rc d₂ bad s. r rc d₂ bad (rw s w)))
            (λ b d₂ p.
              Ensures-guard Q R (test b) eio d₂ (λ t. q d₂ p.0 (subst (λ l. test l ≡ true) p.1 t))
                (r (fail eio) d₂ refl p.0)))

-- The record splits into its commit token and its body.
unfoldable pub body_valid : List ℕ → Bool
body_valid b = bytes_eq (take 4 b) magic && (load_le32 (drop 12 b) == crc32 (take 12 b))

commit_slice : (c : ℕ → ℕ) (base : ℕ) → take 8 (drop 24 (slice c base 32)) ≡ slice c (base + 24) 8
commit_slice c base = ground arith

pub record_valid_split :
    (c : ℕ → ℕ) (base : ℕ)
    → record_valid (slice c base 32)
      ≡ (bytes_eq (slice c (base + 24) 8) committed && body_valid (slice c base 16))
unfolding record_valid body_valid load_le32
record_valid_split c base =
    ap (λ (t : List ℕ). bytes_eq t committed && body_valid (slice c base 16)) (commit_slice c base)

-- Overwriting some bytes by zero makes no list of nonzero bytes that was not there before.
abbrev Nonzero : List ℕ → Type 0
Nonzero [] = Unit
Nonzero (w ∷ ws) = (w ≢ 0) × Nonzero ws

torn_keeps :
    (n : ℕ) (f g : ℕ → ℕ) (ws : List ℕ)
    → Nonzero ws
    → ((i : ℕ) → i < n → (f i ≡ g i) ⊎ (f i ≡ 0))
    → tabulate n f ≡ ws
    → tabulate n g ≡ ws
torn_keeps zero f g ws nz h e = e
torn_keeps (suc n) f g [] nz h e = ground arith
torn_keeps (suc n) f g (w ∷ ws) nz h e = ground (
  arith,
  h 0 (omega arith),
  torn_keeps n (λ i. f (suc i)) (λ i. g (suc i)) ws nz.1 (λ i lt. h (suc i) (omega arith)),
)

pub valid_parts :
    (c : ℕ → ℕ) (base : ℕ)
    → record_valid (slice c base 32) ≡ true
    → (slice c (base + 24) 8 ≡ committed) × (body_valid (slice c base 16) ≡ true)
valid_parts c base h =
    ground (arith, record_valid_split c base, bytes_eq→eq (slice c (base + 24) 8) committed)

pub valid_of_parts :
    (c : ℕ → ℕ) (base : ℕ)
    → slice c (base + 24) 8 ≡ committed
    → body_valid (slice c base 16) ≡ true
    → record_valid (slice c base 32) ≡ true
valid_of_parts c base e h =
    record_valid_split c base
    ∙ subst (λ t. (bytes_eq t committed && body_valid (slice c base 16)) ≡ true) (sym e) h

zero_bytes : (n i : ℕ) → u8 (get_or (replicate n 0) i 0) ≡ 0
zero_bytes zero i = refl
zero_bytes (suc n) zero = refl
zero_bytes (suc n) (suc i) = zero_bytes n i

-- What may be in the slot at `base` wherever an append of `body` stops: other slots are as they
-- were, and a record in this one is the old one or the new one.
pub record IsSafe (base : ℕ) (body : List ℕ) (c c' : ℕ → ℕ) : Type 0 where
  pub outside : SameOutside base 32 c c'
  pub slot :
      record_valid (slice c' base 32) ≡ true
      → ((record_valid (slice c base 32) ≡ true) × (slice c' base 16 ≡ slice c base 16))
        ⊎ (slice c' base 16 ≡ body)

-- Tearing the invalidation leaves the old record, or none.
pub invalidate_torn :
    (base : ℕ) (body : List ℕ) (c c' : ℕ → ℕ)
    → Written (base + 24) invalid c c'
    → IsSafe base body c c'
invalidate_torn base body c c' w = record {
  outside = λ a h. w.elsewhere a (ground arith);
  slot = λ v.
      let (token, good) = valid_parts c' base v in
      inl (
        valid_of_parts c base
            (torn_keeps 8 (λ i. c' (base + 24 + i)) (λ i. c (base + 24 + i)) committed (omega arith)
              (λ i lt. ground (arith, w.each i lt, zero_bytes 8 i)) token)
            (subst (λ t. body_valid t ≡ true) body_same good),
        body_same,
      );
}
  where
    body_same : slice c' base 16 ≡ slice c base 16
    body_same = slice_same (base + 24) 8 base 16 w.elsewhere (inl (omega arith))

-- Once the token is known to be cleared, nothing that happens to the body makes a record.
pub program_torn :
    (base : ℕ) (body : List ℕ) (c c₁ c' : ℕ → ℕ)
    → length body ≡ 16
    → SameOutside base 32 c c₁
    → slice c₁ (base + 24) 8 ≡ invalid
    → Written base body c₁ c'
    → IsSafe base body c c' × (slice c' (base + 24) 8 ≡ invalid)
program_torn base body c c₁ c' len out clear w = (
  record {
    outside = λ a h. w.elsewhere a (ground arith) ∙ out a h;
    slot = λ v. ground (arith, valid_parts c' base v, still_clear);
  },
  still_clear,
)
  where
    still_clear : slice c' (base + 24) 8 ≡ invalid
    still_clear =
        slice_same base (length body) (base + 24) 8 w.elsewhere (inr (omega arith)) ∙ clear

-- Tearing the publication leaves the verified body, and a record with that body, or none.
pub publish_torn :
    (base : ℕ) (body : List ℕ) (c c₁ c' : ℕ → ℕ)
    → SameOutside base 32 c c₁
    → slice c₁ base 16 ≡ body
    → Written (base + 24) committed c₁ c'
    → IsSafe base body c c'
publish_torn base body c c₁ c' out e w = record {
  outside = λ a h. w.elsewhere a (ground arith) ∙ out a h;
  slot = λ v. inr (slice_same (base + 24) 8 base 16 w.elsewhere (inl (omega arith)) ∙ e);
}
