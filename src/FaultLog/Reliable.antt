-- ===== src/FaultLog/Reliable.antt =====
-- On a device whose calls all succeed the log works: appends are stored, restarts succeed, and the
-- latest code is the one that was appended.
use cortex_m3_embedded_debug.Base.{
  ℕ, suc, ◌+◌, ◌≤◌, ◌<◌, ◌≡◌, inl, inr, refl, sym, ◌∙◌, subst, Bool, true, ◌&&◌, some, List, ◌∷◌,
  [], take, get_or, length, bytes_eq, bytes_eq_self, Rc, ok, is_ok, arith, u8, eio, eq→==,
}
use cortex_m3_embedded_debug.Base.Exec.{
  Void, ◌>>=◌, Outcome, value, returned, Ensures, Ensures-bind, guard,
}
use cortex_m3_embedded_debug.Zephyr.Cells.{SameOutside, slice_same}
use cortex_m3_embedded_debug.Zephyr.Eeprom.{Eeprom, slice, tabulate}
use cortex_m3_embedded_debug.FaultLog.{
  FaultLog, slot_offset, target_of, next_sequence, init, append, appended_log, make_body,
  record_valid, committed, invalid, usable, store, invalidate, program, publish, read_or_return,
  write_or_return,
}
use cortex_m3_embedded_debug.FaultLog.Codec.{load_le32, store_le32}
use cortex_m3_embedded_debug.FaultLog.Codec.Laws.{AllBytes, crc32-lt, load_le32-store_le32}
use cortex_m3_embedded_debug.FaultLog.Contents.{Agrees, length-make_body}
use cortex_m3_embedded_debug.FaultLog.Storing.{body_valid, valid_of_parts, cells-read}

-- No call on the device fails.
pub record Reliable (E : Eeprom) : Type 1 where
  pub ready : (d : E.Dev) → E.is_ready d ≡ true
  pub room : (d : E.Dev) → 256 ≤ E.get_size d
  pub reads : (d : E.Dev) (off n : ℕ) → is_ok (E.read d off n).0 ≡ true
  pub writes : (d : E.Dev) (off : ℕ) (bs : List ℕ) → is_ok (E.write d off bs).0 ≡ true

tabulate_bytes :
    (bs : List ℕ) (f : ℕ → ℕ)
    → AllBytes bs
    → ((i : ℕ) → i < length bs → f i ≡ u8 (get_or bs i 0))
    → tabulate (length bs) f ≡ bs
tabulate_bytes [] f ab h = refl
tabulate_bytes (b ∷ bs) f ab h = ground (
  arith,
  h 0 (omega arith),
  tabulate_bytes bs (λ i. f (suc i)) ab.1 (λ i lt. h (suc i) (omega arith)),
)

make_body-AllBytes : (q code : ℕ) → AllBytes (make_body q code)
unfolding make_body store_le32
make_body-AllBytes q code = omega arith

-- The body that `fault_log_append` builds passes the checks of `record_valid`.
make_body-valid : (q code : ℕ) → body_valid (make_body q code) ≡ true
unfolding body_valid make_body store_le32 load_le32
make_body-valid q code = eq→== _ _ (load_le32-store_le32 _ (crc32-lt _ (omega arith)))

eq→bytes_eq : {xs ys : List ℕ} → xs ≡ ys → bytes_eq xs ys ≡ true
eq→bytes_eq {xs} e = subst (λ ys. bytes_eq xs ys ≡ true) e (bytes_eq_self xs)

module _ (E : Eeprom) (reliable : Reliable E) where
  open E use {Dev, cells, read, write, read_ok, write_ok, write_local}

  -- the contents after a write that succeeds and its verification
  pub record Wrote (off : ℕ) (bytes : List ℕ) (c c' : ℕ → ℕ) : Type 0 where
    pub elsewhere : SameOutside off (length bytes) c c'
    pub there : slice c' off (length bytes) ≡ bytes

  wrote :
      (d : Dev) (off : ℕ) (bytes : List ℕ)
      → AllBytes bytes
      → Wrote off bytes (cells d) (cells (write d off bytes).1)
  wrote d off bytes ab = record {
    elsewhere = write_local d off bytes;
    there =
        tabulate_bytes bytes _ ab (λ i lt. write_ok d off bytes i (reliable.writes d off bytes) lt);
  }

  pub usable-ok :
      (log : FaultLog) (d : Dev)
      → Agrees (cells d) log
      → log.dev ≡ true
      → log.initialized ≡ true
      → usable E (some log) d ≡ ok
  unfolding usable
  usable-ok log d (inl h) attached init = ground (arith, reliable.ready d)
  usable-ok log d (inr r) attached init = ground (arith, reliable.ready d, r.in_range)

  abbrev Never : Rc → Dev → Type 0
  Never rc d = ⊥

  pub read_value :
      (d : Dev) (off n : ℕ)
      → read_or_return E off n d ≡ (value (slice (cells d) off n), (read d off n).2)
  read_value d off n = rw (reliable.reads d off n, read_ok d off n (reliable.reads d off n))

  -- A step whose test accepts what was written ends well.
  step_value :
      (d : Dev) (off : ℕ) (bytes : List ℕ) (at n : ℕ) (test : List ℕ → Bool) (c : ℕ → ℕ)
      (Q : Void → Dev → Type 0)
      → AllBytes bytes
      → cells d ≡ c
      → ((c' : ℕ → ℕ) → Wrote off bytes c c' → test (slice c' at n) ≡ true)
      → ((d' : Dev) → Wrote off bytes c (cells d') → Q tt d')
      → Ensures
          ((write_or_return E off bytes >>= λ _. read_or_return E at n >>= λ b. guard (test b) eio)
            d)
          Q
          Never
  step_value d off bytes at n test c Q ab e t q =
      let w : Wrote off bytes c (cells (write d off bytes).1) =
        subst (λ c. Wrote off bytes c (cells (write d off bytes).1)) e (wrote d off bytes ab) in
      rw
        (
          reliable.writes d off bytes,
          read_value (write d off bytes).1 at n,
          t (cells (write d off bytes).1) w,
        )
        (q (read (write d off bytes).1 at n).2 (rw (cells-read E (write d off bytes).1 at n) w))

  -- Under the invariant of the last step the published slot holds a valid record.
  published :
      (base q code : ℕ) (c c' : ℕ → ℕ)
      → slice c base 16 ≡ make_body q code
      → Wrote (base + 24) committed c c'
      → (record_valid (slice c' base 32)
          && bytes_eq (take 16 (slice c' base 32)) (make_body q code))
        ≡ true
  published base q code c c' same w =
      rw
        (valid_of_parts c' base w.there
          (subst (λ b. body_valid b ≡ true) (sym still) (make_body-valid q code)))
        (eq→bytes_eq still)
    where
      still : slice c' base 16 ≡ make_body q code
      still = slice_same (base + 24) 8 base 16 w.elsewhere (inl (omega arith)) ∙ same

  module _ (base q code : ℕ) where
    abbrev body : List ℕ
    body = make_body q code

    programmed : (c c' : ℕ → ℕ) → Wrote base body c c' → slice c' base 16 ≡ body
    programmed c c' w = subst (λ n. slice c' base n ≡ body) (length-make_body q code) w.there

    store_succeeds : (d : Dev) → Ensures (store E base body d) (λ _ _. Unit {0}) Never
    unfolding store invalidate program publish
    store_succeeds d =
        Ensures-bind (λ _ d₁. Unit {0}) _ Never (invalidate E base d) _
          (step_value d (base + 24) invalid (base + 24) 8 (λ b. bytes_eq b invalid) (cells d) _
            (omega arith) refl (λ c' w. eq→bytes_eq w.there) (λ d' w. tt))
          (λ _ d₁ _.
            Ensures-bind (λ _ d₂. slice (cells d₂) base 16 ≡ body) _ Never (program E base body d₁)
              _
              (step_value d₁ base body base 16 (λ b. bytes_eq b body) (cells d₁) _
                (make_body-AllBytes q code) refl (λ c' w. eq→bytes_eq (programmed (cells d₁) c' w))
                (λ d' w. programmed (cells d₁) (cells d') w))
              (λ _ d₂ same.
                step_value d₂ (base + 24) committed base 32
                  (λ b. record_valid b && bytes_eq (take 16 b) body) (cells d₂) _ (omega arith) refl
                  (λ c' w. published base q code (cells d₂) c' same w) (λ d' w. tt)))

  appended_ok :
      (log : FaultLog) (r : Outcome Void × Dev)
      → Ensures r (λ _ _. Unit {0}) Never
      → (appended_log E log r).0 ≡ ok
  unfolding appended_log
  appended_ok log (value _, d) h = refl
  appended_ok log (returned rc, d) h = elim h [ ]

  -- On a device that does not fail an initialised log appends every code.
  pub append_succeeds :
      (log : FaultLog) (code : ℕ) (d : Dev)
      → Agrees (cells d) log
      → log.dev ≡ true
      → log.initialized ≡ true
      → (append E (some log) code d).0 ≡ ok
  unfolding append
  append_succeeds log code d agrees attached init =
      rw (usable-ok log d agrees attached init) (
        appended_ok log _ (store_succeeds (slot_offset (target_of log)) (next_sequence log) code d))
