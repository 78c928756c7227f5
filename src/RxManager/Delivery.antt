-- ===== src/RxManager/Delivery.antt =====
-- The books of the machine balance after every interrupt.
use cortex_m3_embedded_debug.Base.{
  ℕ, suc, ◌+◌, ◌≤◌, ◌<◌, ◌≡◌, inl, inr, ap, sym, ◌∙◌, subst, Bool, true, false, Bool-cases, not,
  some, List, [], ◌∷◌, ◌++◌, length, take, ◌==◌, ◌!=◌, ==→eq, ltb, if◌then◌else◌, u8, u32, sub32,
  bit_and, arith,
}
use mathlib.Core.List.{append_assoc, append-nil}
use cortex_m3_embedded_debug.Zephyr.Eeprom.{slice}
use cortex_m3_embedded_debug.Zephyr.Cells.{length-slice, slice_grow}
use cortex_m3_embedded_debug.Zephyr.RingBuf.{RingBuf}
use cortex_m3_embedded_debug.UartAsync.{
  Uart, Regs, store, state_rxor, state_rxbf, data_mask, int_rx, int_rxor,
}
use cortex_m3_embedded_debug.UartAsync.Isr.{error_overrun}
use cortex_m3_embedded_debug.RxManager.{buf_at}
use cortex_m3_embedded_debug.RxManager.Events.{index, Manager, reported}
use cortex_m3_embedded_debug.RxManager.Machine.{
  Phase, off, on, Machine, interrupt, handled, served, byte_in, ended, requested,
}
use cortex_m3_embedded_debug.RxManager.Refine.{Fits}
use cortex_m3_embedded_debug.RxManager.Account.{Account, Account-byte, Account-report}

-- the bytes of the current buffer that no event has reported yet
abbrev pub pending : Phase → ℕ → (ℕ → ℕ) → List ℕ
pending off base mem = []
pending (on s first stop pos) base mem = slice mem (buf_at base (index s)) pos

-- the byte that an interrupt takes from the line, if it takes one
unfoldable pub taken : ℕ → ℕ → Phase → List ℕ
taken status datum off = []
taken status datum (on s first true pos) = []
taken status datum (on s first false pos) =
    if bit_and status state_rxor != 0
    then []
    else if bit_and status state_rxbf == 0
    then []
    else u8 (bit_and datum data_mask) ∷ []

suc_eq : (n : ℕ) → suc n ≡ n + 1
suc_eq n = omega arith

module _ (B : RingBuf) where
  open B use {Ring, put, contents, capacity, put_count, put_contents}

  -- the account of a manager, while `rest` is not reported
  abbrev pub Managed : List ℕ → List ℕ → List ℕ → List ℕ → Manager B → ℕ → Type 0
  Managed line out done rest m hardware =
      Account line out done rest (out ++ contents m.app_ring) m.bytes_received m.bytes_buffered
        m.dropped_bytes m.bytes_read hardware

  -- Nothing is lost between the line and the reader but what `dropped_bytes` counts.
  pub record Balanced (line out : List ℕ) (a : Machine B) : Type 0 where
    pub done : List ℕ
    pub account :
        Managed line out done
          (pending a.phase a.manager.driver_buf a.mem)
          a.manager
          a.uart.hardware_bytes
    pub fits : Fits B a.phase

  Managed-reported :
      (line out done : List ℕ) (s : Bool) (pos : ℕ) (mem : ℕ → ℕ) (m : Manager B) (hardware : ℕ)
      → pos ≤ 8
      → Managed line out done (slice mem (buf_at m.driver_buf (index s)) pos) m hardware
      → Managed line out
          (done ++ slice mem (buf_at m.driver_buf (index s)) pos)
          []
          (reported B s pos mem m)
          hardware
  Managed-reported line out done s pos mem m hardware fits a =
      let chunk = slice mem (buf_at m.driver_buf (index s)) pos in
      let n = (put m.app_ring chunk).0 in
      let size = length-slice mem (buf_at m.driver_buf (index s)) pos in
      let some_left : n ≤ length chunk = omega (arith, put_count m.app_ring chunk) in
      let kept =
        append_assoc out (contents m.app_ring) (take n chunk)
        ∙ sym (ap (λ l. out ++ l) (put_contents m.app_ring chunk)) in
      let books = Account-report a n some_left (omega (arith, size)) in
      subst
        (λ (l : ℕ).
          Account line out (done ++ chunk) [] (out ++ contents (put m.app_ring chunk).1)
            (u32 (m.bytes_received + l)) (u32 (m.bytes_buffered + n))
            (u32 (m.dropped_bytes + sub32 l n)) m.bytes_read hardware)
        size
        (subst
          (λ (k : List ℕ).
            Account line out (done ++ chunk) [] k (u32 (m.bytes_received + length chunk))
              (u32 (m.bytes_buffered + n)) (u32 (m.dropped_bytes + sub32 (length chunk) n))
              m.bytes_read hardware)
          kept books)

  -- the end of a reception
  ended-Balanced :
      (line out done : List ℕ) (reason : ℕ) (s next : Bool) (pos : ℕ) (u : Uart) (g : Regs)
      (mem : ℕ → ℕ) (m : Manager B)
      → pos ≤ 8
      → Managed line out done (slice mem (buf_at m.driver_buf (index s)) pos) m u.hardware_bytes
      → Balanced line out (ended B reason s next pos u g mem m)
  ended-Balanced line out done reason s next pos u g mem m fits a = elim (Bool-cases (pos == 0)) [
    | inl e ↦ elim (Bool-cases (reason == 0)) [
      | inl f ↦ rw (e, f) (record { done = done; account = nothing e; fits = tt })
      | inr f ↦ rw (e, f) (record { done = done; account = nothing e; fits = tt })
    ]
    | inr e ↦ elim (Bool-cases (reason == 0)) [
      | inl f ↦ rw (e, f) (record { done = _; account = reported_now; fits = tt })
      | inr f ↦ rw (e, f) (record { done = _; account = reported_now; fits = tt })
    ]
  ]
    where
      reported_now :
          Managed line out
            (done ++ slice mem (buf_at m.driver_buf (index s)) pos)
            []
            (reported B s pos mem m)
            u.hardware_bytes
      reported_now = Managed-reported line out done s pos mem m u.hardware_bytes fits a

      nothing : (pos == 0) ≡ true → Managed line out done [] m u.hardware_bytes
      nothing e =
          subst
            (λ n.
              Managed line out done (slice mem (buf_at m.driver_buf (index s)) n) m
                u.hardware_bytes)
            (==→eq pos 0 e) a

  -- a byte that comes in
  byte-Balanced :
      (line out done : List ℕ) (c : ℕ) (s : Bool) (pos : ℕ) (u : Uart) (g : Regs) (mem : ℕ → ℕ)
      (m : Manager B)
      → pos < 8
      → Managed line out done (slice mem (buf_at m.driver_buf (index s)) pos) m u.hardware_bytes
      → Balanced (line ++ (c ∷ [])) out (byte_in B c s pos u g mem m)
  byte-Balanced line out done c s pos u g mem m fits a = elim (Bool-cases (ltb (pos + 1) 8)) [
    | inl e ↦ rw e (record { done = done; account = grown; fits = ground arith })
    | inr e ↦
        let full : pos + 1 ≡ 8 = ground arith in
        rw e (record {
          done = _;
          account =
              Managed-reported (line ++ (c ∷ [])) out done s 8 mem' m (u32 (u.hardware_bytes + 1))
                (omega arith)
                (subst
                  (λ n.
                    Managed (line ++ (c ∷ [])) out done (slice mem' base n) m
                      (u32 (u.hardware_bytes + 1)))
                  full grown);
          fits = omega arith;
        })
  ]
    where
      base : ℕ
      base = buf_at m.driver_buf (index s)

      mem' : ℕ → ℕ
      mem' = store (some (base + pos)) c mem

      longer : slice mem' base (suc pos) ≡ slice mem base pos ++ (c ∷ [])
      longer = slice_grow mem mem' base pos c (λ i h. ground arith) (ground arith)

      grown :
          Managed
            (line ++ (c ∷ []))
            out
            done
            (slice mem' base (pos + 1))
            m
            (u32 (u.hardware_bytes + 1))
      grown =
          subst (λ l. Managed (line ++ (c ∷ [])) out done l m (u32 (u.hardware_bytes + 1)))
            (sym longer ∙ ap (slice mem' base) (suc_eq pos)) (Account-byte a c)

  still :
      (line : List ℕ) {out : List ℕ} {a : Machine B}
      → Balanced line out a
      → Balanced (line ++ []) out a
  still line {out} {a} b = subst (λ l. Balanced l out a) (sym (append-nil line)) b

  served-Balanced :
      (line out done : List ℕ) (status datum : ℕ) (s : Bool) (pos : ℕ) (u : Uart) (g : Regs)
      (mem : ℕ → ℕ) (m : Manager B)
      → pos < 8
      → Managed line out done (slice mem (buf_at m.driver_buf (index s)) pos) m u.hardware_bytes
      → Balanced
          (line ++ taken status datum (on s false false pos))
          out
          (served B status datum s pos u g mem m)
  unfolding taken
  served-Balanced line out done status datum s pos u g mem m fits a =
      elim (Bool-cases (bit_and status state_rxor != 0)) [
        | inl e ↦ rw e (
            still line (
              ended-Balanced line out done error_overrun s true pos
                (record u { hardware_overruns = u32 (u.hardware_overruns + 1) })
                (record g { intclear = int_rxor }) mem m (omega arith) a))
        | inr e ↦ elim (Bool-cases (bit_and status state_rxbf == 0)) [
          | inl f ↦ rw (e, f) (still line (record { done = done; account = a; fits = fits }))
          | inr f ↦
              rw (e, f)
                (byte-Balanced line out done (u8 (bit_and datum data_mask)) s pos u g mem m fits a)
        ]
      ]

  handled-Balanced :
      (line out done : List ℕ) (status datum : ℕ) (p : Phase) (u : Uart) (g : Regs) (mem : ℕ → ℕ)
      (m : Manager B)
      → Fits B p
      → Managed line out done (pending p m.driver_buf mem) m u.hardware_bytes
      → Balanced (line ++ taken status datum p) out (handled B status datum p u g mem m)
  unfolding taken
  handled-Balanced line out done status datum off u g mem m fits a =
      still line (record { done = done; account = a; fits = tt })
  handled-Balanced line out done status datum (on s first true pos) u g mem m fits a =
      still line (ended-Balanced line out done 0 s (not first) pos u g mem m (omega arith) a)
  handled-Balanced line out done status datum (on s false false pos) u g mem m fits a =
      served-Balanced line out done status datum s pos u g mem m fits a
  handled-Balanced line out done status datum (on s true false pos) u g mem m fits a =
      served-Balanced line out done status datum s pos u g mem (requested B m) fits a

  -- Every interrupt keeps the books.
  pub interrupt-Balanced :
      (line out : List ℕ) (status datum : ℕ) (a : Machine B)
      → Balanced line out a
      → Balanced (line ++ taken status datum a.phase) out (interrupt B status datum a)
  unfolding interrupt
  interrupt-Balanced line out status datum a b =
      handled-Balanced line out b.done status datum a.phase
        (record (a.uart) { irq_entries = u32 (a.uart.irq_entries + 1) })
        (record (a.regs) { intclear = int_rx }) a.mem a.manager b.fits b.account
