-- ===== src/RxManager/System.antt =====
-- Interrupts, reads and a stop in any order, on the driver and the manager as the code has them.
use cortex_m3_embedded_debug.Base.{
  ℕ, zero, suc, ◌+◌, ◌≡◌, inl, inr, refl, ap, ap₂, sym, ◌∙◌, subst, true, false, Bool-cases, not,
  ◌&&◌, List, [], ◌∷◌, ◌++◌, length, take, drop, ◌==◌, ◌!=◌, if◌then◌else◌, u8, u32, min, bit_and,
  arith, not32,
}
use mathlib.Core.List.{append_assoc, append-nil}
use cortex_m3_embedded_debug.Zephyr.RingBuf.{RingBuf}
use cortex_m3_embedded_debug.UartAsync.{
  World, Uart, Regs, is_active, state_rxor, state_rxbf, data_mask, rx_disable, ctrl_rx,
}
use cortex_m3_embedded_debug.UartAsync.Isr.{isr}
use cortex_m3_embedded_debug.RxManager.{rx_manager_event, rx_manager_read, rx_ring_size}
use cortex_m3_embedded_debug.RxManager.Events.{Manager}
use cortex_m3_embedded_debug.RxManager.Machine.{Phase, off, on, Machine, world, world_of, interrupt}
use cortex_m3_embedded_debug.RxManager.Refine.{Fits, isr_refines}
use cortex_m3_embedded_debug.RxManager.Account.{Account, Account-read}
use cortex_m3_embedded_debug.RxManager.Delivery.{
  Balanced, Managed, pending, taken, interrupt-Balanced,
}

-- An interrupt with what the registers show, a read of the application, or its stop of the reception.
pub data Input : Type 0 where
  irq : ℕ → ℕ → Input
  reads : ℕ → Input
  stop : Input

-- the byte that an interrupt takes from the line in a state of the driver
unfoldable pub on_line : Input → Uart → List ℕ
on_line (irq status datum) u =
    if is_active u.state
      && not (bit_and status state_rxor != 0)
      && not (bit_and status state_rxbf == 0)
    then u8 (bit_and datum data_mask) ∷ []
    else []
on_line (reads n) u = []
on_line stop u = []

module _ (B : RingBuf) where
  open B use {Ring, get, contents, init, capacity, get_bytes, get_contents, init_contents}

  -- what the application gets, and the world after the input
  unfoldable pub step : Input → World (Manager B) → List ℕ × World (Manager B)
  step (irq status datum) w = ([], isr (rx_manager_event B) status datum w)
  step (reads n) w = rx_manager_read B true true n w
  step stop w = ([], (rx_disable w).1)

  -- the bytes of the line, the bytes that were read, and the world after a series of inputs
  unfoldable pub run : List Input → World (Manager B) → List ℕ × List ℕ × World (Manager B)
  run [] w = ([], [], w)
  run (i ∷ is) w =
      let (out, w') = step i w in
      let (line, outs, w'') = run is w' in (on_line i w.uart ++ line, out ++ outs, w'')

  -- the machine after a read
  abbrev pub after_read : ℕ → Manager B → Manager B
  after_read n m = record m {
    app_ring = (get m.app_ring (min n rx_ring_size)).1;
    bytes_read = u32 (m.bytes_read + length (get m.app_ring (min n rx_ring_size)).0);
  }

  -- a step to a machine again, with its books
  abbrev pub Steps : Input → List ℕ → List ℕ → Machine B → Type 0
  Steps i line out a =
      (a' : Machine B) × (((step i (world_of B a)).1 ≡ world_of B a')
        × Balanced B (line ++ on_line i (world_of B a).uart) (out ++ (step i (world_of B a)).0) a')

  on_line-taken :
      (status datum : ℕ) (p : Phase) (u : Uart) (g : Regs) (mem : ℕ → ℕ) (m : Manager B)
      → on_line (irq status datum) (world B p u g mem m).uart ≡ taken status datum p
  unfolding on_line taken
  on_line-taken status datum off u g mem m = refl
  on_line-taken status datum (on s first true pos) u g mem m = refl
  on_line-taken status datum (on s first false pos) u g mem m = ground arith

  pub read-world :
      (n : ℕ) (p : Phase) (u : Uart) (g : Regs) (mem : ℕ → ℕ) (m : Manager B)
      → (n == 0) ≡ false
      → rx_manager_read B true true n (world B p u g mem m)
        ≡ ((get m.app_ring (min n rx_ring_size)).0, world B p u g mem (after_read n m))
  unfolding rx_manager_read
  read-world n off u g mem m h = rw h refl
  read-world n (on s first due pos) u g mem m h = rw h refl

  pub read-zero :
      (n : ℕ) (w : World (Manager B)) → (n == 0) ≡ true → rx_manager_read B true true n w ≡ ([], w)
  unfolding rx_manager_read
  read-zero n w h = rw h refl

  stop-world :
      (p : Phase) (u : Uart) (g : Regs) (mem : ℕ → ℕ) (m : Manager B)
      → (p' : Phase) × (g' : Regs) × (((rx_disable (world B p u g mem m)).1 ≡ world B p' u g' mem m)
          × ((pending p' m.driver_buf mem ≡ pending p m.driver_buf mem) × (Fits B p → Fits B p')))
  unfolding rx_disable
  stop-world off u g mem m = (off, g, (refl, (refl, λ h. h)))
  stop-world (on s first true pos) u g mem m = (on s first true pos, g, (refl, (refl, λ h. h)))
  stop-world (on s first false pos) u g mem m = (
    on s first true pos,
    record g { ctrl = bit_and g.ctrl (not32 ctrl_rx); pending = true },
    (refl, (refl, λ h. h)),
  )

  take-append-drop : (n : ℕ) (xs : List ℕ) → take n xs ++ drop n xs ≡ xs
  take-append-drop zero xs = refl
  take-append-drop (suc n) [] = refl
  take-append-drop (suc n) (x ∷ xs) = ap (λ r. x ∷ r) (take-append-drop n xs)

  read-Balanced :
      (n : ℕ) (line out : List ℕ) (a : Machine B)
      → Balanced B line out a
      → Balanced B line
          (out ++ (get a.manager.app_ring (min n rx_ring_size)).0)
          (record a { manager = after_read n a.manager })
  read-Balanced n line out a b =
      let ring = a.manager.app_ring in
      let k = min n rx_ring_size in
      let bytes = (get ring k).0 in
      let kept : out ++ contents ring ≡ (out ++ bytes) ++ contents (get ring k).1 =
        ap (λ l. out ++ l)
          (sym (take-append-drop k (contents ring))
            ∙ sym (ap₂ ◌++◌ (get_bytes ring k) (get_contents ring k)))
        ∙ sym (append_assoc out bytes (contents (get ring k).1)) in
      record {
        done = b.done;
        account =
            subst
              (λ l.
                Account line (out ++ bytes) b.done (pending a.phase a.manager.driver_buf a.mem) l
                  a.manager.bytes_received a.manager.bytes_buffered a.manager.dropped_bytes
                  (u32 (a.manager.bytes_read + length bytes)) a.uart.hardware_bytes)
              kept (Account-read b.account bytes);
        fits = b.fits;
      }

  plus_none :
      {line out : List ℕ} {a : Machine B}
      → Balanced B line out a
      → Balanced B (line ++ []) (out ++ []) a
  plus_none {line} {out} {a} b =
      subst (λ l. Balanced B l (out ++ []) a) (sym (append-nil line))
        (subst (λ o. Balanced B line o a) (sym (append-nil out)) b)

  pub step-Steps :
      (i : Input) (line out : List ℕ) (a : Machine B) → Balanced B line out a → Steps i line out a
  unfolding step on_line
  step-Steps (irq status datum) line out a b = (
    interrupt B status datum a,
    (
      isr_refines B status datum a b.fits,
      subst
          (λ o.
            Balanced B (line ++ on_line (irq status datum) (world_of B a).uart) o
              (interrupt B status datum a))
          (sym (append-nil out))
          (subst (λ l. Balanced B (line ++ l) out (interrupt B status datum a))
            (sym (on_line-taken status datum a.phase a.uart a.regs a.mem a.manager))
            (interrupt-Balanced B line out status datum a b)),
    ),
  )
  step-Steps (reads n) line out a b = elim (Bool-cases (n == 0)) [
    | inl e ↦
        let same = read-zero n (world_of B a) e in
        (
          a,
          (
            ap (λ r. r.1) same,
            subst (λ r. Balanced B (line ++ []) (out ++ r) a) (sym (ap (λ r. r.0) same))
                (plus_none b),
          ),
        )
    | inr e ↦
        let same = read-world n a.phase a.uart a.regs a.mem a.manager e in
        (
          record a { manager = after_read n a.manager },
          (
            ap (λ r. r.1) same,
            subst
                (λ l.
                  Balanced B l (out ++ (rx_manager_read B true true n (world_of B a)).0)
                    (record a { manager = after_read n a.manager }))
                (sym (append-nil line))
                (subst
                  (λ r. Balanced B line (out ++ r) (record a { manager = after_read n a.manager }))
                  (sym (ap (λ r. r.0) same)) (read-Balanced n line out a b)),
          ),
        )
  ]
  step-Steps stop line out a b =
      let s = stop-world a.phase a.uart a.regs a.mem a.manager in
      (
        record a { phase = s.0; regs = s.1 },
        (
          s.2.0,
          plus_none (record {
            done = b.done;
            account =
                subst (λ l. Managed B line out b.done l a.manager a.uart.hardware_bytes)
                  (sym s.2.1.0) b.account;
            fits = s.2.1.1 b.fits;
          }),
        ),
      )
