-- ===== src/RingBuffer/Echo/Order.antt =====
-- Whatever the interleaving of interrupt and main loop, no stored byte is lost, doubled or moved.
use cortex_m3_embedded_debug.Base.{
  ℕ, ◌≡◌, ◌≢◌, inl, inr, refl, ap, sym, ◌∙◌, Bool, false, not, ◌||◌, List, [], ◌∷◌, ◌++◌, arith,
  get_or, get_or-set_ne, ◌==◌, if◌then◌else◌, u8, Bool-cases,
}
use mathlib.Core.List.{append_assoc, append-nil}
use cortex_m3_embedded_debug.RingBuffer.{RingBuffer, empty, next, push}
use cortex_m3_embedded_debug.RingBuffer.Fifo.{IsValid, contents, used, held_first, push_refines}
use cortex_m3_embedded_debug.RingBuffer.Echo.{
  Place, testing, reading, advancing, sending, Echo, handler, main_at, Event, receive, proceed,
  step, run, accepted, in_flight, Knows, Inv, stored,
}

-- what a push adds to the stored bytes
abbrev added : RingBuffer → ℕ → List ℕ
added rb c = if (push rb c).0 then u8 c ∷ [] else []

contents-push :
    {rb : RingBuffer} (v : IsValid rb) (c : ℕ) → contents (push rb c).1 ≡ contents rb ++ added rb c
contents-push {rb} v c = ground (arith, (push_refines v c).1, append-nil (contents rb))

-- A push moves neither `tail` nor the byte there, and takes nothing away.
push_keeps :
    {rb : RingBuffer} (v : IsValid rb) (c : ℕ)
    → used rb ≢ 0
    → (used (push rb c).1 ≢ 0)
      × (get_or (push rb c).1.buf (push rb c).1.tail 0 ≡ get_or rb.buf rb.tail 0)
unfolding push
push_keeps {rb} v c h = (
  ground (arith, v),
  ground (arith, v, get_or-set_ne rb.buf rb.head rb.tail (u8 c) 0 (omega (arith, v))),
)

Knows-push :
    (p : Place) {rb : RingBuffer} (v : IsValid rb) (c : ℕ) → Knows p rb → Knows p (push rb c).1
Knows-push testing v c h = tt
Knows-push reading v c h = (push_keeps v c h).0
Knows-push (advancing b) v c h = ((push_keeps v c h.0).0, h.1 ∙ sym (push_keeps v c h.0).1)
Knows-push (sending b) v c h = tt

handler-Inv : (c : ℕ) (s : Echo) → Inv s → Inv (handler c s)
unfolding handler
handler-Inv c s i = record {
  valid = (push_refines i.valid c).0;
  knows = Knows-push s.place i.valid c i.knows;
}

stored-handler : (c : ℕ) (s : Echo) → Inv s → stored (handler c s) ≡ stored s ++ added s.rx_rb c
unfolding handler
stored-handler c s i = simp (contents-push i.valid c, append_assoc)

-- Taking the byte at `tail` off leaves the rest.
contents-advance :
    {rb : RingBuffer} (v : IsValid rb)
    → used rb ≢ 0
    → contents rb ≡ get_or rb.buf rb.tail 0 ∷ contents (record rb { tail = next rb.tail })
unfolding contents
contents-advance {rb} v h = ground (arith, v, held_first rb.buf rb.tail (used rb) h)

module _ (s : Echo) (i : Inv s) where
  main_at-Inv : (p : Place) → s.place ≡ p → Knows p s.rx_rb → Inv (main_at p s)
  unfolding main_at empty
  main_at-Inv testing e k = elim (Bool-cases (s.rx_rb.head == s.rx_rb.tail)) [
    | inl same ↦ rw same i
    | inr differ ↦ rw differ (record { valid = i.valid; knows = ground (arith, i.valid) })
  ]
  main_at-Inv reading e k = record { valid = i.valid; knows = (k, refl) }
  main_at-Inv (advancing c) e k = record { valid = ground (arith, i.valid); knows = tt }
  main_at-Inv (sending c) e k = record { valid = i.valid; knows = tt }

  -- The main loop moves bytes on and keeps their order.
  stored-main_at :
      (p : Place)
      → s.place ≡ p
      → Knows p s.rx_rb
      → stored (main_at p s) ≡ s.sent ++ (in_flight p ++ contents s.rx_rb)
  unfolding main_at
  stored-main_at testing e k = elim (Bool-cases (empty s.rx_rb)) [
    | inl same ↦ rw (same, e)
    | inr differ ↦ rw differ
  ]
  stored-main_at reading e k = refl
  stored-main_at (advancing c) e k =
      ap (λ (l : List ℕ). s.sent ++ l)
        (ap (λ (b : ℕ). b ∷ contents (record (s.rx_rb) { tail = next s.rx_rb.tail })) k.1
          ∙ sym (contents-advance i.valid k.0))
  stored-main_at (sending c) e k = append_assoc s.sent (c ∷ []) (contents s.rx_rb)

pub step-Inv : (s : Echo) (e : Event) → Inv s → Inv (step s e)
unfolding step
step-Inv s (receive c) i = handler-Inv c s i
step-Inv s proceed i = main_at-Inv s i s.place refl i.knows

stored-proceed : (s : Echo) → Inv s → stored (step s proceed) ≡ stored s
unfolding step
stored-proceed s i = stored-main_at s i s.place refl i.knows

stored-receive :
    (s : Echo) (c : ℕ) → Inv s → stored (step s (receive c)) ≡ stored s ++ added s.rx_rb c
unfolding step
stored-receive s c i = stored-handler c s i

added_front :
    (s : Echo) (c : ℕ) (rest : List ℕ)
    → (stored s ++ added s.rx_rb c) ++ rest
      ≡ stored s ++ (if (push s.rx_rb c).0 then u8 c ∷ rest else rest)
added_front s c rest = elim (Bool-cases (push s.rx_rb c).0) [
  | inl e ↦ rw e (append_assoc (stored s) (u8 c ∷ []) rest)
  | inr e ↦ rw (e, append-nil)
]

overflow_at : (p : Place) (s : Echo) → (main_at p s).rx_overflow ≡ s.rx_overflow
unfolding main_at
overflow_at testing s = ground arith
overflow_at reading s = refl
overflow_at (advancing c) s = refl
overflow_at (sending c) s = refl

overflow_kept : (s : Echo) → (step s proceed).rx_overflow ≡ s.rx_overflow
unfolding step
overflow_kept s = overflow_at s.place s

-- After any interleaving the bytes sent, on their way and in the ring are those that were there
-- before and those that the interrupt stored, in the order of their arrival.
pub run_order :
    (s : Echo) (es : List Event)
    → Inv s
    → Inv (run s es) × (stored (run s es) ≡ stored s ++ accepted s es)
unfolding run accepted
run_order s [] i = (i, sym (append-nil (stored s)))
run_order s (proceed ∷ es) i =
    let (j, e) = run_order (step s proceed) es (step-Inv s proceed i) in
    (j, e ∙ ap (λ (l : List ℕ). l ++ accepted (step s proceed) es) (stored-proceed s i))
run_order s (receive c ∷ es) i =
    let (j, e) = run_order (step s (receive c)) es (step-Inv s (receive c) i) in
    (
      j,
      e
          ∙ ap (λ (l : List ℕ). l ++ accepted (step s (receive c)) es) (stored-receive s c i)
          ∙ added_front s c (accepted (step s (receive c)) es),
    )

-- The overflow flag tells exactly whether a received byte was refused.
pub dropped : Echo → List Event → Bool
dropped s [] = false
dropped s (receive c ∷ es) = not (push s.rx_rb c).0 || dropped (step s (receive c)) es
dropped s (proceed ∷ es) = dropped (step s proceed) es

pub run_overflow :
    (s : Echo) (es : List Event) → (run s es).rx_overflow ≡ (s.rx_overflow || dropped s es)
unfolding run dropped step handler
run_overflow s [] = ground arith
run_overflow s (receive c ∷ es) = ground (arith, run_overflow (step s (receive c)) es)
run_overflow s (proceed ∷ es) =
    run_overflow (step s proceed) es
    ∙ ap (λ (b : Bool). b || dropped (step s proceed) es) (overflow_kept s)
