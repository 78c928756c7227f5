-- ===== src/RingBuffer/Fifo.antt =====
-- The ring holds a queue of at most 63 bytes, oldest first.
use cortex_m3_embedded_debug.Base.{
  ℕ, zero, suc, ◌+◌, ◌-◌, ◌%◌, ◌<◌, ◌≡◌, ◌≢◌, refl, ap, ap₂, Bool, true, false, Option, some, none,
  List, [], ◌∷◌, ◌++◌, arith, length, get_or, get_elem?, set, length-set, get_or-set_self,
  get_or-set_ne, ◌==◌, if◌then◌else◌, u8,
}
use cortex_m3_embedded_debug.RingBuffer.{RingBuffer, init, push, pop}

pub record IsValid (rb : RingBuffer) : Type 0 where
  pub room : length rb.buf ≡ 64
  pub head_in : rb.head < 64
  pub tail_in : rb.tail < 64

-- the `n` bytes from index `i` on, going round the array
abbrev pub held : List ℕ → ℕ → ℕ → List ℕ
held buf i zero = []
held buf i (suc n) = get_or buf i 0 ∷ held buf ((i + 1) % 64) n

abbrev pub used : RingBuffer → ℕ
used rb = (rb.head + 64 - rb.tail) % 64

unfoldable pub contents : RingBuffer → List ℕ
contents rb = held rb.buf rb.tail (used rb)

pub length-held : (buf : List ℕ) (i n : ℕ) → length (held buf i n) ≡ n
length-held buf i zero = refl
length-held buf i (suc n) = ap suc (length-held buf ((i + 1) % 64) n)

-- A write at the end of the held bytes appends the byte.
held-set :
    (buf : List ℕ) (x i n k : ℕ)
    → length buf ≡ 64
    → i < 64
    → n < 64
    → k ≡ (i + n) % 64
    → held (set buf k x) i (suc n) ≡ held buf i n ++ (x ∷ [])
held-set buf x i zero k len hi hn e =
    ap (λ (y : ℕ). y ∷ []) (rw (same) (get_or-set_self buf i x 0 (omega arith)))
  where
    same : k ≡ i
    same = omega arith
held-set buf x i (suc n) k len hi hn e =
    ap₂ ◌∷◌ (get_or-set_ne buf k i x 0 (omega arith))
      (held-set buf x ((i + 1) % 64) n k len (omega arith) (omega arith) (omega arith))

pub held_first :
    (buf : List ℕ) (i n : ℕ)
    → n ≢ 0
    → held buf i n ≡ get_or buf i 0 ∷ held buf ((i + 1) % 64) (n - 1)
held_first buf i zero h = absurd (h refl)
held_first buf i (suc n) h =
    ap (λ (k : ℕ). get_or buf i 0 ∷ held buf ((i + 1) % 64) k) (omega arith)

get_elem?-eq-get_or : (xs : List ℕ) (i : ℕ) → i < length xs → get_elem? xs i ≡ some (get_or xs i 0)
get_elem?-eq-get_or [] i h = absurd (omega arith)
get_elem?-eq-get_or (x ∷ xs) zero h = refl
get_elem?-eq-get_or (x ∷ xs) (suc i) h = get_elem?-eq-get_or xs i (omega arith)

pub init_lem :
    (rb : RingBuffer) → length rb.buf ≡ 64 → IsValid (init rb) × (contents (init rb) ≡ [])
unfolding init contents
init_lem rb h = ground arith

-- what a push does to a queue of at most 63 bytes
abbrev pub fifo_push : List ℕ → ℕ → Bool × List ℕ
fifo_push q x = if length q == 63 then (false, q) else (true, q ++ (x ∷ []))

abbrev pub fifo_pop : List ℕ → Bool × Option ℕ × List ℕ
fifo_pop [] = (false, none, [])
fifo_pop (x ∷ q) = (true, some x, q)

module _ {rb : RingBuffer} (v : IsValid rb) where
  pub length-contents : length (contents rb) ≡ used rb
  unfolding contents
  length-contents = length-held rb.buf rb.tail (used rb)

  -- `rb_push` appends the byte unless 63 are held, and keeps the ring valid.
  pub push_refines :
      (x : ℕ)
      → let (done, rb') = push rb x in
        IsValid rb' × ((done, contents rb') ≡ fifo_push (contents rb) (u8 x))
  unfolding push contents
  push_refines x = (
    ground (arith, v, length-set rb.buf rb.head (u8 x)),
    ground (
      arith,
      v,
      length-held rb.buf rb.tail (used rb),
      held-set rb.buf (u8 x) rb.tail (used rb) rb.head v.room v.tail_in (omega arith)
          (omega (arith, v)),
    ),
  )

  -- `rb_pop` takes the oldest byte off, if there is one, and keeps the ring valid.
  pub pop_refines :
      let (done, out, rb') = pop rb in
      IsValid rb' × ((done, out, contents rb') ≡ fifo_pop (contents rb))
  unfolding pop contents
  pop_refines = (
    ground (arith, v),
    ground (
      arith,
      v,
      held_first rb.buf rb.tail (used rb),
      get_elem?-eq-get_or rb.buf rb.tail (omega (arith, v)),
    ),
  )
