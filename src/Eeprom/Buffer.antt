-- ===== src/Eeprom/Buffer.antt =====
-- The transmit buffer of a write, as the chip takes it.
use cortex_m3_embedded_debug.Base.{
  ℕ, zero, suc, ◌+◌, ◌-◌, ◌*◌, ◌%◌, ◌≤◌, ◌<◌, ◌≡◌, ◌⊎◌, inl, inr, refl, ap, ap₂, sym, ◌∙◌, List, [],
  length, length-set, drop, set, get_or, get_or-set_self, get_or-set_ne, u8, shr, leb_cases, arith,
}
use cortex_m3_embedded_debug.Eeprom.{EepromDevice, build_memory_address, append_data}
use cortex_m3_embedded_debug.Eeprom.Chip.{programmed, store_page, pointer}
use cortex_m3_embedded_debug.Eeprom.Got.{bytes_from, length-bytes_from, get_or-bytes_from}
use cortex_m3_embedded_debug.Eeprom.Pages.{store_page-before, store_page-at}

append_data-keeps :
    (n w : ℕ) (payload : List ℕ) (index : ℕ) (buffer : List ℕ) (j : ℕ)
    → j < w + index
    → get_or (append_data n w payload index buffer) j 0 ≡ get_or buffer j 0
unfolding append_data
append_data-keeps zero w payload index buffer j h = refl
append_data-keeps (suc n) w payload index buffer j h =
    append_data-keeps n w payload (suc index) (set buffer (w + index) (get_or payload index 0)) j
      (omega arith)
    ∙ get_or-set_ne buffer (w + index) j (get_or payload index 0) 0 (λ same. absurd (omega arith))

append_data-at :
    (n w : ℕ) (payload : List ℕ) (index : ℕ) (buffer : List ℕ) (i : ℕ)
    → w + (index + n) ≤ length buffer
    → i < n
    → get_or (append_data n w payload index buffer) (w + (index + i)) 0
      ≡ get_or payload (index + i) 0
unfolding append_data
append_data-at zero w payload index buffer i h lt = absurd (omega arith)
append_data-at (suc n) w payload index buffer zero h lt =
    let v = get_or payload index 0 in
    let here : w + (index + 0) ≡ w + index = omega arith in
    let same : index + 0 ≡ index = omega arith in
    rw (here, same)
      (append_data-keeps n w payload (suc index) (set buffer (w + index) v) (w + index)
          (omega arith)
        ∙ get_or-set_self buffer (w + index) v 0 (omega arith))
append_data-at (suc n) w payload index buffer (suc i) h lt =
    let v = get_or payload index 0 in
    let there : index + suc i ≡ suc index + i = omega arith in
    rw there (
      append_data-at n w payload (suc index) (set buffer (w + index) v) i
        (omega (arith, length-set buffer (w + index) v)) (omega arith))

appended-at :
    (n w : ℕ) (payload buffer : List ℕ)
    → w + n ≤ length buffer
    → (i : ℕ) → i < n
    → get_or (append_data n w payload 0 buffer) (w + i) 0 ≡ get_or payload i 0
appended-at n w payload buffer h i lt =
    let here : 0 + i ≡ i = omega arith in
    ap (λ (j : ℕ). get_or (append_data n w payload 0 buffer) (w + j) 0) (sym here)
    ∙ append_data-at n w payload 0 buffer i (omega arith) lt
    ∙ ap (λ (j : ℕ). get_or payload j 0) here

-- the buffer that is sent for `len` bytes to the word address `at`
abbrev pub sent_buffer : EepromDevice → ℕ → List ℕ → ℕ → List ℕ → List ℕ
sent_buffer device at payload len stack =
    append_data len (build_memory_address device at stack).1 payload 0
      (build_memory_address device at stack).0

-- the word address fits the width
abbrev pub Addressed : EepromDevice → ℕ → Type 0
Addressed device at =
    ((device.address_width ≡ 1) × (at < 256)) ⊎ ((device.address_width ≡ 2) × (at < 65536))

pub Addressed-width :
    (device : EepromDevice) (at : ℕ)
    → Addressed device at
    → (device.address_width ≤ 2) × (0 < device.address_width)
Addressed-width device at (inl (one, h)) = (omega (arith, one), omega (arith, one))
Addressed-width device at (inr (two, h)) = (omega (arith, two), omega (arith, two))

-- The count that build_memory_address returns is the width.
pub build_memory_address_lem :
    (device : EepromDevice) (at : ℕ) (stack : List ℕ)
    → Addressed device at
    → (build_memory_address device at stack).1 ≡ device.address_width
unfolding build_memory_address
build_memory_address_lem device at stack (inl (one, h)) = rw one refl
build_memory_address_lem device at stack (inr (two, h)) = rw two refl

-- What a buffer says to a chip: the word address `at`, and behind it the payload.
pub record Says (width at : ℕ) (payload : List ℕ) (len : ℕ) (buf : List ℕ) : Type 0 where
  pub pointed : (k : ℕ) → width ≤ k → pointer width (bytes_from k 0 buf) ≡ at
  pub dropped : (j : ℕ) → drop width (bytes_from (width + j) 0 buf) ≡ bytes_from j width buf
  pub nothing : (k : ℕ) → k < width → drop width (bytes_from k 0 buf) ≡ []
  pub behind : (i : ℕ) → i < len → get_or buf (width + i) 0 ≡ get_or payload i 0

narrow-Says :
    (at : ℕ) (payload : List ℕ) (len : ℕ) (buf : List ℕ)
    → u8 (get_or buf 0 0) ≡ at
    → ((i : ℕ) → i < len → get_or buf (1 + i) 0 ≡ get_or payload i 0)
    → Says 1 at payload len buf
narrow-Says at payload len buf first behind = record {
  pointed = pointed;
  dropped = dropped;
  nothing = nothing;
  behind = behind;
}
  where
    dropped : (j : ℕ) → drop 1 (bytes_from (1 + j) 0 buf) ≡ bytes_from j 1 buf
    dropped j = let next : 1 + j ≡ suc j = omega arith in rw next refl

    pointed : (k : ℕ) → 1 ≤ k → pointer 1 (bytes_from k 0 buf) ≡ at
    pointed zero h = absurd (omega arith)
    pointed (suc k) h = first

    nothing : (k : ℕ) → k < 1 → drop 1 (bytes_from k 0 buf) ≡ []
    nothing zero h = refl
    nothing (suc k) h = absurd (omega arith)

wide-Says :
    (at : ℕ) (payload : List ℕ) (len : ℕ) (buf : List ℕ)
    → u8 (get_or buf 0 0) * 256 + u8 (get_or buf 1 0) ≡ at
    → ((i : ℕ) → i < len → get_or buf (2 + i) 0 ≡ get_or payload i 0)
    → Says 2 at payload len buf
wide-Says at payload len buf first behind = record {
  pointed = pointed;
  dropped = dropped;
  nothing = nothing;
  behind = behind;
}
  where
    dropped : (j : ℕ) → drop 2 (bytes_from (2 + j) 0 buf) ≡ bytes_from j 2 buf
    dropped j = let next : 2 + j ≡ suc (suc j) = omega arith in rw next refl

    pointed : (k : ℕ) → 2 ≤ k → pointer 2 (bytes_from k 0 buf) ≡ at
    pointed zero h = absurd (omega arith)
    pointed (suc zero) h = absurd (omega arith)
    pointed (suc (suc k)) h = first

    nothing : (k : ℕ) → k < 2 → drop 2 (bytes_from k 0 buf) ≡ []
    nothing zero h = refl
    nothing (suc zero) h = refl
    nothing (suc (suc k)) h = absurd (omega arith)

pub sent_buffer-Says :
    (device : EepromDevice) (at : ℕ) (payload : List ℕ) (len : ℕ) (stack : List ℕ)
    → Addressed device at
    → 2 + len ≤ length stack
    → Says device.address_width at payload len (sent_buffer device at payload len stack)
unfolding build_memory_address
sent_buffer-Says device at payload len stack (inl (w, small)) h =
    let buf = set stack 0 (u8 at) in
    let room = length-set stack 0 (u8 at) in
    rw w (
      narrow-Says at payload len (append_data len 1 payload 0 buf)
        (ap (λ (v : ℕ). u8 v)
            (append_data-keeps len 1 payload 0 buf 0 (omega arith)
              ∙ get_or-set_self stack 0 (u8 at) 0 (omega arith))
          ∙ omega arith)
        (appended-at len 1 payload buf (omega (arith, room))))
sent_buffer-Says device at payload len stack (inr (w, small)) h =
    let high = set stack 0 (u8 (shr at 8)) in
    let buf = set high 1 (u8 at) in
    let room = length-set stack 0 (u8 (shr at 8)) in
    let room' = length-set high 1 (u8 at) in
    let first : get_or (append_data len 2 payload 0 buf) 0 0 ≡ u8 (shr at 8) =
      append_data-keeps len 2 payload 0 buf 0 (omega arith)
      ∙ get_or-set_ne high 1 0 (u8 at) 0 (λ e. absurd (omega arith))
      ∙ get_or-set_self stack 0 (u8 (shr at 8)) 0 (omega arith) in
    let second : get_or (append_data len 2 payload 0 buf) 1 0 ≡ u8 at =
      append_data-keeps len 2 payload 0 buf 1 (omega arith)
      ∙ get_or-set_self high 1 (u8 at) 0 (omega (arith, room)) in
    rw w (
      wide-Says at payload len (append_data len 2 payload 0 buf)
        (ap₂ (λ (v : ℕ) (u : ℕ). u8 v * 256 + u8 u) first second ∙ omega arith)
        (appended-at len 2 payload buf (omega (arith, room, room'))))

module _ (width at : ℕ) (payload : List ℕ) (len : ℕ) (buf : List ℕ)
    (says : Says width at payload len buf) (page : ℕ) (room : len ≤ page - at % page)
    (cells : ℕ → ℕ) where
  -- Whatever part of the buffer the chip has got, a STOP changes no cell but those of the payload.
  pub programmed-outside :
      (k a : ℕ)
      → k ≤ width + len
      → (a < at) ⊎ (at + len ≤ a)
      → programmed width page (bytes_from k 0 buf) cells a ≡ cells a
  unfolding programmed store_page
  programmed-outside k a h out = elim (leb_cases width k) [
    | inr few ↦ rw (says.nothing k few) refl
    | inl enough ↦
        let split : k ≡ width + (k - width) = omega arith in
        let count = length-bytes_from (k - width) width buf in
        ap (λ (p : ℕ). store_page page p (drop width (bytes_from k 0 buf)) cells a)
          (says.pointed k enough)
        ∙ ap (λ (n : ℕ). store_page page at (drop width (bytes_from n 0 buf)) cells a) split
        ∙ ap (λ (l : List ℕ). store_page page at l cells a) (says.dropped (k - width))
        ∙ store_page-before page at (bytes_from (k - width) width buf) cells a
            (omega (arith, count, room))
            (elim out [ inl e ↦ inl e | inr e ↦ inr (omega (arith, count)) ])
  ]

  -- The whole buffer puts the payload there.
  pub programmed-at :
      (i : ℕ)
      → i < len
      → programmed width page (bytes_from (width + len) 0 buf) cells (at + i)
        ≡ u8 (get_or payload i 0)
  unfolding programmed
  programmed-at i h =
      rw (says.dropped len, says.pointed (width + len) (omega arith))
        (store_page-at page at (bytes_from len width buf) cells i
            (omega (arith, length-bytes_from len width buf, room))
            (omega (arith, length-bytes_from len width buf))
          ∙ get_or-bytes_from len width i buf h
          ∙ ap (λ (v : ℕ). u8 v) (says.behind i h))
