-- ===== src/Eeprom/Range.antt =====
-- Which writes lie in the chip and in one page, and that the checks of the code say so.
use cortex_m3_embedded_debug.Base.{
  ℕ, ◌+◌, never_both, ◌-◌, ◌%◌, ◌≤◌, ◌<◌, ◌≡◌, ◌≢◌, ◌⊎◌, refl, inl, inr, Bool, true, false,
  eq_or_ne, ltb, leb, leb_cases, is_ok, ne→==, arith,
}
use cortex_m3_embedded_debug.Eeprom.{EepromDevice, range_in, validate_range, err_argument_as_size}
use cortex_m3_embedded_debug.Eeprom.Buffer.{Addressed}

-- what a write needs, without the checks of the code: the address space has 2 ^ 8 or 2 ^ 16 cells, and
-- the write stays in its page
pub record IsFitting (device : EepromDevice) (at len : ℕ) : Type 0 where
  pub some_bus : device.has_bus ≡ true
  pub some_bytes : 0 < len
  pub some_page : 0 < device.page_size
  pub page_bound : device.page_size ≤ 4294967196
  pub in_chip :
      ((device.address_width ≡ 1) × (at + len ≤ 256))
      ⊎ ((device.address_width ≡ 2) × (at + len ≤ 65536))
  pub in_page : at % device.page_size + len ≤ device.page_size

-- a write that passes the checks
pub record IsWrite (device : EepromDevice) (at len : ℕ) : Type 0 where
  pub some_bus : device.has_bus ≡ true
  pub some_bytes : len ≢ 0
  pub some_page : device.page_size ≢ 0
  pub usable_page : device.page_size ≤ err_argument_as_size
  pub in_range : is_ok (validate_range device at len) ≡ true
  pub in_page : len ≤ device.page_size - at % device.page_size

range_in-lt : (limit at len : ℕ) → is_ok (range_in limit at len) ≡ true → at < limit
unfolding range_in
range_in-lt limit at len h = elim (leb_cases limit at) [
  | inl le ↦ let over : leb limit at ≡ true = ground arith in absurd (ground (arith, over, h))
  | inr lt ↦ lt
]

pub validate_range-Addressed :
    (device : EepromDevice) (at len : ℕ)
    → is_ok (validate_range device at len) ≡ true
    → Addressed device at
unfolding validate_range
validate_range-Addressed device at len h = elim (eq_or_ne device.address_width 1) [
  | inl one ↦ inl (one, range_in-lt 256 at len (simp one at h))
  | inr not_one ↦ elim (eq_or_ne device.address_width 2) [
    | inl two ↦ inr (two, range_in-lt 65536 at len (simp two at h))
    | inr neither ↦ absurd (
        ground
          (arith, ne→== device.address_width 1 not_one, ne→== device.address_width 2 neither, h))
  ]
]

range_in_lem :
    (limit at len : ℕ)
    → 0 < len
    → ((is_ok (range_in limit at len) ≡ true) × (at + len ≤ limit))
      ⊎ ((is_ok (range_in limit at len) ≡ false) × (limit < at + len))
unfolding range_in
range_in_lem limit at len h = elim (leb_cases limit at) [
  | inl le ↦ let over : leb limit at ≡ true = ground arith in inr (rw over refl, omega arith)
  | inr lt ↦
      let inside : leb limit at ≡ false = ground arith in
      elim (leb_cases len (limit - at)) [
        | inl fits ↦
            let short : ltb (limit - at) len ≡ false = ground arith in
            inl (rw (inside, short) refl, omega arith)
        | inr long ↦
            let too_long : ltb (limit - at) len ≡ true = ground arith in
            inr (rw (inside, too_long) refl, omega arith)
      ]
]

InChip : EepromDevice → ℕ → ℕ → Type 0
InChip device at len =
    ((device.address_width ≡ 1) × (at + len ≤ 256))
    ⊎ ((device.address_width ≡ 2) × (at + len ≤ 65536))

-- validate_range accepts exactly what lies in the chip.
validate_range_lem :
    (device : EepromDevice) (at len : ℕ)
    → 0 < len
    → ((is_ok (validate_range device at len) ≡ true) × InChip device at len)
      ⊎ ((is_ok (validate_range device at len) ≡ false) × (¬ InChip device at len))
unfolding validate_range InChip
validate_range_lem device at len h = elim (eq_or_ne device.address_width 1) [
  | inl one ↦ elim (range_in_lem 256 at len h) [
    | inl (good, le) ↦ inl (rw one good, inl (one, le))
    | inr (bad, lt) ↦ inr (
      rw one bad,
      λ c. elim c [ inl (w, le) ↦ absurd (omega arith) | inr (w, le) ↦ absurd (omega arith) ],
    )
  ]
  | inr not_one ↦ elim (eq_or_ne device.address_width 2) [
    | inl two ↦ elim (range_in_lem 65536 at len h) [
      | inl (good, le) ↦ inl (rw two good, inr (two, le))
      | inr (bad, lt) ↦ inr (
        rw two bad,
        λ c. elim c [ inl (w, le) ↦ absurd (omega arith) | inr (w, le) ↦ absurd (omega arith) ],
      )
    ]
    | inr neither ↦ inr (
      rw (ne→== device.address_width 1 not_one, ne→== device.address_width 2 neither) refl,
      λ c. elim c [ inl (w, le) ↦ not_one w | inr (w, le) ↦ neither w ],
    )
  ]
]

pub IsFitting-IsWrite :
    (device : EepromDevice) (at len : ℕ) → IsFitting device at len → IsWrite device at len
unfolding InChip
IsFitting-IsWrite device at len r = record {
  some_bus = r.some_bus;
  some_bytes = λ none. absurd (omega (arith, r.some_bytes));
  some_page = λ none. absurd (omega (arith, r.some_page));
  usable_page = r.page_bound;
  in_range = elim (validate_range_lem device at len r.some_bytes) [
    | inl (good, inside) ↦ good
    | inr (bad, outside) ↦ absurd (outside r.in_chip)
  ];
  in_page = omega (arith, r.in_page);
}

pub IsWrite-IsFitting :
    (device : EepromDevice) (at len : ℕ) → IsWrite device at len → IsFitting device at len
unfolding InChip
IsWrite-IsFitting device at len r =
    let filled : 0 < len = ground (arith, r.some_bytes) in
    record {
      some_bus = r.some_bus;
      some_bytes = filled;
      some_page = ground (arith, r.some_page);
      page_bound = r.usable_page;
      in_chip = elim (validate_range_lem device at len filled) [
        | inl (good, inside) ↦ inside
        | inr (bad, outside) ↦ never_both _ r.in_range bad
      ];
      in_page = omega (arith, r.in_page, filled);
    }

pub passed_or_not :
    (device : EepromDevice) (at len : ℕ) → IsWrite device at len ⊎ (¬ IsWrite device at len)
passed_or_not device at len =
    elim (decided device.has_bus (is_ok (validate_range device at len)) len device.page_size
      (device.page_size - at % device.page_size)) [
        | inl (b, (n, (p, (fits, (within, inside))))) ↦ inl (record {
          some_bus = b;
          some_bytes = n;
          some_page = p;
          usable_page = fits;
          in_range = within;
          in_page = inside;
        })
        | inr not_all ↦ inr (λ r.
            not_all
              (r.some_bus, (r.some_bytes, (r.some_page, (r.usable_page, (r.in_range, r.in_page))))))
      ]
  where
    Tests : Bool → Bool → ℕ → ℕ → ℕ → Type 0
    Tests b v n page room =
        (b ≡ true) × ((n ≢ 0) × ((page ≢ 0) × ((page ≤ 4294967196) × ((v ≡ true) × (n ≤ room)))))

    decided : (b v : Bool) (n page room : ℕ) → Tests b v n page room ⊎ (¬ Tests b v n page room)
    decided b v n page room = ground arith
