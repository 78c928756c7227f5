-- ===== src/Eeprom/Guards.antt =====
-- The checks of `eeprom_write`.
use cortex_m3_embedded_debug.Base.{
  ℕ, ◌-◌, ◌%◌, ◌≡◌, ◌⊎◌, refl, inl, inr, Bool, true, false, Bool-cases, not, ◌||◌, some, List, ◌==◌,
  ltb, if◌then◌else◌, Rc, is_ok, ne→==, ==→ne, arith,
}
use cortex_m3_embedded_debug.I2cLine.{Pins, Mps2I2cBus}
use cortex_m3_embedded_debug.Eeprom.{
  EepromDevice, validate_range, eeprom_write, write_page, err_argument_as_size, eeprom_err_argument,
  err_page_boundary,
}
use cortex_m3_embedded_debug.Eeprom.Range.{
  IsFitting, IsWrite, IsFitting-IsWrite, IsWrite-IsFitting, passed_or_not,
}

module _ (P : Pins) (bus : Mps2I2cBus) where
  pub write_accepted :
      (device : EepromDevice) (at : ℕ) (payload : List ℕ) (len : ℕ) (stack : List ℕ) (w : P.W)
      → IsWrite device at len
      → eeprom_write P bus (some device) at (some payload) len stack w
        ≡ write_page P bus device at payload len stack w
  unfolding eeprom_write
  write_accepted device at payload len stack w r =
      let page_fits : ltb err_argument_as_size device.page_size ≡ false =
        ground (arith, r.usable_page) in
      let len_fits : ltb device.page_size len ≡ false = ground (arith, r.in_page) in
      let stays : ltb (device.page_size - at % device.page_size) len ≡ false =
        ground (arith, r.in_page) in
      rw
        (
          r.some_bus,
          ne→== len 0 r.some_bytes,
          ne→== device.page_size 0 r.some_page,
          page_fits,
          len_fits,
          r.in_range,
          stays,
        )
        refl

  -- what an error leaves: the status is none of success, and the lines are as they were
  abbrev pub Refused : P.W → Rc × P.W → Type 0
  Refused w out = (is_ok out.0 ≡ false) × (out.1 ≡ w)

  -- the checks as tests, in their order
  abbrev checks : Bool → Bool → Bool → Bool → Bool → Rc → Bool → P.W → Rc × P.W → Rc × P.W
  checks no_bus no_bytes no_page large long range crosses w done =
      if no_bus || (no_bytes || (no_page || (large || long)))
      then (eeprom_err_argument, w)
      else if not (is_ok range)
      then (range, w)
      else if crosses
      then (err_page_boundary, w)
      else done

  checked :
      (no_bus no_bytes no_page large long : Bool) (range : Rc) (crosses : Bool) (w : P.W)
      (done : Rc × P.W)
      → Refused w (checks no_bus no_bytes no_page large long range crosses w done)
        ⊎ ((no_bus ≡ false)
            × ((no_bytes ≡ false)
                × ((no_page ≡ false)
                    × ((large ≡ false) × ((is_ok range ≡ true) × (crosses ≡ false))))))
  checked true no_bytes no_page large long range crosses w done = inl (refl, refl)
  checked false true no_page large long range crosses w done = inl (refl, refl)
  checked false false true large long range crosses w done = inl (refl, refl)
  checked false false false true long range crosses w done = inl (refl, refl)
  checked false false false false true range crosses w done = inl (refl, refl)
  checked false false false false false range crosses w done = elim (Bool-cases (is_ok range)) [
    | inr out ↦ inl (rw out (out, refl))
    | inl within ↦ elim (Bool-cases crosses) [
      | inl over ↦ inl (rw (within, over) (refl, refl))
      | inr inside ↦ inr (refl, (refl, (refl, (refl, (within, inside)))))
    ]
  ]

  not_passed :
      (device : EepromDevice) (at : ℕ) (payload : List ℕ) (len : ℕ) (stack : List ℕ) (w : P.W)
      → ¬ IsWrite device at len
      → Refused w (eeprom_write P bus (some device) at (some payload) len stack w)
  unfolding eeprom_write
  not_passed device at payload len stack w h =
      elim (checked (not device.has_bus) (len == 0) (device.page_size == 0)
        (ltb err_argument_as_size device.page_size) (ltb device.page_size len)
        (validate_range device at len) (ltb (device.page_size - at % device.page_size) len) w
        (write_page P bus device at payload len stack w)) [
          | inl refused ↦ refused
          | inr (has, (n, (p, (fits, (within, inside))))) ↦ absurd (
              h (record {
                some_bus = ground (arith, has);
                some_bytes = ==→ne len 0 n;
                some_page = ==→ne device.page_size 0 p;
                usable_page = ground (arith, fits);
                in_range = within;
                in_page = ground (arith, inside);
              }))
        ]

  -- eeprom_write, with a device and data: with a bus, at least one byte, a page size from 1 to
  -- 2 ^ 32 - 100, a word address of one or two bytes, and a range that lies in the 2 ^ 8 or 2 ^ 16
  -- cells and in one page, it goes on to the transfer. Without one of these it is an error, and the
  -- lines are not touched.
  pub write_guarded :
      (device : EepromDevice) (at : ℕ) (payload : List ℕ) (len : ℕ) (stack : List ℕ) (w : P.W)
      → let out = eeprom_write P bus (some device) at (some payload) len stack w in
        (IsFitting device at len × (out ≡ write_page P bus device at payload len stack w))
        ⊎ ((¬ IsFitting device at len) × Refused w out)
  write_guarded device at payload len stack w = elim (passed_or_not device at len) [
    | inl passed ↦ inl (
      IsWrite-IsFitting device at len passed,
      write_accepted device at payload len stack w passed,
    )
    | inr not_write ↦ inr (
      λ fits. not_write (IsFitting-IsWrite device at len fits),
      not_passed device at payload len stack w not_write,
    )
  ]
