-- ===== src/SpiCommand/Reply.antt =====
-- What a command read gives.
use mathlib.Core.List.{append-nil}
use cortex_m3_embedded_debug.Base.{
  ℕ, zero, suc, ◌-◌, ◌≤◌, ◌<◌, ◌≡◌, ◌⊎◌, inl, inr, refl, ap, ◌∙◌, Bool, true, false, Bool-cases,
  never_both, not, ◌||◌, ◌==◌, ltb, if◌then◌else◌, Option, some, none, List, [], ◌∷◌, ◌++◌, length,
  length-replicate, take, drop, replicate, get_or, Rc, ok, fail, is_ok, is_ok_lem, einval, emsgsize,
  arith,
}
use cortex_m3_embedded_debug.Zephyr.Spi.{SpiFlags, SpiConfig, Spi, bytes, zeros, into, discard}
use cortex_m3_embedded_debug.SpiCommand.{
  SpiClient, config_ready, spi_client_ready, transfer, spi_command_read,
}
use cortex_m3_embedded_debug.SpiCommand.Ready.{
  IsUsable, config_ready-IsUsable, config_ready_complete,
}

length-take : (n : ℕ) (l : List ℕ) → n ≤ length l → length (take n l) ≡ n
length-take zero l h = refl
length-take (suc n) [] h = absurd (omega arith)
length-take (suc n) (x ∷ l) h = ap suc (length-take n l (omega arith))

length-drop_one : (l : List ℕ) → length (drop 1 l) ≡ length l - 1
length-drop_one [] = refl
length-drop_one (x ∷ l) = omega arith

buffer_given : (r : Bool) (n : ℕ) → (not r || (n == 0)) ≡ false → (r ≡ true) × (0 < n)
buffer_given true n h = (refl, ground arith)
buffer_given false n h = absurd (ground arith)

buffer_missing : (r : Bool) (n : ℕ) → (not r || (n == 0)) ≡ true → r ≡ true → 0 < n → ⊥
buffer_missing true n h k lt = absurd (ground arith)
buffer_missing false n h k lt = absurd (ground arith)

module _ (Z : SpiFlags) (P : Spi) (config : SpiConfig) (has_bus : Bool) (command : ℕ)
    (has_reply : Bool) (reply_len : ℕ) (b : P.Bus) where
  abbrev client : SpiClient
  client = record { has_bus = has_bus; config = some config }

  -- what the device answers to the command and the dummy bytes behind it
  abbrev pub line : List ℕ
  line = P.answer b config (command ∷ replicate reply_len 0)

  pub record IsValid : Type 0 where
    pub bus : has_bus ≡ true
    pub reply : has_reply ≡ true
    pub some_bytes : 0 < reply_len
    pub few_bytes : reply_len ≤ 16
    pub usable : IsUsable Z P config b

  -- the one transfer: the command, then zeros; the first byte that comes is left out
  abbrev pub exchange : Rc × List (List ℕ) × P.Bus
  exchange =
      P.transceive b config (bytes (command ∷ []) ∷ zeros reply_len ∷ [])
        (discard 1 ∷ into reply_len ∷ [])

  pub record Transferred (out : Rc × Option (List ℕ) × P.Bus) : Type 0 where
    pub valid : IsValid
    pub status : out.0 ≡ exchange.0
    pub bus_after : out.2 ≡ exchange.2
    pub replied :
        is_ok out.0 ≡ true
        → (out.1 ≡ some (take reply_len (drop 1 line)))
          × (length (take reply_len (drop 1 line)) ≡ reply_len)

  transferred : IsValid → Transferred (transfer Z P (some client) command reply_len b)
  unfolding transfer
  transferred v = record {
    valid = v;
    status = refl;
    bus_after = refl;
    replied = λ success.
        let sent_line : P.answer b config ((command ∷ []) ++ (replicate reply_len 0 ++ [])) ≡ line =
          ap (λ (l : List ℕ). P.answer b config (command ∷ l))
            (append-nil (replicate reply_len 0)) in
        let long : length line ≡ suc reply_len =
          P.length-answer b config (command ∷ replicate reply_len 0)
          ∙ ap suc (length-replicate reply_len 0) in
        let got =
          P.transceive_ok b config (bytes (command ∷ []) ∷ zeros reply_len ∷ [])
            (discard 1 ∷ into reply_len ∷ []) success in
        (
          ap (λ (l : List (List ℕ)). some (get_or l 0 [])) got
              ∙ ap (λ (l : List ℕ). some (take reply_len (drop 1 l))) sent_line,
          length-take reply_len (drop 1 line) (omega (arith, length-drop_one line, long)),
        );
  }

  -- the client is ready exactly if its bus is there and its configuration can be used
  ready_usable :
      is_ok (spi_client_ready Z P (some client) b) ≡ true → (has_bus ≡ true) × IsUsable Z P config b
  unfolding spi_client_ready
  ready_usable h = go has_bus (is_ok_lem _ h)
    where
      go :
          (bus : Bool)
          → (if not bus then fail einval else config_ready Z P config b) ≡ ok
          → (bus ≡ true) × IsUsable Z P config b
      go true e = (refl, config_ready-IsUsable Z P config b e)
      go false e = absurd (ground arith)

  usable_ready :
      (has_bus ≡ true) → IsUsable Z P config b → is_ok (spi_client_ready Z P (some client) b) ≡ true
  unfolding spi_client_ready
  usable_ready h u = rw (h, config_ready_complete Z P config b u) refl

  -- spi_command_read, whatever it is given but a NULL client or configuration. Where the buffer is
  -- there, the length is 1 to 16, the bus is there and the configuration can be used (controller,
  -- words of 8 bits, full duplex, no flag but those of the clock, the loop and the chip select, and
  -- a chip select whose polarity fits), it makes one transfer, of the command and a zero for each byte of
  -- the reply: status and bus are those of the transfer, and on success the reply is what the device clocks
  -- out for the dummy bytes behind the command, of the length that was asked for. Else it is an
  -- error, nothing is sent and the buffer is not written.
  pub spi_command_read_lem :
      let out = spi_command_read Z P (some client) command has_reply reply_len b in
      Transferred out ⊎ ((¬ IsValid) × ((rc : Rc) × ((is_ok rc ≡ false) × (out ≡ (rc, none, b)))))
  unfolding spi_command_read
  spi_command_read_lem = elim (Bool-cases (not has_reply || (reply_len == 0))) [
    | inl e ↦ inr (
      (λ v. buffer_missing has_reply reply_len e v.reply v.some_bytes),
      (fail einval, (refl, rw e refl)),
    )
    | inr e ↦ elim (Bool-cases (ltb 16 reply_len)) [
      | inl f ↦
          inr ((λ v. absurd (ground (arith, v.few_bytes))), (fail emsgsize, (refl, rw (e, f) refl)))
      | inr f ↦ elim (Bool-cases (is_ok (spi_client_ready Z P (some client) b))) [
        | inl g ↦
            let given = buffer_given has_reply reply_len e in
            let client_ok = ready_usable g in
            inl (
              rw (e, f, g)
                (transferred (record {
                  bus = client_ok.0;
                  reply = given.0;
                  some_bytes = given.1;
                  few_bytes = ground arith;
                  usable = client_ok.1;
                })))
        | inr g ↦ inr (
          (λ v. never_both _ (usable_ready v.bus v.usable) g),
          (spi_client_ready Z P (some client) b, (g, rw (e, f, g) refl)),
        )
      ]
    ]
  ]
