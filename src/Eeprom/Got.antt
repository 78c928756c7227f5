-- ===== src/Eeprom/Got.antt =====
-- What a chip has got after bytes were sent to it.
use mathlib.Core.List.{append_assoc, append-nil}
use cortex_m3_embedded_debug.Base.{
  ℕ, zero, suc, ◌+◌, ◌<◌, ◌≡◌, refl, ap, sym, ◌∙◌, Bool, true, false, List, [], ◌∷◌, ◌++◌, length,
  get_or, if◌then◌else◌, u8, is_ok, arith,
}
use cortex_m3_embedded_debug.Base.Exec.{Void, Outcome, continue, Ensures, Ensures-map}
use cortex_m3_embedded_debug.I2cTarget.Slave.{Device}
use cortex_m3_embedded_debug.Mps2I2c.Talk.{Talk, reply, tell}
use cortex_m3_embedded_debug.Eeprom.Chip.{Chip}

-- `n` bytes of the buffer, from `byte` on
abbrev pub bytes_from : ℕ → ℕ → List ℕ → List ℕ
bytes_from zero byte buf = []
bytes_from (suc n) byte buf = u8 (get_or buf byte 0) ∷ bytes_from n (suc byte) buf

pub length-bytes_from : (n byte : ℕ) (buf : List ℕ) → length (bytes_from n byte buf) ≡ n
length-bytes_from zero byte buf = refl
length-bytes_from (suc n) byte buf = ap suc (length-bytes_from n (suc byte) buf)

pub get_or-bytes_from :
    (n byte i : ℕ) (buf : List ℕ)
    → i < n
    → get_or (bytes_from n byte buf) i 0 ≡ u8 (get_or buf (byte + i) 0)
get_or-bytes_from zero byte i buf h = absurd (omega arith)
get_or-bytes_from (suc n) byte zero buf h = let here : byte + 0 ≡ byte = omega arith in rw here refl
get_or-bytes_from (suc n) byte (suc i) buf h =
    let there : byte + suc i ≡ suc byte + i = omega arith in
    rw there (get_or-bytes_from n (suc byte) i buf (omega arith))

module _ (V : Device) (target_addr width page : ℕ) (C : Chip V target_addr width page) where
  open V use {E, take}
  open C use {cells, got}

  -- The chip has got `n` further bytes of the buffer, or has refused one behind the first `k`; that
  -- is an error.
  abbrev pub Told : ℕ → ℕ → List ℕ → Talk E → Outcome Void × Talk E → Type 0
  Told n byte buf x o =
      Ensures o
        (λ _ y.
          (got y.dev ≡ got x.dev ++ bytes_from n byte buf)
          × ((cells y.dev ≡ cells x.dev) × (y.bufs ≡ x.bufs)))
        (λ rc y.
          (is_ok rc ≡ false)
          × ((y.bufs ≡ x.bufs)
              × ((k : ℕ) × ((k < n)
                    × ((got y.dev ≡ got x.dev ++ bytes_from k byte buf)
                        × (cells y.dev ≡ cells x.dev))))))

  pub tell-Told :
      (n index byte : ℕ) (x : Talk E)
      → Told n byte (get_or x.bufs index []) x (tell V n index byte x)
  unfolding tell
  tell-Told zero index byte x = (sym (append-nil (got x.dev)), (refl, refl))
  tell-Told (suc n) index byte x =
      let v = u8 (get_or (get_or x.bufs index []) byte 0) in
      step (take v x.dev) (C.take_got v x.dev) (C.take_cells v x.dev)
        (λ e. tell-Told n index (suc byte) (record { dev = e; bufs = x.bufs }))
    where
      step :
          (a : Bool × E)
          → got a.1 ≡ (
              if a.0
              then got x.dev ++ (u8 (get_or (get_or x.bufs index []) byte 0) ∷ [])
              else got x.dev)
          → cells a.1 ≡ cells x.dev
          → ((e : E)
              → Told n
                  (suc byte)
                  (get_or x.bufs index [])
                  (record { dev = e; bufs = x.bufs })
                  (tell V n index (suc byte) (record { dev = e; bufs = x.bufs })))
          → Told
              (suc n)
              byte
              (get_or x.bufs index [])
              x
              (continue (reply V x.bufs a) (λ _. tell V n index (suc byte)))
      step (true, e) g c rest =
          let buf = get_or x.bufs index [] in
          let v = u8 (get_or buf byte 0) in
          let joined = λ (k : ℕ).
            ap (λ l. l ++ bytes_from k (suc byte) buf) g
            ∙ append_assoc (got x.dev) (v ∷ []) (bytes_from k (suc byte) buf) in
          Ensures-map (tell V n index (suc byte) (record { dev = e; bufs = x.bufs })) (rest e)
            (λ _ y q. (q.0 ∙ joined n, (q.1.0 ∙ c, q.1.1)))
            (λ rc y q.
              let (same_bufs, (k, (lt, (same_got, same_cells)))) = q.1 in
              (
                q.0,
                (same_bufs, (suc k, (omega (arith, lt), (same_got ∙ joined k, same_cells ∙ c)))),
              ))
      step (false, e) g c rest =
          (refl, (refl, (0, (omega arith, (g ∙ sym (append-nil (got x.dev)), c)))))
