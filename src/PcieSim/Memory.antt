-- ===== src/PcieSim/Memory.antt =====
-- The simulated host is a memory of words, and answers every read.
use cortex_m3_embedded_debug.Base.{
  ℕ, zero, suc, ◌+◌, ◌^◌, ◌≤◌, ◌<◌, ◌≡◌, ◌≢◌, ◌⊎◌, inl, inr, refl, ap, sym, ◌∙◌, subst, true,
  Bool-cases, Option, some, none, some_inj, length, set, get_or, get_or-set_self, get_or-set_ne,
  eq_or_ne, leb_cases, set-beyond, shr, arith, ok,
}
use cortex_m3_embedded_debug.PcieHost.{Bdf, pcie_config_read32, pcie_config_write32}
use cortex_m3_embedded_debug.PcieHost.Guards.{
  IsBdf, IsOffset, config_read32-valid, config_write32-valid,
}
use cortex_m3_embedded_debug.PcieBus.{bdf_of}
use cortex_m3_embedded_debug.PcieBus.Read.{Answers}
use cortex_m3_embedded_debug.PcieSim.{
  PcieSimFunction, PcieSimController, no_function, is_function, find_from, sim_find_function,
  word_at, found_word, put_word, sim_config_read32, sim_config_write32, sim_host,
}

-- the word that a read gives
abbrev pub sim_word : PcieSimController → Bdf → ℕ → ℕ
sim_word c bdf off = found_word c off (sim_find_function c bdf)

-- every word has 32 bits
abbrev pub IsWords : PcieSimController → Type 0
IsWords c = (i off : ℕ) → word_at c i off < 2 ^ 32

-- The simulated host keeps what the enumeration asks of a host.
pub sim-Answers : (c : PcieSimController) → IsWords c → Answers sim_host (some c) (sim_word c)
unfolding sim_config_read32
sim-Answers c words = record {
  reads = λ bdf off. refl;
  words = λ bdf off. bound off (sim_find_function c bdf);
}
  where
    bound : (off : ℕ) (fn : Option ℕ) → found_word c off fn < 2 ^ 32
    bound off none = omega arith
    bound off (some i) = words i off

-- the array has the functions that are counted, and each its 64 words
pub record IsSim (c : PcieSimController) : Type 0 where
  pub counted : c.function_count ≤ length c.functions
  pub sized :
      (i : ℕ) → i < length c.functions → length (get_or c.functions i no_function).config ≡ 64

-- A write keeps what the search looks at.
same_function :
    (c : PcieSimController) (i off v j : ℕ) (bdf : Bdf)
    → is_function (get_or (put_word c i off v).functions j no_function) bdf
      ≡ is_function (get_or c.functions j no_function) bdf
unfolding is_function
same_function c i off v j bdf =
    let fn = get_or c.functions i no_function in
    let fn' : PcieSimFunction = record fn { config = set fn.config (shr off 2) v } in
    elim (leb_cases (length c.functions) i) [
      | inl out ↦ rw (set-beyond c.functions i fn' out) refl
      | inr inside ↦ elim (eq_or_ne i j) [
        | inl e ↦
            let there = ap (λ (k : ℕ). get_or c.functions k no_function) (sym e) in
            let changed : get_or (set c.functions i fn') j no_function ≡ fn' =
              ap (λ (k : ℕ). get_or (set c.functions i fn') k no_function) (sym e)
              ∙ get_or-set_self c.functions i fn' no_function inside in
            rw (changed, there) refl
        | inr ne ↦ rw (get_or-set_ne c.functions i j fn' no_function ne) refl
      ]
    ]

find-put :
    (c : PcieSimController) (i off v : ℕ) (bdf : Bdf) (n k : ℕ)
    → find_from (put_word c i off v) bdf n k ≡ find_from c bdf n k
unfolding find_from
find-put c i off v bdf zero k = refl
find-put c i off v bdf (suc n) k =
    rw (same_function c i off v k bdf, find-put c i off v bdf n (suc k)) refl

-- What the search finds is counted, and has the address.
find_sound :
    (c : PcieSimController) (bdf : Bdf) (n k i : ℕ)
    → find_from c bdf n k ≡ some i
    → (i < k + n) × (is_function (get_or c.functions i no_function) bdf ≡ true)
unfolding find_from
find_sound c bdf zero k i e = absurd (ground arith)
find_sound c bdf (suc n) k i e =
    elim (Bool-cases (is_function (get_or c.functions k no_function) bdf)) [
      | inl t ↦
          let here : some k ≡ some i = sym (rw t refl) ∙ e in
          let same : k ≡ i = some_inj here in (omega arith, rw (sym same) t)
      | inr f ↦
          let rest : find_from c bdf n (suc k) ≡ some i = sym (rw f refl) ∙ e in
          let found = find_sound c bdf n (suc k) i rest in (omega (arith, found.0), found.1)
    ]

-- One function has one address.
is_function_unique :
    (fn : PcieSimFunction) (a b : Bdf) → is_function fn a ≡ true → is_function fn b ≡ true → a ≡ b
unfolding is_function
is_function_unique fn a b ha hb =
    let bus : a.bus ≡ b.bus = ground arith in
    let device : a.device ≡ b.device = ground arith in
    let function : a.function ≡ b.function = ground arith in
    ap (λ (x : ℕ). bdf_of x a.device a.function) bus
    ∙ ap (λ (x : ℕ). bdf_of b.bus x a.function) device
    ∙ ap (λ (x : ℕ). bdf_of b.bus b.device x) function

module _ (c : PcieSimController) (sim : IsSim c) (bdf : Bdf) (off v i : ℕ)
    (found : sim_find_function c bdf ≡ some i) (ho : IsOffset off) where
  at_bdf : (i < length c.functions) × (is_function (get_or c.functions i no_function) bdf ≡ true)
  unfolding sim_find_function
  at_bdf =
      let f = find_sound c bdf c.function_count 0 i found in (omega (arith, f.0, sim.counted), f.1)

  put_function :
      get_or (put_word c i off v).functions i no_function
      ≡ record (get_or c.functions i no_function) {
        config = set (get_or c.functions i no_function).config (shr off 2) v;
      }
  put_function = get_or-set_self c.functions i _ no_function (at_bdf.0)

  word-put_same : word_at (put_word c i off v) i off ≡ v
  word-put_same = rw put_function (
      get_or-set_self (get_or c.functions i no_function).config (shr off 2) v 0
        (omega (arith, sim.sized i at_bdf.0, ho.0)))

  word-put_other :
      (j o : ℕ) → (j ≢ i) ⊎ (shr o 2 ≢ shr off 2) → word_at (put_word c i off v) j o ≡ word_at c j o
  word-put_other j o apart = elim (eq_or_ne i j) [
    | inl e ↦ elim apart [
      | inl ne ↦ absurd (ne (sym e))
      | inr ne ↦
          subst (λ (k : ℕ). word_at (put_word c i off v) k o ≡ word_at c k o) e
            (rw put_function (
              get_or-set_ne (get_or c.functions i no_function).config (shr off 2) (shr o 2) v 0
                (λ s. ne (sym s))))
    ]
    | inr ne ↦
        ap (λ (fn : PcieSimFunction). get_or fn.config (shr o 2) 0)
          (get_or-set_ne c.functions i j _ no_function ne)
  ]

  find-put_all : (b : Bdf) → sim_find_function (put_word c i off v) b ≡ sim_find_function c b
  unfolding sim_find_function
  find-put_all b = find-put c i off v b c.function_count 0

  put-other :
      (b : Bdf) (o : ℕ)
      → IsOffset o
      → (b ≢ bdf) ⊎ (o ≢ off)
      → sim_word (put_word c i off v) b o ≡ sim_word c b o
  unfolding sim_find_function
  put-other b o h apart =
      rw (find-put c i off v b c.function_count 0) (go (sim_find_function c b) refl)
    where
      go :
          (fn : Option ℕ)
          → sim_find_function c b ≡ fn
          → found_word (put_word c i off v) o fn ≡ found_word c o fn
      go none e = refl
      go (some j) e = word-put_other j o (elim apart [
        | inl ne ↦ inl (λ same.
            let at = find_sound c b c.function_count 0 j e in
            ne (
              is_function_unique (get_or c.functions i no_function) b bdf (rw (sym same) at.1)
                (at_bdf.1)))
        | inr ne ↦ inr (λ same. ne (omega (arith, same, h.1, ho.1)))
      ])

-- The simulated host is a memory. A write through pcie_config_write32 to a function that it has
-- succeeds; pcie_config_read32 then gives the value there, and at every other valid address what it
-- gave before.
pub write_then_read :
    (c : PcieSimController) (bdf : Bdf) (off v i : ℕ)
    → IsSim c
    → IsBdf bdf
    → IsOffset off
    → sim_find_function c bdf ≡ some i
    → (c' : PcieSimController) × ((pcie_config_write32 sim_host true bdf off v (some c)
          ≡ (ok, some c'))
        × ((pcie_config_read32 sim_host true bdf off (some c') ≡ (ok, v, some c'))
            × ((b : Bdf) (o : ℕ)
                → IsBdf b
                → IsOffset o
                → (b ≢ bdf) ⊎ (o ≢ off)
                → (pcie_config_read32 sim_host true b o (some c')).1
                  ≡ (pcie_config_read32 sim_host true b o (some c)).1)))
unfolding sim_config_read32 sim_config_write32
write_then_read c bdf off v i sim hb ho found =
    let c' = put_word c i off v in
    let found' = find-put_all c sim bdf off v i found ho bdf ∙ found in
    (
      c',
      (
        config_write32-valid sim_host bdf off v (some c) hb ho ∙ rw found refl,
        (
          config_read32-valid sim_host bdf off (some c') hb ho
              ∙ rw (found', word-put_same c sim bdf off v i found ho) refl,
          λ b o hb' ho' apart.
              rw
                (
                  config_read32-valid sim_host b o (some c') hb' ho',
                  config_read32-valid sim_host b o (some c) hb' ho',
                )
                (put-other c sim bdf off v i found ho b o ho' apart),
        ),
      ),
    )
