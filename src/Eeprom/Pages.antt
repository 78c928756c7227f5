-- ===== src/Eeprom/Pages.antt =====
-- A write that stays in its page changes exactly its cells.
use native.Mathlib.Nat.{mod-eq_of_lt, mod-le, mod-add-mod}
use cortex_m3_embedded_debug.Base.{
  ℕ, zero, suc, ◌+◌, ◌-◌, ◌%◌, ◌≤◌, ◌<◌, ◌≡◌, ◌≢◌, ◌⊎◌, refl, sym, ◌∙◌, inl, inr, List, [], ◌∷◌,
  length, get_or, ne→==, eq→==, arith,
}
use cortex_m3_embedded_debug.Eeprom.Chip.{store_page, update, next_in_page}

next-suc :
    (page at : ℕ)
    → 1 < page - at % page
    → (next_in_page page at ≡ at + 1) × ((at + 1) % page ≡ at % page + 1)
next-suc page at k =
    let inside : at % page + 1 < page = omega arith in
    let same : (at % page + 1) % page ≡ at % page + 1 = mod-eq_of_lt inside in
    (omega (arith, same, mod-le at page), add_one-mod page at ∙ same)
  where
    add_one-mod : (m n : ℕ) → (n + 1) % m ≡ (n % m + 1) % m
    add_one-mod m n = sym (mod-add-mod n m 1)

apart : (at a len : ℕ) → (a < at) ⊎ (at + suc len ≤ a) → a ≢ at
apart at a len out same = elim out [ inl e ↦ absurd (omega arith) | inr e ↦ absurd (omega arith) ]

-- A write that stays in its page leaves every other cell as it was.
pub store_page-before :
    (page at : ℕ) (vs : List ℕ) (cells : ℕ → ℕ) (a : ℕ)
    → length vs ≤ page - at % page
    → (a < at) ⊎ (at + length vs ≤ a)
    → store_page page at vs cells a ≡ cells a
unfolding store_page
store_page-before page at [] cells a k out = refl
store_page-before page at (v ∷ []) cells a k out = rw (ne→== a at (apart at a 0 out)) refl
store_page-before page at (v ∷ v' ∷ vs) cells a k out =
    let (next, room) = next-suc page at (omega arith) in
    rw next (
      store_page-before page (at + 1) (v' ∷ vs) (update cells at v) a (omega (arith, room))
        (elim out [ inl e ↦ inl (omega arith) | inr e ↦ inr (omega arith) ])
      ∙ rw (ne→== a at (apart at a (suc (length vs)) out)) refl)

-- It puts its bytes where they belong.
pub store_page-at :
    (page at : ℕ) (vs : List ℕ) (cells : ℕ → ℕ) (i : ℕ)
    → length vs ≤ page - at % page
    → i < length vs
    → store_page page at vs cells (at + i) ≡ get_or vs i 0
unfolding store_page
store_page-at page at [] cells i k lt = absurd (omega arith)
store_page-at page at (v ∷ []) cells zero k lt =
    let here : at + 0 ≡ at = omega arith in rw (here, eq→== at at refl) refl
store_page-at page at (v ∷ []) cells (suc i) k lt = absurd (omega arith)
store_page-at page at (v ∷ v' ∷ vs) cells zero k lt =
    let (next, room) = next-suc page at (omega arith) in
    let here : at + 0 ≡ at = omega arith in
    rw (next, here)
      (store_page-before page (at + 1) (v' ∷ vs) (update cells at v) at (omega (arith, room))
          (inl (omega arith))
        ∙ rw (eq→== at at refl) refl)
store_page-at page at (v ∷ v' ∷ vs) cells (suc i) k lt =
    let (next, room) = next-suc page at (omega arith) in
    let there : at + suc i ≡ at + 1 + i = omega arith in
    rw (next, there)
      (store_page-at page (at + 1) (v' ∷ vs) (update cells at v) i (omega (arith, room))
        (omega arith))
