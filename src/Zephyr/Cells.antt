-- ===== src/Zephyr/Cells.antt =====
-- The cells of a memory as a function of the address: contents that agree outside of a range.
use cortex_m3_embedded_debug.Base.{
  ℕ, zero, suc, ◌+◌, ◌≤◌, ◌<◌, ◌≡◌, ◌⊎◌, inl, inr, refl, ap, ap₂, ◌∙◌, arith, [], ◌∷◌, ◌++◌, length,
}
use cortex_m3_embedded_debug.Zephyr.Eeprom.{slice, tabulate}

-- Two contents that differ at most in `n` cells from `off` on.
abbrev pub SameOutside : ℕ → ℕ → (ℕ → ℕ) → (ℕ → ℕ) → Type 0
SameOutside off n c c' = (a : ℕ) → (a < off) ⊎ (off + n ≤ a) → c' a ≡ c a

pub tabulate_ext :
    (n : ℕ) (f g : ℕ → ℕ) → ((i : ℕ) → i < n → f i ≡ g i) → tabulate n f ≡ tabulate n g
tabulate_ext zero f g h = refl
tabulate_ext (suc n) f g h = ground (
  arith,
  h 0 (omega arith),
  tabulate_ext n (λ i. f (suc i)) (λ i. g (suc i)) (λ i lt. h (suc i) (omega arith)),
)

-- Cells outside the changed range read the same.
pub slice_same :
    {c c' : ℕ → ℕ} (off n at len : ℕ)
    → SameOutside off n c c'
    → (at + len ≤ off) ⊎ (off + n ≤ at)
    → slice c' at len ≡ slice c at len
slice_same off n at len h sep = tabulate_ext len _ _ (λ i lt. h (at + i) (apart i lt))
  where
    apart : (i : ℕ) → i < len → (at + i < off) ⊎ (off + n ≤ at + i)
    apart i lt = elim sep [ inl e ↦ inl (omega arith) | inr e ↦ inr (omega arith) ]

length-tabulate : (n : ℕ) (g : ℕ → ℕ) → length (tabulate n g) ≡ n
length-tabulate zero g = refl
length-tabulate (suc n) g = ap suc (length-tabulate n (λ i. g (suc i)))

-- The last cell apart.
tabulate-suc : (n : ℕ) (g : ℕ → ℕ) → tabulate (suc n) g ≡ tabulate n g ++ (g n ∷ [])
tabulate-suc zero g = refl
tabulate-suc (suc n) g = ap (λ l. g 0 ∷ l) (tabulate-suc n (λ i. g (suc i)))

pub length-slice : (c : ℕ → ℕ) (off n : ℕ) → length (slice c off n) ≡ n
length-slice c off n = length-tabulate n (λ i. c (off + i))

-- One more cell at the end, which holds `v`, while the cells before it are as they were.
pub slice_grow :
    (c c' : ℕ → ℕ) (off n v : ℕ)
    → ((i : ℕ) → i < n → c' (off + i) ≡ c (off + i))
    → c' (off + n) ≡ v
    → slice c' off (suc n) ≡ slice c off n ++ (v ∷ [])
slice_grow c c' off n v same last =
    tabulate-suc n (λ i. c' (off + i)) ∙ ap₂ (λ l x. l ++ (x ∷ [])) (tabulate_ext n _ _ same) last
