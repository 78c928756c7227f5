-- ===== src/PcieBus/Found.antt =====
-- Which functions the scan finds, and in what order.
use mathlib.Core.List.{Memᴰ}
use mathlib.Core.List.Memᴰ
use cortex_m3_embedded_debug.Base.{
  ℕ, zero, suc, ◌+◌, ◌-◌, ◌*◌, ◌/◌, ◌%◌, ◌^◌, ◌≤◌, ◌<◌, ◌≡◌, ◌≢◌, ◌⊎◌, inl, inr, refl, ap, sym, ◌∙◌,
  subst, Bool, true, false, Bool-cases, eq_or_ne, never_both, List, [], ◌∷◌, ◌++◌, ◌==◌, ==→eq,
  ==→ne, ne→==, eq→==, if◌then◌else◌, arith,
}
use cortex_m3_embedded_debug.PcieHost.{Bdf, PcieHost}
use cortex_m3_embedded_debug.PcieHost.Guards.{IsBdf}
use cortex_m3_embedded_debug.PcieBus.{bdf_of}
use cortex_m3_embedded_debug.PcieBus.Scan.{
  present, if_present, functions, device_functions, bus_functions,
}

-- the place of a function in the order of the scan
abbrev pub place : Bdf → ℕ
place f = f.device * 8 + f.function

-- The list rises in this order, from `lo` on and below `hi`.
abbrev pub Rising : ℕ → List Bdf → ℕ → Type 0
Rising lo [] hi = lo ≤ hi
Rising lo (f ∷ fs) hi = (lo ≤ place f) × Rising (place f + 1) fs hi

Rising-append :
    (lo mid hi : ℕ) (xs ys : List Bdf)
    → Rising lo xs mid
    → Rising mid ys hi
    → Rising lo (xs ++ ys) hi
Rising-append lo mid hi [] ys h k = weaken ys k
  where
    weaken : (l : List Bdf) → Rising mid l hi → Rising lo l hi
    weaken [] r = omega (arith, h, r)
    weaken (f ∷ fs) r = (omega (arith, h, r.0), r.1)
Rising-append lo mid hi (x ∷ xs) ys h k = (h.0, Rising-append (place x + 1) mid hi xs ys h.1 k)

Mem-if :
    (b : Bool) {f : Bdf} {fs : List Bdf} → Memᴰ f (if b then fs else []) → (b ≡ true) × Memᴰ f fs
Mem-if true m = (refl, m)
Mem-if false m = absurd (Memᴰ.not-nil m)

Mem-then :
    (b : Bool) {f : Bdf} {fs : List Bdf} → b ≡ true → Memᴰ f fs → Memᴰ f (if b then fs else [])
Mem-then true e m = m
Mem-then false e m = absurd (ground arith)

Mem-one : {f g : Bdf} → Memᴰ f (g ∷ []) → f ≡ g
Mem-one m = elim (Memᴰ.cases_cons m) [ inl e ↦ e | inr k ↦ absurd (Memᴰ.not-nil k) ]

module _ (H : PcieHost) (s0 : H.S) (cfg : Bdf → ℕ → ℕ) where
  -- A function answers, and it is function 0 or the function 0 of its device says that there are
  -- more.
  pub record IsAnswering (f : Bdf) : Type 0 where
    pub on_bus : f.bus ≡ 0
    pub valid : IsBdf f
    pub answers_itself : cfg f 0 % 2 ^ 16 ≢ 65535
    pub behind_first :
        (f.function ≡ 0)
        ⊎ ((cfg (bdf_of 0 f.device 0) 0 % 2 ^ 16 ≢ 65535)
            × (cfg (bdf_of 0 f.device 0) 12 / 2 ^ 23 % 2 ≡ 1))

  if_present-Rising :
      (f : Bdf) (lo : ℕ) → lo ≤ place f → Rising lo (if_present H s0 cfg f) (place f + 1)
  if_present-Rising f lo h = elim (Bool-cases (present H s0 cfg f)) [
    | inl e ↦ rw e (h, omega arith)
    | inr e ↦ rw e (omega arith)
  ]

  functions-Rising :
      (n device function : ℕ)
      → Rising
          (device * 8 + function)
          (functions H s0 cfg n 0 device function)
          (device * 8 + function + n)
  functions-Rising zero device function = omega arith
  functions-Rising (suc n) device function =
      let f = bdf_of 0 device function in
      let here : place f + 1 ≡ device * 8 + suc function = omega arith in
      let there : device * 8 + suc function + n ≡ device * 8 + function + suc n = omega arith in
      Rising-append (device * 8 + function) (place f + 1) _ (if_present H s0 cfg f)
        (functions H s0 cfg n 0 device (suc function)) (if_present-Rising f (place f) (omega arith))
        (rw (here, sym there) (functions-Rising n device (suc function)))

  device_functions-Rising :
      (device : ℕ) → Rising (device * 8) (device_functions H s0 cfg 0 device) (device * 8 + 8)
  device_functions-Rising device = elim (Bool-cases (present H s0 cfg (bdf_of 0 device 0))) [
    | inl e ↦ rw e (omega arith, further)
    | inr e ↦ rw e (omega arith)
  ]
    where
      further :
          Rising
            (device * 8 + 0 + 1)
            (if cfg (bdf_of 0 device 0) 12 / 2 ^ 23 % 2 == 1
              then functions H s0 cfg 7 0 device 1
              else [])
            (device * 8 + 8)
      further = elim (Bool-cases (cfg (bdf_of 0 device 0) 12 / 2 ^ 23 % 2 == 1)) [
        | inl e ↦
            let low : device * 8 + 0 + 1 ≡ device * 8 + 1 = omega arith in
            let high : device * 8 + 8 ≡ device * 8 + 1 + 7 = omega arith in
            rw (e, low, high) (functions-Rising 7 device 1)
        | inr e ↦ rw e (omega arith)
      ]

  pub bus_functions-Rising :
      (n device : ℕ) → Rising (device * 8) (bus_functions H s0 cfg n 0 device) ((device + n) * 8)
  bus_functions-Rising zero device = omega arith
  bus_functions-Rising (suc n) device =
      let mid : device * 8 + 8 ≡ suc device * 8 = omega arith in
      let high : (device + suc n) * 8 ≡ (suc device + n) * 8 = omega arith in
      Rising-append (device * 8) (suc device * 8) _ (device_functions H s0 cfg 0 device)
        (bus_functions H s0 cfg n 0 (suc device)) (rw (sym mid) (device_functions-Rising device))
        (rw high (bus_functions-Rising n (suc device)))

  -- what the scan lists answers

  Answered : Bdf → Type 0
  Answered f = cfg f 0 % 2 ^ 16 ≢ 65535

  differs : (g : Bdf) → present H s0 cfg g ≡ true → Answered g
  unfolding Answered
  differs g h = ==→ne (cfg g 0 % 2 ^ 16) 65535 (elim (Bool-cases (cfg g 0 % 2 ^ 16 == 65535)) [
    | inl e ↦ never_both (present H s0 cfg g) h (rw e refl)
    | inr e ↦ e
  ])

  if_present_sound : (f g : Bdf) → Memᴰ f (if_present H s0 cfg g) → (f ≡ g) × Answered g
  unfolding Answered
  if_present_sound f g m = let h = Mem-if (present H s0 cfg g) m in (Mem-one h.1, differs g h.0)

  if_present_complete : (f : Bdf) → Answered f → Memᴰ f (if_present H s0 cfg f)
  unfolding Answered
  if_present_complete f h = rw (ne→== (cfg f 0 % 2 ^ 16) 65535 h) (Memᴰ.head refl)

  functions_sound :
      (n device function : ℕ) (f : Bdf)
      → Memᴰ f (functions H s0 cfg n 0 device function)
      → (k : ℕ) × ((function ≤ k) × ((k < function + n) × ((f ≡ bdf_of 0 device k) × Answered f)))
  functions_sound zero device function f m = absurd (Memᴰ.not-nil m)
  functions_sound (suc n) device function f m =
      elim (Memᴰ.append_cases (if_present H s0 cfg (bdf_of 0 device function)) m) [
        | inl here ↦
            let h = if_present_sound f (bdf_of 0 device function) here in
            (function, (omega arith, (omega arith, (h.0, subst Answered (sym h.0) h.1))))
        | inr there ↦
            let (k, (low, (high, rest))) = functions_sound n device (suc function) f there in
            (k, (omega (arith, low), (omega (arith, high), rest)))
      ]

  functions_complete :
      (n device function i : ℕ)
      → i < n
      → Answered (bdf_of 0 device (function + i))
      → Memᴰ (bdf_of 0 device (function + i)) (functions H s0 cfg n 0 device function)
  functions_complete zero device function i h a = absurd (omega arith)
  functions_complete (suc n) device function zero h a =
      let here : function + 0 ≡ function = omega arith in
      Memᴰ.append_left (functions H s0 cfg n 0 device (suc function)) (
        rw here (
          if_present_complete (bdf_of 0 device function)
            (subst (λ (k : ℕ). Answered (bdf_of 0 device k)) here a)))
  functions_complete (suc n) device function (suc i) h a =
      let there : function + suc i ≡ suc function + i = omega arith in
      Memᴰ.append_right (if_present H s0 cfg (bdf_of 0 device function)) (
        rw there (
          functions_complete n device (suc function) i (omega arith)
            (subst (λ (k : ℕ). Answered (bdf_of 0 device k)) there a)))

  device_functions_sound :
      (device : ℕ) (f : Bdf)
      → device < 32
      → Memᴰ f (device_functions H s0 cfg 0 device)
      → IsAnswering f
  unfolding Answered
  device_functions_sound device f hd m =
      let first = bdf_of 0 device 0 in
      let h = Mem-if (present H s0 cfg first) m in
      elim (Memᴰ.cases_cons h.1) [
        | inl e ↦ subst IsAnswering (sym e) (record {
          on_bus = refl;
          valid = (hd, omega arith);
          answers_itself = differs first h.0;
          behind_first = inl refl;
        })
        | inr rest ↦
            let more = Mem-if (cfg first 12 / 2 ^ 23 % 2 == 1) rest in
            let (k, (low, (high, (e, a)))) = functions_sound 7 device 1 f more.1 in
            subst IsAnswering (sym e) (record {
              on_bus = refl;
              valid = (hd, omega (arith, high));
              answers_itself = subst Answered e a;
              behind_first = inr (differs first h.0, ==→eq (cfg first 12 / 2 ^ 23 % 2) 1 more.0);
            })
      ]

  pub bus_functions_sound :
      (n device : ℕ) (f : Bdf)
      → device + n ≤ 32
      → Memᴰ f (bus_functions H s0 cfg n 0 device)
      → IsAnswering f
  bus_functions_sound zero device f h m = absurd (Memᴰ.not-nil m)
  bus_functions_sound (suc n) device f h m =
      elim (Memᴰ.append_cases (device_functions H s0 cfg 0 device) m) [
        | inl here ↦ device_functions_sound device f (omega arith) here
        | inr there ↦ bus_functions_sound n (suc device) f (omega arith) there
      ]

  device_functions_complete :
      (f : Bdf) → IsAnswering f → Memᴰ f (device_functions H s0 cfg 0 f.device)
  unfolding Answered
  device_functions_complete f a =
      let first = bdf_of 0 f.device 0 in
      let rest = if cfg first 12 / 2 ^ 23 % 2 == 1 then functions H s0 cfg 7 0 f.device 1 else [] in
      let here : f ≡ bdf_of 0 f.device f.function =
        ap (λ (b : ℕ). bdf_of b f.device f.function) a.on_bus in
      let shown = λ (p : Answered first). ne→== (cfg first 0 % 2 ^ 16) 65535 p in
      let as_first : f.function ≡ 0 → Memᴰ f (device_functions H s0 cfg 0 f.device) = λ zeroth.
        let e = here ∙ ap (λ (k : ℕ). bdf_of 0 f.device k) zeroth in
        let t : present H s0 cfg first ≡ true =
          rw (shown (subst Answered e a.answers_itself)) refl in
        Mem-then (present H s0 cfg first) t (Memᴰ.head e) in
      elim a.behind_first [
        | inl zeroth ↦ as_first zeroth
        | inr (p, multi) ↦ elim (eq_or_ne f.function 0) [
          | inl zeroth ↦ as_first zeroth
          | inr ne ↦
              let t : present H s0 cfg first ≡ true = rw (shown p) refl in
              let k : 1 + (f.function - 1) ≡ f.function = omega arith in
              let at = here ∙ ap (λ (j : ℕ). bdf_of 0 f.device j) (sym k) in
              let listed =
                functions_complete 7 f.device 1 (f.function - 1) (omega (arith, a.valid.1))
                  (subst Answered at a.answers_itself) in
              Mem-then (present H s0 cfg first) t (
                Memᴰ.tail (
                  Mem-then (cfg first 12 / 2 ^ 23 % 2 == 1) (eq→== _ _ multi)
                    (Memᴰ.cast at listed)))
        ]
      ]

  pub bus_functions_complete :
      (n device : ℕ) (f : Bdf)
      → IsAnswering f
      → device ≤ f.device
      → f.device < device + n
      → Memᴰ f (bus_functions H s0 cfg n 0 device)
  bus_functions_complete zero device f a low high = absurd (omega arith)
  bus_functions_complete (suc n) device f a low high = elim (eq_or_ne device f.device) [
    | inl e ↦
        Memᴰ.append_left (bus_functions H s0 cfg n 0 (suc device))
          (rw e (device_functions_complete f a))
    | inr ne ↦
        Memᴰ.append_right (device_functions H s0 cfg 0 device)
          (bus_functions_complete n (suc device) f a (omega arith) (omega arith))
  ]
