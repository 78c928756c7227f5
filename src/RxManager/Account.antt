-- ===== src/RxManager/Account.antt =====
-- The books of the manager: which bytes have come, which of them were reported, which were kept.
use mathlib.Core.List.{append_assoc, append-nil}
use cortex_m3_embedded_debug.Base.{
  ℕ, zero, suc, ◌+◌, ◌-◌, ◌≤◌, ◌≡◌, refl, ap, ap₂, sym, ◌∙◌, List, [], ◌∷◌, ◌++◌, length,
  length-append, take, u32, sub32, arith,
}

-- `xs` is `ys` with some elements left out.
pub data Part : List ℕ → List ℕ → Type 0 where
  none_left : Part [] []
  same : (x : ℕ) (xs ys : List ℕ) → Part xs ys → Part (x ∷ xs) (x ∷ ys)
  left_out : (y : ℕ) (xs ys : List ℕ) → Part xs ys → Part xs (y ∷ ys)

Part-take : (n : ℕ) (xs : List ℕ) → Part (take n xs) xs
Part-take zero [] = none_left
Part-take zero (x ∷ xs) = left_out x [] xs (Part-take zero xs)
Part-take (suc n) [] = none_left
Part-take (suc n) (x ∷ xs) = same x (take n xs) xs (Part-take n xs)

Part-append : {a b c d : List ℕ} → Part a b → Part c d → Part (a ++ c) (b ++ d)
Part-append none_left q = q
Part-append {c = c} {d = d} (same x xs ys p) q = same x (xs ++ c) (ys ++ d) (Part-append p q)
Part-append {c = c} {d = d} (left_out y xs ys p) q =
    left_out y (xs ++ c) (ys ++ d) (Part-append p q)

-- `line` came in, `done` of it was reported and `pending` was not; of `done`, `kept` was copied to the
-- ring, and `out` has been read from there. The numbers are the counters.
pub record Account (line out done pending kept : List ℕ)
    (received buffered dropped read hardware : ℕ) : Type 0 where
  pub split : line ≡ done ++ pending
  pub received_all : received ≡ u32 (length done)
  pub buffered_kept : buffered ≡ u32 (length kept)
  pub dropped_rest : dropped ≡ u32 (length done - length kept)
  pub read_out : read ≡ u32 (length out)
  pub counted : hardware ≡ u32 (length line)
  pub at_most : length kept ≤ length done
  pub in_order : Part kept done
  pub exact : length kept ≡ length done → kept ≡ done

pub take_all : (n : ℕ) (xs : List ℕ) → n ≡ length xs → take n xs ≡ xs
take_all zero [] h = refl
take_all zero (x ∷ xs) h = absurd (omega arith)
take_all (suc n) [] h = absurd (omega arith)
take_all (suc n) (x ∷ xs) h = ap (λ r. x ∷ r) (take_all n xs (omega arith))

pub length-take : (n : ℕ) (xs : List ℕ) → n ≤ length xs → length (take n xs) ≡ n
length-take zero xs h = refl
length-take (suc n) [] h = absurd (omega arith)
length-take (suc n) (x ∷ xs) h = ap suc (length-take n xs (omega arith))

module _ {line out done pending kept : List ℕ} {received buffered dropped read hardware : ℕ}
    (a : Account line out done pending kept received buffered dropped read hardware) where
  -- one more byte
  pub Account-byte :
      (c : ℕ)
      → Account
          (line ++ (c ∷ []))
          out
          done
          (pending ++ (c ∷ []))
          kept
          received
          buffered
          dropped
          read
          (u32 (hardware + 1))
  Account-byte c = record {
    split = ap (λ l. l ++ (c ∷ [])) a.split ∙ append_assoc done pending (c ∷ []);
    received_all = a.received_all;
    buffered_kept = a.buffered_kept;
    dropped_rest = a.dropped_rest;
    read_out = a.read_out;
    counted = omega (arith, a.counted, length-append {0} line (c ∷ []));
    at_most = a.at_most;
    in_order = a.in_order;
    exact = a.exact;
  }

  -- what is pending is reported, and `n` bytes of it are copied
  pub Account-report :
      (n : ℕ)
      → n ≤ length pending
      → length pending ≤ 8
      → Account line out
          (done ++ pending)
          []
          (kept ++ take n pending)
          (u32 (received + length pending))
          (u32 (buffered + n))
          (u32 (dropped + sub32 (length pending) n))
          read
          hardware
  Account-report n some_left fits = record {
    split = a.split ∙ sym (append-nil (done ++ pending));
    received_all = omega (arith, a.received_all, all);
    buffered_kept = omega (arith, a.buffered_kept, copied);
    dropped_rest = omega (arith, a.dropped_rest, a.at_most, all, copied);
    read_out = a.read_out;
    counted = a.counted;
    at_most = omega (arith, a.at_most, all, copied);
    in_order = Part-append a.in_order (Part-take n pending);
    exact = λ e.
        ap₂ ◌++◌ (a.exact (omega (arith, a.at_most, all, copied, e)))
          (take_all n pending (omega (arith, a.at_most, all, copied, e)));
  }
    where
      all : length (done ++ pending) ≡ length done + length pending
      all = length-append done pending

      copied : length (kept ++ take n pending) ≡ length kept + n
      copied =
          omega (arith, length-append {0} kept (take n pending), length-take n pending some_left)

  -- some of the ring is read
  pub Account-read :
      (bytes : List ℕ)
      → Account line
          (out ++ bytes)
          done
          pending
          kept
          received
          buffered
          dropped
          (u32 (read + length bytes))
          hardware
  Account-read bytes = record {
    split = a.split;
    received_all = a.received_all;
    buffered_kept = a.buffered_kept;
    dropped_rest = a.dropped_rest;
    read_out = omega (arith, a.read_out, length-append {0} out bytes);
    counted = a.counted;
    at_most = a.at_most;
    in_order = a.in_order;
    exact = a.exact;
  }
