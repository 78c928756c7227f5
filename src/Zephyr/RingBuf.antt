-- ===== src/Zephyr/RingBuf.antt =====
-- The byte mode of the ring buffer of Zephyr (zephyr/sys/ring_buffer.h), as the receive manager uses
-- it, and a list as a concrete one.
use cortex_m3_embedded_debug.Base.{ℕ, ◌-◌, ◌≡◌, refl, List, [], ◌++◌, length, take, drop, min}

-- `put` copies what has room, `get` hands out the oldest bytes.
pub record RingBuf : Type 1 where
  pub Ring : Type 0
  pub init : ℕ → Ring
  pub put : Ring → List ℕ → ℕ × Ring
  pub get : Ring → ℕ → List ℕ × Ring
  pub capacity : Ring → ℕ
  pub contents : Ring → List ℕ
  pub init_capacity : (n : ℕ) → capacity (init n) ≡ n
  pub init_contents : (n : ℕ) → contents (init n) ≡ []
  pub put_count :
      (r : Ring) (bs : List ℕ) → (put r bs).0 ≡ min (length bs) (capacity r - length (contents r))
  pub put_contents :
      (r : Ring) (bs : List ℕ) → contents (put r bs).1 ≡ contents r ++ take (put r bs).0 bs
  pub put_capacity : (r : Ring) (bs : List ℕ) → capacity (put r bs).1 ≡ capacity r
  pub get_bytes : (r : Ring) (n : ℕ) → (get r n).0 ≡ take n (contents r)
  pub get_contents : (r : Ring) (n : ℕ) → contents (get r n).1 ≡ drop n (contents r)
  pub get_capacity : (r : Ring) (n : ℕ) → capacity (get r n).1 ≡ capacity r

-- a capacity and the bytes, oldest first
abbrev pub list_ring : RingBuf
list_ring = record {
  Ring = ℕ × List ℕ;
  init = λ n. (n, []);
  put = λ r bs. let n = min (length bs) (r.0 - length r.1) in (n, (r.0, r.1 ++ take n bs));
  get = λ r n. (take n r.1, (r.0, drop n r.1));
  capacity = λ r. r.0;
  contents = λ r. r.1;
  init_capacity = λ n. refl;
  init_contents = λ n. refl;
  put_count = λ r bs. refl;
  put_contents = λ r bs. refl;
  put_capacity = λ r bs. refl;
  get_bytes = λ r n. refl;
  get_contents = λ r n. refl;
  get_capacity = λ r n. refl;
}
