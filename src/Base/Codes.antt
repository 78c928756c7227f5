-- ===== src/Base/Codes.antt =====
-- The `int` that the Zephyr style functions return: 0 or a count, or a negated errno constant.
-- The code relies on the constants being nonzero and different, never on their values.
use Prim.Native.Nat.{ℕ, zero, suc}
use mathlib.Core.Path.{◌≡◌, refl}
use native.Mathlib.Omega.{arith}
use mathlib.Core.Bool.{Bool, true, false}

pub data Errno : Type 0 where
  eacces ealready ebusy eexist efault einval eio eilseq emsgsize enobufs enodev enoent : Errno
  enospc enotsup ewouldblock : Errno
  other : ℕ → Errno

pub data Rc : Type 0 where
  nonneg : ℕ → Rc
  fail : Errno → Rc

abbrev pub ok : Rc
ok = nonneg 0

-- `rc == 0`
abbrev pub is_ok : Rc → Bool
is_ok (nonneg zero) = true
is_ok (nonneg (suc n)) = false
is_ok (fail e) = false

pub is_ok_lem : (rc : Rc) → is_ok rc ≡ true → rc ≡ ok
is_ok_lem (nonneg zero) h = refl
is_ok_lem (nonneg (suc n)) h = absurd (ground arith)
is_ok_lem (fail e) h = absurd (ground arith)
