-- ===== src/Watchdog/History.antt =====
-- Calls of the supervisor in any order, with the answers of kernel and driver chosen freely: when
-- the watchdog is fed, and when never again.
pub mod Safety
use cortex_m3_embedded_debug.Base.{
  ℕ, zero, suc, ◌≡◌, Bool, true, false, ◌&&◌, ◌||◌, Option, some, none, List, [], ◌∷◌, ◌==◌,
  if◌then◌else◌, Rc, is_ok,
}
use cortex_m3_embedded_debug.Watchdog.{
  Env, Ctx, State, uninitialized, running, faulted, init, report, service,
}

-- one call from a task or from main
pub data Op : Type 0 where
  start : Env → Bool → Op
  heartbeat : Env → ℕ → Op
  serve : Env → Op

-- what a call did: a task reported, the watchdog was started or fed, a feed failed
pub data Happened : Type 0 where
  started : Happened
  reported : ℕ → Happened
  fed : Happened
  feed_failed : Happened

-- the supervisor, and what has happened, the latest first
pub record World : Type 0 where
  pub ctx : Ctx
  pub history : List Happened

abbrev pub or_else : Option Ctx → Ctx → Ctx
or_else none ctx = ctx
or_else (some ctx) _ = ctx

unfoldable pub step : World → Op → World
step w (start env has_dev) =
    let (rc, ctx) = init env (some w.ctx) has_dev in
    record {
      ctx = or_else ctx w.ctx;
      history = if is_ok rc then started ∷ w.history else w.history;
    }
step w (heartbeat env id) =
    let (rc, ctx) = report env (some w.ctx) id in
    record {
      ctx = or_else ctx w.ctx;
      history = if is_ok rc then reported id ∷ w.history else w.history;
    }
step w (serve env) =
    let (rc, ctx, fed_now) = service env (some w.ctx) in
    record {
      ctx = or_else ctx w.ctx;
      history = if fed_now then (if is_ok rc then fed else feed_failed) ∷ w.history else w.history;
    }

unfoldable pub run : World → List Op → World
run w [] = w
run w (op ∷ ops) = run (step w op) ops

-- Has task `id` reported since the last feed or the start?
unfoldable pub reported_since : ℕ → List Happened → Bool
reported_since id [] = false
reported_since id (started ∷ h) = false
reported_since id (reported j ∷ h) = (j == id) || reported_since id h
reported_since id (fed ∷ h) = false
reported_since id (feed_failed ∷ h) = false

-- Every call of the driver's feed came after a report of each task since the one before, and
-- nothing is fed after a feed that failed.
abbrev pub failed_before : List Happened → Bool
failed_before [] = false
failed_before (feed_failed ∷ h) = true
failed_before (_ ∷ h) = failed_before h

abbrev pub BothReported : List Happened → Type 0
BothReported h =
    (reported_since 0 h ≡ true) × (reported_since 1 h ≡ true) × (failed_before h ≡ false)

abbrev pub FedSafely : List Happened → Type 0
FedSafely [] = Unit
FedSafely (fed ∷ h) = BothReported h × FedSafely h
FedSafely (feed_failed ∷ h) = BothReported h × FedSafely h
FedSafely (started ∷ h) = FedSafely h
FedSafely (reported j ∷ h) = FedSafely h
