-- ===== src/Watchdog/History/Safety.antt =====
-- The supervisor feeds the watchdog only on behalf of both tasks.
use cortex_m3_embedded_debug.Base.{
  ℕ, zero, suc, ◌≡◌, ◌<◌, refl, Bool, true, false, ◌&&◌, ◌||◌, some, List, [], ◌∷◌, ◌==◌,
  if◌then◌else◌, Option, Rc, is_ok, not, ◌⊎◌, bit_or, u8, shl, arith,
}
use cortex_m3_embedded_debug.Watchdog.{
  Env, Ctx, uninitialized, is_running, running, faulted, init, report, service,
}
use cortex_m3_embedded_debug.Watchdog.History.{
  Op, start, heartbeat, serve, World, step, run, reported_since, failed_before, FedSafely,
}

abbrev mask_of : Bool → Bool → ℕ
mask_of false false = 0
mask_of true false = 1
mask_of false true = 2
mask_of true true = 3

-- the mask holds one bit for each task that has reported
mask_of-report :
    (a b : Bool) (id : ℕ)
    → id < 2
    → bit_or (mask_of a b) (u8 (shl 1 id)) ≡ mask_of ((id == 0) || a) ((id == 1) || b)
mask_of-report false false zero h = refl
mask_of-report false false (suc zero) h = refl
mask_of-report false false (suc (suc id)) h = absurd (omega arith)
mask_of-report false true zero h = refl
mask_of-report false true (suc zero) h = refl
mask_of-report false true (suc (suc id)) h = absurd (omega arith)
mask_of-report true false zero h = refl
mask_of-report true false (suc zero) h = refl
mask_of-report true false (suc (suc id)) h = absurd (omega arith)
mask_of-report true true zero h = refl
mask_of-report true true (suc zero) h = refl
mask_of-report true true (suc (suc id)) h = absurd (omega arith)

-- While running the mask says who has reported; a supervisor that is not running was never
-- started, or has failed.
pub record Inv (w : World) : Type 0 where
  pub mask :
      w.ctx.state ≡ running
      → (w.ctx.reported_mask ≡ mask_of (reported_since 0 w.history) (reported_since 1 w.history))
        × (failed_before w.history ≡ false)
  pub idle : w.ctx.state ≡ uninitialized → w.history ≡ []
  pub safe : FedSafely w.history

heartbeat-Inv : (w : World) (env : Env) (id : ℕ) → Inv w → Inv (step w (heartbeat env id))
unfolding step report reported_since
heartbeat-Inv w env id i =
    ground (arith, mask_of-report (reported_since 0 w.history) (reported_since 1 w.history) id)

serve-Inv : (w : World) (env : Env) → Inv w → Inv (step w (serve env))
unfolding step service reported_since
serve-Inv w env i = ground arith

start-Inv : (w : World) (env : Env) (has_dev : Bool) → Inv w → Inv (step w (start env has_dev))
unfolding step init reported_since
start-Inv w env has_dev i = ground arith

step-Inv : (w : World) (op : Op) → Inv w → Inv (step w op)
step-Inv w (start env has_dev) i = start-Inv w env has_dev i
step-Inv w (heartbeat env id) i = heartbeat-Inv w env id i
step-Inv w (serve env) i = serve-Inv w env i

pub run-Inv : (w : World) (ops : List Op) → Inv w → Inv (run w ops)
unfolding run
run-Inv w [] i = i
run-Inv w (op ∷ ops) i = run-Inv (step w op) ops (step-Inv w op i)

-- a context that no call has touched
abbrev pub untouched : Ctx → World
untouched ctx = record { ctx = ctx; history = [] }

untouched-Inv : (ctx : Ctx) → ctx.state ≡ uninitialized → Inv (untouched ctx)
untouched-Inv ctx h = record { mask = λ r. ground arith; idle = λ _. refl; safe = tt }

-- Whatever is called, from a context in the uninitialised state, with whatever answers: every feed
-- follows a report of each task since the feed before, and no feed follows a failed one.
pub fed_safely :
    (ctx : Ctx) (ops : List Op)
    → ctx.state ≡ uninitialized
    → FedSafely (run (untouched ctx) ops).history
fed_safely ctx ops h = (run-Inv (untouched ctx) ops (untouched-Inv ctx h)).safe

-- A faulted supervisor stays as it is: no call changes it or feeds the watchdog.
faulted_step : (w : World) (op : Op) → w.ctx.state ≡ faulted → step w op ≡ w
unfolding step init report service
faulted_step w (start env has_dev) h = ground arith
faulted_step w (heartbeat env id) h = ground arith
faulted_step w (serve env) h = ground arith

pub faulted_absorbs : (w : World) (ops : List Op) → w.ctx.state ≡ faulted → run w ops ≡ w
unfolding run
faulted_absorbs w [] h = refl
faulted_absorbs w (op ∷ ops) h = rw (faulted_step w op h) (faulted_absorbs w ops h)

-- a device, the running state, no interrupt, the lock, and a report of each task since the last feed
abbrev pub is_due : World → Env → Bool
is_due w env =
    (w.ctx.dev && is_running w.ctx.state)
    && ((not env.is_in_isr && is_ok env.mutex_lock)
        && (reported_since 0 w.history && reported_since 1 w.history))

abbrev pub fed_context : World → Env → Ctx
fed_context w env =
    if is_ok env.feed
    then record (w.ctx) { reported_mask = 0 }
    else record (w.ctx) { state = faulted }

abbrev pub Served : World → Env → Rc × Option Ctx × Bool → Type 0
Served w env out =
    (out.2 ≡ is_due w env)
    × (((is_due w env ≡ true) × ((out.0 ≡ env.feed) × (out.1 ≡ some (fed_context w env))))
        ⊎ ((is_due w env ≡ false) × (out.1 ≡ some w.ctx)))

service-Served : (w : World) (env : Env) → Inv w → Served w env (service env (some w.ctx))
unfolding service
service-Served w env i = ground (arith, i.mask)

-- After any series of calls on an uninitialised context, watchdog_service, with whatever answers,
-- feeds exactly if the context has a device and is running, the call is outside an interrupt, the
-- lock is taken and each task has reported since the feed before. With the feed the status is that of
-- the driver; the reports are cleared if it succeeded, and the state is faulted if not. Without the
-- feed the context is as it was.
pub serve_feeds :
    (ctx : Ctx) (ops : List Op) (env : Env)
    → ctx.state ≡ uninitialized
    → let w = run (untouched ctx) ops in Served w env (service env (some w.ctx))
serve_feeds ctx ops env h =
    service-Served (run (untouched ctx) ops) env (run-Inv (untouched ctx) ops (untouched-Inv ctx h))
