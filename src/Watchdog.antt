-- ===== src/Watchdog.antt =====
-- labs/lab25_watchdog_heartbeat_zephyr/src/watchdog_supervisor.c: a watchdog that is fed only after
-- both tasks have reported.
pub mod History
mod Tests
use cortex_m3_embedded_debug.Base.{
  ℕ, zero, suc, Bool, true, false, not, ◌&&◌, ◌||◌, Option, some, none, List, [], ◌∷◌, bit_or, leb,
  ◌==◌, ◌!=◌, if◌then◌else◌, u8, shl, Rc, nonneg, fail, ok, is_ok, einval, ewouldblock, ealready,
  enodev, eio,
}

pub data State : Type 0 where
  uninitialized running faulted : State

-- `struct watchdog_ctx`: `dev` says whether the pointer is set, and `none` is the channel -1.
pub record Ctx : Type 0 where
  pub dev : Bool
  pub channel_id : Option ℕ
  pub reported_mask : ℕ
  pub state : State

abbrev pub task_count : ℕ
task_count = 2

abbrev pub required_mask : ℕ
required_mask = 3

abbrev pub service_waiting : Rc
service_waiting = nonneg 1

-- What the kernel and the watchdog driver answer during one call. The critical section between
-- `k_mutex_lock` and `k_mutex_unlock` runs as one step.
pub record Env : Type 0 where
  pub is_in_isr : Bool
  pub is_ready : Bool
  pub mutex_init : Rc
  pub mutex_lock : Rc
  pub install_timeout : Rc
  pub setup : Rc
  pub feed : Rc

abbrev is_uninitialized : State → Bool
is_uninitialized uninitialized = true
is_uninitialized _ = false

abbrev is_running : State → Bool
is_running running = true
is_running _ = false

-- from `wdt_install_timeout` on
install : Env → Ctx → Rc × Ctx
install env ctx = elim env.install_timeout [
  | fail e ↦ (fail e, ctx)
  | nonneg channel ↦
      let opened = record ctx { channel_id = some channel } in
      if is_ok env.setup then (ok, record opened { state = running }) else (env.setup, opened)
]

-- `watchdog_init(ctx, dev)`: NULL pointers are `none` and `false`.
unfoldable pub init : Env → Option Ctx → Bool → Rc × Option Ctx
unfolding install
init env none has_dev = (fail einval, none)
init env (some ctx) has_dev =
    if not has_dev
    then (fail einval, some ctx)
    else if env.is_in_isr
    then (fail ewouldblock, some ctx)
    else if not (is_uninitialized ctx.state)
    then (fail ealready, some ctx)
    else if not env.is_ready
    then (fail enodev, some ctx)
    else if not (is_ok env.mutex_init)
    then (env.mutex_init, some ctx)
    else let (rc, ctx') =
        install env
          (record { dev = true; channel_id = none; reported_mask = 0; state = faulted }) in
      (rc, some ctx')

-- `watchdog_report(ctx, task_id)`
unfoldable pub report : Env → Option Ctx → ℕ → Rc × Option Ctx
report env none task_id = (fail einval, none)
report env (some ctx) task_id =
    if not ctx.dev || leb task_count task_id
    then (fail einval, some ctx)
    else if env.is_in_isr
    then (fail ewouldblock, some ctx)
    else if not (is_ok env.mutex_lock)
    then (env.mutex_lock, some ctx)
    else if not (is_running ctx.state)
    then (fail eio, some ctx)
    else (ok, some (record ctx { reported_mask = bit_or ctx.reported_mask (u8 (shl 1 task_id)) }))

-- `watchdog_service(ctx)`, and whether it has called `wdt_feed`
unfoldable pub service : Env → Option Ctx → Rc × Option Ctx × Bool
service env none = (fail einval, none, false)
service env (some ctx) =
    if not ctx.dev
    then (fail einval, some ctx, false)
    else if env.is_in_isr
    then (fail ewouldblock, some ctx, false)
    else if not (is_ok env.mutex_lock)
    then (env.mutex_lock, some ctx, false)
    else if not (is_running ctx.state)
    then (fail eio, some ctx, false)
    else if ctx.reported_mask != required_mask
    then (service_waiting, some ctx, false)
    else if is_ok env.feed
    then (env.feed, some (record ctx { reported_mask = 0 }), true)
    else (env.feed, some (record ctx { state = faulted }), true)
