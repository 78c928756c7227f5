-- ===== src/Watchdog/Tests.antt =====
-- A life of the watchdog supervisor, and the theorems at it.
use cortex_m3_embedded_debug.Base.{◌≡◌, refl, true, false, some, List, [], ◌∷◌, fail, ok, eio}
use cortex_m3_embedded_debug.Watchdog.{
  Env, Ctx, uninitialized, faulted, init, install, report, service,
}
use cortex_m3_embedded_debug.Watchdog.History.{
  Op, start, heartbeat, serve, started, reported, fed, feed_failed, World, step, run,
  reported_since, FedSafely,
}
use cortex_m3_embedded_debug.Watchdog.History.Safety.{
  untouched, fed_safely, faulted_absorbs, serve_feeds, Served, is_due,
}

abbrev calm : Env
calm = record {
  is_in_isr = false;
  is_ready = true;
  mutex_init = ok;
  mutex_lock = ok;
  install_timeout = ok;
  setup = ok;
  feed = ok;
}

abbrev zeroed : Ctx
zeroed = record { dev = false; channel_id = some 0; reported_mask = 0; state = uninitialized }

abbrev life : List Op
life =
    start calm true
    ∷ serve calm
    ∷ heartbeat calm 1
    ∷ heartbeat calm 0
    ∷ serve calm
    ∷ heartbeat calm 0
    ∷ serve calm
    ∷ heartbeat calm 1
    ∷ serve (record calm { feed = fail eio })
    ∷ heartbeat calm 0
    ∷ serve calm
    ∷ []

life_history :
    (run (untouched zeroed) life).history
    ≡ feed_failed ∷ reported 1 ∷ reported 0 ∷ fed ∷ reported 0 ∷ reported 1 ∷ started ∷ []
unfolding run step init report service
life_history = refl

fed_safely_example : FedSafely (run (untouched zeroed) life).history
fed_safely_example = fed_safely zeroed life refl

abbrev dead : World
dead = record {
  ctx = record { dev = true; channel_id = some 0; reported_mask = 3; state = faulted };
  history = [];
}

faulted_absorbs_example : run dead life ≡ dead
faulted_absorbs_example = faulted_absorbs dead life refl

abbrev both_reported : List Op
both_reported = start calm true ∷ heartbeat calm 1 ∷ heartbeat calm 0 ∷ []

-- With both reports the service feeds.
due_lem : is_due (run (untouched zeroed) both_reported) calm ≡ true
unfolding run step init install report reported_since
due_lem = refl

serve_feeds_example :
    let w = run (untouched zeroed) both_reported in Served w calm (service calm (some w.ctx))
serve_feeds_example = serve_feeds zeroed both_reported calm refl
