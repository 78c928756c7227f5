-- ===== src/FaultLog/Tests.antt =====
-- Runs of the fault log over the concrete EEPROM, and the theorems at such runs.
use cortex_m3_embedded_debug.Base.{
  ℕ, ◌≡◌, refl, inl, true, Option, some, none, ◌∷◌, [], Rc, ok, fail, einval, arith,
}
use cortex_m3_embedded_debug.Zephyr.Memory.{Memory, memory, byte_at, steady, cell_byte}
use cortex_m3_embedded_debug.FaultLog.{
  FaultLog, no_slot, init, append, latest, recover, scan, visit, record_valid, ages_ok, age_ok,
  usable, store, invalidate, program, publish, appended_log, make_body, latest_usable, latest_read,
}
use cortex_m3_embedded_debug.FaultLog.View.{valid_at}
use cortex_m3_embedded_debug.FaultLog.Contents.{Agrees}
use cortex_m3_embedded_debug.FaultLog.Append.{Appended, append_lem}
use cortex_m3_embedded_debug.FaultLog.Found.{IsFound}
use cortex_m3_embedded_debug.FaultLog.Recovery.{
  Initialised, Survives, Restored, init_sound, crash_recovery,
}
use cortex_m3_embedded_debug.FaultLog.Reliable.{Reliable}
use cortex_m3_embedded_debug.FaultLog.Latest.{append_then_latest}
use cortex_m3_embedded_debug.FaultLog.Restart.{init_succeeds}
use cortex_m3_embedded_debug.FaultLog.Codec.Laws.{load_le32-store_le32}
use cortex_m3_embedded_debug.FaultLog.Codec.{crc32, store_le32, load_le32}

abbrev blank : Memory
blank = record { contents = λ a. 0xff; budget = none }

abbrev fresh_log : FaultLog
fresh_log = record { dev = true; sequence = 0; newest_slot = no_slot; initialized = true }

crc_check : crc32 (0x31 ∷ 0x32 ∷ 0x33 ∷ 0x34 ∷ 0x35 ∷ 0x36 ∷ 0x37 ∷ 0x38 ∷ 0x39 ∷ []) ≡ 0xcbf43926
unfolding crc32
crc_check = refl

init-blank : (init memory none true blank).0 ≡ fail einval
unfolding init
init-blank = refl

init_fresh : (init memory (some fresh_log) true blank).1 ≡ some fresh_log
unfolding init recover scan visit record_valid ages_ok age_ok
init_fresh = refl

-- Three appends, and what the log says then.
abbrev append_three : Rc × Option FaultLog × Memory
append_three =
    let (_, l₁, m₁) = append memory (some fresh_log) 11 blank in
    let (_, l₂, m₂) = append memory l₁ 22 m₁ in append memory l₂ 33 m₂

latest_of_three :
    let (rc, log, m) = append_three in
    let (rc', out, _, _) = latest memory true log m in (rc ≡ ok) × (rc' ≡ ok) × (out ≡ some 33)
unfolding append usable store invalidate program publish appended_log make_body record_valid latest
    latest_usable latest_read store_le32 load_le32 crc32
latest_of_three = (refl, refl, refl)

blank-Agrees : Agrees (byte_at blank) fresh_log
unfolding valid_at record_valid
blank-Agrees = inl (refl, λ s lt. refl)

append_lem_example :
    Appended memory fresh_log 0x1234 blank (append memory (some fresh_log) 0x1234 blank)
append_lem_example = append_lem memory fresh_log 0x1234 blank (omega arith) blank-Agrees

-- the power goes at the fourth call, the verification of the body
abbrev failing : Memory
failing = record blank { budget = some 3 }

crash_recovery_example :
    let (rc, log', m) = append memory (some fresh_log) 0x1234 failing in
    Initialised memory
      (byte_at m)
      (init memory (some fresh_log) true m)
      (Survives memory fresh_log 0x1234 (byte_at m))
crash_recovery_example =
    crash_recovery memory fresh_log fresh_log 0x1234 failing (omega arith) failing-Agrees
  where
    failing-Agrees : Agrees (byte_at failing) fresh_log
    failing-Agrees = blank-Agrees

init_sound_example :
    Initialised memory
      (byte_at blank)
      (init memory (some fresh_log) true blank)
      (λ l. IsFound (byte_at blank) l.newest_slot l.sequence)
init_sound_example = init_sound memory fresh_log true blank

steady-Reliable : Reliable steady
steady-Reliable = record {
  ready = λ c. refl;
  room = λ c. omega arith;
  reads = λ c off n. refl;
  writes = λ c off bs. refl;
}

abbrev erased : ℕ → ℕ
erased a = 0xff

erased-Agrees : Agrees (cell_byte erased) fresh_log
unfolding valid_at record_valid
erased-Agrees = inl (refl, λ s lt. refl)

append_then_latest_example :
    let (rc, log', c) = append steady (some fresh_log) 0x1234 erased in
    let (rc', out, log'', c') = latest steady true log' c in
    (rc ≡ ok) × (rc' ≡ ok) × (out ≡ some 0x1234)
append_then_latest_example =
    append_then_latest steady steady-Reliable fresh_log 0x1234 erased (omega arith) erased-Agrees
      refl refl

init_succeeds_example :
    ((init steady (some fresh_log) true erased).0 ≡ ok)
    × Initialised steady
        (cell_byte erased)
        (init steady (some fresh_log) true erased)
        (Restored steady (cell_byte erased) no_slot 0)
init_succeeds_example =
    init_succeeds steady steady-Reliable fresh_log erased no_slot 0 erased-Agrees

load_le32-store_le32_example : load_le32 (store_le32 0xdeadbeef) ≡ 0xdeadbeef
load_le32-store_le32_example = load_le32-store_le32 0xdeadbeef (omega arith)
