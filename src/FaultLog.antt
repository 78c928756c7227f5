-- ===== src/FaultLog.antt =====
-- labs/lab24_eeprom_fault_logger_zephyr/src/fault_log.c: a ring of eight EEPROM slots, each a body
-- with a CRC and a commit token that is written last. The driver is the interface of Zephyr.Eeprom.
pub mod Codec
pub mod View
pub mod Loops
pub mod Found
pub mod Storing
pub mod Steps
pub mod Contents
pub mod Append
pub mod Init
pub mod Recovery
pub mod Reliable
pub mod Latest
pub mod Restart
mod Tests
use cortex_m3_embedded_debug.Base.{
  ℕ, zero, suc, ◌+◌, ◌*◌, ◌%◌, Bool, true, false, not, ◌&&◌, ◌||◌, Option, none, some, List, [],
  ◌∷◌, ◌++◌, bit_and, bit_or, ltb, leb, ◌==◌, ◌!=◌, if◌then◌else◌, take, drop, replicate, set,
  get_or, length, bytes_eq, u8, u32, sub32, shl, Rc, fail, ok, is_ok, einval, eio, enodev, enospc,
  eilseq, enoent,
}
use cortex_m3_embedded_debug.Base.Exec.{
  Void, Outcome, value, returned, Exec, ◌>>=◌, ◌>>◌, pure, guard,
}
use cortex_m3_embedded_debug.Zephyr.Eeprom.{Eeprom}
use Codec.{load_le32, store_le32, crc32}

abbrev pub slot_count : ℕ
slot_count = 8

abbrev pub slot_size : ℕ
slot_size = 32

abbrev pub log_bytes : ℕ
log_bytes = slot_count * slot_size

abbrev pub body_size : ℕ
body_size = 16

abbrev pub commit_offset : ℕ
commit_offset = 24

abbrev pub no_slot : ℕ
no_slot = 255

-- "FLT1"
abbrev pub magic : List ℕ
magic = 0x46 ∷ 0x4c ∷ 0x54 ∷ 0x31 ∷ []

abbrev pub committed : List ℕ
committed = 0xa5 ∷ 0x5a ∷ 0xc3 ∷ 0x3c ∷ 0x96 ∷ 0x69 ∷ 0xf0 ∷ 0x0f ∷ []

abbrev pub invalid : List ℕ
invalid = 0 ∷ 0 ∷ 0 ∷ 0 ∷ 0 ∷ 0 ∷ 0 ∷ 0 ∷ []

-- `struct fault_log`; `dev` says whether the pointer is set, the one device being the state.
pub record FaultLog : Type 0 where
  pub dev : Bool
  pub sequence : ℕ
  pub newest_slot : ℕ
  pub initialized : Bool

abbrev pub slot_offset : ℕ → ℕ
slot_offset slot = slot * slot_size

pub record_valid : List ℕ → Bool
record_valid bytes =
    bytes_eq (take 8 (drop commit_offset bytes)) committed
    && (bytes_eq (take 4 bytes) magic && (load_le32 (drop 12 bytes) == crc32 (take 12 bytes)))

abbrev pub newer : ℕ → ℕ → Bool
newer a b = let delta = sub32 a b in delta != 0 && ltb delta 0x80000000

-- what the first loop of `fault_log_init` has found
pub record Scan : Type 0 where
  pub sequence : ℕ
  pub newest_slot : ℕ
  pub sequences : List ℕ
  pub valid_mask : ℕ

abbrev pub scan_start : Scan
scan_start = record {
  sequence = 0;
  newest_slot = no_slot;
  sequences = replicate slot_count 0;
  valid_mask = 0;
}

-- the loop's body for a valid record of sequence number `seq`
pub note : ℕ → ℕ → Scan → Scan
note slot seq s =
    let t = record s {
      sequences = set s.sequences slot seq;
      valid_mask = bit_or s.valid_mask (u8 (shl 1 slot));
    } in
    if (s.newest_slot == no_slot) || newer seq s.sequence
    then record t { sequence = seq; newest_slot = slot }
    else t

pub visit : ℕ → List ℕ → Scan → Scan
visit slot bytes s = if record_valid bytes then note slot (load_le32 (drop 4 bytes)) s else s

-- one round of the second loop
pub age_ok : ℕ → Scan → Bool
age_ok slot s =
    let age = sub32 s.sequence (get_or s.sequences slot 0) in
    if (bit_and s.valid_mask (u8 (shl 1 slot)) != 0) && (slot != s.newest_slot)
    then age != 0 && ltb age slot_count
    else true

-- its `n` rounds from `slot` on
pub ages_ok : ℕ → ℕ → Scan → Bool
ages_ok zero slot s = true
ages_ok (suc n) slot s = age_ok slot s && ages_ok n (slot + 1) s

-- the sixteen bytes of the body
unfoldable pub make_body : ℕ → ℕ → List ℕ
make_body sequence code =
    let head = magic ++ (store_le32 sequence ++ store_le32 code) in head ++ store_le32 (crc32 head)

abbrev pub target_of : FaultLog → ℕ
target_of log = if log.newest_slot == no_slot then 0 else u8 ((log.newest_slot + 1) % slot_count)

abbrev pub next_sequence : FaultLog → ℕ
next_sequence log = if log.newest_slot == no_slot then 1 else u32 (log.sequence + 1)

module _ (E : Eeprom) where
  open E use {Dev, is_ready, get_size, read, write}

  -- `rc = eeprom_read(...); if (rc != 0) return rc;`
  abbrev pub read_or_return : ℕ → ℕ → Exec Dev (List ℕ)
  read_or_return off n d =
      let (rc, bytes, d') = read d off n in
      if is_ok rc then (value bytes, d') else (returned rc, d')

  abbrev pub write_or_return : ℕ → List ℕ → Exec Dev Void
  write_or_return off bytes d =
      let (rc, d') = write d off bytes in if is_ok rc then (value tt, d') else (returned rc, d')

  pub usable : Option FaultLog → Dev → Rc
  usable none d = fail einval
  usable (some log) d =
      if not log.dev
      then fail einval
      else if not log.initialized
      then fail eio
      else if (log.newest_slot != no_slot) && leb slot_count log.newest_slot
      then fail einval
      else if is_ready d
      then ok
      else fail enodev

  -- the first loop: `n` slots from `slot` on
  pub scan : ℕ → ℕ → Scan → Exec Dev Scan
  scan zero slot s = pure s
  scan (suc n) slot s = read_or_return (slot_offset slot) slot_size >>= λ bytes.
      scan n (slot + 1) (visit slot bytes s)

  pub recover : Bool → Exec Dev Scan
  recover has_dev = do
    guard has_dev einval
    (λ d. guard (is_ready d) enodev d)
    (λ d. guard (leb log_bytes (get_size d)) enospc d)
    s ← scan slot_count 0 scan_start
    guard (ages_ok slot_count 0 s) eilseq
    pure s

  -- A failed initialisation leaves the cleared log.
  pub recovered_log : Outcome Scan × Dev → Rc × Option FaultLog × Dev
  recovered_log (value s, d) = (
    ok,
    some (record {
      dev = true;
      sequence = s.sequence;
      newest_slot = s.newest_slot;
      initialized = true;
    }),
    d,
  )
  recovered_log (returned rc, d) = (
    rc,
    some (record { dev = false; sequence = 0; newest_slot = no_slot; initialized = false }),
    d,
  )

  -- `fault_log_init(log, dev)`: NULL pointers are `none` and `false`.
  pub init : Option FaultLog → Bool → Dev → Rc × Option FaultLog × Dev
  unfolding recovered_log
  init none has_dev d = (fail einval, none, d)
  init (some log) has_dev d = recovered_log (recover has_dev d)

  -- 1. Invalidate the old token.
  pub invalidate : ℕ → Exec Dev Void
  invalidate base = do
    write_or_return (base + commit_offset) invalid
    check ← read_or_return (base + commit_offset) (length invalid)
    guard (bytes_eq check invalid) eio

  -- 2. Program the body.
  pub program : ℕ → List ℕ → Exec Dev Void
  program base body = do
    write_or_return base body
    check ← read_or_return base body_size
    guard (bytes_eq check body) eio

  -- 3. Publish.
  pub publish : ℕ → List ℕ → Exec Dev Void
  publish base body = do
    write_or_return (base + commit_offset) committed
    check ← read_or_return base slot_size
    guard (record_valid check && bytes_eq (take body_size check) body) eio

  pub store : ℕ → List ℕ → Exec Dev Void
  store base body = do invalidate base; program base body; publish base body

  -- Any error once the store has begun leaves the log uninitialised.
  pub appended_log : FaultLog → Outcome Void × Dev → Rc × Option FaultLog × Dev
  appended_log log (value _, d) = (
    ok,
    some (record log {
      sequence = next_sequence log;
      newest_slot = target_of log;
      initialized = true;
    }),
    d,
  )
  appended_log log (returned rc, d) = (rc, some (record log { initialized = false }), d)

  append_usable : Rc → Option FaultLog → ℕ → Dev → Rc × Option FaultLog × Dev
  unfolding appended_log
  append_usable rc none code d = (rc, none, d)
  append_usable rc (some log) code d =
      if is_ok rc
      then appended_log log
          (store (slot_offset (target_of log)) (make_body (next_sequence log) code) d)
      else (rc, some log, d)

  -- `fault_log_append`
  pub append : Option FaultLog → ℕ → Dev → Rc × Option FaultLog × Dev
  unfolding append_usable
  append log code d = append_usable (usable log d) log code d

  -- The number is what goes through `fault_code`.
  pub latest_read : FaultLog → Outcome (List ℕ) × Dev → Rc × Option ℕ × Option FaultLog × Dev
  latest_read log (value bytes, d) =
      if not (record_valid bytes) || (load_le32 (drop 4 bytes) != log.sequence)
      then (fail eilseq, none, some (record log { initialized = false }), d)
      else (ok, some (load_le32 (drop 8 bytes)), some log, d)
  latest_read log (returned rc, d) = (rc, none, some log, d)

  pub latest_usable : Rc → Option FaultLog → Dev → Rc × Option ℕ × Option FaultLog × Dev
  unfolding latest_read
  latest_usable rc none d = (rc, none, none, d)
  latest_usable rc (some log) d =
      if is_ok rc
      then if log.newest_slot == no_slot
        then (fail enoent, none, some log, d)
        else latest_read log (read_or_return (slot_offset log.newest_slot) slot_size d)
      else (rc, none, some log, d)

  -- `fault_log_latest(log, fault_code)`: `has_out` is `fault_code != NULL`.
  pub latest : Bool → Option FaultLog → Dev → Rc × Option ℕ × Option FaultLog × Dev
  unfolding latest_usable
  latest has_out log d =
      if has_out then latest_usable (usable log d) log d else (fail einval, none, log, d)
