-- ===== src/BootLog.antt =====
-- labs/lab23_flash_boot_event_logger_zephyr/src/boot_log.c: records of sixteen bytes, written one
-- after the other into an erased region of the flash.
pub mod Region
pub mod Startup
pub mod Append
pub mod Restart
pub mod ReadBack
mod Tests
use cortex_m3_embedded_debug.Base.{
  ℕ, zero, suc, ◌+◌, ◌-◌, ◌*◌, ◌/◌, ◌%◌, Bool, true, false, not, ◌&&◌, ◌||◌, Option, some, none,
  List, [], ◌∷◌, ◌==◌, ◌!=◌, ltb, leb, if◌then◌else◌, bytes_eq, u32, Rc, ok, fail, is_ok, einval,
  enodev, enotsup, eilseq, enospc, eexist, eio, enoent,
}
use cortex_m3_embedded_debug.Zephyr.Flash.{Flash}

abbrev pub record_size : ℕ
record_size = 16

-- `struct boot_log`. `init` admits no negative base, so the field has none.
pub record BootLog : Type 0 where
  pub dev : Bool
  pub base : ℕ
  pub region_size : ℕ
  pub next_slot : ℕ
  pub erase_value : ℕ
  pub initialized : Bool

-- `off_t`
pub data Offset : Type 0 where
  pos negsuc : ℕ → Offset

unfoldable pub is_erased : List ℕ → ℕ → Bool
is_erased [] erase_value = true
is_erased (x ∷ data') erase_value = if x != erase_value then false else is_erased data' erase_value

-- `index * BOOT_LOG_RECORD_SIZE` wraps as a `size_t` of 32 bits.
unfoldable pub slot_offset : ℕ → ℕ → ℕ
slot_offset base index = base + u32 (index * record_size)

unfoldable pub capacity : ℕ → ℕ
capacity region_size = region_size / record_size

-- after `memset(log, 0, sizeof(*log))`
abbrev pub zeroed : BootLog
zeroed = record {
  dev = false;
  base = 0;
  region_size = 0;
  next_slot = 0;
  erase_value = 0;
  initialized = false;
}

-- the tests of the arguments; `off_max` is the greatest `off_t`
unfoldable pub region_ok : ℕ → ℕ → ℕ → Bool
region_ok off_max base region_size =
    not (ltb region_size record_size || region_size % record_size != 0)
    && not (ltb off_max base || ltb (off_max - base) region_size)

-- the test of the write block
unfoldable pub block_ok : ℕ → ℕ → Bool
block_ok block base = not (block == 0 || record_size % block != 0 || base % block != 0)

module _ (F : Flash) where
  open F use {Dev, is_ready, write_block_size, erase_value, read, write}

  -- The loop over the slots from `index` on: the code to return, and `next_slot`.
  unfoldable pub scan : ℕ → ℕ → Bool → ℕ → ℕ → ℕ → Dev → Rc × ℕ × Dev
  scan zero index found_empty next_slot erased base d = (ok, next_slot, d)
  scan (suc n) index found_empty next_slot erased base d =
      let (rc, data', d') = read d (slot_offset base index) record_size in
      let free = is_erased data' erased in
      let rest =
        scan n (index + 1) (found_empty || free) (if free then next_slot else index + 1) erased base
          d' in
      if not (is_ok rc)
      then (rc, next_slot, d')
      else if not free && found_empty
      then (fail eilseq, next_slot, d')
      else rest

  -- What the loop leaves: the log is initialised when every read succeeded and no gap was found.
  unfoldable pub scanned : BootLog → Rc × ℕ × Dev → Rc × BootLog × Dev
  scanned log (rc, next_slot, d) =
      (rc, record log { next_slot = next_slot; initialized = is_ok rc }, d)

  -- from `flash_get_parameters` on
  unfoldable pub with_parameters : Option ℕ → ℕ → ℕ → Dev → Rc × BootLog × Dev
  unfolding scanned
  with_parameters none base region_size d = (fail enotsup, zeroed, d)
  with_parameters (some erased) base region_size d =
      scanned
        (record {
          dev = true;
          base = base;
          region_size = region_size;
          next_slot = 0;
          erase_value = erased;
          initialized = false;
        })
        (scan (capacity region_size) 0 false 0 erased base d)

  -- `boot_log_init(log, dev, base, region_size)`: NULL pointers are `none` and `false`.
  unfoldable pub init : ℕ → Option BootLog → Bool → Offset → ℕ → Dev → Rc × Option BootLog × Dev
  init off_max none has_dev base region_size d = (fail einval, none, d)
  init off_max (some log) has_dev (negsuc m) region_size d = (fail einval, some zeroed, d)
  init off_max (some log) has_dev (pos base) region_size d =
      let (rc, log', d') = with_parameters (erase_value d) base region_size d in
      if not has_dev || not (region_ok off_max base region_size)
      then (fail einval, some zeroed, d)
      else if not (is_ready d)
      then (fail enodev, some zeroed, d)
      else if not (block_ok (write_block_size d) base)
      then (fail enotsup, some zeroed, d)
      else (rc, some log', d')

  -- from `flash_write` on, with the log marked as not initialised
  unfoldable pub write_record : BootLog → ℕ → List ℕ → Dev → Rc × Option BootLog × Dev
  write_record log offset data' d =
      let (written, d1) = write d offset data' in
      let (rc, check, d2) = read d1 offset record_size in
      if not (is_ok written)
      then (written, some log, d1)
      else if not (is_ok rc)
      then (rc, some log, d2)
      else if not (bytes_eq check data')
      then (fail eio, some log, d2)
      else (ok, some (record log { next_slot = log.next_slot + 1; initialized = true }), d2)

  -- from the read of the slot on
  unfoldable pub append_at : BootLog → ℕ → List ℕ → Dev → Rc × Option BootLog × Dev
  unfolding write_record
  append_at log offset data' d =
      let (rc, check, d1) = read d offset record_size in
      let closed = record log { initialized = false } in
      if not (is_ok rc)
      then (rc, some log, d1)
      else if not (is_erased check log.erase_value)
      then (fail eexist, some closed, d1)
      else write_record closed offset data' d1

  -- `boot_log_append(log, record)`
  unfoldable pub append : Option BootLog → Option (List ℕ) → Dev → Rc × Option BootLog × Dev
  append none data' d = (fail einval, none, d)
  append (some log) none d = (fail einval, some log, d)
  append (some log) (some data') d =
      if not log.initialized || not log.dev
      then (fail einval, some log, d)
      else if not (is_ready d)
      then (fail enodev, some log, d)
      else if is_erased data' log.erase_value
      then (fail einval, some log, d)
      else if leb (capacity log.region_size) log.next_slot
      then (fail enospc, some log, d)
      else append_at log (slot_offset log.base log.next_slot) data' d

  -- `boot_log_read_last(log, out)`; the bytes are what goes through `out`, when it was filled.
  unfoldable pub read_last : Option BootLog → Bool → Dev → Rc × Option (List ℕ) × Dev
  read_last none has_out d = (fail einval, none, d)
  read_last (some log) has_out d =
      let (rc, out, d') = read d (slot_offset log.base (log.next_slot - 1)) record_size in
      if not has_out || not log.initialized || not log.dev
      then (fail einval, none, d)
      else if not (is_ready d)
      then (fail enodev, none, d)
      else if log.next_slot == 0
      then (fail enoent, none, d)
      else if not (is_ok rc)
      then (rc, none, d')
      else ((if is_erased out log.erase_value then fail eio else ok), some out, d')
