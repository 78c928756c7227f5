-- ===== src/Zephyr/Spi.antt =====
-- The SPI driver and the chip select of zephyr/drivers/spi.h, as the command read uses them. The
-- values of the flags are Zephyr's.
use cortex_m3_embedded_debug.Base.{
  ℕ, ◌≡◌, Bool, true, List, [], ◌∷◌, ◌++◌, length, take, drop, replicate, Rc, is_ok,
}

-- the constants and the fields of `spi_operation_t`
pub record SpiFlags : Type 0 where
  pub word_set_8 : ℕ
  pub mode_cpol : ℕ
  pub mode_cpha : ℕ
  pub mode_loop : ℕ
  pub cs_active_high : ℕ
  pub half_duplex : ℕ
  pub frame_format_ti : ℕ
  pub hold_on_cs : ℕ
  pub lock_on : ℕ
  pub op_mode_controller : ℕ
  pub gpio_active_low : ℕ
  pub op_mode_get : ℕ → ℕ
  pub word_size_get : ℕ → ℕ

-- `struct spi_config`; `cs_is_gpio` is the answer of `spi_cs_is_gpio`, `has_port` is `port != NULL`.
pub record SpiConfig : Type 0 where
  pub frequency : ℕ
  pub operation : ℕ
  pub cs_is_gpio : Bool
  pub has_port : Bool
  pub dt_flags : ℕ

-- `struct spi_buf`: for what is sent, NULL stands for zeros; for what comes, it discards.
pub data TxBuf : Type 0 where
  bytes : List ℕ → TxBuf
  zeros : ℕ → TxBuf

pub data RxBuf : Type 0 where
  into : ℕ → RxBuf
  discard : ℕ → RxBuf

abbrev pub sent : List TxBuf → List ℕ
sent [] = []
sent (bytes l ∷ bufs) = l ++ sent bufs
sent (zeros n ∷ bufs) = replicate n 0 ++ sent bufs

-- the contents of the buffers, when `line` has come
abbrev pub placed : List RxBuf → List ℕ → List (List ℕ)
placed [] line = []
placed (into n ∷ bufs) line = take n line ∷ placed bufs (drop n line)
placed (discard n ∷ bufs) line = placed bufs (drop n line)

-- A transfer clocks one byte in for each byte out; `answer` is what the device gives.
pub record Spi : Type 1 where
  pub Bus : Type 0
  pub is_ready : Bus → Bool
  pub gpio_ready : Bus → Bool
  pub transceive : Bus → SpiConfig → List TxBuf → List RxBuf → Rc × List (List ℕ) × Bus
  pub answer : Bus → SpiConfig → List ℕ → List ℕ
  pub length-answer : (b : Bus) (c : SpiConfig) (l : List ℕ) → length (answer b c l) ≡ length l
  pub transceive_ok :
      (b : Bus) (c : SpiConfig) (tx : List TxBuf) (rx : List RxBuf)
      → is_ok (transceive b c tx rx).0 ≡ true
      → (transceive b c tx rx).1 ≡ placed rx (answer b c (sent tx))
