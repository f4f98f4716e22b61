-- ===== src/Trf.antt =====
-- The driver of the TRF7970A reader chip, drivers/trf797x: its configuration and state, and what it
-- asks of the operating system and of the chip behind the SPI bus.
pub mod Registers
pub mod Spi
pub mod Fifo
pub mod Power
pub mod Pending
pub mod Initiator
pub mod Contract
pub mod Exchange
pub mod NfcDevice
pub mod Bench
mod Tests
use nfcee_fw.Base.{ℕ, ◌+◌, ◌/◌, List, Option}

-- ChibiOS and the hardware, over a state `W`: the SPI driver, pads, delays and events. Neither is
-- part of the firmware.
pub record Hal (W : Type 0) : Type 0 where
  -- `spi_lld_polled_exchange`, `spiSend`, `spiReceive`, `spiIgnore`.
  pub exchange : ℕ → W → W
  pub send : List ℕ → W → W
  pub receive : ℕ → W → List ℕ × W
  pub ignore : ℕ → W → W
  -- `spiSelect`, `spiUnselect`, `spiAcquireBus`, `spiReleaseBus`.
  pub select : W → W
  pub unselect : W → W
  pub acquire : W → W
  pub release : W → W
  -- `WAIT_NANOSECOND`, `chThdSleepMilliseconds`.
  pub delay_ns : ℕ → W → W
  pub sleep_ms : ℕ → W → W
  -- `gpioSetPad`, `gpioClearPad`.
  pub set_pad : ℕ → W → W
  pub clear_pad : ℕ → W → W
  -- `chEvtObjectInit`, `chEvtRegister`, `chEvtBroadcastFlags`.
  pub init_event : W → W
  pub register_event : ℕ → W → W
  pub broadcast : ℕ → W → W
  -- `chEvtWaitAnyTimeout`, where `none` is no timeout, and `chEvtGetAndClearFlags`.
  pub wait_event : ℕ → Option ℕ → W → ℕ × W
  pub get_flags : W → ℕ × W

-- `enum trf797x_state`.
pub data ChipState : Type 0 where
  pwr_off rf_off idle : ChipState

-- `Trf797xInitiatorConfig`: the event number, the pads, the protocol. The SPI driver is in the `Hal`.
pub record Config : Type 0 where
  pub event : ℕ
  pub en : ℕ
  pub io0 : ℕ
  pub io1 : ℕ
  pub io2 : ℕ
  pub proto : ℕ

-- `Trf797xInitiatorDriver`; no configuration is the null pointer.
pub record Chip : Type 0 where
  pub state : ChipState
  pub config : Option Config

-- `(bits + 7) / 8`.
abbrev pub bytes_of : ℕ → ℕ
bytes_of bits = (bits + 7) / 8
