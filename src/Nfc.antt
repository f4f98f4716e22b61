-- ===== src/Nfc.antt =====
-- The types of libs/nfc/include/nfc.h and iso14443.h: technologies, frames, the interface that a
-- reader chip implements (`struct nfc_device`) and the state of an ISO 14443 driver.
pub mod Tables
pub mod Frames
pub mod TypeA
pub mod Blocks
pub mod Layer4
pub mod Tape
pub mod Session
mod Tests
use nfcee_fw.Base.{
  ℕ, zero, suc, ◌+◌, ◌*◌, ◌/◌, ◌%◌, ◌^◌, ◌≤◌, Bool, true, false, List, ltb, length, ◌==◌,
}

-- `nfc_digital_t`.
pub data Tech : Type 0 where
  iso14443a iso14443b iso15693 felica : Tech

-- The error codes that the firmware returns, each as its negative.
pub data Errno : Type 0 where
  eio enodev eproto einval etimedout ecanceled : Errno
  checksum parity framing collision : Errno

-- A C `int` result: a count, or minus an error code.
pub data Ret : Type 0 where
  done : ℕ → Ret
  fail : Errno → Ret

-- `ret < 0`.
abbrev pub is_fail : Ret → Bool
is_fail (done n) = false
is_fail (fail e) = true

-- `ret == 0`.
abbrev pub is_zero : Ret → Bool
is_zero (done n) = n == 0
is_zero (fail e) = false

-- `struct nfc_iovec` on the way out: the bytes at `base`, and how many bits of them are sent.
pub record Iovec : Type 0 where
  pub base : List ℕ
  pub bits : ℕ

-- `.bytes = n` sets the upper 29 bits of the field, so that `bits` is 8 n.
abbrev pub of_bytes : List ℕ → Iovec
of_bytes frame = record { base = frame; bits = length frame % 2 ^ 29 * 8 }

-- The result of a transceive: the `int`, and the bytes stored at the start of the receive buffer.
pub record Reply : Type 0 where
  pub ret : Ret
  pub stored : List ℕ

-- `nfc_iocreq_t`.
pub data Request : Type 0 where
  dev_frame_size : Request

-- `struct nfc_device`, over the state `W` of the chip and of what surrounds it. The receive buffer
-- is passed as its size in bits; an `ioctl` takes the old value of its argument.
pub record Device (W : Type 0) : Type 0 where
  pub dev_open : Tech → W → Ret × W
  pub dev_transceive : List Iovec → ℕ → ℕ → W → Reply × W
  pub dev_ioctl : Request → ℕ → W → Ret × ℕ × W
  pub dev_close : W → Ret × W

-- `iso14443_state_t`.
pub data State : Type 0 where
  power_off idle selected halted : State

-- `nfc_iso14443a_driver_t` and `nfc_iso14443b_driver_t`: the common data, then what only the driver
-- of type A has (`sak`, `atqa`, `ats`), then what only that of type B has (`atqb`). The pointers
-- `dev` and `l3` are arguments of the functions that follow them.
pub record Driver : Type 0 where
  pub tech : Tech
  pub nfcid_len : ℕ
  pub nfcid_data : List ℕ
  pub state : State
  pub fsc : ℕ
  pub fsd : ℕ
  pub fwt : ℕ
  pub block : ℕ
  pub sak : ℕ
  pub atqa : ℕ
  pub ats : List ℕ
  pub atqb : List ℕ
