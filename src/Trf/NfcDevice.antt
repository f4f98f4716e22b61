-- ===== src/Trf/NfcDevice.antt =====
-- The reader chip as a device of libs/nfc: drivers/trf797x/trf797x_device.c.
use nfcee_fw.Base.{ℕ, false, List}
use nfcee_fw.Run.{Run, returns, ◌>>=◌}
use nfcee_fw.Nfc.{Tech, Request, dev_frame_size, Ret, done, Iovec, Reply}
use nfcee_fw.Trf.{Hal, Config, Chip}
use nfcee_fw.Trf.Registers.{fifo_size}
use nfcee_fw.Trf.Power.{driver_init, initiator_start, initiator_stop}
use nfcee_fw.Trf.Initiator.{initiator_transceive}

-- `struct trf797x_nfc_device` without its four function pointers.
pub record Reader : Type 0 where
  pub driver : Chip
  pub config : Config

-- `TRF7970X_PROTO_RFID_…` for each technology.
unfoldable pub proto_of : Tech → ℕ
proto_of Tech.iso14443a = 0x08
proto_of Tech.iso14443b = 0x0c
proto_of Tech.iso15693 = 0x02
proto_of Tech.felica = 0x1a

module _ {W : Type 0} (hal : Hal W) where
  unfoldable pub nfc_device_open : Reader → Tech → W → Ret × Reader × W
  unfolding proto_of initiator_start
  nfc_device_open dev tech w =
      let cfg = record dev.config { proto = proto_of tech } in
      let (ret, chip, w1) = initiator_start hal dev.driver cfg w in
      (ret, record { driver = chip; config = cfg }, w1)

  -- `ms2st` is `MS2ST` of ChibiOS, from milliseconds to ticks.
  unfoldable pub nfc_device_transceive :
      (ℕ → ℕ) → ℕ → Reader → List Iovec → ℕ → ℕ → W → Run (Reply × W)
  unfolding initiator_transceive
  nfc_device_transceive ms2st fuel dev tx rx_bits timeout w =
      initiator_transceive hal fuel dev.driver tx rx_bits (ms2st timeout) w

  -- The result and the new content of `*arg`.
  unfoldable pub nfc_device_ioctl : Request → ℕ → Ret × ℕ
  nfc_device_ioctl dev_frame_size arg = (done 0, fifo_size)

  unfoldable pub nfc_device_close : Reader → W → Run (Ret × Reader × W)
  unfolding initiator_stop
  nfc_device_close dev w = initiator_stop hal dev.driver false w >>= λ (ret, chip, w1).
      returns (ret, record dev { driver = chip }, w1)

  unfoldable pub nfc_device_init : Config → W → Reader × W
  unfolding driver_init
  nfc_device_init cfg w =
      let (chip, w1) = driver_init hal w in (record { driver = chip; config = cfg }, w1)
