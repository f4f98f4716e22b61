-- ===== src/Trf/Power/Device.antt =====
-- Opening and closing the reader as a device of libs/nfc.
use nfcee_fw.Base.{ℕ, ◌≡◌, refl, ◌∙◌, ap, ◌⊎◌, ◌<◌, arith, some, bit_or}
use nfcee_fw.Run.{Must}
use nfcee_fw.Nfc.{Ret, done, fail, enodev}
use nfcee_fw.Trf.{Hal, Config, Chip, idle, rf_off}
use nfcee_fw.Trf.Registers.{
  address, chip_status, iso_ctrl, irq_mask, fifo_irq_levels, iso_ctrl_rx_crc_n, event_stop,
}
use nfcee_fw.Trf.Spi.{register_write1, acquire_bus}
use nfcee_fw.Trf.Power.{switch_rf, stop, initiator_stop}
use nfcee_fw.Trf.NfcDevice.{Reader, nfc_device_close}
use nfcee_fw.Trf.Power.RegisterFile.{
  RegisterFile, register_write1-same, register_write1-other, acquire_bus-value, release_bus-value,
}

module _ {W : Type 0} (hal : Hal W) (file : RegisterFile hal) where
  open file use {value, on_broadcast}

  -- The field is on, the protocol is chosen with the checksum kept, the interrupts are those for errors
  -- and for the FIFO, at 96 and at 32 bytes.
  abbrev pub IsReady : ℕ → W → Type 0
  IsReady proto w =
      (value w (address chip_status) ≡ 0x21)
      × (value w (address iso_ctrl) ≡ bit_or proto iso_ctrl_rx_crc_n)
      × (value w (address irq_mask) ≡ 0x3e)
      × (value w (address fifo_irq_levels) ≡ 0x0f)

  -- The reader was not found, and the driver is as before; or it is idle, with the configuration.
  abbrev IsStarted : Chip → Config → Ret → Chip → Type 0
  IsStarted before cfg ret chip =
      ((ret ≡ fail enodev) × (chip ≡ before))
      ⊎ ((ret ≡ done 0) × (chip ≡ record { state = idle; config = some cfg }))

  -- As well, and then the registers are set.
  abbrev pub IsOpened : Chip → Config → Ret × Chip × W → Type 0
  IsOpened before cfg (ret, chip, w) =
      ((ret ≡ fail enodev) × (chip ≡ before))
      ⊎ ((ret ≡ done 0) × (chip ≡ record { state = idle; config = some cfg }) × IsReady cfg.proto w)

  -- The field is off, and the other registers are as before.
  abbrev IsClosed : Reader → W → Ret × Reader × W → Type 0
  IsClosed dev before (ret, r, w) =
      (ret ≡ done 0)
      × (r ≡ record dev { driver = record dev.driver { state = rf_off } })
      × (value w (address chip_status) ≡ 0x01)
      × ((a : ℕ) → 0 < a → value w a ≡ value before a)

  -- With such a chip: closing a reader that was started returns 0, switches the field off and changes
  -- no other register, and leaves the configuration in place.
  pub nfc_device_close-IsClosed :
      (dev : Reader) (cfg : Config) (w : W)
      → dev.driver.config ≡ some cfg
      → Must (IsClosed dev w) (nfc_device_close hal dev w)
  unfolding nfc_device_close initiator_stop stop switch_rf
  nfc_device_close-IsClosed dev cfg w e = rw e (
      let stopped = hal.broadcast event_stop w in
      let w1 = acquire_bus hal stopped in
      let w2 = register_write1 hal chip_status 0x01 w1 in
      (
        refl,
        ap (λ c. record dev { driver = record dev.driver { state = rf_off; config = c } }) e,
        release_bus-value hal file w2 0x00 ∙ register_write1-same hal file chip_status 0x01 w1,
        λ a above.
            release_bus-value hal file w2 a
            ∙ register_write1-other hal file chip_status 0x01 w1 a (ground arith)
            ∙ acquire_bus-value hal file stopped a
            ∙ on_broadcast event_stop w a,
      ))
