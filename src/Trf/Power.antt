-- ===== src/Trf/Power.antt =====
-- Power-up, initialisation and stop of the chip: drivers/trf797x/trf797x.c, and the reader functions
-- that call them in trf797x_initiator.c. The configuration is that of config/trfconf.h: a 13.56 MHz
-- oscillator, no clock output, a supply of 5 V.
pub mod RegisterFile
pub mod Device
mod Tests
use nfcee_fw.Base.{ℕ, Bool, true, false, none, some, bit_or, ◌==◌, if◌then◌else◌}
use nfcee_fw.Run.{Run, returns, fault, ◌>>=◌}
use nfcee_fw.Nfc.{Ret, done, fail, enodev}
use nfcee_fw.Trf.{Hal, Config, Chip, ChipState, pwr_off, rf_off, idle}
use nfcee_fw.Trf.Registers.{
  cmd_init, cmd_idle, reset_fifo, chip_status, iso_ctrl, modulator_sys_clk, irq_mask,
  fifo_irq_levels, nfc_target_detection, irq_error, irq_fifo, status_rf_on, status_vrs5_3,
  iso_ctrl_rx_crc_n, fifo_levels_96_32, event_stop, event_irq,
}
use nfcee_fw.Trf.Spi.{command, register_read1, register_write1, acquire_bus, release_bus}

-- `TRF7970X_MODULATOR_DEPTH_OOK`, with the clock output disabled.
abbrev pub mod_sys_clk : ℕ
mod_sys_clk = 0x01

abbrev pub is_pwr_off : ChipState → Bool
is_pwr_off pwr_off = true
is_pwr_off rf_off = false
is_pwr_off idle = false

-- `trf797x_driver_init`, `trf797x_initiator_driver_init`.
unfoldable pub driver_init : {W : Type 0} → Hal W → W → Chip × W
driver_init hal w = (record { state = pwr_off; config = none }, hal.init_event w)

module _ {W : Type 0} (hal : Hal W) where
  -- The power-up sequence, with the pins set for SPI with slave select.
  unfoldable pub reset_hardware : Config → W → W
  reset_hardware cfg w =
      let w1 =
        hal.set_pad cfg.io2
          (hal.set_pad cfg.io1 (hal.clear_pad cfg.io0 (hal.clear_pad cfg.en w))) in
      let w2 = hal.sleep_ms 4 (hal.select (hal.sleep_ms 2 (hal.unselect w1))) in
      hal.sleep_ms 5 (hal.set_pad cfg.en w2)

  -- `trf797x_initialize`: whether the chip gives back what was written to it.
  unfoldable pub initialize : W → Bool × W
  unfolding command register_write1 register_read1
  initialize w =
      let w1 = hal.sleep_ms 1 (command hal cmd_idle (command hal cmd_init w)) in
      let w2 = register_write1 hal modulator_sys_clk mod_sys_clk (command hal reset_fifo w1) in
      let w3 =
        register_write1 hal chip_status status_vrs5_3
          (register_write1 hal nfc_target_detection 0 w2) in
      let (value, w4) = register_read1 hal modulator_sys_clk w3 in (value == mod_sys_clk, w4)

  -- `trf797x_start`.
  unfoldable pub start : Chip → Config → W → Ret × Chip × W
  unfolding reset_hardware initialize
  start chip cfg w =
      let w1 = if is_pwr_off chip.state then reset_hardware cfg w else w in
      let (found, w2) = initialize w1 in
      if found
      then (
        done 0,
        record { state = idle; config = some cfg },
        hal.register_event cfg.event (hal.init_event w2),
      )
      else (fail enodev, chip, w2)

  -- `trf797x_stop` reads the configuration only to switch the chip off.
  unfoldable pub stop : Chip → Bool → W → Run (Chip × W)
  stop chip false w = returns (chip, hal.broadcast event_stop w)
  stop chip true w = elim chip.config [
    | none ↦ fault
    | some cfg ↦
        returns (record chip { state = pwr_off }, hal.broadcast event_stop (hal.clear_pad cfg.en w))
  ]

  -- `switch_rf`.
  unfoldable pub switch_rf : Bool → W → W
  unfolding register_write1
  switch_rf on w =
      register_write1 hal chip_status (bit_or (if on then status_rf_on else 0) status_vrs5_3) w

  -- The part of `trf797x_initiator_start` that holds the bus.
  unfoldable pub start_reader : Chip → Config → W → Ret × Chip × W
  unfolding start switch_rf register_write1
  start_reader chip cfg w =
      let (ret, chip1, w1) = start chip cfg w in
      elim ret [
        | fail e ↦ (fail e, chip1, w1)
        | done n ↦
            let w2 = register_write1 hal irq_mask (bit_or irq_error irq_fifo) w1 in
            let w3 = register_write1 hal iso_ctrl (bit_or cfg.proto iso_ctrl_rx_crc_n) w2 in
            let w4 = register_write1 hal fifo_irq_levels fifo_levels_96_32 w3 in
            (done 0, chip1, switch_rf true w4)
      ]

  -- `trf797x_initiator_start`.
  unfoldable pub initiator_start : Chip → Config → W → Ret × Chip × W
  unfolding start_reader acquire_bus release_bus
  initiator_start chip cfg w =
      let (ret, chip1, w1) = start_reader chip cfg (acquire_bus hal w) in
      (ret, chip1, release_bus hal w1)

  -- `trf797x_initiator_stop`: without a shutdown the field is switched off over the bus of the
  -- configuration.
  unfoldable pub initiator_stop : Chip → Bool → W → Run (Ret × Chip × W)
  unfolding stop switch_rf acquire_bus release_bus
  initiator_stop chip shutdown w = stop chip shutdown w >>= λ (chip1, w1).
      if shutdown then returns (done 0, chip1, w1) else elim chip1.config [
        | none ↦ fault
        | some cfg ↦ returns (
          done 0,
          record chip1 { state = rf_off },
          release_bus hal (switch_rf false (acquire_bus hal w1)),
        )
      ]

  -- `tf797x_interrupt_hookI`.
  unfoldable pub interrupt_hook : W → W
  interrupt_hook w = hal.broadcast event_irq w
