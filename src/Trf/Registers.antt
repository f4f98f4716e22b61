-- ===== src/Trf/Registers.antt =====
-- The registers, commands and status bits of drivers/trf797x/trf797x_lld.h.
use nfcee_fw.Base.{ℕ}

abbrev pub fifo_size : ℕ
fifo_size = 127

pub data Reg : Type 0 where
  chip_status iso_ctrl iso14443b_tx iso14443_bitrate timer_tx_msb timer_tx_lsb : Reg
  tx_pulse_length no_response_wait_time rx_wait_time modulator_sys_clk rx_special : Reg
  regulator_ctrl irq_status irq_mask collision_position rssi_levels special_functions : Reg
  fifo_irq_levels nfc_low_field_level nfcid1 nfc_target_detection nfc_target_protocol : Reg
  test1 test2 fifo_status tx_length1 tx_length2 fifo : Reg

-- `TRF797X_REG_…`.
abbrev pub address : Reg → ℕ
address chip_status = 0x00
address iso_ctrl = 0x01
address iso14443b_tx = 0x02
address iso14443_bitrate = 0x03
address timer_tx_msb = 0x04
address timer_tx_lsb = 0x05
address tx_pulse_length = 0x06
address no_response_wait_time = 0x07
address rx_wait_time = 0x08
address modulator_sys_clk = 0x09
address rx_special = 0x0a
address regulator_ctrl = 0x0b
address irq_status = 0x0c
address irq_mask = 0x0d
address collision_position = 0x0e
address rssi_levels = 0x0f
address special_functions = 0x10
address fifo_irq_levels = 0x14
address nfc_low_field_level = 0x16
address nfcid1 = 0x17
address nfc_target_detection = 0x18
address nfc_target_protocol = 0x19
address test1 = 0x1a
address test2 = 0x1b
address fifo_status = 0x1c
address tx_length1 = 0x1d
address tx_length2 = 0x1e
address fifo = 0x1f

pub data Command : Type 0 where
  cmd_idle cmd_init reset_fifo tx_no_crc tx_crc tx_no_crc_delayed tx_crc_delayed : Command
  eof_tx_next_slot rx_disable rx_enable test_internal_rf test_external_rf : Command

-- `TRF797X_CMD_…`.
abbrev pub opcode : Command → ℕ
opcode cmd_idle = 0x00
opcode cmd_init = 0x03
opcode reset_fifo = 0x0f
opcode tx_no_crc = 0x10
opcode tx_crc = 0x11
opcode tx_no_crc_delayed = 0x12
opcode tx_crc_delayed = 0x13
opcode eof_tx_next_slot = 0x14
opcode rx_disable = 0x16
opcode rx_enable = 0x17
opcode test_internal_rf = 0x18
opcode test_external_rf = 0x19

-- `TRF7970X_IRQ_STATUS_…`.
abbrev pub irq_col : ℕ
irq_col = 0x02

abbrev pub irq_framing_eof_error : ℕ
irq_framing_eof_error = 0x04

abbrev pub irq_parity_error : ℕ
irq_parity_error = 0x08

abbrev pub irq_crc_error : ℕ
irq_crc_error = 0x10

abbrev pub irq_fifo : ℕ
irq_fifo = 0x20

abbrev pub irq_srx : ℕ
irq_srx = 0x40

abbrev pub irq_tx : ℕ
irq_tx = 0x80

-- The four error bits together.
abbrev pub irq_error : ℕ
irq_error = 0x1e

-- `TRF797X_CHIP_STATUS_VRS5_3`, `TRF797X_CHIP_STATUS_RF_ON`.
abbrev pub status_vrs5_3 : ℕ
status_vrs5_3 = 0x01

abbrev pub status_rf_on : ℕ
status_rf_on = 0x20

-- `TRF7970X_ISO_CTRL_RX_CRC_N`.
abbrev pub iso_ctrl_rx_crc_n : ℕ
iso_ctrl_rx_crc_n = 0x80

-- `TRF797X_FIFO_IRQ_LEVELS_WLH_96 | TRF797X_FIFO_IRQ_LEVELS_WLL_32`.
abbrev pub fifo_levels_96_32 : ℕ
fifo_levels_96_32 = 0x0f

-- `EVENT_STOP`, `EVENT_IRQ`.
abbrev pub event_stop : ℕ
event_stop = 0x01

abbrev pub event_irq : ℕ
event_irq = 0x02
