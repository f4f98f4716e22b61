-- ===== src/Trf/Power/Tests.antt =====
-- Opening and closing a reader with a register file.
use nfcee_fw.Base.{
  ℕ, ◌≡◌, refl, inl, inr, Bool-cases, ◌<◌, arith, false, some, none, List, [], ◌∷◌, ◌==◌,
  if◌then◌else◌, bit_and, ==_refl,
}
use nfcee_fw.Run.{Must}
use nfcee_fw.Nfc.{done}
use nfcee_fw.Trf.{Hal, Config, idle, pwr_off, rf_off}
use nfcee_fw.Trf.Registers.{
  Reg, address, chip_status, iso_ctrl, iso14443b_tx, iso14443_bitrate, timer_tx_msb, timer_tx_lsb,
  tx_pulse_length, no_response_wait_time, rx_wait_time, modulator_sys_clk, rx_special,
  regulator_ctrl, irq_status, irq_mask, collision_position, rssi_levels, special_functions,
  fifo_irq_levels, nfc_low_field_level, nfcid1, nfc_target_detection, nfc_target_protocol, test1,
  test2, fifo_status, tx_length1, tx_length2, fifo,
}
use nfcee_fw.Trf.Spi.{write_byte}
use nfcee_fw.Trf.NfcDevice.{Reader, nfc_device_close}
use nfcee_fw.Trf.Power.RegisterFile.{RegisterFile, is_touched}
use nfcee_fw.Trf.Power.Device.{nfc_device_close-IsClosed}

record Registers : Type 0 where
  values : ℕ → ℕ
  opened : ℕ

abbrev store : List ℕ → Registers → Registers
store [] w = w
store (v ∷ vs) w = record w { values = λ a. if a == w.opened then v else w.values a }

abbrev registers : Hal Registers
registers = record {
  exchange = λ b w. record w { opened = b };
  send = store;
  receive = λ n w. (w.values (bit_and w.opened 0x1f) ∷ [], w);
  ignore = λ n w. w;
  select = λ w. w;
  unselect = λ w. w;
  acquire = λ w. w;
  release = λ w. w;
  delay_ns = λ n w. w;
  sleep_ms = λ n w. w;
  set_pad = λ pad w. w;
  clear_pad = λ pad w. w;
  init_event = λ w. w;
  register_event = λ n w. w;
  broadcast = λ n w. w;
  wait_event = λ mask timeout w. (0, w);
  get_flags = λ w. (0, w);
}

-- A single byte is written to a register by its address.
write_byte-address : (reg : Reg) → write_byte reg 1 ≡ address reg
unfolding write_byte
write_byte-address chip_status = refl
write_byte-address iso_ctrl = refl
write_byte-address iso14443b_tx = refl
write_byte-address iso14443_bitrate = refl
write_byte-address timer_tx_msb = refl
write_byte-address timer_tx_lsb = refl
write_byte-address tx_pulse_length = refl
write_byte-address no_response_wait_time = refl
write_byte-address rx_wait_time = refl
write_byte-address modulator_sys_clk = refl
write_byte-address rx_special = refl
write_byte-address regulator_ctrl = refl
write_byte-address irq_status = refl
write_byte-address irq_mask = refl
write_byte-address collision_position = refl
write_byte-address rssi_levels = refl
write_byte-address special_functions = refl
write_byte-address fifo_irq_levels = refl
write_byte-address nfc_low_field_level = refl
write_byte-address nfcid1 = refl
write_byte-address nfc_target_detection = refl
write_byte-address nfc_target_protocol = refl
write_byte-address test1 = refl
write_byte-address test2 = refl
write_byte-address fifo_status = refl
write_byte-address tx_length1 = refl
write_byte-address tx_length2 = refl
write_byte-address fifo = refl

stored_elsewhere :
    (reg : Reg) (a v old : ℕ)
    → is_touched reg a ≡ false
    → (if a == address reg then v else old) ≡ old
stored_elsewhere reg a v old h = elim (Bool-cases (a == address reg)) [
  | inl same ↦ absurd (ground arith)
  | inr other ↦ rw other refl
]

abbrev register_file : RegisterFile registers
register_file = record {
  value = λ w. w.values;
  opened = λ w. w.opened;
  on_open = λ reg w. (refl, λ a. refl);
  on_send = λ reg v w e. rw e (
      rw (write_byte-address reg)
        (rw (==_refl (address reg)) refl, λ a h. stored_elsewhere reg a v (w.values a) h));
  on_select = λ w a. refl;
  on_unselect = λ w a. refl;
  on_acquire = λ w a. refl;
  on_release = λ w a. refl;
  on_delay = λ n w a. refl;
  on_broadcast = λ n w a. refl;
}

abbrev settings : Config
settings = record { event = 1; en = 0; io0 = 1; io1 = 2; io2 = 3; proto = 0 }

abbrev switched_on : Registers
switched_on = record { values = λ a. 0; opened = 0 }

abbrev new_reader : Reader
new_reader = record { driver = record { state = pwr_off; config = none }; config = settings }

abbrev open_reader : Reader
open_reader = record { driver = record { state = idle; config = some settings }; config = settings }

nfc_device_close-IsClosed_example :
    Must
      (λ (ret, r, w).
        (ret ≡ done 0)
        × (r ≡ record open_reader { driver = record open_reader.driver { state = rf_off } })
        × (w.values 0 ≡ 1)
        × ((a : ℕ) → 0 < a → w.values a ≡ switched_on.values a))
      (nfc_device_close registers open_reader switched_on)
nfc_device_close-IsClosed_example =
    nfc_device_close-IsClosed registers register_file open_reader settings switched_on refl
