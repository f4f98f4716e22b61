-- ===== src/Startup.antt =====
-- What runs when the firmware starts: main.c, libs/trace, libs/newlib/usleep.c, and of nfc.c the callback
-- of the interrupt line, the start of the thread and `nfcStart`.
pub mod Observer
pub mod Blinking
mod Tests
use nfcee_fw.Base.{ℕ, zero, suc, ◌+◌, ◌-◌, ◌^◌, Bool, true, List, ltb, if◌then◌else◌}
use nfcee_fw.Run.{Run, returns, fault, ◌>>=◌}
use nfcee_fw.Nfc.{Ret, done, Driver}
use nfcee_fw.Nfc.TypeA.{iso14443a_driver_init}
use nfcee_fw.Trf.{Hal, Config}
use nfcee_fw.Trf.Power.{interrupt_hook}
use nfcee_fw.Trf.NfcDevice.{Reader, nfc_device_init}
use nfcee_fw.Usb.{SerialConfig, serial_config}

-- The two lines that main.c prints.
pub data Line : Type 0 where
  hello : Line
  count : ℕ → Line

pub data Thread : Type 0 where
  blinker nfc : Thread

-- ChibiOS, the serial port over USB and the pads, over a state `W`.
pub record System (W : Type 0) : Type 0 where
  -- `halInit`, `chSysInit`, `chThdCreateStatic`, `chRegSetThreadName`.
  pub hal_init : W → W
  pub kernel_init : W → W
  pub create_thread : Thread → W → W
  pub name_thread : Thread → W → W
  -- `chThdSleepMilliseconds`, `osalThreadSleepMicroseconds`.
  pub sleep_ms : ℕ → W → W
  pub sleep_us : ℕ → W → W
  -- `sduObjectInit`, `sduStart`, `usbDisconnectBus`, `usbStart`, `usbConnectBus`.
  pub serial_init : W → W
  pub serial_start : SerialConfig → W → W
  pub bus_disconnect : W → W
  pub usb_start : W → W
  pub bus_connect : W → W
  -- `serusbcfg.usbp->state == USB_ACTIVE`, `chprintf`.
  pub is_active : W → Bool × W
  pub print : Line → W → W
  -- `gpioSetPad(GPIO_LED0)`, `gpioClearPad(GPIO_LED0)`, `extChannelEnable`.
  pub led0 : Bool → W → W
  pub enable_channel : W → W
  -- `chSysLockFromISR`, `chSysUnlockFromISR`.
  pub lock_isr : W → W
  pub unlock_isr : W → W

module _ {W : Type 0} (sys : System W) where
  -- `trace`, with `USB_CDC_TRACE`: nothing is printed while no host has set up the port.
  unfoldable pub trace : Line → W → W
  trace line w = let (active, w1) = sys.is_active w in if active then sys.print line w1 else w1

  -- `trace_init`, with `USB_CDC_TRACE`.
  unfoldable pub trace_init : W → W
  trace_init w =
      let w1 = sys.serial_start serial_config (sys.serial_init w) in
      let w2 = sys.sleep_ms 1500 (sys.bus_disconnect w1) in sys.bus_connect (sys.usb_start w2)

  -- The body of the loop of `Blinker`. The counter is an `int`, whose overflow C leaves undefined.
  unfoldable pub blinker_round : ℕ × W → Run (ℕ × W)
  unfolding trace
  blinker_round (i, w) =
      let w1 = sys.sleep_ms 500 (sys.led0 true (trace (count i) w)) in
      let w2 = sys.sleep_ms 500 (sys.led0 Bool.false w1) in
      if ltb i (2 ^ 31 - 1) then returns (i + 1, w2) else fault

  unfoldable pub blinker_rounds : ℕ → ℕ × W → Run (ℕ × W)
  unfolding blinker_round
  blinker_rounds zero s = returns s
  blinker_rounds (suc n) s = blinker_round s >>= λ s'. blinker_rounds n s'

  -- `nfcStart`.
  unfoldable pub nfc_start : W → W
  nfc_start w = sys.create_thread nfc w

  -- `main` up to its loop, in which it only sleeps.
  unfoldable pub boot : W → W
  unfolding trace trace_init nfc_start
  boot w =
      let w1 = trace_init (sys.kernel_init (sys.hal_init w)) in
      nfc_start (sys.create_thread blinker (trace hello w1))

  -- `usleep`.
  unfoldable pub usleep : ℕ → W → Ret × W
  usleep usec w = (done 0, sys.sleep_us usec w)

  -- `trf797x_extcallback`.
  unfoldable pub extcallback : Hal W → W → W
  unfolding interrupt_hook
  extcallback hal w = sys.unlock_isr (interrupt_hook hal (sys.lock_isr w))

  -- `NfcThread` up to its loop, with the state of the light that the loop starts with; `config` is that
  -- of `device`, and `driver` the content of the local variable.
  unfoldable pub nfc_thread_start : Hal W → Config → Driver → W → Bool × Reader × Driver × W
  unfolding nfc_device_init iso14443a_driver_init
  nfc_thread_start hal config driver w =
      let w1 = sys.enable_channel (sys.name_thread nfc w) in
      let (device, w2) = nfc_device_init hal config w1 in
      (true, device, iso14443a_driver_init driver, w2)
