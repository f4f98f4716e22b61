-- ===== src/Gpio/Tests.antt =====
-- Pads and modes of a chip with two ports.
use nfcee_fw.Base.{List, [], ◌∷◌, ◌≡◌, refl, arith, set}
use nfcee_fw.Word.{u16}
use nfcee_fw.Run.{Must}
use nfcee_fw.Gpio.{Port, declare_gpio, gpio_port, setportmode, set_pad_mode_of}
use nfcee_fw.Gpio.Mode.{HasMode, mode_of}
use nfcee_fw.Gpio.PortModes.{IsPadUpdated, set_pad_mode_of-IsPadUpdated}
use nfcee_fw.Gpio.PortMode.{setportmode-HasMode}

abbrev reset_port : Port
reset_port = record {
  moder = 0xA8000000;
  otyper = 0;
  ospeedr = 0;
  pupdr = 0x64000000;
  idr = 0;
  odr = 0;
  bsrr_set = 0;
  bsrr_clear = 0;
  lckr = 0;
  afrl = 0;
  afrh = 0;
  brr = 0;
}

abbrev two_ports : List Port
two_ports = reset_port ∷ reset_port ∷ []

-- Pads 5 to 7 of the second port get the alternate function 5, as for an SPI bus.
setportmode-HasMode_example :
    Must
      (λ ports'.
        (p' : Port) × (ports' ≡ set two_ports 1 p')
        × HasMode 0 (u16 0xE0) (mode_of 0x282) reset_port p')
      (setportmode 1 0xE0 0x282 two_ports)
setportmode-HasMode_example = setportmode-HasMode 1 0xE0 0x282 two_ports reset_port refl

set_pad_mode_of-IsPadUpdated_example :
    Must
      (IsPadUpdated (declare_gpio 1 5) 0x282 two_ports)
      (set_pad_mode_of (declare_gpio 1 5) 0x282 two_ports)
set_pad_mode_of-IsPadUpdated_example =
    set_pad_mode_of-IsPadUpdated (declare_gpio 1 5) 0x282 two_ports
      (unfold declare_gpio gpio_port in omega arith)
