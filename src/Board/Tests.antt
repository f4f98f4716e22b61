-- ===== src/Board/Tests.antt =====
-- The board with the clocks that config/mcuconf.h sets up.
use nfcee_fw.Base.{ℕ, ◌*◌, ◌/◌, ◌<◌, ◌≡◌, refl, arith, List, [], ◌∷◌, some}
use nfcee_fw.Gpio.{Port}
use nfcee_fw.Board.{Machine, Drivers, Cr1, bit_2, baud_rate}
use nfcee_fw.Board.SpiClock.{IsFastest, divided, baud_rate-IsFastest, baud_rate_exceeds}

-- The PLL makes 8 MHz / 8 * 192 / 2, which the two prescalers divide by 4 and by 2.
abbrev sysclk : ℕ
sysclk = 8000000 / 8 * 192 / 2

abbrev pclk1 : ℕ
pclk1 = sysclk / 4

abbrev pclk2 : ℕ
pclk2 = sysclk / 2

abbrev spi_clock : ℕ
spi_clock = 1000000

divides_by_32 : baud_rate pclk1 spi_clock ≡ some bit_2
unfolding baud_rate
divides_by_32 = refl

baud_rate-IsFastest_example : IsFastest pclk1 spi_clock (baud_rate pclk1 spi_clock)
baud_rate-IsFastest_example = baud_rate-IsFastest pclk1 spi_clock

-- SPI1 is on the second bus: 1.5 MHz.
baud_rate_exceeds_example : spi_clock < divided pclk2 4
baud_rate_exceeds_example =
    baud_rate_exceeds pclk1 pclk2 spi_clock bit_2 divides_by_32 (omega arith) (omega arith)

abbrev analog_port : Port
analog_port = record {
  moder = 0xFFFFFFFF;
  otyper = 0;
  ospeedr = 0;
  pupdr = 0;
  idr = 0;
  odr = 0;
  bsrr_set = 0;
  bsrr_clear = 0;
  lckr = 0;
  afrl = 0;
  afrh = 0;
  brr = 0;
}

abbrev at_reset : Machine (List ℕ)
at_reset = record {
  rcc = record { ahb1enr = 0; ahb1lpenr = 0 };
  ports = analog_port ∷ analog_port ∷ analog_port ∷ analog_port ∷ [];
  drivers = [];
}

-- Drivers that write down what they are started with.
abbrev noted : Drivers (List ℕ)
noted = record { spi_start = λ cfg w. cfg.cr1 ∷ w; ext_start = λ channel w. channel ∷ w }

abbrev cr1 : Cr1
cr1 = record { cpha = 1; br_0 = 8; br_1 = 16; br_2 = 32 }
