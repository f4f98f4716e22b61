-- ===== src/Board.antt =====
-- The board's start: board/board.c, with the pads of board/board.h in Board/Pins, and `gpioInit` of
-- drivers/gpio/stm32/v2/gpio_lld.c for the microcontroller that config/mcuconf.h is written for.
pub mod Pins
pub mod Pads
pub mod Start
pub mod SpiClock
mod Tests
use nfcee_fw.Base.{ℕ, ◌/◌, Option, none, some, List, [], ◌∷◌, bit_or, leb, if◌then◌else◌}
use nfcee_fw.Run.{Run, returns, ◌>>=◌}
use nfcee_fw.Gpio.{Port, gpio_port, gpio_pad, set_pad, clear_pad, set_pad_mode_of}
use nfcee_fw.Board.Pins.{
  gpio_en, gpio_en_mode, gpio_en2, gpio_en2_mode, gpio_irq, gpio_irq_mode, gpio_mod, gpio_mod_mode,
  gpio_ask_ook, gpio_ask_ook_mode, gpio_io0, gpio_io0_mode, gpio_io1, gpio_io1_mode, gpio_io2,
  gpio_io2_mode, gpio_io3, gpio_io3_mode, gpio_io4, gpio_io4_mode, gpio_io5, gpio_io5_mode,
  gpio_io6, gpio_io6_mode, gpio_io7, gpio_io7_mode, gpio_spi1_sck, gpio_spi1_sck_mode, gpio_uart_tx,
  gpio_uart_tx_mode, gpio_uart_rx, gpio_uart_rx_mode, gpio_otg_fs_dm, gpio_otg_fs_dm_mode,
  gpio_otg_fs_dp, gpio_otg_fs_dp_mode, gpio_led0, gpio_led0_mode, gpio_led1, gpio_led1_mode,
  gpio_button, gpio_button_mode,
}

-- The bits of the register `CR1` of an SPI block that the configuration sets, as the vendor's header
-- defines them.
pub record Cr1 : Type 0 where
  pub cpha : ℕ
  pub br_0 : ℕ
  pub br_1 : ℕ
  pub br_2 : ℕ

-- Which of the bits `SPI_CR1_BR_2`, `SPI_CR1_BR_1` and `SPI_CR1_BR_0` are set.
pub data Baud : Type 0 where
  no_bits bit_0 bit_1 bits_1_0 bit_2 bits_2_0 bits_2_1 bits_2_1_0 : Baud

-- The chain of `#if` in `trf797x_spicfg`; it ends with an `#error`.
unfoldable pub baud_rate : ℕ → ℕ → Option Baud
baud_rate pclk1 clock =
    if leb (pclk1 / 2) clock
    then some no_bits
    else if leb (pclk1 / 4) clock
    then some bit_0
    else if leb (pclk1 / 8) clock
    then some bit_1
    else if leb (pclk1 / 16) clock
    then some bits_1_0
    else if leb (pclk1 / 32) clock
    then some bit_2
    else if leb (pclk1 / 64) clock
    then some bits_2_0
    else if leb (pclk1 / 128) clock
    then some bits_2_1
    else if leb (pclk1 / 256) clock
    then some bits_2_1_0
    else none

unfoldable pub baud_bits : Cr1 → Baud → ℕ
baud_bits c no_bits = 0
baud_bits c bit_0 = c.br_0
baud_bits c bit_1 = c.br_1
baud_bits c bits_1_0 = bit_or c.br_1 c.br_0
baud_bits c bit_2 = c.br_2
baud_bits c bits_2_0 = bit_or c.br_2 c.br_0
baud_bits c bits_2_1 = bit_or c.br_2 c.br_1
baud_bits c bits_2_1_0 = bit_or (bit_or c.br_2 c.br_1) c.br_0

-- `SPIConfig`, without its callback, which is null.
pub record SpiConfig : Type 0 where
  pub ssport : ℕ
  pub sspad : ℕ
  pub cr1 : ℕ

-- `trf797x_spicfg`.
unfoldable pub spi_config : Cr1 → Baud → SpiConfig
unfolding baud_bits gpio_port gpio_pad gpio_io4
spi_config c baud = record {
  ssport = gpio_port gpio_io4;
  sspad = gpio_pad gpio_io4;
  cr1 = bit_or c.cpha (baud_bits c baud);
}

-- `TRF797X_EXT_CHANNEL`, the line of the chip's interrupt.
abbrev pub ext_channel : ℕ
ext_channel = 2

-- The clock registers that `_gpio_lld_init` writes.
pub record Rcc : Type 0 where
  pub ahb1enr : ℕ
  pub ahb1lpenr : ℕ

-- `_gpio_lld_init`, with the mask `STM32_GPIO_EN_MASK` of the microcontroller.
unfoldable pub lld_init : ℕ → Rcc → Rcc
lld_init en_mask rcc = record {
  ahb1enr = bit_or rcc.ahb1enr en_mask;
  ahb1lpenr = bit_or rcc.ahb1lpenr en_mask;
}

-- A line `CONFIGURE_PAD(NAME)`: the pad and its mode.
pub record Pad : Type 0 where
  pub gpio : ℕ
  pub mode : ℕ

-- The lines `CONFIGURE_PAD` of `boardInit`, in order.
unfoldable pub board_pads : List Pad
unfolding gpio_en gpio_en_mode gpio_en2 gpio_en2_mode gpio_irq gpio_irq_mode gpio_mod gpio_mod_mode
    gpio_ask_ook gpio_ask_ook_mode gpio_io0 gpio_io0_mode gpio_io1 gpio_io1_mode gpio_io2
    gpio_io2_mode gpio_io3 gpio_io3_mode gpio_io4 gpio_io4_mode gpio_io5 gpio_io5_mode gpio_io6
    gpio_io6_mode gpio_io7 gpio_io7_mode gpio_spi1_sck gpio_spi1_sck_mode gpio_uart_tx
    gpio_uart_tx_mode gpio_uart_rx gpio_uart_rx_mode gpio_otg_fs_dm gpio_otg_fs_dm_mode
    gpio_otg_fs_dp gpio_otg_fs_dp_mode gpio_led0 gpio_led0_mode gpio_led1 gpio_led1_mode gpio_button
    gpio_button_mode
board_pads =
    record { gpio = gpio_en; mode = gpio_en_mode }
    ∷ record { gpio = gpio_en2; mode = gpio_en2_mode }
    ∷ record { gpio = gpio_irq; mode = gpio_irq_mode }
    ∷ record { gpio = gpio_mod; mode = gpio_mod_mode }
    ∷ record { gpio = gpio_ask_ook; mode = gpio_ask_ook_mode }
    ∷ record { gpio = gpio_io0; mode = gpio_io0_mode }
    ∷ record { gpio = gpio_io1; mode = gpio_io1_mode }
    ∷ record { gpio = gpio_io2; mode = gpio_io2_mode }
    ∷ record { gpio = gpio_io3; mode = gpio_io3_mode }
    ∷ record { gpio = gpio_io4; mode = gpio_io4_mode }
    ∷ record { gpio = gpio_io5; mode = gpio_io5_mode }
    ∷ record { gpio = gpio_io6; mode = gpio_io6_mode }
    ∷ record { gpio = gpio_io7; mode = gpio_io7_mode }
    ∷ record { gpio = gpio_spi1_sck; mode = gpio_spi1_sck_mode }
    ∷ record { gpio = gpio_uart_tx; mode = gpio_uart_tx_mode }
    ∷ record { gpio = gpio_uart_rx; mode = gpio_uart_rx_mode }
    ∷ record { gpio = gpio_otg_fs_dm; mode = gpio_otg_fs_dm_mode }
    ∷ record { gpio = gpio_otg_fs_dp; mode = gpio_otg_fs_dp_mode }
    ∷ record { gpio = gpio_led0; mode = gpio_led0_mode }
    ∷ record { gpio = gpio_led1; mode = gpio_led1_mode }
    ∷ record { gpio = gpio_button; mode = gpio_button_mode }
    ∷ []

unfoldable pub configure_pads : List Pad → List Port → Run (List Port)
configure_pads [] ports = returns ports
configure_pads (pad ∷ pads) ports = set_pad_mode_of pad.gpio pad.mode ports >>= configure_pads pads

-- What the start changes: the clock registers, the ports, and the drivers of ChibiOS.
pub record Machine (W : Type 0) : Type 0 where
  pub rcc : Rcc
  pub ports : List Port
  pub drivers : W

-- `spiStart(&SPID1, …)` and `extStart(&EXTD1, …)`, the latter for one channel on rising edges.
pub record Drivers (W : Type 0) : Type 0 where
  pub spi_start : SpiConfig → W → W
  pub ext_start : ℕ → W → W

-- `boardInit`.
unfoldable pub board_init : {W : Type 0} → Drivers W → ℕ → Cr1 → Baud → Machine W → Run (Machine W)
unfolding lld_init spi_config
board_init drv en_mask cr1 baud m = do
  let rcc' = lld_init en_mask m.rcc
  p1 ← clear_pad gpio_en m.ports
  p2 ← clear_pad gpio_en2 p1
  p3 ← set_pad gpio_io4 p2
  p4 ← configure_pads board_pads p3
  returns (record {
    rcc = rcc';
    ports = p4;
    drivers = drv.ext_start ext_channel (drv.spi_start (spi_config cr1 baud) m.drivers);
  })
