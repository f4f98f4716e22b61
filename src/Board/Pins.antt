-- ===== src/Board/Pins.antt =====
-- The pads of the board: board/board.h, with the modes of drivers/gpio/stm32/v2/gpio_lld.h.
use nfcee_fw.Base.{ℕ, bit_or}
use nfcee_fw.Word.{◌<<<◌}
use nfcee_fw.Gpio.{declare_gpio}

-- `GPIO_STM32_OSPEED_HIGHEST`, or-ed to a mode.
unfoldable pub highest : ℕ → ℕ
highest mode = bit_or mode (3 <<< 3)

-- `GPIO_MODE_ALTERNATE`.
unfoldable pub mode_alternate : ℕ → ℕ
mode_alternate n = bit_or (2 <<< 0) (n <<< 7)

-- `GPIO_MODE_INPUT`, with the pull-up or the pull-down, and `GPIO_MODE_OUTPUT_PUSHPULL`.
abbrev pub mode_input : ℕ
mode_input = 0 <<< 0

abbrev pub mode_input_pullup : ℕ
mode_input_pullup = bit_or (0 <<< 0) (1 <<< 5)

abbrev pub mode_input_pulldown : ℕ
mode_input_pulldown = bit_or (0 <<< 0) (2 <<< 5)

abbrev pub mode_output_pushpull : ℕ
mode_output_pushpull = bit_or (1 <<< 0) (0 <<< 2)

unfoldable pub gpio_en : ℕ
unfolding declare_gpio
gpio_en = declare_gpio 1 14

unfoldable pub gpio_en_mode : ℕ
gpio_en_mode = mode_output_pushpull

unfoldable pub gpio_en2 : ℕ
unfolding declare_gpio
gpio_en2 = declare_gpio 1 13

unfoldable pub gpio_en2_mode : ℕ
gpio_en2_mode = mode_output_pushpull

unfoldable pub gpio_irq : ℕ
unfolding declare_gpio
gpio_irq = declare_gpio 3 2

unfoldable pub gpio_irq_mode : ℕ
gpio_irq_mode = mode_input_pulldown

unfoldable pub gpio_mod : ℕ
unfolding declare_gpio
gpio_mod = declare_gpio 0 1

unfoldable pub gpio_mod_mode : ℕ
gpio_mod_mode = mode_input_pullup

unfoldable pub gpio_ask_ook : ℕ
unfolding declare_gpio
gpio_ask_ook = declare_gpio 1 15

unfoldable pub gpio_ask_ook_mode : ℕ
gpio_ask_ook_mode = mode_output_pushpull

unfoldable pub gpio_io0 : ℕ
unfolding declare_gpio
gpio_io0 = declare_gpio 2 11

unfoldable pub gpio_io0_mode : ℕ
gpio_io0_mode = mode_output_pushpull

unfoldable pub gpio_io1 : ℕ
unfolding declare_gpio
gpio_io1 = declare_gpio 2 10

unfoldable pub gpio_io1_mode : ℕ
gpio_io1_mode = mode_output_pushpull

unfoldable pub gpio_io2 : ℕ
unfolding declare_gpio
gpio_io2 = declare_gpio 2 9

unfoldable pub gpio_io2_mode : ℕ
gpio_io2_mode = mode_output_pushpull

unfoldable pub gpio_io3 : ℕ
unfolding declare_gpio
gpio_io3 = declare_gpio 0 8

unfoldable pub gpio_io3_mode : ℕ
gpio_io3_mode = mode_input_pullup

unfoldable pub gpio_io4 : ℕ
unfolding declare_gpio
gpio_io4 = declare_gpio 0 4

unfoldable pub gpio_io4_mode : ℕ
unfolding highest
gpio_io4_mode = highest mode_output_pushpull

unfoldable pub gpio_io5 : ℕ
unfolding declare_gpio
gpio_io5 = declare_gpio 1 12

unfoldable pub gpio_io5_mode : ℕ
gpio_io5_mode = mode_input_pullup

unfoldable pub gpio_io6 : ℕ
unfolding declare_gpio
gpio_io6 = declare_gpio 1 4

unfoldable pub gpio_io6_mode : ℕ
unfolding mode_alternate
gpio_io6_mode = mode_alternate 5

unfoldable pub gpio_io7 : ℕ
unfolding declare_gpio
gpio_io7 = declare_gpio 1 5

unfoldable pub gpio_io7_mode : ℕ
unfolding highest mode_alternate
gpio_io7_mode = highest (mode_alternate 5)

unfoldable pub gpio_spi1_sck : ℕ
unfolding declare_gpio
gpio_spi1_sck = declare_gpio 0 5

unfoldable pub gpio_spi1_sck_mode : ℕ
unfolding highest mode_alternate
gpio_spi1_sck_mode = highest (mode_alternate 5)

unfoldable pub gpio_uart_tx : ℕ
unfolding declare_gpio
gpio_uart_tx = declare_gpio 0 9

unfoldable pub gpio_uart_tx_mode : ℕ
unfolding highest mode_alternate
gpio_uart_tx_mode = highest (mode_alternate 7)

unfoldable pub gpio_uart_rx : ℕ
unfolding declare_gpio
gpio_uart_rx = declare_gpio 0 10

unfoldable pub gpio_uart_rx_mode : ℕ
unfolding mode_alternate
gpio_uart_rx_mode = mode_alternate 7

unfoldable pub gpio_otg_fs_dm : ℕ
unfolding declare_gpio
gpio_otg_fs_dm = declare_gpio 0 11

unfoldable pub gpio_otg_fs_dm_mode : ℕ
unfolding highest mode_alternate
gpio_otg_fs_dm_mode = highest (mode_alternate 10)

unfoldable pub gpio_otg_fs_dp : ℕ
unfolding declare_gpio
gpio_otg_fs_dp = declare_gpio 0 12

unfoldable pub gpio_otg_fs_dp_mode : ℕ
unfolding highest mode_alternate
gpio_otg_fs_dp_mode = highest (mode_alternate 10)

unfoldable pub gpio_led0 : ℕ
unfolding declare_gpio
gpio_led0 = declare_gpio 1 6

unfoldable pub gpio_led0_mode : ℕ
gpio_led0_mode = mode_output_pushpull

unfoldable pub gpio_led1 : ℕ
unfolding declare_gpio
gpio_led1 = declare_gpio 1 7

unfoldable pub gpio_led1_mode : ℕ
gpio_led1_mode = mode_output_pushpull

unfoldable pub gpio_button : ℕ
unfolding declare_gpio
gpio_button = declare_gpio 1 8

unfoldable pub gpio_button_mode : ℕ
gpio_button_mode = mode_input
