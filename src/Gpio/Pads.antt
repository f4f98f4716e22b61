-- ===== src/Gpio/Pads.antt =====
-- The numbers that name pads: `DECLARE_GPIO`, `GPIO_PORT` and `GPIO_PAD`.
use nfcee_fw.Base.{ℕ, ◌+◌, ◌*◌, ◌/◌, ◌%◌, ◌^◌, ◌≡◌, ◌<◌, ◌∙◌, arith}
use nfcee_fw.Bits.{bit_and-mask, bit_or-shl}
use nfcee_fw.Gpio.{declare_gpio, gpio_port, gpio_pad}

declare_gpio_sum : (port pad : ℕ) → declare_gpio port pad ≡ port % 256 * 256 + pad % 256
unfolding declare_gpio
declare_gpio_sum port pad =
    let small : pad % 256 * 1 < 2 ^ 8 = omega arith in
    rw (bit_and-mask 8 port)
      (rw (bit_and-mask 8 pad) (rw (bit_or-shl 8 (port % 256) (pad % 256 * 1) small) (omega arith)))

-- A port and a pad come back out of the number that is declared for them, each as its low eight bits.
gpio-declare_gpio :
    (port pad : ℕ)
    → (gpio_port (declare_gpio port pad) ≡ port % 256)
      × (gpio_pad (declare_gpio port pad) ≡ pad % 256)
unfolding gpio_port gpio_pad
gpio-declare_gpio port pad = rw (declare_gpio_sum port pad) (
  bit_and-mask 8 ((port % 256 * 256 + pad % 256) / 2 ^ 8) ∙ omega arith,
  bit_and-mask 8 ((port % 256 * 256 + pad % 256) / 2 ^ 0) ∙ omega arith,
)
