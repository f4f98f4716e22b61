-- ===== src/Gpio.antt =====
-- The GPIO driver for the STM32: drivers/gpio/gpio.h and drivers/gpio/stm32/v2. A port's registers,
-- the number that names a pad, and the functions and macros on both. The ports that the chip has are
-- the first `STM32_HAS_GPIO…` ones, in order.
pub mod Pads
pub mod BitFields
pub mod Mode
pub mod Locals
pub mod PortMode
pub mod PadModes
pub mod PortModes
mod Tests
use nfcee_fw.Base.{
  ℕ, zero, suc, ◌+◌, ◌-◌, ◌*◌, ◌%◌, ◌^◌, Bool, Option, none, some, List, bit_and, bit_or, ltb, ◌==◌,
  if◌then◌else◌, get_elem?, set,
}
use nfcee_fw.Word.{u8, u16, u32, ◌<<<◌, ◌>>>◌, not32}
use nfcee_fw.Run.{Run, returns, fault, out_of_fuel, ◌>>=◌}

-- `stm32_gpio_t`; `set` and `clear` are the halves of `BSRR`.
pub record Port : Type 0 where
  pub moder : ℕ
  pub otyper : ℕ
  pub ospeedr : ℕ
  pub pupdr : ℕ
  pub idr : ℕ
  pub odr : ℕ
  pub bsrr_set : ℕ
  pub bsrr_clear : ℕ
  pub lckr : ℕ
  pub afrl : ℕ
  pub afrh : ℕ
  pub brr : ℕ

-- `DECLARE_GPIO`, `GPIO_PORT`, `GPIO_PAD`.
unfoldable pub declare_gpio : ℕ → ℕ → ℕ
declare_gpio port pad = bit_or (bit_and port 0xFF <<< 8) (bit_and pad 0xFF <<< 0)

unfoldable pub gpio_port : ℕ → ℕ
gpio_port gpio = bit_and (gpio >>> 8) 0xFF

unfoldable pub gpio_pad : ℕ → ℕ
gpio_pad gpio = bit_and (gpio >>> 0) 0xFF

-- `x << n` on `uint32_t`.
abbrev pub shl32 : ℕ → ℕ → ℕ
shl32 x n = u32 (x <<< n)

-- `(reg & ~mask) | bits`.
unfoldable pub replace : ℕ → ℕ → ℕ → ℕ
replace reg mask bits = bit_or (bit_and reg (not32 mask)) bits

-- The locals of `_gpio_lld_setportmode` that a round changes.
pub record Fields : Type 0 where
  pub f_moder : ℕ
  pub f_otyper : ℕ
  pub f_ospeedr : ℕ
  pub f_pupdr : ℕ
  pub bit : ℕ

unfoldable pub fields_of : ℕ → Fields
fields_of mode = record {
  f_moder = bit_and mode (3 <<< 0) >>> 0;
  f_otyper = bit_and mode (1 <<< 2) >>> 2;
  f_ospeedr = bit_and mode (3 <<< 3) >>> 3;
  f_pupdr = bit_and mode (3 <<< 5) >>> 5;
  bit = 0;
}

abbrev pub alternate_of : ℕ → ℕ
alternate_of mode = bit_and mode (15 <<< 7) >>> 7

-- The body of `if ((mask & 1) != 0)`. The two orders of its writes differ for the pins only, not for
-- the registers that they leave behind.
unfoldable pub set_pad_mode : ℕ → Fields → Port → Port
unfolding replace
set_pad_mode altr f p =
    let altrmask = shl32 altr (bit_and f.bit 7 * 4) in
    let m1 = shl32 1 f.bit in
    let m2 = shl32 3 (f.bit * 2) in
    let m4 = shl32 15 (bit_and f.bit 7 * 4) in
    record p {
      otyper = replace p.otyper m1 f.f_otyper;
      ospeedr = replace p.ospeedr m2 f.f_ospeedr;
      pupdr = replace p.pupdr m2 f.f_pupdr;
      moder = replace p.moder m2 f.f_moder;
      afrl = if ltb f.bit 8 then replace p.afrl m4 altrmask else p.afrl;
      afrh = if ltb f.bit 8 then p.afrh else replace p.afrh m4 altrmask;
    }

unfoldable pub next_fields : Fields → Fields
next_fields f = record {
  f_moder = shl32 f.f_moder 2;
  f_otyper = shl32 f.f_otyper 1;
  f_ospeedr = shl32 f.f_ospeedr 2;
  f_pupdr = shl32 f.f_pupdr 2;
  bit = u32 (f.bit + 1);
}

-- The loop of `_gpio_lld_setportmode`.
unfoldable pub port_mode_loop : ℕ → ℕ → ℕ → Fields → Port → Run Port
unfolding set_pad_mode next_fields
port_mode_loop zero mask altr f p = out_of_fuel
port_mode_loop (suc fuel) mask altr f p =
    let p1 = if bit_and mask 1 == 0 then p else set_pad_mode altr f p in
    let rest = port_mode_loop fuel (mask >>> 1) altr (next_fields f) p1 in
    if mask >>> 1 == 0 then returns p1 else rest

-- A call for a port the chip does not have reads outside the array of ports.
abbrev pub on_port : ℕ → List Port → (Port → Run Port) → Run (List Port)
on_port port ports f = elim (get_elem? ports port) [
  | none ↦ fault
  | some p ↦ f p >>= λ p1. returns (set ports port p1)
]

-- `_gpio_lld_setportmode`: the mask has 16 bits, so that 16 rounds are enough.
unfoldable pub setportmode : ℕ → ℕ → ℕ → List Port → Run (List Port)
unfolding fields_of port_mode_loop
setportmode port mask mode ports =
    on_port port ports (λ p. port_mode_loop 16 (u16 mask) (alternate_of mode) (fields_of mode) p)

-- `gpioReadPort`, `gpioWritePort`, `gpioSetPort`, `gpioClearPort`.
unfoldable pub read_port : ℕ → List Port → Run ℕ
read_port port ports = elim (get_elem? ports port) [ none ↦ fault | some p ↦ returns p.idr ]

unfoldable pub write_port : ℕ → ℕ → List Port → Run (List Port)
write_port port bits ports = on_port port ports (λ p. returns (record p { odr = u32 bits }))

unfoldable pub set_port : ℕ → ℕ → List Port → Run (List Port)
set_port port bits ports = on_port port ports (λ p. returns (record p { bsrr_set = u16 bits }))

unfoldable pub clear_port : ℕ → ℕ → List Port → Run (List Port)
clear_port port bits ports = on_port port ports (λ p. returns (record p { bsrr_clear = u16 bits }))

-- `gpioReadPad`, `gpioSetPad`, `gpioClearPad`, `gpioSetPadMode`.
unfoldable pub read_pad : ℕ → List Port → Run ℕ
unfolding read_port gpio_port gpio_pad
read_pad gpio ports =
    read_port (gpio_port gpio) ports >>= λ v. returns (bit_and (v >>> gpio_pad gpio) 1)

unfoldable pub set_pad : ℕ → List Port → Run (List Port)
unfolding set_port gpio_port gpio_pad
set_pad gpio ports = set_port (gpio_port gpio) (1 <<< gpio_pad gpio) ports

unfoldable pub clear_pad : ℕ → List Port → Run (List Port)
unfolding clear_port gpio_port gpio_pad
clear_pad gpio ports = clear_port (gpio_port gpio) (1 <<< gpio_pad gpio) ports

unfoldable pub set_pad_mode_of : ℕ → ℕ → List Port → Run (List Port)
unfolding setportmode gpio_port gpio_pad
set_pad_mode_of gpio mode ports = setportmode (gpio_port gpio) (1 <<< gpio_pad gpio) mode ports
