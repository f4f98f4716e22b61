-- ===== src/Lib.antt =====
-- NFCee firmware: a reader for contactless cards, with a TRF7970A chip on an STM32 under ChibiOS.
--
-- The firmware has four layers. A thread (nfc.c) polls for cards through libs/nfc, which knows the
-- protocols ISO 14443-3 and 14443-4 and drives any reader that implements `struct nfc_device`.
-- drivers/trf797x is such a reader: it exchanges frames through the chip's FIFO, on the SPI bus.
-- drivers/gpio sets the pads of the microcontroller.
--
-- Shared:
--   Base, Base/Tests, Base/Lists   names of the libraries, Boolean tests on numbers, lists
--   Word, Bits, Bits/...           casts and shifts of unsigned integers; laws of `&`, `|`, `^`
--   Run                            the end of a call: it returns, touches memory that is not its own, or
--                                  outlives the loop counter of the model
--
-- libs/nfc:
--   Crc         `crca` of iso14443a.c; Crc/Reference has the shift register it is compared with
--   Nfc         the types of include/nfc.h and include/iso14443.h. A `struct nfc_device` is the record
--               `Device` of functions over a state `W`, a `Driver` joins the drivers of types A and B, an
--               `int` result is a `Ret`, and a receive buffer is its size in and the bytes stored out.
--   Nfc/Tables  `fsci2fsc`, `fsd2fsdi`, `fwi2fw` of iso14443.c
--   Nfc/Blocks  the macros `is_iblock` to `togglebit` of iso14443.c
--   Nfc/Frames  the three ways to send a frame of iso14443a.c
--   Nfc/TypeA   `nfc_iso14443a_open`: `iso14443a_open`, with `cascade` for the loop over the levels
--               (Nfc/TypeA/Levels, Ats and Card have a card's side of it)
--   Nfc/Layer4  `nfc_iso14443_transceive`: `iso14443_transceive`, with `send_chain` for the loop that sends
--               and `receive_chain` for the loop that receives; the 256 bytes of `buffer` are passed from
--               step to step, so that what one answer leaves there is seen by the next block.
--               Nfc/Layer4/Late has a card that asks for more time, in parts with their requests.
--   Nfc/Session `nfc_iso14443_open` and `nfc_iso14443_close` of iso14443.c, and nfc.c
--   Nfc/Tape    a card as the list of its answers, which writes down what it is sent
--
-- drivers/trf797x:
--   Trf            the configuration, the driver's state, and the operating system and bus as a `Hal`
--   Trf/Registers  the constants of trf797x_lld.h
--   Trf/Spi        commands, registers and bus access of trf797x_lld.c
--   Trf/Fifo       `trf797x_transmit`, `trf797x_fifo_fill`, `trf797x_fifo_drain` of trf797x_lld.c
--   Trf/Power      trf797x.c, and start and stop of trf797x_initiator.c
--   Trf/Initiator  `trf797x_initiator_transceive`
--   Trf/NfcDevice  trf797x_device.c
--   Trf/Contract, Trf/Power/RegisterFile
--                  what is relied on of the chip and of ChibiOS during an exchange, and of the chip's
--                  registers
--   Trf/Exchange   the exchange with a chip that keeps that contract, step by step, and in
--                  Trf/Exchange/Device below a frame of libs/nfc
--   Trf/Bench      a chip that is read from lists, for tests
--
-- drivers/gpio:  Gpio, with the register fields in Gpio/BitFields and Gpio/Mode, and the loop in Gpio/PortMode.
--                Gpio/PadModes and Gpio/PortModes have the ports as a map from pads to modes.
-- board:         Board, with `boardInit` and the SPI clock's divisor, and Board/Pins for board.h.
-- usbcfg.c:      Usb, with the descriptors in Usb/Descriptors and what is relied on of the macros that lay
--                them out in Usb/Layout.
-- nfc.c:         Polling has the loop of the thread, Startup its beginning and the interrupt callback.
-- main.c, libs/trace, libs/newlib:  Startup.
--
-- Numbers are natural numbers; where the source's unsigned types wrap around, the reduction modulo
-- 2 ^ 8, 2 ^ 16 or 2 ^ 32 is written out, `size_t` and pointers having 32 bits. A read or write outside
-- of an array ends the call with `fault`.
--
-- Loops whose number of rounds is in the hands of a card or of an interrupt run on fuel, one unit for
-- each round: the loops of Nfc/Layer4 and of Trf/Initiator. The loop of `trf797x_transmit` has fuel for
-- two rounds more than there are parts, each round but the last uses up one part; that of
-- `_gpio_lld_setportmode` has 16 rounds, as the mask has 16 bits. Trf/Pending counts the interrupts that a
-- chip has still to signal, for which the loops of Trf/Initiator need as much fuel.
--
-- Not under this repository, and parameters of the models: ChibiOS (SPI, events, delays, the conversion
-- of milliseconds to ticks, the USB stack and its descriptor macros), the vendor's register bits, and
-- the chip. Not modelled: config/, which sets up ChibiOS (of config/trfconf.h the values that the code
-- depends on are taken over); `__early_init`, which calls the clock setup of ChibiOS; and the delay after
-- power-on in `nfc_iso14443_open`, which changes no state.
pub mod Base
pub mod Word
pub mod Bits
pub mod Run
pub mod Crc
pub mod Nfc
pub mod Trf
pub mod Gpio
pub mod Board
pub mod Usb
pub mod Polling
pub mod Startup
