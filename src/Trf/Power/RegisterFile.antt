-- ===== src/Trf/Power/RegisterFile.antt =====
-- The registers of the reader chip, as trf797x_lld.c writes them over SPI.
use nfcee_fw.Base.{ℕ, ◌≡◌, ◌∙◌, Bool, false, ◌&&◌, ◌||◌, [], ◌∷◌, ltb, ◌==◌}
use nfcee_fw.Trf.{Hal}
use nfcee_fw.Trf.Registers.{Reg, address, iso_ctrl}
use nfcee_fw.Trf.Spi.{write_byte, register_write1, acquire_bus, release_bus}

-- Whether a write to `reg` may change the register at `a`. The chip gives the registers 2 to 11 new
-- values when the protocol is chosen.
abbrev pub is_touched : Reg → ℕ → Bool
is_touched reg a = (a == address reg) || ((address reg == address iso_ctrl) && ltb 1 a && ltb a 12)

-- The values of the registers by their addresses, and the byte that has opened the transfer. A single
-- byte that is sent to a register is its new value. What commands and the supply do to the registers
-- is left open.
pub record RegisterFile {W : Type 0} (hal : Hal W) : Type 0 where
  pub value : W → ℕ → ℕ
  pub opened : W → ℕ
  pub on_open :
      (reg : Reg) (w : W)
      → (opened (hal.exchange (write_byte reg 1) w) ≡ write_byte reg 1)
        × ((a : ℕ) → value (hal.exchange (write_byte reg 1) w) a ≡ value w a)
  pub on_send :
      (reg : Reg) (v : ℕ) (w : W)
      → opened w ≡ write_byte reg 1
      → (value (hal.send (v ∷ []) w) (address reg) ≡ v)
        × ((a : ℕ) → is_touched reg a ≡ false → value (hal.send (v ∷ []) w) a ≡ value w a)
  pub on_select : (w : W) (a : ℕ) → value (hal.select w) a ≡ value w a
  pub on_unselect : (w : W) (a : ℕ) → value (hal.unselect w) a ≡ value w a
  pub on_acquire : (w : W) (a : ℕ) → value (hal.acquire w) a ≡ value w a
  pub on_release : (w : W) (a : ℕ) → value (hal.release w) a ≡ value w a
  pub on_delay : (n : ℕ) (w : W) (a : ℕ) → value (hal.delay_ns n w) a ≡ value w a
  pub on_broadcast : (flags : ℕ) (w : W) (a : ℕ) → value (hal.broadcast flags w) a ≡ value w a

module _ {W : Type 0} (hal : Hal W) (file : RegisterFile hal) where
  open file use {
    value, opened, on_open, on_send, on_select, on_unselect, on_acquire, on_release, on_delay,
  }

  pub register_write1-same :
      (reg : Reg) (v : ℕ) (w : W) → value (register_write1 hal reg v w) (address reg) ≡ v
  unfolding register_write1
  register_write1-same reg v w =
      (on_send reg v (hal.exchange (write_byte reg 1) w) (on_open reg w).0).0

  pub register_write1-other :
      (reg : Reg) (v : ℕ) (w : W) (a : ℕ)
      → is_touched reg a ≡ false
      → value (register_write1 hal reg v w) a ≡ value w a
  unfolding register_write1
  register_write1-other reg v w a h =
      (on_send reg v (hal.exchange (write_byte reg 1) w) (on_open reg w).0).1 a h
      ∙ (on_open reg w).1 a

  pub acquire_bus-value : (w : W) (a : ℕ) → value (acquire_bus hal w) a ≡ value w a
  unfolding acquire_bus
  acquire_bus-value w a = on_delay _ _ a ∙ on_select _ a ∙ on_delay _ _ a ∙ on_acquire w a

  pub release_bus-value : (w : W) (a : ℕ) → value (release_bus hal w) a ≡ value w a
  unfolding release_bus
  release_bus-value w a = on_release _ a ∙ on_unselect _ a ∙ on_delay _ w a
