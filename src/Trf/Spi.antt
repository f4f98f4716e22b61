-- ===== src/Trf/Spi.antt =====
-- Commands and registers over the SPI bus: the first half of drivers/trf797x/trf797x_lld.c.
use nfcee_fw.Base.{
  ℕ, Bool, true, false, ◌&&◌, List, [], ◌∷◌, bit_and, bit_or, ltb, ◌==◌, if◌then◌else◌, length,
  get_or,
}
use nfcee_fw.Trf.{Hal}
use nfcee_fw.Trf.Registers.{Reg, irq_status, address, Command, opcode}

-- `CMD_BIT_OPCODE`, `REGISTER_WRITE`, `REGISTER_READ`, `COMMAND`: the byte that opens a transfer.
unfoldable pub register_byte : ℕ → ℕ → ℕ
register_byte adr len = bit_or (bit_and adr 0x1f) (if ltb 1 len then 0x20 else 0)

unfoldable pub write_byte : Reg → ℕ → ℕ
unfolding register_byte
write_byte reg len = register_byte (address reg) len

unfoldable pub read_byte : Reg → ℕ → ℕ
unfolding register_byte
read_byte reg len = bit_or 0x40 (register_byte (address reg) len)

unfoldable pub command_byte : Command → ℕ
command_byte cmd = bit_or 0x80 (bit_and (opcode cmd) 0x1f)

module _ {W : Type 0} (hal : Hal W) where
  -- `TOGGLE_CHIP_SELECT`.
  unfoldable pub toggle_chip_select : W → W
  toggle_chip_select w =
      hal.delay_ns 200 (hal.select (hal.delay_ns 300 (hal.unselect (hal.delay_ns 200 w))))

  unfoldable pub acquire_bus : W → W
  acquire_bus w = hal.delay_ns 200 (hal.select (hal.delay_ns 300 (hal.acquire w)))

  unfoldable pub release_bus : W → W
  release_bus w = hal.release (hal.unselect (hal.delay_ns 200 w))

  -- `trf797x_command`.
  unfoldable pub command : Command → W → W
  unfolding command_byte
  command cmd w = hal.exchange (command_byte cmd) w

  abbrev pub toggle_after : ℕ → W → W
  toggle_after len w = if ltb 1 len then toggle_chip_select w else w

  -- The transfer of `trf797x_register_read`; without `wanted` the destination is the null pointer.
  unfoldable pub read_transfer : Reg → Bool → ℕ → W → List ℕ × W
  unfolding read_byte toggle_chip_select
  read_transfer reg wanted len w =
      let w1 = hal.exchange (read_byte reg len) w in
      if wanted
      then (let (bytes, w2) = hal.receive len w1 in (bytes, toggle_after len w2))
      else ([], toggle_after len (hal.ignore len w1))

  abbrev pub is_irq_status : Reg → Bool
  is_irq_status irq_status = true
  is_irq_status _ = false

  -- `trf797x_register_read`: one byte of the interrupt status is read with a dummy byte behind it,
  -- which clears the interrupt.
  unfoldable pub register_read : Reg → Bool → ℕ → W → List ℕ × W
  unfolding read_transfer
  register_read reg wanted len w =
      if is_irq_status reg && (len == 1)
      then (let (tmp, w1) = read_transfer irq_status true 2 w in
          (if wanted then get_or tmp 0 0 ∷ [] else [], w1))
      else read_transfer reg wanted len w

  -- `trf797x_register_read1`.
  unfoldable pub register_read1 : Reg → W → ℕ × W
  unfolding register_read
  register_read1 reg w = let (bytes, w1) = register_read reg true 1 w in (get_or bytes 0 0, w1)

  unfoldable pub register_write : Reg → List ℕ → W → W
  unfolding write_byte toggle_chip_select
  register_write reg bytes w =
      toggle_after (length bytes) (hal.send bytes (hal.exchange (write_byte reg (length bytes)) w))

  unfoldable pub register_write1 : Reg → ℕ → W → W
  unfolding register_write
  register_write1 reg value w = register_write reg (value ∷ []) w
