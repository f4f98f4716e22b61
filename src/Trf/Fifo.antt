-- ===== src/Trf/Fifo.antt =====
-- The chip's FIFO: the second half of drivers/trf797x/trf797x_lld.c.
pub mod Wire
pub mod Rounds
pub mod Transmit
pub mod Halts
pub mod Header
use nfcee_fw.Base.{
  ℕ, zero, suc, ◌+◌, ◌-◌, ◌*◌, ◌/◌, ◌%◌, ◌^◌, min, Bool, true, false, ◌&&◌, Option, none, some,
  List, [], ◌∷◌, bit_and, bit_or, ltb, ◌==◌, if◌then◌else◌, length, take, drop,
}
use nfcee_fw.Word.{u8, ◌<<<◌, ◌>>>◌}
use nfcee_fw.Run.{Run, returns, fault, out_of_fuel, ◌>>=◌}
use nfcee_fw.Nfc.{Iovec}
use nfcee_fw.Trf.{Hal, bytes_of}
use nfcee_fw.Trf.Registers.{fifo_size, fifo, fifo_status, tx_length1, reset_fifo, tx_crc, tx_no_crc}
use nfcee_fw.Trf.Spi.{
  command_byte, write_byte, toggle_chip_select, register_read, register_read1, register_write,
}

-- The first loop of `trf797x_transmit`: the number of bits of all parts.
unfoldable pub total_bits : List Iovec → ℕ
total_bits [] = 0
total_bits (v ∷ vs) = v.bits + total_bits vs

-- The five bytes that reset the FIFO, start the transmission, open the transfer at the length
-- registers, and give the length.
unfoldable pub transmit_header : ℕ → Bool → List ℕ
unfolding command_byte write_byte
transmit_header bits crc =
    command_byte reset_fifo
    ∷ command_byte (if crc then tx_crc else tx_no_crc)
    ∷ write_byte tx_length1 (2 + min fifo_size (bytes_of bits))
    ∷ u8 (bits >>> 7)
    ∷ u8 (bit_or (bit_and bits 0xFF <<< 1) (if bits % 8 == 0 then 0 else 1))
    ∷ []

-- The variables of the second loop: what `*tx` points to, `*len`, and the locals. `sent` has no value
-- before the first round.
pub record Filling : Type 0 where
  pub parts : List Iovec
  pub len : ℕ
  pub bits : ℕ
  pub fifo_used : ℕ
  pub sent : Option ℕ

-- `spiSend(spi, n, data)` reads `n` bytes from `data`.
unfoldable pub send_bytes : {W : Type 0} → Hal W → ℕ → List ℕ → W → Run W
send_bytes hal n bytes w =
    if ltb (length bytes) n then fault else returns (hal.send (take n bytes) w)

-- `if (sent == bytes) { if (--(*len)) (*tx)++; }`.
abbrev pub advance : List Iovec → List Iovec → ℕ → Bool → List Iovec × ℕ
advance here rest len whole =
    if whole then (if len - 1 == 0 then (here, 0) else (rest, len - 1)) else (here, len)

unfoldable pub fill_round : Iovec → List Iovec → Filling → Filling
fill_round v vs s =
    let sent = min (bytes_of v.bits) (fifo_size - s.fifo_used) in
    let (parts, len) = advance (v ∷ vs) vs s.len (sent == bytes_of v.bits) in
    record {
      parts = parts;
      len = len;
      bits = s.bits - v.bits;
      fifo_used = s.fifo_used + sent;
      sent = some sent;
    }

abbrev pub goes_on : Filling → Bool
goes_on s = ltb 0 s.bits && ltb s.fifo_used fifo_size

-- A round reads `**tx`, which lies outside the array if no part is left.
unfoldable pub fill_step :
    {W : Type 0}
    → Hal W
    → (Filling → W → Run (Filling × W))
    → List Iovec
    → Filling
    → W
    → Run (Filling × W)
unfolding send_bytes fill_round
fill_step hal again [] s w = fault
fill_step hal again (v ∷ vs) s w =
    send_bytes hal (min (bytes_of v.bits) (fifo_size - s.fifo_used)) v.base w >>= λ w1.
    again (fill_round v vs s) w1

-- `while (bits > 0 && fifo < TRF797X_FIFO_SIZE)`.
unfoldable pub fill_loop : {W : Type 0} → Hal W → ℕ → Filling → W → Run (Filling × W)
fill_loop hal zero s w = out_of_fuel
fill_loop hal (suc fuel) s w =
    if goes_on s
    then fill_step hal (λ s' w'. fill_loop hal fuel s' w') s.parts s w
    else returns (s, w)

-- `trf797x_transmit`; each round but the last uses up a part.
unfoldable pub transmit : {W : Type 0} → Hal W → List Iovec → ℕ → Bool → W → Run (Filling × W)
unfolding fill_loop total_bits transmit_header toggle_chip_select
transmit hal tx len crc w =
    let start : Filling = record {
      parts = tx;
      len = len;
      bits = total_bits (take len tx);
      fifo_used = 0;
      sent = none;
    } in
    fill_loop hal (length tx + 2) start
      (hal.send (transmit_header (total_bits (take len tx)) crc) w)
    >>= λ (s, w1). returns (s, toggle_chip_select hal w1)

module _ {W : Type 0} (hal : Hal W) where
  -- `read_fifo_bytes`.
  unfoldable pub read_fifo_bytes : W → ℕ × W
  unfolding register_read1
  read_fifo_bytes w =
      let (status, w1) = register_read1 hal fifo_status w in (bit_and status 0x7F, w1)

  -- `trf797x_fifo_fill`: as many of the `n` bytes at `bytes` as the FIFO has room for.
  unfoldable pub fifo_fill : List ℕ → ℕ → W → Run (ℕ × W)
  unfolding read_fifo_bytes register_write
  fifo_fill bytes n w =
      let (used, w1) = read_fifo_bytes w in
      let len = min n (fifo_size - used) in
      if ltb (length bytes) len
      then fault
      else returns (len, if ltb 0 len then register_write hal fifo (take len bytes) w1 else w1)

  -- `trf797x_fifo_drain` into a buffer with room for `room` bytes, or with none if `wanted` fails; the
  -- rest is read and dropped. It returns the bytes that were stored.
  unfoldable pub fifo_drain : Bool → ℕ → W → List ℕ × W
  unfolding read_fifo_bytes register_read
  fifo_drain wanted room w =
      let (available, w1) = read_fifo_bytes w in
      let len = if wanted then min room available else 0 in
      let (bytes, w2) = if ltb 0 len then register_read hal fifo true len w1 else ([], w1) in
      (
        bytes,
        if ltb 0 (available - len)
            then (register_read hal fifo false (available - len) w2).1
            else w2,
      )
