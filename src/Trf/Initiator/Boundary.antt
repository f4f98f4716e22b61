-- ===== src/Trf/Initiator/Boundary.antt =====
-- The hand-over from `trf797x_transmit` to the loop that sends the rest, where a part ends as the FIFO is
-- full.
use nfcee_fw.Base.{
  suc, ◌∙◌, ◌+◌, ◌-◌, ◌≡◌, ◌≤◌, ◌<◌, ◌^◌, refl, arith, false, some, none, List, ◌∷◌, length, take,
  take-of_le, min,
}
use nfcee_fw.Run.{returns, ◌>>=◌, Must}
use nfcee_fw.Nfc.{Iovec}
use nfcee_fw.Trf.{Hal, bytes_of}
use nfcee_fw.Trf.Registers.{fifo_size}
use nfcee_fw.Trf.Spi.{toggle_chip_select}
use nfcee_fw.Trf.Fifo.{total_bits, transmit_header, transmit, fill_loop}
use nfcee_fw.Trf.Fifo.Rounds.{filling, fill_loop-stops, fill_loop-round, fill_round-fits}
use nfcee_fw.Trf.Initiator.{after_transmit}

transmit_lem :
    {W : Type 0} (hal : Hal W) (tx : List Iovec) (w : W)
    → transmit hal tx (length tx) false w ≡ (
        fill_loop hal
          (length tx + 2)
          (filling tx 0 none)
          (hal.send (transmit_header (total_bits tx) false) w)
        >>= λ (s, w1). returns (s, toggle_chip_select hal w1))
unfolding transmit
transmit_lem hal tx w = rw (take-of_le (length tx) tx (omega arith)) refl

-- The loop stops behind a part that fills the FIFO.
fill_loop-full :
    {W : Type 0} (hal : Hal W) (v u : Iovec) (us : List Iovec) (w : W)
    → bytes_of v.bits ≡ 127
    → 127 ≤ length v.base
    → fill_loop hal (length (v ∷ u ∷ us) + 2) (filling (v ∷ u ∷ us) 0 none) w
      ≡ returns (
        filling (u ∷ us) (0 + bytes_of v.bits) (some (bytes_of v.bits)),
        hal.send (take (min (bytes_of v.bits) (fifo_size - 0)) v.base) w,
      )
unfolding total_bits
fill_loop-full hal v u us w full hold =
    let fuel : length (v ∷ u ∷ us) + 2 ≡ suc (length (v ∷ u ∷ us) + 1) = omega arith in
    rw fuel (
      fill_loop-round hal v (u ∷ us) (length (v ∷ u ∷ us) + 1) 0 none w (ground (arith, full))
        (omega arith)
      ∙ rw (fill_round-fits v u us 0 none (omega arith)) (
          fill_loop-stops hal (length (v ∷ u ∷ us) + 1)
            (filling (u ∷ us) (0 + bytes_of v.bits) (some (bytes_of v.bits)))
            (hal.send (take (min (bytes_of v.bits) (fifo_size - 0)) v.base) w) (omega arith)
            (ground (arith, full))))

-- The first part of a message fills the FIFO exactly, another one of fewer than 127 bytes follows. Then
-- the loop that sends the rest starts with the second part and the length of the first: it counts on
-- almost 2 ^ 32 bytes that are left, of a part that has been sent in no part.
pub full_part_wraps :
    {W : Type 0} (hal : Hal W) (v u : Iovec) (us : List Iovec) (w : W)
    → bytes_of v.bits ≡ 127
    → 127 ≤ length v.base
    → 0 < u.bits
    → bytes_of u.bits < 127
    → Must
        (λ (s, txlen). s.left ≡ 2 ^ 32 + bytes_of u.bits - 127)
        (transmit hal (v ∷ u ∷ us) (length (v ∷ u ∷ us)) false w >>= λ (s, w1). after_transmit s)
unfolding after_transmit
full_part_wraps {W} hal v u us w full hold more few = rw (transmit_lem hal (v ∷ u ∷ us) w) (
    rw
      (fill_loop-full hal v u us (hal.send (transmit_header (total_bits (v ∷ u ∷ us)) false) w) full
        hold)
      (omega arith))
