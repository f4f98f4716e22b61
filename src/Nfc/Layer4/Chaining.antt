-- ===== src/Nfc/Layer4/Chaining.antt =====
-- Sending a message in chained blocks to a card that acknowledges each of them.
use nfcee_fw.Base.{
  ℕ, zero, suc, ◌+◌, ◌≤◌, ◌<◌, true, false, some, List, [], ◌∷◌, ◌++◌, ◌≡◌, refl, sym, ap, ◌∙◌,
  arith, length, ltb, overlay, bit_or, lt→ltb, take-append_left, drop-append_left, length-append,
  length-overlay, append_assoc, append-nil,
}
use nfcee_fw.Run.{returns}
use nfcee_fw.Nfc.{Driver, Reply}
use nfcee_fw.Nfc.Blocks.{togglebit}
use nfcee_fw.Nfc.Tape.{Sent, tape_fops}
use nfcee_fw.Nfc.Layer4.{inf_size, copy_behind, next_block, send_block, after_send, send_chain}
use nfcee_fw.Nfc.Layer4.Ack.{
  flatten, AllOf, acks, chained_block, chained_blocks, after_blocks, tape_of, take-copy_behind,
  length-copy_behind, send_block-ack, acknowledgement, proper_ack, ack_low, ack_high,
}

-- The same for a block that was put together in the buffer, with fuel for two rounds or more.
send_block-filled :
    (d : Driver) (fuel : ℕ) (p buf : List ℕ) (rest : List Reply) (sent : List Sent)
    → 2 ≤ fuel
    → inf_size d ≡ length p
    → length p < length buf
    → let filled = copy_behind (bit_or 0x12 (togglebit d.block)) p buf in
      send_block tape_fops d fuel filled (tape_of (proper_ack (togglebit d.block) ∷ rest) sent)
      ≡ returns (
        some 3,
        overlay filled (
            acknowledgement d
              (ack_low (togglebit d.block))
              (ack_high (togglebit d.block))
              rest
              sent),
        tape_of rest (sent ++ chained_block d p ∷ []),
      )
send_block-filled d zero p buf rest sent two hk room = absurd (omega arith)
send_block-filled d (suc zero) p buf rest sent two hk room = absurd (omega arith)
send_block-filled d (suc (suc fuel)) p [] rest sent two hk room = absurd (omega arith)
send_block-filled d (suc (suc fuel)) p (b ∷ buf) rest sent two hk room =
    rw
      (send_block-ack d (ack_low (togglebit d.block)) (ack_high (togglebit d.block)) rest sent fuel
        _ _)
      (rw (hk, take-copy_behind (bit_or 0x12 (togglebit d.block)) p (b ∷ buf) room))

inf_size-next_block : (d : Driver) → inf_size (next_block d) ≡ inf_size d
unfolding inf_size next_block
inf_size-next_block d = refl

-- One round of the first loop.
send_chain-ack :
    (d : Driver) (fuel : ℕ) (p tail buf : List ℕ) (rest : List Reply) (sent : List Sent)
    → 2 ≤ fuel
    → inf_size d ≡ length p
    → length p ≤ 253
    → 0 < length tail
    → length buf ≡ 256
    → (buf' : List ℕ) × (length buf' ≡ 256)
      × (send_chain tape_fops
            (suc fuel)
            d
            (p ++ tail)
            buf
            (tape_of (proper_ack (togglebit d.block) ∷ rest) sent)
          ≡ send_chain tape_fops fuel
              (next_block d)
              tail
              buf'
              (tape_of rest (sent ++ chained_block d p ∷ [])))
unfolding send_chain after_send
send_chain-ack d fuel p tail buf rest sent two hk small more size = (
  overlay filled
      (acknowledgement d (ack_low (togglebit d.block)) (ack_high (togglebit d.block)) rest sent),
  length-overlay filled _ ∙ length-copy_behind first p buf ∙ size,
  rw hk (
      rw long (
        rw fits (
          rw (take-append_left p tail, drop-append_left p tail)
            (rw (send_block-filled d fuel p buf rest sent two hk (omega arith)))))),
)
  where
    first : ℕ
    first = bit_or 0x12 (togglebit d.block)

    filled : List ℕ
    filled = copy_behind first p buf

    long : ltb (length p) (length (p ++ tail)) ≡ true
    long = lt→ltb _ _ (omega (arith, length-append p tail))

    fits : ltb 255 (length p) ≡ false
    fits = ground arith

-- The first loop sends the parts in order, in blocks with alternating numbers, and leaves the rest.
pub send_chain-acks :
    (parts : List (List ℕ)) (last : List ℕ) (fuel : ℕ) (d : Driver) (buf : List ℕ)
    (rest : List Reply) (sent : List Sent)
    → length parts + 2 ≤ fuel
    → inf_size d ≤ 253
    → AllOf (inf_size d) parts
    → length last ≤ inf_size d
    → 0 < length last
    → length buf ≡ 256
    → (buf' : List ℕ) × (length buf' ≡ 256)
      × (send_chain tape_fops fuel d (flatten parts ++ last) buf (tape_of (acks d parts rest) sent)
          ≡ returns (
            some last,
            after_blocks d parts,
            buf',
            tape_of rest (sent ++ chained_blocks d parts),
          ))
send_chain-acks [] last zero d buf rest sent enough small sized short more size =
    absurd (omega arith)
send_chain-acks [] last (suc fuel) d buf rest sent enough small sized short more size =
    (buf, size, unfold send_chain in rw no_more (rw (append-nil sent)))
  where
    no_more : ltb (inf_size d) (length last) ≡ false
    no_more = ground arith
send_chain-acks (p ∷ parts) last zero d buf rest sent enough small sized short more size =
    absurd (omega arith)
send_chain-acks (p ∷ parts) last (suc fuel) d buf rest sent enough small sized short more size =
    let step =
      send_chain-ack d fuel p (flatten parts ++ last) buf (acks (next_block d) parts rest) sent
        (omega arith) (sym sized.0) (omega arith)
        (omega (arith, length-append (flatten parts) last)) size in
    let more' =
      send_chain-acks parts last fuel (next_block d) step.0 rest (sent ++ chained_block d p ∷ [])
        (omega arith) (rw (inf_size-next_block d) small) (rw (inf_size-next_block d) sized.1)
        (rw (inf_size-next_block d) short) more step.1 in
    (
      more'.0,
      more'.1,
      rw (append_assoc p (flatten parts) last) (
          step.2
          ∙ more'.2
          ∙ ap (λ s. returns (some last, after_blocks d (p ∷ parts), more'.0, tape_of rest s))
              (append_assoc sent (chained_block d p ∷ []) (chained_blocks (next_block d) parts))),
    )
