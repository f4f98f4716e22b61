-- ===== src/Nfc/Layer4/LateAnswer.antt =====
-- Receiving an answer in chained blocks from a card that may ask for more time before each of them.
use mathlib.Core.Path.{ap₂}
use nfcee_fw.Base.{
  ℕ, zero, suc, ◌+◌, ◌≤◌, ◌%◌, ◌/◌, Bool, true, false, some, List, [], ◌∷◌, ◌++◌, ◌≡◌, refl, sym,
  ap, ◌∙◌, arith, length, take, drop, get_or, overlay, bit_or, length-overlay, length-append,
  append_assoc, take-of_le,
}
use nfcee_fw.Run.{returns}
use nfcee_fw.Crc.{crca}
use nfcee_fw.Nfc.{Driver, Reply}
use nfcee_fw.Nfc.Blocks.{togglebit}
use nfcee_fw.Nfc.Tape.{Sent, Tape, tape_fops}
use nfcee_fw.Nfc.Layer4.{next_block, exchange_block, after_accept, after_block, receive_chain}
use nfcee_fw.Nfc.Layer4.Ack.{tape_of, togglebit-cases}
use nfcee_fw.Nfc.Layer4.Answer.{
  trailer, received, IsBlockByte, chained_byte_of, last_byte_of, accept_block-payload,
}
use nfcee_fw.Nfc.Layer4.Waiting.{Plea, Final, pleas_then, grants}
use nfcee_fw.Nfc.Layer4.Grants.{exchange_block-grants}
use nfcee_fw.Nfc.Layer4.LateAcks.{Part, bytes_of, after_parts}

abbrev pub block_of : ℕ → List ℕ → Final
block_of first chunk = record {
  first = first;
  tail = chunk ++ trailer first chunk;
  more = length chunk;
}

-- The blocks of an answer: all but the last announce that another one follows.
abbrev pub late_answer : Driver → List Part → Part → List Reply → List Reply
late_answer d [] final rest =
    pleas_then final.pleas (block_of (bit_or 0x02 (togglebit d.block)) final.bytes) rest
late_answer d (c ∷ cs) final rest =
    pleas_then c.pleas (block_of (bit_or 0x12 (togglebit d.block)) c.bytes)
      (late_answer (next_block d) cs final rest)

-- What the reader sends: `frame`, and for each block after the first an acknowledgement, each with
-- the answers to the requests that follow it.
abbrev pub late_asked : Driver → List ℕ → List Part → Part → List Sent
late_asked d frame [] final =
    record { frame = frame; cap = 256; timeout = d.fwt } ∷ grants 256 d final.pleas
late_asked d frame (c ∷ cs) final =
    record { frame = frame; cap = 256; timeout = d.fwt }
    ∷ (grants 256 d c.pleas
        ++ late_asked (next_block d) (bit_or 0xA2 (togglebit (next_block d).block) ∷ []) cs final)

-- No block is longer than the buffer, and the card asks `k` times at most for each.
abbrev pub AllShort : ℕ → List Part → Type 0
AllShort k [] = Unit
AllShort k (c ∷ cs) = (length c.bytes ≤ 253) × (length c.pleas ≤ k) × AllShort k cs

overlay-front : (xs ys : List ℕ) → take (length ys) xs ≡ ys → overlay xs ys ≡ xs
overlay-front [] ys e = refl
overlay-front (x ∷ xs) [] e = refl
overlay-front (x ∷ xs) (y ∷ ys) e =
    ap₂ (λ z zs. z ∷ zs) (sym (ap (λ l. get_or l 0 0) e))
      (overlay-front xs ys (ap (λ l. drop 1 l) e))

-- The buffer that a reply was read into, by its front.
whole_reply :
    (first : ℕ) (stored buf : List ℕ)
    → length stored ≤ 255
    → length buf ≡ 256
    → take (length (take 256 (first ∷ stored))) buf ≡ take 256 (first ∷ stored)
    → (tail : List ℕ) × (length tail ≡ 255) × (buf ≡ first ∷ overlay tail stored)
whole_reply first stored [] short size e = absurd (omega arith)
whole_reply first stored (b ∷ buf) short size e =
    let whole : take 255 stored ≡ stored = take-of_le 255 stored short in
    let front : take (suc (length stored)) (b ∷ buf) ≡ first ∷ stored = rw whole at e in
    (
      buf,
      omega (arith, size),
      ap₂ (λ z zs. z ∷ zs) (ap (λ l. get_or l 0 0) front)
          (sym (overlay-front buf stored (ap (λ l. drop 1 l) front))),
    )

module _ (d : Driver) (first : ℕ) (last : Bool)
    (byte : IsBlockByte (togglebit d.block) first last) where
  -- One round of the second loop, when its exchange has brought a block.
  receive_chain-step :
      (fuel txlen b : ℕ) (buf tail chunk so_far : List ℕ) (rxlen : ℕ) (w w' : Tape)
      → length chunk ≤ 253
      → length tail ≡ 255
      → exchange_block tape_fops d fuel false (txlen + 1) (bit_or b (togglebit d.block) ∷ buf) w
        ≡ returns (
          some (suc (suc (suc (length chunk)))),
          first ∷ overlay tail (chunk ++ trailer first chunk),
          w',
        )
      → receive_chain tape_fops (suc fuel) d txlen (b ∷ buf) rxlen (take rxlen so_far) w
        ≡ after_accept
            (λ buf' out' v. receive_chain tape_fops fuel (next_block d) 0 buf' rxlen out' v)
            d
            (first ∷ overlay tail (chunk ++ trailer first chunk))
            w'
            (take rxlen (so_far ++ chunk))
  unfolding receive_chain after_block
  receive_chain-step fuel txlen b buf tail chunk so_far rxlen w w' small size exchanged =
      let three : suc (suc (suc (length chunk))) ≡ length chunk + 3 = omega arith in
      rw exchanged (
        rw byte.iblock (
          rw three (
            rw
              (accept_block-payload d first last byte 0 tail chunk so_far rxlen
                (crca (first ∷ chunk) % 256) (crca (first ∷ chunk) / 256) small size)
              refl)))

  receive_chain-late_round :
      (fuel txlen b : ℕ) (buf chunk so_far : List ℕ) (pleas : List Plea) (rxlen : ℕ)
      (rest : List Reply) (sent : List Sent)
      → length pleas + 1 ≤ fuel
      → length chunk ≤ 253
      → length buf ≡ 255
      → (buf' : List ℕ) × (length buf' ≡ 255)
        × (receive_chain tape_fops
              (suc fuel)
              d
              txlen
              (b ∷ buf)
              rxlen
              (take rxlen so_far)
              (tape_of (pleas_then pleas (block_of first chunk) rest) sent)
            ≡ after_accept
                (λ buf'' out' v. receive_chain tape_fops fuel (next_block d) 0 buf'' rxlen out' v)
                d
                (first ∷ buf')
                (tape_of rest (
                  sent
                  ++ record {
                    frame = take (txlen + 1) (bit_or b (togglebit d.block) ∷ buf);
                    cap = 256;
                    timeout = d.fwt;
                  }
                    ∷ grants 256 d pleas))
                (take rxlen (so_far ++ chunk)))
  receive_chain-late_round fuel txlen b buf chunk so_far pleas rxlen rest sent enough small size =
      let stored = chunk ++ trailer first chunk in
      let full = bit_or b (togglebit d.block) ∷ buf in
      let left : Tape = tape_of rest (
        sent
        ++ record { frame = take (txlen + 1) full; cap = 256; timeout = d.fwt }
          ∷ grants 256 d pleas) in
      let (buf1, same, front, ends) =
        exchange_block-grants d (block_of first chunk) rest pleas fuel (txlen + 1) false full sent
          byte.no_wtx refl enough (ap suc size) in
      let (tail, size', shape) =
        whole_reply first stored buf1 (omega (arith, length-append chunk (trailer first chunk)))
          same front in
      (
        overlay tail stored,
        length-overlay tail stored ∙ size',
        receive_chain-step fuel txlen b buf tail chunk so_far rxlen _ _ small size'
            (ends ∙ ap (λ l. returns (some (suc (suc (suc (length chunk)))), l, left)) shape),
      )

-- The second loop: it stores the answer's bytes in order, as far as they fit, however often the card
-- asks for more time.
pub receive_chain-late :
    (chunks : List Part) (final : Part) (k fuel : ℕ) (d : Driver) (txlen b : ℕ)
    (buf so_far : List ℕ) (rxlen : ℕ) (rest : List Reply) (sent : List Sent)
    → length chunks + k + 2 ≤ fuel
    → AllShort k chunks
    → length final.bytes ≤ 253
    → length final.pleas ≤ k
    → length buf ≡ 255
    → receive_chain tape_fops fuel d txlen
        (b ∷ buf)
        rxlen
        (take rxlen so_far)
        (tape_of (late_answer d chunks final rest) sent)
      ≡ returns (
        received
            (after_parts (next_block d) chunks)
            (take rxlen (so_far ++ (bytes_of chunks ++ final.bytes))),
        tape_of rest (
            sent
            ++ late_asked d (take (txlen + 1) (bit_or b (togglebit d.block) ∷ buf)) chunks final),
      )
unfolding next_block after_accept
receive_chain-late chunks final k zero d txlen b buf so_far rxlen rest sent enough all small few
      size =
    absurd (omega arith)
receive_chain-late [] final k (suc fuel) d txlen b buf so_far rxlen rest sent enough all small few
      size =
    let byte = last_byte_of (togglebit d.block) (togglebit-cases d.block) in
    let (buf', size', step) =
      receive_chain-late_round d (bit_or 0x02 (togglebit d.block)) true byte fuel txlen b buf
        final.bytes so_far final.pleas rxlen rest sent (omega arith) small size in
    step ∙ rw byte.ends
receive_chain-late (c ∷ cs) final k (suc fuel) d txlen b buf so_far rxlen rest sent enough
      (short, asks, all) small few size =
    let byte = chained_byte_of (togglebit d.block) (togglebit-cases d.block) in
    let frame = take (txlen + 1) (bit_or b (togglebit d.block) ∷ buf) in
    let now : List Sent =
      record { frame = frame; cap = 256; timeout = d.fwt } ∷ grants 256 d c.pleas in
    let (buf', size', step) =
      receive_chain-late_round d (bit_or 0x12 (togglebit d.block)) false byte fuel txlen b buf
        c.bytes so_far c.pleas rxlen (late_answer (next_block d) cs final rest) sent (omega arith)
        short size in
    step
    ∙ rw byte.ends (
        receive_chain-late cs final k fuel (next_block d) 0 0xA2 buf' (so_far ++ c.bytes) rxlen rest
          (sent ++ now) (omega arith) all small few size'
        ∙ ap₂
            (λ o s. returns (
              received (after_parts (next_block (next_block d)) cs) (take rxlen o),
              tape_of rest s,
            ))
            (append_assoc so_far c.bytes (bytes_of cs ++ final.bytes)
              ∙ ap (λ l. so_far ++ l) (sym (append_assoc c.bytes (bytes_of cs) final.bytes)))
            (append_assoc sent now (
              late_asked (next_block d) (bit_or 0xA2 (togglebit (next_block d).block) ∷ []) cs
                final)))
