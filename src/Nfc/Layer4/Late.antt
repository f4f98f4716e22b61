-- ===== src/Nfc/Layer4/Late.antt =====
-- A whole exchange with an ISO 14443-4 card that asks for more time as often as it likes.
use nfcee_fw.Base.{
  ℕ, ◌+◌, ◌≤◌, ◌<◌, true, false, some, List, [], ◌∷◌, ◌++◌, ◌≡◌, sym, ap, ◌∙◌, arith, length, take,
  ltb, overlay, bit_or, length-overlay, take-of_le,
}
use nfcee_fw.Run.{returns}
use nfcee_fw.Nfc.{Driver, Reply}
use nfcee_fw.Nfc.Blocks.{togglebit}
use nfcee_fw.Nfc.Tape.{Sent, Tape, tape_fops}
use nfcee_fw.Nfc.Layer4.{
  Exchange, next_block, send_last, inf_size, iso14443_transceive, is_tcl, receive_chain,
}
use nfcee_fw.Nfc.Layer4.Ack.{tape_of, take-copy_behind}
use nfcee_fw.Nfc.Layer4.Answer.{received}
use nfcee_fw.Nfc.Layer4.LateAcks.{
  Part, bytes_of, AllFill, late_acks, late_blocks, after_parts, send_chain-late,
}
use nfcee_fw.Nfc.Layer4.LateAnswer.{late_answer, late_asked, AllShort, receive_chain-late}

send_last-late :
    (chunks : List Part) (final : Part) (k fuel : ℕ) (d : Driver) (last buf : List ℕ) (rxlen : ℕ)
    (rest : List Reply) (sent : List Sent)
    → length chunks + k + 2 ≤ fuel
    → AllShort k chunks
    → length final.bytes ≤ 253
    → length final.pleas ≤ k
    → length last ≤ 253
    → length buf ≡ 256
    → send_last tape_fops fuel rxlen
        (some last, d, buf, tape_of (late_answer d chunks final rest) sent)
      ≡ returns (
        received (after_parts (next_block d) chunks) (take rxlen (bytes_of chunks ++ final.bytes)),
        tape_of rest (sent ++ late_asked d (bit_or 0x02 (togglebit d.block) ∷ last) chunks final),
      )
unfolding send_last
send_last-late chunks final k fuel d last [] rxlen rest sent enough all small few short size =
    absurd (omega arith)
send_last-late chunks final k fuel d last (b ∷ buf) rxlen rest sent enough all small few short
      size =
    rw fits (
      start
      ∙ run
      ∙ ap (λ f. returns (outcome, tape_of rest (sent ++ late_asked d f chunks final))) first_frame)
  where
    fits : ltb 255 (length last) ≡ false
    fits = ground arith

    outcome : Exchange
    outcome =
        received (after_parts (next_block d) chunks) (take rxlen (bytes_of chunks ++ final.bytes))

    filled : List ℕ
    filled = overlay buf last

    tape : Tape
    tape = tape_of (late_answer d chunks final rest) sent

    frame : List ℕ
    frame = take (length last + 1) (bit_or 0x02 (togglebit d.block) ∷ filled)

    start :
        receive_chain tape_fops fuel d (length last) (0x02 ∷ filled) rxlen [] tape
        ≡ receive_chain tape_fops fuel d (length last) (0x02 ∷ filled) rxlen (take rxlen []) tape
    start =
        ap (λ o. receive_chain tape_fops fuel d (length last) (0x02 ∷ filled) rxlen o tape)
          (sym (take-of_le rxlen [] (omega arith)))

    run :
        receive_chain tape_fops fuel d (length last) (0x02 ∷ filled) rxlen (take rxlen []) tape
        ≡ returns (outcome, tape_of rest (sent ++ late_asked d frame chunks final))
    run =
        receive_chain-late chunks final k fuel d (length last) 0x02 filled [] rxlen rest sent enough
          all small few (omega (arith, length-overlay buf last))

    first_frame : frame ≡ bit_or 0x02 (togglebit d.block) ∷ last
    first_frame = take-copy_behind (bit_or 0x02 (togglebit d.block)) last (b ∷ buf) (omega arith)

-- A transceive with an ISO 14443-4 card that acknowledges each chained block and then answers, but asks
-- for more time up to `k` times before each of its replies, with three bytes or more. The local
-- buffer has its 256 bytes, and the frame sizes allow 253 bytes in a block at most. The message is
-- `parts`, each as long as one block allows, and a last part that is not empty and no longer; the
-- answer is `chunks` and `final`, of 253 bytes at most each. Then for any fuel of `k` and two more than
-- there are blocks the call returns; what was sent is exactly the parts in order, each behind a byte with
-- the chaining bit and the alternating block number, the last part without that bit, one
-- acknowledgement for each chained block of the answer, and behind each of these the answers to the
-- requests, each with its factor cut to six bits and as many times the usual time to wait; and what was
-- stored is the answer's bytes in order, as many as fit, with their number returned.
pub iso14443_transceive-outlasts :
    (parts : List Part) (last : List ℕ) (chunks : List Part) (final : Part) (k fuel : ℕ)
    (buf0 : List ℕ) (d : Driver) (rxlen timeout : ℕ) (rest : List Reply) (sent : List Sent)
    → is_tcl d ≡ true
    → inf_size d ≤ 253
    → AllFill (inf_size d) k parts
    → 0 < length last
    → length last ≤ inf_size d
    → AllShort k chunks
    → length final.bytes ≤ 253
    → length final.pleas ≤ k
    → length buf0 ≡ 256
    → length parts + length chunks + k + 2 ≤ fuel
    → let d' = after_parts d parts in
      iso14443_transceive tape_fops fuel buf0 d
        (bytes_of parts ++ last)
        rxlen
        timeout
        (tape_of (late_acks d parts (late_answer d' chunks final rest)) sent)
      ≡ returns (
        received (after_parts (next_block d') chunks) (take rxlen (bytes_of chunks ++ final.bytes)),
        tape_of rest (
            (sent ++ late_blocks d parts)
            ++ late_asked d' (bit_or 0x02 (togglebit d'.block) ∷ last) chunks final),
      )
unfolding iso14443_transceive
iso14443_transceive-outlasts parts last chunks final k fuel buf0 d rxlen timeout rest sent tcl inf
      fill more short all small few size enough =
    let d' = after_parts d parts in
    let (buf1, size1, chained) =
      send_chain-late parts last k fuel d buf0 (late_answer d' chunks final rest) sent (omega arith)
        inf fill short more size in
    rw tcl (
      rw chained (
        send_last-late chunks final k fuel d' last buf1 rxlen rest (sent ++ late_blocks d parts)
          (omega arith) all small few (omega arith) size1))
