-- ===== src/Nfc/Layer4/LateAcks.antt =====
-- Sending a message in chained blocks to a card that may ask for more time before it acknowledges one.
use nfcee_fw.Base.{
  ℕ, zero, suc, ◌+◌, ◌≤◌, ◌<◌, true, false, some, List, [], ◌∷◌, ◌++◌, ◌≡◌, refl, sym, ap, ◌∙◌,
  arith, length, take, ltb, bit_or, ==_refl, lt→ltb, get_or, take-append_left, drop-append_left,
  length-append, append_assoc, append-nil,
}
use nfcee_fw.Run.{returns}
use nfcee_fw.Nfc.{Driver, Reply}
use nfcee_fw.Nfc.Blocks.{togglebit}
use nfcee_fw.Nfc.Tape.{Sent, Tape, tape_fops}
use nfcee_fw.Nfc.Layer4.{
  inf_size, copy_behind, next_block, send_block, after_ack, after_send, send_chain,
}
use nfcee_fw.Nfc.Layer4.Ack.{
  chained_block, tape_of, take-copy_behind, length-copy_behind, ack_low, ack_high, ack_byte,
}
use nfcee_fw.Nfc.Layer4.Waiting.{Plea, Final, pleas_then, grants}
use nfcee_fw.Nfc.Layer4.Grants.{exchange_block-grants}

-- A part of a message or of an answer, and the requests for more time that come in its round.
pub record Part : Type 0 where
  pub bytes : List ℕ
  pub pleas : List Plea

abbrev pub bytes_of : List Part → List ℕ
bytes_of [] = []
bytes_of (p ∷ ps) = p.bytes ++ bytes_of ps

-- Each part fills a block, and the card asks `k` times at most.
abbrev pub AllFill : ℕ → ℕ → List Part → Type 0
AllFill n k [] = Unit
AllFill n k (p ∷ ps) = (length p.bytes ≡ n) × (length p.pleas ≤ k) × AllFill n k ps

abbrev ack_of : ℕ → Final
ack_of t = record { first = bit_or 0xA2 t; tail = ack_low t ∷ ack_high t ∷ []; more = 0 }

-- What the card sends while a message comes in, and what the reader sends.
abbrev pub late_acks : Driver → List Part → List Reply → List Reply
late_acks d [] rest = rest
late_acks d (p ∷ ps) rest =
    pleas_then p.pleas (ack_of (togglebit d.block)) (late_acks (next_block d) ps rest)

abbrev pub late_blocks : Driver → List Part → List Sent
late_blocks d [] = []
late_blocks d (p ∷ ps) =
    chained_block d p.bytes ∷ (grants 3 d p.pleas ++ late_blocks (next_block d) ps)

-- The driver after as many blocks.
abbrev pub after_parts : Driver → List Part → Driver
after_parts d [] = d
after_parts d (p ∷ ps) = after_parts (next_block d) ps

front_byte : (n x : ℕ) (xs buf : List ℕ) → take (suc n) buf ≡ x ∷ xs → get_or buf 0 0 ≡ x
front_byte n x xs [] e = ap (λ l. get_or l 0 0) e
front_byte n x xs (b ∷ buf) e = ap (λ l. get_or l 0 0) e

-- One chained block, in as many exchanges as the card asks for.
send_block-late :
    (d : Driver) (fuel : ℕ) (p : Part) (buf : List ℕ) (rest : List Reply) (sent : List Sent)
    → length p.pleas + 2 ≤ fuel
    → inf_size d ≡ length p.bytes
    → length p.bytes < length buf
    → length buf ≡ 256
    → (buf' : List ℕ) × (length buf' ≡ 256)
      × (send_block tape_fops d fuel
            (copy_behind (bit_or 0x12 (togglebit d.block)) p.bytes buf)
            (tape_of (pleas_then p.pleas (ack_of (togglebit d.block)) rest) sent)
          ≡ returns
              (some 3, buf', tape_of rest (sent ++ chained_block d p.bytes ∷ grants 3 d p.pleas)))
unfolding send_block after_ack
send_block-late d zero p buf rest sent enough hk room size = absurd (omega arith)
send_block-late d (suc fuel) p buf rest sent enough hk room size =
    let t = togglebit d.block in
    let byte = ack_byte d.block in
    let filled = copy_behind (bit_or 0x12 t) p.bytes buf in
    let (buf', same, front, ends) =
      exchange_block-grants d (ack_of t) rest p.pleas fuel (inf_size d + 1) true filled sent
        byte.no_wtx (rw byte.no_iblock refl) (omega arith)
        (length-copy_behind (bit_or 0x12 t) p.bytes buf ∙ size) in
    let first = front_byte 2 (bit_or 0xA2 t) (ack_low t ∷ ack_high t ∷ []) buf' front in
    (
      buf',
      same,
      rw ends (
          rw first (
            rw byte.acks_it (
              rw byte.number (
                rw (==_refl t)
                  (rw (hk, take-copy_behind (bit_or 0x12 t) p.bytes buf room) refl))))),
    )

-- One round of the first loop, when its block has been acknowledged.
send_chain-step :
    (d : Driver) (fuel : ℕ) (part tail buf buf' : List ℕ) (w w' : Tape)
    → inf_size d ≡ length part
    → length part ≤ 253
    → 0 < length tail
    → send_block tape_fops d fuel (copy_behind (bit_or 0x12 (togglebit d.block)) part buf) w
      ≡ returns (some 3, buf', w')
    → send_chain tape_fops (suc fuel) d (part ++ tail) buf w
      ≡ send_chain tape_fops fuel (next_block d) tail buf' w'
unfolding send_chain after_send
send_chain-step d fuel part tail buf buf' w w' hk small more acknowledged =
    let long : ltb (length part) (length (part ++ tail)) ≡ true =
      lt→ltb _ _ (omega (arith, length-append part tail)) in
    let fits : ltb 255 (length part) ≡ false = ground arith in
    rw hk (
      rw long (
        rw fits
          (rw (take-append_left part tail, drop-append_left part tail) (rw acknowledged refl))))

inf_size-next_block : (d : Driver) → inf_size (next_block d) ≡ inf_size d
unfolding inf_size next_block
inf_size-next_block d = refl

-- The first loop sends the parts in order, however often the card asks for more time.
pub send_chain-late :
    (parts : List Part) (last : List ℕ) (k fuel : ℕ) (d : Driver) (buf : List ℕ) (rest : List Reply)
    (sent : List Sent)
    → length parts + k + 2 ≤ fuel
    → inf_size d ≤ 253
    → AllFill (inf_size d) k parts
    → length last ≤ inf_size d
    → 0 < length last
    → length buf ≡ 256
    → (buf' : List ℕ) × (length buf' ≡ 256)
      × (send_chain tape_fops fuel d
            (bytes_of parts ++ last)
            buf
            (tape_of (late_acks d parts rest) sent)
          ≡ returns
              (some last, after_parts d parts, buf', tape_of rest (sent ++ late_blocks d parts)))
send_chain-late parts last k zero d buf rest sent enough small fill short more size =
    absurd (omega arith)
send_chain-late [] last k (suc fuel) d buf rest sent enough small fill short more size =
    let no_more : ltb (inf_size d) (length last) ≡ false = ground arith in
    (buf, size, unfold send_chain in rw no_more (rw (append-nil sent)))
send_chain-late (p ∷ parts) last k (suc fuel) d buf rest sent enough small (full, few, fill) short
      more size =
    let now = sent ++ chained_block d p.bytes ∷ grants 3 d p.pleas in
    let (buf1, same1, acknowledged) =
      send_block-late d fuel p buf (late_acks (next_block d) parts rest) sent (omega arith)
        (sym full) (omega (arith, full, size)) size in
    let step =
      send_chain-step d fuel p.bytes (bytes_of parts ++ last) buf buf1 _ _ (sym full) (omega arith)
        (omega (arith, length-append (bytes_of parts) last)) acknowledged in
    let (buf2, same2, steps) =
      send_chain-late parts last k fuel (next_block d) buf1 rest now (omega arith)
        (rw (inf_size-next_block d) small) (rw (inf_size-next_block d) fill)
        (rw (inf_size-next_block d) short) more same1 in
    (
      buf2,
      same2,
      rw (append_assoc p.bytes (bytes_of parts) last) (
          step
          ∙ steps
          ∙ ap (λ s. returns (some last, after_parts d (p ∷ parts), buf2, tape_of rest s))
              (append_assoc sent (chained_block d p.bytes ∷ grants 3 d p.pleas)
                (late_blocks (next_block d) parts))),
    )
