-- ===== src/Nfc/Layer4/Answer.antt =====
-- Receiving an answer that a card sends in chained blocks.
use nfcee_fw.Base.{
  ℕ, zero, suc, ◌+◌, ◌-◌, ◌≤◌, ◌%◌, ◌/◌, min, Bool, true, false, ◌⊎◌, inl, inr, some, List, [], ◌∷◌,
  ◌++◌, ◌≡◌, refl, sym, ap, ◌∙◌, arith, length, take, ltb, overlay, bit_or, bit_and, ◌==◌, ==_refl,
  length-append, append-nil, take-of_le, take-append, take-overlay_le, length-take, take-min-length,
}
use nfcee_fw.Run.{returns}
use nfcee_fw.Crc.{crca}
use nfcee_fw.Nfc.{done, Driver, Reply}
use nfcee_fw.Nfc.Blocks.{is_iblock, is_wtx, togglebit}
use nfcee_fw.Nfc.Tape.{Sent, tape_fops}
use nfcee_fw.Nfc.Layer4.{
  Exchange, next_block, grant_time, exchange_block, size_of_header, inf_received, copy_payload,
  accept_block, after_accept, after_block, receive_chain,
}
use nfcee_fw.Nfc.Layer4.Ack.{tape_of}

-- The checksum bytes behind a block.
abbrev pub trailer : ℕ → List ℕ → List ℕ
trailer first chunk = (crca (first ∷ chunk) % 256) ∷ (crca (first ∷ chunk) / 256) ∷ []

-- An I-block of the card: its first byte, the payload, and the checksum.
abbrev pub block_reply : ℕ → List ℕ → Reply
block_reply first chunk = record {
  ret = done (length chunk + 3);
  stored = first ∷ (chunk ++ trailer first chunk);
}

-- The blocks of an answer: all but the last announce that another one follows.
abbrev pub answer_blocks : Driver → List (List ℕ) → List ℕ → List Reply → List Reply
answer_blocks d [] final rest = block_reply (bit_or 0x02 (togglebit d.block)) final ∷ rest
answer_blocks d (c ∷ cs) final rest =
    block_reply (bit_or 0x12 (togglebit d.block)) c ∷ answer_blocks (next_block d) cs final rest

-- What the reader sends for each block after the first: an acknowledgement with its own number.
abbrev pub acks_sent : Driver → List (List ℕ) → List Sent
acks_sent d [] = []
acks_sent d (c ∷ cs) =
    record { frame = bit_or 0xA2 (togglebit (next_block d).block) ∷ []; cap = 256; timeout = d.fwt }
    ∷ acks_sent (next_block d) cs

abbrev pub received : Driver → List ℕ → Exchange
received d out = record { ret = done (length out); out = out; driver = d }

abbrev pub AllWithin : ℕ → List (List ℕ) → Type 0
AllWithin k [] = Unit
AllWithin k (c ∷ cs) = (length c ≤ k) × AllWithin k cs

-- How the driver reads the first byte of such a block.
pub record IsBlockByte (t b : ℕ) (last : Bool) : Type 0 where
  pub no_wtx : is_wtx b ≡ false
  pub iblock : is_iblock b ≡ true
  pub number : togglebit b ≡ t
  pub header : size_of_header b ≡ 1
  pub ends : (bit_and b 0x10 == 0) ≡ last

pub chained_byte_of : (t : ℕ) → (t ≡ 0) ⊎ (t ≡ 1) → IsBlockByte t (bit_or 0x12 t) false
unfolding is_iblock is_wtx togglebit size_of_header
chained_byte_of t (inl e) =
    rw e (record { no_wtx = refl; iblock = refl; number = refl; header = refl; ends = refl })
chained_byte_of t (inr e) =
    rw e (record { no_wtx = refl; iblock = refl; number = refl; header = refl; ends = refl })

pub last_byte_of : (t : ℕ) → (t ≡ 0) ⊎ (t ≡ 1) → IsBlockByte t (bit_or 0x02 t) true
unfolding is_iblock is_wtx togglebit size_of_header
last_byte_of t (inl e) =
    rw e (record { no_wtx = refl; iblock = refl; number = refl; header = refl; ends = refl })
last_byte_of t (inr e) =
    rw e (record { no_wtx = refl; iblock = refl; number = refl; header = refl; ends = refl })

-- With a one-byte header the payload is all but the checksum, or what still fits.
inf_received-payload : (n room : ℕ) → n ≤ 253 → inf_received (n + 3) 1 room ≡ min n room
unfolding inf_received
inf_received-payload n room h = omega arith

-- What `memcpy` takes of a buffer that a block was stored into.
payload_of :
    (buf chunk tail : List ℕ) (n : ℕ)
    → n ≤ length chunk
    → length (chunk ++ tail) ≤ length buf
    → take n (overlay buf (chunk ++ tail)) ≡ take n chunk
payload_of buf chunk tail n h room =
    take-overlay_le n buf (chunk ++ tail) (omega (arith, length-append chunk tail)) room
    ∙ take-append n chunk tail
    ∙ rw none_left (append-nil (take n chunk))
  where
    none_left : n - length chunk ≡ 0
    none_left = omega arith

-- Filling up to `rxlen` piece by piece.
fill_up :
    (rxlen : ℕ) (so_far chunk : List ℕ)
    → take rxlen so_far ++ take (min (length chunk) (rxlen - length (take rxlen so_far))) chunk
      ≡ take rxlen (so_far ++ chunk)
fill_up rxlen so_far chunk =
    rw (take-min-length (rxlen - length (take rxlen so_far)) chunk, room)
      (sym (take-append rxlen so_far chunk))
  where
    room : rxlen - length (take rxlen so_far) ≡ rxlen - length so_far
    room = omega (arith, length-take rxlen so_far)

module _ (d : Driver) (first : ℕ) (last : Bool)
    (byte : IsBlockByte (togglebit d.block) first last) where
  -- The payload of the block goes behind what was received, as far as it fits.
  pub accept_block-payload :
      (b : ℕ) (buf chunk so_far : List ℕ) (rxlen x y : ℕ)
      → length chunk ≤ 253
      → length buf ≡ 255
      → accept_block d
          (length chunk + 3)
          (overlay (b ∷ buf) (first ∷ (chunk ++ x ∷ y ∷ [])))
          rxlen
          (take rxlen so_far)
        ≡ returns (take rxlen (so_far ++ chunk))
  unfolding accept_block copy_payload
  accept_block-payload b buf chunk so_far rxlen x y small size = rw byte.number (
      rw (==_refl (togglebit d.block)) (
        rw byte.header (
          rw (inf_received-payload (length chunk) room small)
            (rw inside (rw copied (ap returns (fill_up rxlen so_far chunk)))))))
    where
      room : ℕ
      room = rxlen - length (take rxlen so_far)

      inside : ltb 256 (1 + min (length chunk) room) ≡ false
      inside = ground arith

      copied :
          take (min (length chunk) room) (overlay buf (chunk ++ x ∷ y ∷ []))
          ≡ take (min (length chunk) room) chunk
      copied =
          payload_of buf chunk (x ∷ y ∷ []) (min (length chunk) room) (omega arith)
            (omega (arith, length-append chunk (x ∷ y ∷ [])))

  -- One exchange in which the card answers with the block at once.
  exchange_block-answer :
      (fuel n b : ℕ) (buf chunk : List ℕ) (rest : List Reply) (sent : List Sent)
      → length chunk ≤ 253
      → exchange_block tape_fops d
          (suc fuel)
          false
          n
          (b ∷ buf)
          (tape_of (block_reply first chunk ∷ rest) sent)
        ≡ returns (
          some (length chunk + 3),
          overlay (b ∷ buf) (block_reply first chunk).stored,
          tape_of rest
              (sent ++ record { frame = take n (b ∷ buf); cap = 256; timeout = d.fwt } ∷ []),
        )
  unfolding exchange_block grant_time
  exchange_block-answer fuel n b buf chunk rest sent small =
      rw whole (rw enough (rw (byte.no_wtx, grant_time)))
    where
      whole : take 255 (chunk ++ trailer first chunk) ≡ chunk ++ trailer first chunk
      whole =
          take-of_le 255 (chunk ++ trailer first chunk)
            (omega (arith, length-append chunk (trailer first chunk)))

      enough : ltb (length chunk + 3) 3 ≡ false
      enough = ground arith

  -- One round of the second loop, up to the test for another block.
  pub receive_chain-round :
      (fuel txlen : ℕ) (b : ℕ) (buf chunk so_far : List ℕ) (rxlen : ℕ) (rest : List Reply)
      (sent : List Sent)
      → 1 ≤ fuel
      → length chunk ≤ 253
      → length buf ≡ 255
      → receive_chain tape_fops
          (suc fuel)
          d
          txlen
          (b ∷ buf)
          rxlen
          (take rxlen so_far)
          (tape_of (block_reply first chunk ∷ rest) sent)
        ≡ after_accept
            (λ buf' out' w'. receive_chain tape_fops fuel (next_block d) 0 buf' rxlen out' w')
            d
            (first ∷ overlay buf (chunk ++ trailer first chunk))
            (tape_of rest (
              sent
              ++ record {
                frame = take (txlen + 1) (bit_or b (togglebit d.block) ∷ buf);
                cap = 256;
                timeout = d.fwt;
              }
                ∷ []))
            (take rxlen (so_far ++ chunk))
  unfolding receive_chain after_block
  receive_chain-round zero txlen b buf chunk so_far rxlen rest sent some_fuel small size =
      absurd (omega arith)
  receive_chain-round (suc fuel) txlen b buf chunk so_far rxlen rest sent some_fuel small size =
      rw
        (exchange_block-answer fuel (txlen + 1) (bit_or b (togglebit d.block)) buf chunk rest sent
          small)
        (rw byte.iblock (
          rw (
            accept_block-payload (bit_or b (togglebit d.block)) buf chunk so_far rxlen
              (crca (first ∷ chunk) % 256) (crca (first ∷ chunk) / 256) small size)))
