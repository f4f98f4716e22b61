-- ===== src/Nfc/Layer4/Ack.antt =====
-- The chained blocks that carry a message, the acknowledgements of a card, and one block with its
-- acknowledgement.
use native.Mathlib.Numerals.{add-one}
use nfcee_fw.Bits.{bit_and-mask}
use nfcee_fw.Base.{
  ℕ, suc, ◌+◌, ◌≤◌, ◌<◌, ◌%◌, ◌/◌, true, false, ◌⊎◌, inl, inr, some, List, [], ◌∷◌, ◌++◌, ◌≡◌, refl,
  ap, ◌∙◌, arith, length, take, overlay, bit_or, ==_refl, length-overlay,
}
use nfcee_fw.Run.{returns}
use nfcee_fw.Nfc.{done, Driver, Reply}
use nfcee_fw.Crc.{crca}
use nfcee_fw.Nfc.Blocks.{is_iblock, is_ack, is_wtx, togglebit}
use nfcee_fw.Nfc.Tape.{Sent, Tape, tape_fops}
use nfcee_fw.Nfc.Layer4.{
  inf_size, copy_behind, next_block, grant_time, exchange_block, send_block, after_ack,
}

abbrev pub flatten : List (List ℕ) → List ℕ
flatten [] = []
flatten (p ∷ ps) = p ++ flatten ps

abbrev pub AllOf : ℕ → List (List ℕ) → Type 0
AllOf k [] = Unit
AllOf k (p ∷ ps) = (length p ≡ k) × AllOf k ps

-- The acknowledgement of the block with the number `t`; two checksum bytes follow.
abbrev pub ack_reply : ℕ → ℕ → ℕ → Reply
ack_reply t x y = record { ret = done 3; stored = bit_or 0xA2 t ∷ x ∷ y ∷ [] }

abbrev pub ack_low : ℕ → ℕ
ack_low t = crca (bit_or 0xA2 t ∷ []) % 256

abbrev pub ack_high : ℕ → ℕ
ack_high t = crca (bit_or 0xA2 t ∷ []) / 256

abbrev pub proper_ack : ℕ → Reply
proper_ack t = ack_reply t (ack_low t) (ack_high t)

-- The acknowledgements of blocks from the driver's number on, one for each part.
abbrev pub acks : Driver → List (List ℕ) → List Reply → List Reply
acks d [] rest = rest
acks d (p ∷ ps) rest = proper_ack (togglebit d.block) ∷ acks (next_block d) ps rest

-- The blocks that carry the parts: 0x12 with the block number, then the part.
abbrev pub chained_block : Driver → List ℕ → Sent
chained_block d p = record { frame = bit_or 0x12 (togglebit d.block) ∷ p; cap = 3; timeout = d.fwt }

abbrev pub chained_blocks : Driver → List (List ℕ) → List Sent
chained_blocks d [] = []
chained_blocks d (p ∷ ps) = chained_block d p ∷ chained_blocks (next_block d) ps

-- The driver after as many blocks.
abbrev pub after_blocks : Driver → List (List ℕ) → Driver
after_blocks d [] = d
after_blocks d (p ∷ ps) = after_blocks (next_block d) ps

-- The block number is one bit.
pub togglebit-cases : (b : ℕ) → (togglebit b ≡ 0) ⊎ (togglebit b ≡ 1)
unfolding togglebit
togglebit-cases b = elim (small (b % 2) (omega arith)) [
  | inl e ↦ inl (bit_and-mask 1 b ∙ e)
  | inr e ↦ inr (bit_and-mask 1 b ∙ e)
]
  where
    small : (n : ℕ) → n < 2 → (n ≡ 0) ⊎ (n ≡ 1)
    small n h = ground arith

-- How the driver reads an acknowledgement.
pub record IsAckByte (t b : ℕ) : Type 0 where
  pub no_iblock : is_iblock b ≡ false
  pub no_wtx : is_wtx b ≡ false
  pub acks_it : is_ack b ≡ true
  pub number : togglebit b ≡ t

IsAckByte-of : (t : ℕ) → (t ≡ 0) ⊎ (t ≡ 1) → IsAckByte t (bit_or 0xA2 t)
unfolding is_iblock is_wtx is_ack togglebit
IsAckByte-of t (inl e) =
    rw e (record { no_iblock = refl; no_wtx = refl; acks_it = refl; number = refl })
IsAckByte-of t (inr e) =
    rw e (record { no_iblock = refl; no_wtx = refl; acks_it = refl; number = refl })

pub ack_byte : (b : ℕ) → IsAckByte (togglebit b) (bit_or 0xA2 (togglebit b))
ack_byte b = IsAckByte-of (togglebit b) (togglebit-cases b)

take-overlay_front :
    (part buf : List ℕ) → length part ≤ length buf → take (length part) (overlay buf part) ≡ part
take-overlay_front [] buf h = refl
take-overlay_front (p ∷ part) [] h = absurd (omega arith)
take-overlay_front (p ∷ part) (b ∷ buf) h =
    ap (λ l. p ∷ l) (take-overlay_front part buf (omega arith))

-- What is sent of the buffer after `memcpy(buffer + 1, part, …)`.
pub take-copy_behind :
    (first : ℕ) (part buf : List ℕ)
    → length part < length buf
    → take (length part + 1) (copy_behind first part buf) ≡ first ∷ part
take-copy_behind first part [] h = absurd (omega arith)
take-copy_behind first part (b ∷ buf) h =
    rw (add-one (length part)) (ap (λ l. first ∷ l) (take-overlay_front part buf (omega arith)))

pub length-copy_behind :
    (first : ℕ) (part buf : List ℕ) → length (copy_behind first part buf) ≡ length buf
length-copy_behind first part [] = refl
length-copy_behind first part (b ∷ buf) = ap suc (length-overlay buf part)

abbrev pub tape_of : List Reply → List Sent → Tape
tape_of answers sent = record { answers = answers; sent = sent }

module _ (d : Driver) (x y : ℕ) (rest : List Reply) (sent : List Sent) where
  abbrev pub acknowledgement : List ℕ
  acknowledgement = bit_or 0xA2 (togglebit d.block) ∷ x ∷ y ∷ []

  -- One exchange, in which the card acknowledges at once.
  exchange_block-ack :
      (fuel n b : ℕ) (buf : List ℕ)
      → exchange_block tape_fops d
          (suc fuel)
          true
          n
          (b ∷ buf)
          (tape_of (ack_reply (togglebit d.block) x y ∷ rest) sent)
        ≡ returns (
          some 3,
          overlay (b ∷ buf) acknowledgement,
          tape_of rest (sent ++ record { frame = take n (b ∷ buf); cap = 3; timeout = d.fwt } ∷ []),
        )
  unfolding exchange_block grant_time
  exchange_block-ack fuel n b buf =
      let a = ack_byte d.block in rw a.no_iblock (rw (a.no_wtx, grant_time))

  -- So one chained block takes one round.
  pub send_block-ack :
      (fuel b : ℕ) (buf : List ℕ)
      → send_block tape_fops d
          (suc (suc fuel))
          (b ∷ buf)
          (tape_of (ack_reply (togglebit d.block) x y ∷ rest) sent)
        ≡ returns (
          some 3,
          overlay (b ∷ buf) acknowledgement,
          tape_of rest (
              sent
              ++ record { frame = take (inf_size d + 1) (b ∷ buf); cap = 3; timeout = d.fwt } ∷ []),
        )
  unfolding send_block after_ack
  send_block-ack fuel b buf =
      let a = ack_byte d.block in
      rw (exchange_block-ack fuel (inf_size d + 1) b buf)
        (rw a.acks_it (rw a.number (rw (==_refl (togglebit d.block)))))
