-- ===== src/Nfc/Layer4/Grants.antt =====
-- The exchange of one block with a card that asks for more time.
use nfcee_fw.Base.{
  ℕ, zero, suc, ◌+◌, ◌≤◌, ◌<◌, Bool, true, false, ◌&&◌, some, List, [], ◌∷◌, ◌++◌, ◌≡◌, refl, ap,
  ◌∙◌, arith, length, take, overlay, length-overlay, append_assoc, if◌then◌else◌,
}
use nfcee_fw.Run.{returns}
use nfcee_fw.Nfc.{done, Driver, Reply}
use nfcee_fw.Nfc.Blocks.{is_iblock, is_wtx}
use nfcee_fw.Nfc.Tape.{Sent, tape_fops}
use nfcee_fw.Nfc.Layer4.{grant_time, exchange_block}
use nfcee_fw.Nfc.Layer4.Ack.{tape_of}
use nfcee_fw.Nfc.Layer4.Waiting.{
  Plea, Final, pleas_then, grants, IsAnswered, three_or_more, answer_kept, grant_time-grants,
}

-- The size of the buffer that an answer is read into.
abbrev pub limit_of : Bool → ℕ
limit_of chaining = if chaining then 3 else 256

abbrev pub block_sent : Bool → Driver → List ℕ → Sent
block_sent chaining d frame = record { frame = frame; cap = limit_of chaining; timeout = d.fwt }

plea_no_block : (chaining : Bool) → (chaining && is_iblock 0xF2) ≡ false
unfolding is_iblock
plea_no_block true = refl
plea_no_block false = refl

module _ (d : Driver) (r : Final) (rest : List Reply) (answers : is_wtx r.first ≡ false) where
  kept_within :
      (chaining : Bool) (fuel b : ℕ) (buf : List ℕ) (sent : List Sent)
      → suc (length buf) ≡ 256
      → IsAnswered (limit_of chaining) r rest sent 256 (
          grant_time tape_fops d
            (suc fuel)
            (limit_of chaining)
            (suc (suc (suc r.more)))
            (overlay (b ∷ buf) (take (limit_of chaining) (r.first ∷ r.tail)))
            (tape_of rest sent))
  kept_within true fuel b buf sent e =
      answer_kept d r rest answers fuel 2 b 256 buf sent e (omega arith)
  kept_within false fuel b buf sent e =
      answer_kept d r rest answers fuel 255 b 256 buf sent e (omega arith)

  grants_within :
      (chaining : Bool) (ps : List Plea) (p : Plea) (fuel : ℕ) (buf : List ℕ) (sent : List Sent)
      → length ps + 2 ≤ fuel
      → length buf ≡ 256
      → IsAnswered (limit_of chaining) r rest (sent ++ grants (limit_of chaining) d (p ∷ ps)) 256 (
          grant_time tape_fops d fuel
            (limit_of chaining)
            (suc (suc (suc p.more)))
            (overlay buf (take (limit_of chaining) (0xF2 ∷ p.factor ∷ p.tail)))
            (tape_of (pleas_then ps r rest) sent))
  grants_within chaining ps p fuel [] sent enough e = absurd (omega arith)
  grants_within chaining ps p fuel (b ∷ []) sent enough e = absurd (omega arith)
  grants_within true ps p fuel (b ∷ c ∷ buf) sent enough e =
      grant_time-grants d r rest answers ps p fuel 1 (suc (suc (suc p.more))) 256
        (overlay buf (take 1 p.tail)) sent enough
        (ap (λ k. suc (suc k)) (length-overlay buf (take 1 p.tail)) ∙ e) (omega arith)
  grants_within false ps p fuel (b ∷ c ∷ buf) sent enough e =
      grant_time-grants d r rest answers ps p fuel 254 (suc (suc (suc p.more))) 256
        (overlay buf (take 254 p.tail)) sent enough
        (ap (λ k. suc (suc k)) (length-overlay buf (take 254 p.tail)) ∙ e) (omega arith)

-- The block goes out, and a first reply of three bytes or more comes.
exchange_block-first :
    (d : Driver) (fuel n first m : ℕ) (chaining : Bool) (buf stored : List ℕ) (more : List Reply)
    (sent : List Sent)
    → 0 < length buf
    → (chaining && is_iblock first) ≡ false
    → exchange_block tape_fops d fuel chaining n buf
        (tape_of (record { ret = done (suc (suc (suc m))); stored = first ∷ stored } ∷ more) sent)
      ≡ grant_time tape_fops d fuel
          (limit_of chaining)
          (suc (suc (suc m)))
          (overlay buf (take (limit_of chaining) (first ∷ stored)))
          (tape_of more (sent ++ block_sent chaining d (take n buf) ∷ []))
unfolding exchange_block
exchange_block-first d fuel n first m chaining [] stored more sent some_buf h = absurd (omega arith)
exchange_block-first d fuel n first m true (b ∷ buf) stored more sent some_buf h =
    rw (three_or_more m) (rw h refl)
exchange_block-first d fuel n first m false (b ∷ buf) stored more sent some_buf h =
    rw (three_or_more m) refl

-- A card that answers a block in the end, with three bytes or more that are no request for more time,
-- and no I-block while a chain is sent, but asks for more time any number of times before, each time
-- with three bytes or more. The buffer has its 256 bytes. Then with fuel for each request and one more
-- the exchange of the block ends with the answer at the start of the buffer; what has been sent is the
-- block, and for each request the same request with its factor cut to six bits, after which the reader
-- waits for as many times the card's usual time.
pub exchange_block-grants :
    (d : Driver) (r : Final) (rest : List Reply) (ps : List Plea) (fuel n : ℕ) (chaining : Bool)
    (buf : List ℕ) (sent : List Sent)
    → is_wtx r.first ≡ false
    → (chaining && is_iblock r.first) ≡ false
    → length ps + 1 ≤ fuel
    → length buf ≡ 256
    → IsAnswered
        (limit_of chaining)
        r
        rest
        (sent ++ block_sent chaining d (take n buf) ∷ grants (limit_of chaining) d ps)
        256
        (exchange_block tape_fops d fuel chaining n buf (tape_of (pleas_then ps r rest) sent))
exchange_block-grants d r rest ps fuel n chaining [] sent answers no_block enough e =
    absurd (omega arith)
exchange_block-grants d r rest ps zero n chaining (b ∷ buf) sent answers no_block enough e =
    absurd (omega arith)
exchange_block-grants d r rest [] (suc fuel) n chaining (b ∷ buf) sent answers no_block enough e =
    let (buf', same, front, ends) =
      kept_within d r rest answers chaining fuel b buf
        (sent ++ block_sent chaining d (take n (b ∷ buf)) ∷ []) e in
    (
      buf',
      same,
      front,
      exchange_block-first d (suc fuel) n r.first r.more chaining (b ∷ buf) r.tail rest sent
            (omega arith) no_block
          ∙ ends,
    )
exchange_block-grants d r rest (p ∷ ps) (suc fuel) n chaining (b ∷ buf) sent answers no_block enough
      e =
    let block = block_sent chaining d (take n (b ∷ buf)) in
    let (buf', same, front, ends) =
      grants_within d r rest answers chaining ps p (suc fuel) (b ∷ buf) (sent ++ block ∷ [])
        (omega arith) e in
    (
      buf',
      same,
      front,
      exchange_block-first d (suc fuel) n 0xF2 p.more chaining (b ∷ buf) (p.factor ∷ p.tail)
            (pleas_then ps r rest) sent (omega arith) (plea_no_block chaining)
          ∙ ends
          ∙ ap (λ l. returns (some (suc (suc (suc r.more))), buf', tape_of rest l))
              (append_assoc sent (block ∷ []) (grants (limit_of chaining) d (p ∷ ps))),
    )
