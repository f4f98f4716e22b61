-- ===== src/Nfc/Layer4/Waiting.antt =====
-- A card that asks for more time, any number of times, before it answers a block.
use nfcee_fw.Base.{
  ℕ, zero, suc, ◌+◌, ◌*◌, ◌≤◌, false, some, List, [], ◌∷◌, ◌++◌, ◌≡◌, refl, ap, ◌∙◌, arith, length,
  take, ltb, overlay, bit_and, length-overlay, length-take, take-overlay, append_assoc,
}
use nfcee_fw.Word.{u32}
use nfcee_fw.Run.{returns}
use nfcee_fw.Nfc.{done, Driver, Reply}
use nfcee_fw.Nfc.Blocks.{is_wtx}
use nfcee_fw.Nfc.Tape.{Sent, Tape, tape_fops}
use nfcee_fw.Nfc.Layer4.{Step, grant_time}
use nfcee_fw.Nfc.Layer4.Ack.{tape_of}

-- A request for more time: the factor, the bytes behind it, and how many bytes more than three the
-- layer below counts.
pub record Plea : Type 0 where
  pub factor : ℕ
  pub tail : List ℕ
  pub more : ℕ

abbrev pub plea_reply : Plea → Reply
plea_reply p = record { ret = done (suc (suc (suc p.more))); stored = 0xF2 ∷ p.factor ∷ p.tail }

-- What a card answers in the end, with three bytes or more.
pub record Final : Type 0 where
  pub first : ℕ
  pub tail : List ℕ
  pub more : ℕ

abbrev pub final_reply : Final → Reply
final_reply r = record { ret = done (suc (suc (suc r.more))); stored = r.first ∷ r.tail }

abbrev pub pleas_then : List Plea → Final → List Reply → List Reply
pleas_then [] r rest = final_reply r ∷ rest
pleas_then (p ∷ ps) r rest = plea_reply p ∷ pleas_then ps r rest

-- The answers to the requests: each is sent back with the low six bits of its factor, and as many times
-- the usual time is allowed.
abbrev pub grants : ℕ → Driver → List Plea → List Sent
grants cap d [] = []
grants cap d (p ∷ ps) =
    record {
      frame = 0xF2 ∷ bit_and p.factor 0x3F ∷ [];
      cap = cap;
      timeout = u32 (d.fwt * bit_and p.factor 0x3F);
    }
    ∷ grants cap d ps

-- The driver goes on with the answer at the start of its buffer, as much of it as was asked for, and
-- `sent` is all that has been sent.
abbrev pub IsAnswered : ℕ → Final → List Reply → List Sent → ℕ → Step Tape → Type 0
IsAnswered cap r rest sent size m =
    let answer = take cap (final_reply r).stored in
    (buf : List ℕ) × (length buf ≡ size)
    × (take (length answer) buf ≡ answer)
    × (m ≡ returns (some (suc (suc (suc r.more))), buf, tape_of rest sent))

pub three_or_more : (n : ℕ) → ltb (suc (suc (suc n))) 3 ≡ false
three_or_more n = ground arith

-- The wait is over at a byte that is no request.
grant_time-ends :
    (d : Driver) (fuel limit n b : ℕ) (buf : List ℕ) (w : Tape)
    → is_wtx b ≡ false
    → grant_time tape_fops d (suc fuel) limit n (b ∷ buf) w ≡ returns (some n, b ∷ buf, w)
unfolding grant_time
grant_time-ends d fuel limit n b buf w h = rw (h, grant_time) refl

-- A request is sent back with its time, and a reply of three bytes or more comes.
grant_time-round :
    (d : Driver) (fuel limit n factor m : ℕ) (buf stored : List ℕ) (more : List Reply)
    (sent : List Sent)
    → grant_time tape_fops d
        (suc fuel)
        limit
        n
        (0xF2 ∷ factor ∷ buf)
        (tape_of (record { ret = done (suc (suc (suc m))); stored = stored } ∷ more) sent)
      ≡ grant_time tape_fops d fuel limit
          (suc (suc (suc m)))
          (overlay (0xF2 ∷ bit_and factor 0x3F ∷ buf) (take limit stored))
          (tape_of more (
            sent
            ++ record {
              frame = 0xF2 ∷ bit_and factor 0x3F ∷ [];
              cap = limit;
              timeout = u32 (d.fwt * bit_and factor 0x3F);
            }
              ∷ []))
unfolding grant_time is_wtx
grant_time-round d fuel limit n factor m buf stored more sent =
    rw (three_or_more m, grant_time) refl

module _ (d : Driver) (r : Final) (rest : List Reply) (answers : is_wtx r.first ≡ false) where
  -- The reply that ends the waiting lies at the start of the buffer.
  pub answer_kept :
      (fuel limit b size : ℕ) (buf : List ℕ) (sent : List Sent)
      → suc (length buf) ≡ size
      → suc limit ≤ size
      → IsAnswered (suc limit) r rest sent size (
          grant_time tape_fops d
            (suc fuel)
            (suc limit)
            (suc (suc (suc r.more)))
            (overlay (b ∷ buf) (take (suc limit) (r.first ∷ r.tail)))
            (tape_of rest sent))
  answer_kept fuel limit b size buf sent e room =
      let answer = r.first ∷ take limit r.tail in
      (
        overlay (b ∷ buf) answer,
        length-overlay (b ∷ buf) answer ∙ e,
        take-overlay (b ∷ buf) answer (omega (arith, length-take limit r.tail)),
        grant_time-ends d fuel (suc limit) _ r.first (overlay buf (take limit r.tail))
            (tape_of rest sent) answers,
      )

  pub grant_time-grants :
      (ps : List Plea) (p : Plea) (fuel limit n size : ℕ) (buf : List ℕ) (sent : List Sent)
      → length ps + 2 ≤ fuel
      → suc (suc (length buf)) ≡ size
      → suc (suc limit) ≤ size
      → IsAnswered (suc (suc limit)) r rest (sent ++ grants (suc (suc limit)) d (p ∷ ps)) size (
          grant_time tape_fops d fuel
            (suc (suc limit))
            n
            (0xF2 ∷ p.factor ∷ buf)
            (tape_of (pleas_then ps r rest) sent))
  grant_time-grants ps p zero limit n size buf sent enough e room = absurd (omega arith)
  grant_time-grants [] p (suc zero) limit n size buf sent enough e room = absurd (omega arith)
  grant_time-grants [] p (suc (suc fuel)) limit n size buf sent enough e room =
      let (buf', same, front, ends) =
        answer_kept fuel (suc limit) 0xF2 size (bit_and p.factor 0x3F ∷ buf)
          (sent ++ grants (suc (suc limit)) d (p ∷ [])) e room in
      (
        buf',
        same,
        front,
        grant_time-round d (suc fuel) (suc (suc limit)) n p.factor r.more buf (r.first ∷ r.tail)
              rest sent
            ∙ ends,
      )
  grant_time-grants (q ∷ ps) p (suc fuel) limit n size buf sent enough e room =
      let (buf', same, front, ends) =
        grant_time-grants ps q fuel limit (suc (suc (suc q.more))) size
          (overlay buf (take limit q.tail)) (sent ++ grants (suc (suc limit)) d (p ∷ []))
          (omega arith) (ap (λ k. suc (suc k)) (length-overlay buf (take limit q.tail)) ∙ e) room in
      (
        buf',
        same,
        front,
        grant_time-round d fuel (suc (suc limit)) n p.factor q.more buf (0xF2 ∷ q.factor ∷ q.tail)
              (pleas_then ps r rest) sent
            ∙ ends
            ∙ ap (λ l. returns (some (suc (suc (suc r.more))), buf', tape_of rest l))
                (append_assoc sent (grants (suc (suc limit)) d (p ∷ []))
                  (grants (suc (suc limit)) d (q ∷ ps))),
      )
