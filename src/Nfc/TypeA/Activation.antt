-- ===== src/Nfc/TypeA/Activation.antt =====
-- The whole activation of a type A card: `nfc_iso14443a_open` with a card that answers as the standard
-- has it.
use mathlib.Core.Bool.{false≢true}
use nfcee_fw.Base.{
  ℕ, suc, ◌+◌, ◌*◌, ◌≤◌, ◌≡◌, inl, inr, refl, ap, sym, ◌∙◌, arith, true, false, none, List, [], ◌∷◌,
  ◌++◌, bit_and, bit_or, ltb, ◌==◌, if◌then◌else◌, length, take, drop, overlay, append_assoc,
  append-nil, take-of_le, Bool-cases,
}
use nfcee_fw.Word.{◌<<<◌, ◌>>>◌}
use nfcee_fw.Run.{returns, ◌>>=◌}
use nfcee_fw.Crc.{crc_bytes}
use nfcee_fw.Nfc.{done, Reply, Driver}
use nfcee_fw.Nfc.Frames.{transceive_short, transceive_crc}
use nfcee_fw.Nfc.Tape.{Sent, Tape, tape_device}
use nfcee_fw.Nfc.TypeA.{cascade, request_ats, finish_open, iso14443a_open, apply_ats}
use nfcee_fw.Nfc.TypeA.Levels.{Level, tape, buffer}
use nfcee_fw.Nfc.TypeA.Card.{
  Card, IsCard, Knows, speaks_tcl, ats_reply, card_answers, rats_sent, card_requests,
}
use nfcee_fw.Nfc.TypeA.Ats.{
  Ats, format_byte, ta_bytes, tb_bytes, ats_bytes, announced, apply_ats-reads,
}
use nfcee_fw.Nfc.TypeA.Identify.{
  identifier, uid_of, answers_of, requests_of, identified, appended, cascade-runs,
  identified-identifier,
}

overlay-eq-append :
    (xs ys : List ℕ) → length ys ≤ length xs → overlay xs ys ≡ ys ++ drop (length ys) xs
overlay-eq-append [] [] h = refl
overlay-eq-append [] (y ∷ ys) h = absurd (omega arith)
overlay-eq-append (x ∷ xs) [] h = refl
overlay-eq-append (x ∷ xs) (y ∷ ys) h = ap (λ l. y ∷ l) (overlay-eq-append xs ys (omega arith))

identified-keeps :
    (more : List Level) (last : Level) (d : Driver)
    → ((identified d more last).ats ≡ d.ats) × ((identified d more last).fsd ≡ d.fsd)
identified-keeps [] last d = (refl, refl)
identified-keeps (l ∷ ls) last d = identified-keeps ls last (appended (l.u1 ∷ l.u2 ∷ l.u3 ∷ []) d)

ats_bytes-append : (a : Ats) (xs ys : List ℕ) → ats_bytes a xs ++ ys ≡ ats_bytes a (xs ++ ys)
ats_bytes-append a xs ys =
    ap (λ l. a.tl ∷ format_byte a ∷ l)
      (append_assoc (ta_bytes a.ta) (tb_bytes a.tb ++ xs) ys
        ∙ ap (λ l. ta_bytes a.ta ++ l) (append_assoc (tb_bytes a.tb) xs ys))

-- What is behind the answer in the driver's array stays there.
abbrev behind : Card → Driver → List ℕ
behind c d = c.historical ++ drop (length (ats_bytes c.ats c.historical)) d.ats

ats-stored :
    (c : Card) (d : Driver)
    → IsCard c
    → length d.ats ≡ 7
    → overlay d.ats (take 7 (ats_bytes c.ats c.historical)) ≡ ats_bytes c.ats (behind c d)
ats-stored c d valid room =
    let bytes = ats_bytes c.ats c.historical in
    ap (overlay d.ats) (take-of_le 7 bytes valid.fits)
    ∙ overlay-eq-append d.ats bytes (omega (arith, valid.fits))
    ∙ ats_bytes-append c.ats c.historical (drop (length bytes) d.ats)

identified-len :
    (more : List Level) (last : Level) (d : Driver)
    → d.nfcid_len + length more * 3 + 4 ≤ 10
    → (identified d more last).nfcid_len ≤ 10
identified-len [] last d h = omega arith
identified-len (l ∷ ls) last d h =
    identified-len ls last (appended (l.u1 ∷ l.u2 ∷ l.u3 ∷ []) d) (omega arith)

-- The answer to select of a card that speaks ISO 14443-4.
request_ats-answered :
    (c : Card) (d : Driver) (rest : List Reply) (sent : List Sent)
    → IsCard c
    → length d.ats ≡ 7
    → (bit_and d.sak 0x24 == 0x20) ≡ true
    → request_ats tape_device d (tape (ats_reply c ∷ rest) sent)
      ≡ returns (
        done 0,
        announced d c.ats (c.historical ++ drop (length (ats_bytes c.ats c.historical)) d.ats),
        tape rest (sent ++ rats_sent d.fsd ∷ []),
      )
unfolding request_ats transceive_crc crc_bytes
request_ats-answered c d rest sent valid room tcl = rw tcl (
    ap
      (λ l. returns (
        done 0,
        apply_ats tape_device (record d { ats = l }),
        tape rest (sent ++ rats_sent d.fsd ∷ []),
      ))
      (ats-stored c d valid room)
    ∙ ap (λ d'. returns (done 0, d', tape rest (sent ++ rats_sent d.fsd ∷ [])))
        (apply_ats-reads tape_device c.ats d (behind c d) valid.is_ats))

request_ats-skipped :
    (d : Driver) (w : Tape)
    → (bit_and d.sak 0x24 == 0x20) ≡ false
    → request_ats tape_device d w ≡ returns (done 0, d, w)
unfolding request_ats
request_ats-skipped d w e = rw e refl

-- The end of the activation, once the card is identified.
finish_open-Knows :
    (c : Card) (d : Driver) (rest : List Reply) (sent : List Sent)
    → IsCard c
    → length d.ats ≡ 7
    → identifier d ≡ uid_of c.more c.last
    → d.nfcid_len ≤ 10
    → d.sak ≡ c.last.s
    → (d' : Driver) × (finish_open tape_device
          (none, d, tape (if speaks_tcl c then ats_reply c ∷ rest else rest) sent)
        ≡ returns
            (done 0, d', tape rest (sent ++ (if speaks_tcl c then rats_sent d.fsd ∷ [] else []))))
      × Knows c d'
unfolding finish_open
finish_open-Knows c d rest sent valid room uid len sak = elim (Bool-cases (speaks_tcl c)) [
  | inl e ↦ (
    announced d c.ats (behind c d),
    rw e (request_ats-answered c d rest sent valid room (rw sak e)),
    record {
      uid = uid;
      uid_len = len;
      sak = sak;
      frame_size = λ h. refl;
      waiting_time = λ h. refl;
    },
  )
  | inr e ↦ (
    d,
    rw e (
        request_ats-skipped d (tape rest sent) (rw sak e)
        ∙ ap (λ s. returns (done 0, d, tape rest s)) (sym (append-nil sent))),
    record {
      uid = uid;
      uid_len = len;
      sak = sak;
      frame_size = λ h. absurd (false≢true (sym e ∙ h));
      waiting_time = λ h. absurd (false≢true (sym e ∙ h));
    },
  )
]

-- The driver when the loop over the levels begins.
abbrev asked : Card → Driver → Driver
asked c d = record d { atqa = bit_or c.a0 (c.a1 <<< 8); nfcid_len = 0 }

open_begins :
    (c : Card) (p q r : ℕ → ℕ) (b0 b1 b2 b3 b4 b5 b6 b7 : ℕ) (d : Driver) (rest : List Reply)
    (sent : List Sent)
    → IsCard c
    → iso14443a_open tape_device
        (record {
          buf = buffer b0 b1 (b2 ∷ b3 ∷ b4 ∷ b5 ∷ b6 ∷ []) b7;
          sak = λ i. p i ∷ q i ∷ r i ∷ [];
        })
        d
        (tape (card_answers c rest) sent)
      ≡ (cascade tape_device
            (suc (length c.more))
            0
            (λ i. p i ∷ q i ∷ r i ∷ [])
            (buffer c.a0 c.a1 (b2 ∷ b3 ∷ b4 ∷ b5 ∷ b6 ∷ []) b7)
            (asked c d)
            (tape
              (answers_of c.more c.last (if speaks_tcl c then ats_reply c ∷ rest else rest))
              (sent ++ record { frame = 0x52 ∷ []; cap = 8; timeout = 15 } ∷ []))
          >>= finish_open tape_device)
unfolding iso14443a_open transceive_short
open_begins c p q r b0 b1 b2 b3 b4 b5 b6 b7 d rest sent valid =
    let levels : bit_and (c.a0 >>> 6) 3 + 1 ≡ suc (length c.more) = omega (arith, valid.size) in
    let few : ltb 3 (suc (length c.more)) ≡ false = ground (arith, valid.few) in
    rw valid.bitwise (rw levels (rw few refl))

-- The activation of a type A card that answers as the standard has it: one of up to three levels, with
-- the right check bytes, and an answer to select with a format byte if it speaks ISO 14443-4. The call
-- returns 0, and the driver has the card's identifier and its last answer to select; from a card that
-- speaks ISO 14443-4 also the frame size and the waiting time that it announces. What was sent is the
-- request, two commands for each level, and for such a card the request for its answer to select with
-- the code of the reader's frame size.
pub iso14443a_open-activates :
    (c : Card) (p q r : ℕ → ℕ) (b0 b1 b2 b3 b4 b5 b6 b7 : ℕ) (d : Driver) (rest : List Reply)
    (sent : List Sent)
    → IsCard c
    → length d.nfcid_data ≡ 10
    → length d.ats ≡ 7
    → (d' : Driver) × (iso14443a_open tape_device
          (record {
            buf = buffer b0 b1 (b2 ∷ b3 ∷ b4 ∷ b5 ∷ b6 ∷ []) b7;
            sak = λ i. p i ∷ q i ∷ r i ∷ [];
          })
          d
          (tape (card_answers c rest) sent)
        ≡ returns
            (done 0, d', tape rest (sent ++ card_requests c d.fsd (b2 ∷ b3 ∷ b4 ∷ b5 ∷ b6 ∷ []))))
      × Knows c d'
iso14443a_open-activates c p q r b0 b1 b2 b3 b4 b5 b6 b7 d rest sent valid size room =
    let before : List ℕ = b2 ∷ b3 ∷ b4 ∷ b5 ∷ b6 ∷ [] in
    let wupa : Sent = record { frame = 0x52 ∷ []; cap = 8; timeout = 15 } in
    let d1 = identified (asked c d) c.more c.last in
    let known = identified-identifier c.more c.last (asked c d) (omega (arith, valid.few)) in
    let kept = identified-keeps c.more c.last (asked c d) in
    let sent1 = (sent ++ wupa ∷ []) ++ requests_of 0 before c.more c.last in
    let finished =
      finish_open-Knows c d1 rest sent1 valid (ap length kept.0 ∙ room) known.0
        (identified-len c.more c.last (asked c d) (omega (arith, valid.few))) known.1 in
    (
      finished.0,
      open_begins c p q r b0 b1 b2 b3 b4 b5 b6 b7 d rest sent valid
          ∙ ap (λ run. run >>= finish_open tape_device)
              (cascade-runs c.more c.last 0 p q r c.a0 c.a1 b2 b3 b4 b5 b6 b7 (asked c d)
                (if speaks_tcl c then ats_reply c ∷ rest else rest) (sent ++ wupa ∷ []) valid.go_on
                valid.closes (omega (arith, valid.few)))
          ∙ finished.1
          ∙ ap (λ s. returns (done 0, finished.0, tape rest s))
              (ap (λ fsd. sent1 ++ (if speaks_tcl c then rats_sent fsd ∷ [] else [])) kept.1
                ∙ append_assoc (sent ++ wupa ∷ []) (requests_of 0 before c.more c.last) _
                ∙ append_assoc sent (wupa ∷ []) _),
      finished.2,
    )
