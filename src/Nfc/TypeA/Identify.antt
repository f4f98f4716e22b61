-- ===== src/Nfc/TypeA/Identify.antt =====
-- The cascade of levels with a card that has an identifier of 4, 7 or 10 bytes.
use nfcee_fw.Base.{
  ℕ, zero, suc, ◌+◌, ◌*◌, ◌/◌, ◌%◌, ◌≡◌, ◌≤◌, refl, ap, ◌∙◌, arith, true, false, none, List, [],
  ◌∷◌, ◌++◌, bit_and, ltb, ◌==◌, ==_refl, length, take, overlay_at, append_assoc, length-overlay_at,
  take-overlay,
}
use nfcee_fw.Word.{◌<<<◌}
use nfcee_fw.Run.{returns}
use nfcee_fw.Crc.{crca}
use nfcee_fw.Nfc.{Reply, Driver}
use nfcee_fw.Nfc.Tape.{Sent, tape_device}
use nfcee_fw.Nfc.TypeA.{append_nfcid, close_level, cascade}
use nfcee_fw.Nfc.TypeA.Levels.{
  Level, bcc, uid_part, sak_bytes, level_answers, sel, level_sent, tape, buffer,
  cascade_level-answers,
}

-- The driver with some more bytes of the identifier.
abbrev pub appended : List ℕ → Driver → Driver
appended part d = record d {
  nfcid_len = d.nfcid_len + length part;
  nfcid_data = overlay_at d.nfcid_len d.nfcid_data part;
}

-- The bytes of the identifier that the driver has.
abbrev pub identifier : Driver → List ℕ
identifier d = take d.nfcid_len d.nfcid_data

take-overlay_at :
    (i : ℕ) (xs part : List ℕ)
    → i + length part ≤ length xs
    → take (i + length part) (overlay_at i xs part) ≡ take i xs ++ part
take-overlay_at zero xs part h =
    let whole : 0 + length part ≡ length part = omega arith in
    rw whole (take-overlay xs part (omega arith))
take-overlay_at (suc i) [] part h = absurd (omega arith)
take-overlay_at (suc i) (x ∷ xs) part h =
    let next : suc i + length part ≡ suc (i + length part) = omega arith in
    rw next (ap (λ t. x ∷ t) (take-overlay_at i xs part (omega arith)))

identifier-appended :
    (part : List ℕ) (d : Driver)
    → d.nfcid_len + length part ≤ length d.nfcid_data
    → identifier (appended part d) ≡ identifier d ++ part
identifier-appended part d h = take-overlay_at d.nfcid_len d.nfcid_data part h

append_nfcid-fits :
    (part : List ℕ) (d : Driver)
    → d.nfcid_len + length part ≤ 10
    → append_nfcid part d ≡ returns (appended part d)
unfolding append_nfcid
append_nfcid-fits part d h =
    let fits : ltb 10 (d.nfcid_len + length part) ≡ false = ground arith in rw fits refl

-- A level that another one follows.
close_level-more :
    (l : Level) (b0 b1 b7 : ℕ) (d : Driver)
    → (bit_and l.s 4 == 0) ≡ false
    → d.nfcid_len + 3 ≤ 10
    → close_level (sak_bytes l) (buffer b0 b1 (uid_part l) b7) d
      ≡ returns (none, appended (l.u1 ∷ l.u2 ∷ l.u3 ∷ []) d)
unfolding close_level
close_level-more l b0 b1 b7 d more room =
    rw more (rw (append_nfcid-fits (l.u1 ∷ l.u2 ∷ l.u3 ∷ []) d room) refl)

pub close_level-last :
    (l : Level) (b0 b1 b7 : ℕ) (d : Driver)
    → (bit_and l.s 4 == 0) ≡ true
    → d.nfcid_len + 4 ≤ 10
    → close_level (sak_bytes l) (buffer b0 b1 (uid_part l) b7) d
      ≡ returns (none, appended (l.u0 ∷ l.u1 ∷ l.u2 ∷ l.u3 ∷ []) (record d { sak = l.s }))
unfolding close_level
close_level-last l b0 b1 b7 d last room =
    let sum : crca (l.s ∷ []) % 256 + (crca (l.s ∷ []) / 256) <<< 8 ≡ crca (l.s ∷ []) =
      omega arith in
    rw last (
      rw sum (
        rw (==_refl (crca (l.s ∷ []))) (
          rw (append_nfcid-fits (l.u0 ∷ l.u1 ∷ l.u2 ∷ l.u3 ∷ []) (record d { sak = l.s }) room)
            refl)))

-- The driver when the last level is closed.
abbrev pub identified : Driver → List Level → Level → Driver
identified d [] last =
    appended (last.u0 ∷ last.u1 ∷ last.u2 ∷ last.u3 ∷ []) (record d { sak = last.s })
identified d (l ∷ ls) last = identified (appended (l.u1 ∷ l.u2 ∷ l.u3 ∷ []) d) ls last

-- The identifier of the card: without the cascade tags.
abbrev pub uid_of : List Level → Level → List ℕ
uid_of [] last = last.u0 ∷ last.u1 ∷ last.u2 ∷ last.u3 ∷ []
uid_of (l ∷ ls) last = (l.u1 ∷ l.u2 ∷ l.u3 ∷ []) ++ uid_of ls last

-- All levels but the last have the cascade bit in the answer to select, the last one does not.
abbrev pub AllGoOn : List Level → Type 0
AllGoOn [] = Unit
AllGoOn (l ∷ ls) = ((bit_and l.s 4 == 0) ≡ false) × AllGoOn ls

abbrev pub answers_of : List Level → Level → List Reply → List Reply
answers_of [] last rest = level_answers last rest
answers_of (l ∷ ls) last rest = level_answers l (answers_of ls last rest)

abbrev pub requests_of : ℕ → List ℕ → List Level → Level → List Sent
requests_of level before [] last = level_sent level before last
requests_of level before (l ∷ ls) last =
    level_sent level before l ++ requests_of (level + 1) (uid_part l) ls last

pub cascade-runs :
    (more : List Level) (last : Level) (level : ℕ) (p q r : ℕ → ℕ) (b0 b1 b2 b3 b4 b5 b6 b7 : ℕ)
    (d : Driver) (rest : List Reply) (sent : List Sent)
    → AllGoOn more
    → (bit_and last.s 4 == 0) ≡ true
    → d.nfcid_len + length more * 3 + 4 ≤ 10
    → cascade tape_device
        (suc (length more))
        level
        (λ i. p i ∷ q i ∷ r i ∷ [])
        (buffer b0 b1 (b2 ∷ b3 ∷ b4 ∷ b5 ∷ b6 ∷ []) b7)
        d
        (tape (answers_of more last rest) sent)
      ≡ returns (
        none,
        identified d more last,
        tape rest (sent ++ requests_of level (b2 ∷ b3 ∷ b4 ∷ b5 ∷ b6 ∷ []) more last),
      )
unfolding cascade
cascade-runs [] last level p q r b0 b1 b2 b3 b4 b5 b6 b7 d rest sent go stop room =
    rw
      (cascade_level-answers level (p level) (q level) (r level) b0 b1 b2 b3 b4 b5 b6 b7 d last rest
        sent)
      (rw (close_level-last last (sel level) 0x70 b7 d stop (omega arith)) refl)
cascade-runs (l ∷ ls) last level p q r b0 b1 b2 b3 b4 b5 b6 b7 d rest sent go stop room =
    rw
      (cascade_level-answers level (p level) (q level) (r level) b0 b1 b2 b3 b4 b5 b6 b7 d l
        (answers_of ls last rest) sent)
      (rw (close_level-more l (sel level) 0x70 b7 d go.0 (omega arith)) (
        cascade-runs ls last (level + 1) p q r (sel level) 0x70 l.u0 l.u1 l.u2 l.u3 (bcc l) b7
          (appended (l.u1 ∷ l.u2 ∷ l.u3 ∷ []) d) rest
          (sent ++ level_sent level (b2 ∷ b3 ∷ b4 ∷ b5 ∷ b6 ∷ []) l) go.1 stop (omega arith)
        ∙ ap
            (λ s.
              returns
                (none, identified (appended (l.u1 ∷ l.u2 ∷ l.u3 ∷ []) d) ls last, tape rest s))
            (append_assoc sent (level_sent level (b2 ∷ b3 ∷ b4 ∷ b5 ∷ b6 ∷ []) l)
              (requests_of (level + 1) (uid_part l) ls last))))

pub identified-identifier :
    (more : List Level) (last : Level) (d : Driver)
    → d.nfcid_len + length more * 3 + 4 ≤ length d.nfcid_data
    → (identifier (identified d more last) ≡ identifier d ++ uid_of more last)
      × ((identified d more last).sak ≡ last.s)
identified-identifier [] last d room = (
  identifier-appended (last.u0 ∷ last.u1 ∷ last.u2 ∷ last.u3 ∷ []) (record d { sak = last.s })
      (omega arith),
  refl,
)
identified-identifier (l ∷ ls) last d room =
    let part : List ℕ = l.u1 ∷ l.u2 ∷ l.u3 ∷ [] in
    let rest =
      identified-identifier ls last (appended part d)
        (omega (arith, length-overlay_at d.nfcid_len d.nfcid_data part)) in
    (
      rest.0
          ∙ ap (λ (front : List ℕ). front ++ uid_of ls last)
              (identifier-appended part d (omega arith))
          ∙ append_assoc (identifier d) part (uid_of ls last),
      rest.1,
    )

-- The loop over the cascade levels, from an empty identifier, with a type A card of up to three levels
-- that sets the cascade bit at all levels but the last and answers each with the right check bytes. The
-- loop ends without an error; the driver then has the card's identifier, without the cascade tags, and
-- its last answer to select; and exactly two requests have been sent for each level: the anticollision
-- command, which from the second level on carries the five bytes of the level before, and the selection
-- with its checksum.
pub cascade-identifies :
    (more : List Level) (last : Level) (p q r : ℕ → ℕ) (b0 b1 b2 b3 b4 b5 b6 b7 : ℕ) (d : Driver)
    (rest : List Reply) (sent : List Sent)
    → AllGoOn more
    → (bit_and last.s 4 == 0) ≡ true
    → d.nfcid_len ≡ 0
    → length d.nfcid_data ≡ 10
    → length more ≤ 2
    → (d' : Driver) × (cascade tape_device
          (suc (length more))
          0
          (λ i. p i ∷ q i ∷ r i ∷ [])
          (buffer b0 b1 (b2 ∷ b3 ∷ b4 ∷ b5 ∷ b6 ∷ []) b7)
          d
          (tape (answers_of more last rest) sent)
        ≡ returns
            (none, d', tape rest (sent ++ requests_of 0 (b2 ∷ b3 ∷ b4 ∷ b5 ∷ b6 ∷ []) more last)))
      × (identifier d' ≡ uid_of more last)
      × (d'.sak ≡ last.s)
cascade-identifies more last p q r b0 b1 b2 b3 b4 b5 b6 b7 d rest sent go stop empty size few =
    let known = identified-identifier more last d (omega arith) in
    (
      identified d more last,
      cascade-runs more last 0 p q r b0 b1 b2 b3 b4 b5 b6 b7 d rest sent go stop (omega arith),
      known.0 ∙ ap (λ (n : ℕ). take n d.nfcid_data ++ uid_of more last) empty,
      known.1,
    )
