-- ===== src/Polling/Prints.antt =====
-- A round of the thread with a card in front of the reader.
use nfcee_fw.Base.{
  ℕ, ◌≤◌, ◌≡◌, refl, ap, ◌∙◌, arith, Bool, false, not, List, [], ◌∷◌, ◌++◌, ltb, length,
}
use nfcee_fw.Run.{returns}
use nfcee_fw.Nfc.{Tech, done, fail, einval, Reply, State, power_off, idle, selected, Driver}
use nfcee_fw.Nfc.Tape.{Sent, Tape, tape_device}
use nfcee_fw.Nfc.TypeA.{Locals}
use nfcee_fw.Nfc.TypeA.Levels.{tape, buffer}
use nfcee_fw.Nfc.TypeA.Identify.{identifier, uid_of}
use nfcee_fw.Nfc.TypeA.Card.{Card, IsCard, card_answers, card_requests}
use nfcee_fw.Nfc.TypeA.Activation.{iso14443a_open-activates}
use nfcee_fw.Nfc.TypeA.Unchanged.{iso14443a_open-IsSameSession}
use nfcee_fw.Nfc.Layer4.{Fops}
use nfcee_fw.Nfc.Session.{
  iso14443a_fops, select_card, power_on, iso14443_open, iso14443_close, nfc_open, nfc_close,
}
use nfcee_fw.Polling.{Board, trace_nfcid, has_nfcid, card_seen, poll_round}

trace_nfcid-identifier : (d : Driver) → d.nfcid_len ≤ 10 → trace_nfcid d ≡ returns (identifier d)
unfolding trace_nfcid
trace_nfcid-identifier d h = let fits : ltb 10 d.nfcid_len ≡ false = ground arith in rw fits refl

-- The branches of the dispatch for a driver of type A that is powered off.
module _ (l3 : Fops Tape) (d : Driver) (w : Tape) (tech : d.tech ≡ Tech.iso14443a) where
  nfc_open-type_a : nfc_open tape_device l3 d w ≡ iso14443_open tape_device l3 d w
  unfolding nfc_open
  nfc_open-type_a =
      ap
        (λ t. elim t [
          | Tech.iso14443a ↦ iso14443_open tape_device l3 d w
          | Tech.iso14443b ↦ iso14443_open tape_device l3 d w
          | _ ↦ returns (fail einval, d, w)
        ])
        tech

  nfc_close-type_a : nfc_close tape_device l3 d w ≡ (done 0, record d { state = power_off }, w)
  unfolding nfc_close iso14443_close
  nfc_close-type_a =
      ap
        (λ t. elim t [
          | Tech.iso14443a ↦ iso14443_close tape_device l3 d w
          | Tech.iso14443b ↦ iso14443_close tape_device l3 d w
          | _ ↦ (fail einval, d, w)
        ])
        tech

  iso14443_open-off :
      d.state ≡ power_off
      → iso14443_open tape_device l3 d w
        ≡ select_card tape_device l3 (record d { fsd = 127; state = idle }) w
  unfolding iso14443_open power_on
  iso14443_open-off off =
      ap
        (λ s. elim s [
          | State.power_off ↦ power_on tape_device l3 d w
          | State.idle ↦ select_card tape_device l3 d w
          | State.halted ↦ select_card tape_device l3 d w
          | State.selected ↦ returns (done 0, d, w)
        ])
        off

  nfc_open-selects :
      (d' : Driver) (w' : Tape)
      → d.state ≡ power_off
      → l3.l3_open (record d { fsd = 127; state = idle }) w ≡ returns (done 0, d', w')
      → nfc_open tape_device l3 d w
        ≡ returns (done 0, record d' { state = selected; block = 0 }, w')
  unfolding select_card
  nfc_open-selects d' w' off opened = nfc_open-type_a ∙ iso14443_open-off off ∙ rw opened refl

card_seen-prints :
    (board : Board Tape) (l3 : Fops Tape) (d : Driver) (w : Tape)
    → d.tech ≡ Tech.iso14443a
    → d.nfcid_len ≤ 10
    → card_seen board tape_device l3 d w
      ≡ returns (record d { state = power_off }, board.sleep_ms 150 (board.trace (identifier d) w))
unfolding card_seen
card_seen-prints board l3 d w tech len = rw (ap has_nfcid tech) (
    rw (trace_nfcid-identifier d len)
      (rw (nfc_close-type_a l3 d (board.trace (identifier d) w) tech) refl))

-- With a type A card in front of the reader that answers as the standard has it, and a light that is not
-- part of the exchange, a round of the thread returns: it prints the card's identifier, and has asked
-- the card for nothing but the activation; the session is powered off again, and the light switched over
-- for the next round.
pub poll_round-prints :
    (board : Board Tape) (c : Card) (p q r : ℕ → ℕ) (b0 b1 b2 b3 b4 b5 b6 b7 : ℕ) (led : Bool)
    (d : Driver) (rest : List Reply) (sent : List Sent)
    → board.led1 led (tape (card_answers c rest) sent) ≡ tape (card_answers c rest) sent
    → IsCard c
    → d.tech ≡ Tech.iso14443a
    → d.state ≡ power_off
    → length d.nfcid_data ≡ 10
    → length d.ats ≡ 7
    → let locals : Locals = record {
      buf = buffer b0 b1 (b2 ∷ b3 ∷ b4 ∷ b5 ∷ b6 ∷ []) b7;
      sak = λ i. p i ∷ q i ∷ r i ∷ [];
    } in
      (d' : Driver) × (poll_round board tape_device
          (iso14443a_fops tape_device locals)
          (led, d, tape (card_answers c rest) sent)
        ≡ returns (
          not led,
          d',
          board.sleep_ms 150 (
              board.trace
                (uid_of c.more c.last)
                (tape rest (sent ++ card_requests c 127 (b2 ∷ b3 ∷ b4 ∷ b5 ∷ b6 ∷ [])))),
        ))
      × (d'.state ≡ power_off)
unfolding poll_round
poll_round-prints board c p q r b0 b1 b2 b3 b4 b5 b6 b7 led d rest sent dark valid tech off size
      room =
    let locals : Locals = record {
      buf = buffer b0 b1 (b2 ∷ b3 ∷ b4 ∷ b5 ∷ b6 ∷ []) b7;
      sak = λ i. p i ∷ q i ∷ r i ∷ [];
    } in
    let w = tape (card_answers c rest) sent in
    let w' = tape rest (sent ++ card_requests c 127 (b2 ∷ b3 ∷ b4 ∷ b5 ∷ b6 ∷ [])) in
    let on : Driver = record d { fsd = 127; state = idle } in
    let (d1, ran, knows) =
      iso14443a_open-activates c p q r b0 b1 b2 b3 b4 b5 b6 b7 on rest sent valid size room in
    let l3 = iso14443a_fops tape_device locals in
    let d2 : Driver = record d1 { state = selected; block = 0 } in
    let kept = iso14443a_open-IsSameSession tape_device locals on d1 w w' (done 0) ran in
    (
      record d1 { state = power_off; block = 0 },
      rw dark (
          rw (nfc_open-selects l3 d w tech d1 w' off ran) (
            rw (card_seen-prints board l3 d2 w' (kept.tech ∙ tech) knows.uid_len) (
              ap
                (λ uid. returns (
                  not led,
                  record d1 { state = power_off; block = 0 },
                  board.sleep_ms 150 (board.trace uid w'),
                ))
                knows.uid))),
      refl,
    )
