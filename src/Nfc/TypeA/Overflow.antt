-- ===== src/Nfc/TypeA/Overflow.antt =====
-- The identifier's array with a card that closes each of three levels as if it were the last.
use nfcee_fw.Base.{
  ℕ, ◌+◌, ◌/◌, ◌%◌, ◌≡◌, ◌<◌, refl, arith, true, List, [], ◌∷◌, ◌++◌, bit_and, ltb, ◌==◌, ==_refl,
  length,
}
use nfcee_fw.Word.{◌<<<◌}
use nfcee_fw.Run.{fault}
use nfcee_fw.Crc.{crca}
use nfcee_fw.Nfc.{Reply, Driver}
use nfcee_fw.Nfc.Tape.{Sent, tape_device}
use nfcee_fw.Nfc.TypeA.{append_nfcid, close_level, cascade}
use nfcee_fw.Nfc.TypeA.Levels.{
  Level, bcc, uid_part, sak_bytes, level_answers, sel, level_sent, tape, buffer,
  cascade_level-answers,
}
use nfcee_fw.Nfc.TypeA.Identify.{appended, close_level-last}

append_nfcid-faults :
    (part : List ℕ) (d : Driver) → 10 < d.nfcid_len + length part → append_nfcid part d ≡ fault
unfolding append_nfcid
append_nfcid-faults part d h =
    let over : ltb 10 (d.nfcid_len + length part) ≡ true = ground arith in rw over refl

close_level-faults :
    (l : Level) (b0 b1 b7 : ℕ) (d : Driver)
    → (bit_and l.s 4 == 0) ≡ true
    → 6 < d.nfcid_len
    → close_level (sak_bytes l) (buffer b0 b1 (uid_part l) b7) d ≡ fault
unfolding close_level
close_level-faults l b0 b1 b7 d last over =
    let sum : crca (l.s ∷ []) % 256 + (crca (l.s ∷ []) / 256) <<< 8 ≡ crca (l.s ∷ []) =
      omega arith in
    rw last (
      rw sum (
        rw (==_refl (crca (l.s ∷ []))) (
          rw
            (append_nfcid-faults (l.u0 ∷ l.u1 ∷ l.u2 ∷ l.u3 ∷ []) (record d { sak = l.s })
              (omega arith))
            refl)))

-- A card that announces three levels and closes each of them without the cascade bit, with right check
-- bytes, makes the loop write 12 bytes into the 10 of `nfcid.data`: nothing in the loop stops at the first
-- level without the bit, and nothing bounds the identifier.
pub cascade-overflows :
    (l0 l1 l2 : Level) (p q r : ℕ → ℕ) (b0 b1 b2 b3 b4 b5 b6 b7 : ℕ) (d : Driver)
    (rest : List Reply) (sent : List Sent)
    → (bit_and l0.s 4 == 0) ≡ true
    → (bit_and l1.s 4 == 0) ≡ true
    → (bit_and l2.s 4 == 0) ≡ true
    → d.nfcid_len ≡ 0
    → cascade tape_device 3 0
        (λ i. p i ∷ q i ∷ r i ∷ [])
        (buffer b0 b1 (b2 ∷ b3 ∷ b4 ∷ b5 ∷ b6 ∷ []) b7)
        d
        (tape (level_answers l0 (level_answers l1 (level_answers l2 rest))) sent)
      ≡ fault
unfolding cascade
cascade-overflows l0 l1 l2 p q r b0 b1 b2 b3 b4 b5 b6 b7 d rest sent stop0 stop1 stop2 empty =
    rw
      (cascade_level-answers 0 (p 0) (q 0) (r 0) b0 b1 b2 b3 b4 b5 b6 b7 d l0
        (level_answers l1 (level_answers l2 rest)) sent)
      (rw (close_level-last l0 (sel 0) 0x70 b7 d stop0 (omega arith)) (
        rw
          (cascade_level-answers 1 (p 1) (q 1) (r 1) (sel 0) 0x70 l0.u0 l0.u1 l0.u2 l0.u3 (bcc l0)
            b7 d1 l1 (level_answers l2 rest) sent1)
          (rw (close_level-last l1 (sel 1) 0x70 b7 d1 stop1 (omega arith)) (
            rw
              (cascade_level-answers 2 (p 2) (q 2) (r 2) (sel 1) 0x70 l1.u0 l1.u1 l1.u2 l1.u3
                (bcc l1) b7 d2 l2 rest sent2)
              (rw (close_level-faults l2 (sel 2) 0x70 b7 d2 stop2 (omega arith)) refl)))))
  where
    d1 : Driver
    d1 = appended (l0.u0 ∷ l0.u1 ∷ l0.u2 ∷ l0.u3 ∷ []) (record d { sak = l0.s })

    d2 : Driver
    d2 = appended (l1.u0 ∷ l1.u1 ∷ l1.u2 ∷ l1.u3 ∷ []) (record d1 { sak = l1.s })

    sent1 : List Sent
    sent1 = sent ++ level_sent 0 (b2 ∷ b3 ∷ b4 ∷ b5 ∷ b6 ∷ []) l0

    sent2 : List Sent
    sent2 = sent1 ++ level_sent 1 (uid_part l0) l1
