-- ===== src/Polling/Rounds.antt =====
-- The session between two rounds of the thread.
use nfcee_fw.Base.{
  ℕ, zero, suc, Bool, not, sym, ap, if◌then◌else◌, ◌≡◌, inl, inr, refl, arith, Bool-cases,
}
use nfcee_fw.Run.{returns, ◌>>=◌, Post, Post->>=, Post-bind, Post-both, Post-returns}
use nfcee_fw.Nfc.{Tech, Ret, is_zero, Device, power_off, Driver}
use nfcee_fw.Nfc.TypeA.{Locals}
use nfcee_fw.Nfc.Session.{iso14443a_fops, nfc_open, nfc_close}
use nfcee_fw.Nfc.Session.Outcome.{IsOpened, Opened, nfc_open-Opened}
use nfcee_fw.Nfc.Session.Technology.{KeepsTech, nfc_open-KeepsTech}
use nfcee_fw.Polling.{Board, trace_nfcid, has_nfcid, card_seen, poll_round, poll_rounds}

-- The light after a number of rounds.
abbrev pub toggled : ℕ → Bool → Bool
toggled zero led = led
toggled (suc n) led = toggled n (not led)

-- Between two rounds the session is powered off, and the driver is the one for type A.
abbrev pub IsOff : {W : Type 0} → Bool → Bool × Driver × W → Type 0
IsOff expected (led, d, w) = (led ≡ expected) × (d.state ≡ power_off) × (d.tech ≡ Tech.iso14443a)

module _ {W : Type 0} (board : Board W) (dev : Device W) (locals : Locals) where
  abbrev Closed : Driver × W → Type 0
  Closed (d, w) = (d.state ≡ power_off) × (d.tech ≡ Tech.iso14443a)

  nfc_close-Closed :
      (d : Driver) (w : W)
      → d.tech ≡ Tech.iso14443a
      → let (_, d1, w1) = nfc_close dev (iso14443a_fops dev locals) d w in Closed (d1, w1)
  unfolding nfc_close
  nfc_close-Closed d w e = rw e (refl, refl)

  card_seen-Closed :
      (d : Driver) (w : W)
      → d.tech ≡ Tech.iso14443a
      → Post Closed (card_seen board dev (iso14443a_fops dev locals) d w)
  unfolding card_seen
  card_seen-Closed d w e =
      rw (ap has_nfcid e)
        (Post-bind Closed (trace_nfcid d) _ (λ id. nfc_close-Closed d (board.trace id w) e))

  after_open-IsOff :
      (led : Bool) (ret : Ret) (d : Driver) (w : W)
      → IsOpened (is_zero ret) d
      → d.tech ≡ Tech.iso14443a
      → Post (IsOff (not led)) (
          if is_zero ret
          then (card_seen board dev (iso14443a_fops dev locals) d w >>= λ (d2, w2).
              returns (not led, d2, w2))
          else returns (not led, d, board.sleep_ms 500 w))
  after_open-IsOff led ret d w opened tech = elim (Bool-cases (is_zero ret)) [
    | inl e ↦ rw e (
        Post->>= Closed (IsOff (not led)) (card_seen board dev (iso14443a_fops dev locals) d w) _
          (card_seen-Closed d w tech) (λ (d2, w2) h. (refl, h.0, h.1)))
    | inr e ↦ rw e (refl, rw e at opened, tech)
  ]

  poll_round-IsOff :
      (led : Bool) (d : Driver) (w : W)
      → d.state ≡ power_off
      → d.tech ≡ Tech.iso14443a
      → Post (IsOff (not led)) (poll_round board dev (iso14443a_fops dev locals) (led, d, w))
  unfolding poll_round
  poll_round-IsOff led d w off tech =
      Post->>= (λ r. Opened r × KeepsTech dev locals Tech.iso14443a r) (IsOff (not led))
        (nfc_open dev (iso14443a_fops dev locals) d (board.led1 led w)) _
        (Post-both Opened (KeepsTech dev locals Tech.iso14443a) _
          (nfc_open-Opened dev (iso14443a_fops dev locals) d.tech d (board.led1 led w) refl
            (inl tech) (λ e. ground (arith, off, e)))
          (nfc_open-KeepsTech dev locals d (board.led1 led w) tech))
        (λ (ret, d1, w1) h. after_open-IsOff led ret d1 w1 h.0 h.1)

  poll_rounds-Off :
      (n : ℕ) (led : Bool) (d : Driver) (w : W)
      → d.state ≡ power_off
      → d.tech ≡ Tech.iso14443a
      → Post
          (IsOff (toggled n led))
          (poll_rounds board dev (iso14443a_fops dev locals) n (led, d, w))
  unfolding poll_rounds
  poll_rounds-Off zero led d w off tech = (refl, off, tech)
  poll_rounds-Off (suc n) led d w off tech =
      Post->>= (IsOff (not led)) (IsOff (toggled n (not led)))
        (poll_round board dev (iso14443a_fops dev locals) (led, d, w))
        (λ s. poll_rounds board dev (iso14443a_fops dev locals) n s)
        (poll_round-IsOff led d w off tech)
        (λ (led', d', w') h. rw (sym h.0) (poll_rounds-Off n led' d' w' h.1 h.2))

-- The thread, from a driver for type A that is powered off, after any number of rounds and with any
-- reader and cards: if the rounds have returned, then the session is powered off again, the driver is
-- still the one for type A, and the light has been switched over once in each round.
pub poll_rounds-IsOff :
    {W : Type 0} (board : Board W) (dev : Device W) (locals : Locals) (n : ℕ) (led led' : Bool)
    (d d' : Driver) (w w' : W)
    → d.state ≡ power_off
    → d.tech ≡ Tech.iso14443a
    → poll_rounds board dev (iso14443a_fops dev locals) n (led, d, w) ≡ returns (led', d', w')
    → IsOff (toggled n led) (led', d', w')
poll_rounds-IsOff board dev locals n led led' d d' w w' off tech ran =
    Post-returns (IsOff (toggled n led)) _ (poll_rounds-Off board dev locals n led d w off tech) ran
