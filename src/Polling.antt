-- ===== src/Polling.antt =====
-- The thread of nfc.c that looks for cards: it opens a session, prints the card's identifier, closes the
-- session, and waits.
pub mod Rounds
pub mod Prints
mod Tests
use nfcee_fw.Base.{ℕ, zero, suc, Bool, true, false, not, List, [], ltb, if◌then◌else◌, take}
use nfcee_fw.Run.{Run, returns, fault, ◌>>=◌}
use nfcee_fw.Nfc.{Tech, Ret, is_zero, Device, Driver}
use nfcee_fw.Nfc.Layer4.{Fops}
use nfcee_fw.Nfc.Session.{nfc_open, nfc_close}

-- What the thread asks of the board: `gpioSetPad(GPIO_LED1)` or `gpioClearPad(GPIO_LED1)`, `trace` of
-- the identifier, and `chThdSleepMilliseconds`.
pub record Board (W : Type 0) : Type 0 where
  pub led1 : Bool → W → W
  pub trace : List ℕ → W → W
  pub sleep_ms : ℕ → W → W

-- `trace_nfcid`: the array has 10 bytes.
unfoldable pub trace_nfcid : Driver → Run (List ℕ)
trace_nfcid d = if ltb 10 d.nfcid_len then fault else returns (take d.nfcid_len d.nfcid_data)

abbrev pub has_nfcid : Tech → Bool
has_nfcid Tech.iso14443a = true
has_nfcid Tech.iso14443b = true
has_nfcid Tech.iso15693 = false
has_nfcid Tech.felica = false

module _ {W : Type 0} (board : Board W) (dev : Device W) (l3 : Fops W) where
  -- With an open session: the identifier is printed, the session is closed.
  unfoldable pub card_seen : Driver → W → Run (Driver × W)
  unfolding trace_nfcid
  card_seen d w =
      if has_nfcid d.tech
      then (trace_nfcid d >>= λ id.
          let (_, d1, w1) = nfc_close dev l3 d (board.trace id w) in
          returns (d1, board.sleep_ms 150 w1))
      else (let (_, d1, w1) = nfc_close dev l3 d w in returns (d1, board.sleep_ms 150 w1))

  -- The body of `while (true)`.
  unfoldable pub poll_round : Bool × Driver × W → Run (Bool × Driver × W)
  unfolding card_seen
  poll_round (led, d, w) = nfc_open dev l3 d (board.led1 led w) >>= λ (ret, d1, w1).
      if is_zero ret
      then (card_seen d1 w1 >>= λ (d2, w2). returns (not led, d2, w2))
      else returns (not led, d1, board.sleep_ms 500 w1)

  unfoldable pub poll_rounds : ℕ → Bool × Driver × W → Run (Bool × Driver × W)
  unfolding poll_round
  poll_rounds zero s = returns s
  poll_rounds (suc n) s = poll_round s >>= λ s'. poll_rounds n s'
