-- ===== src/Nfc/Layer4/Bounds.antt =====
-- What holds of every transceive, whatever the card answers: how much is stored, what is returned,
-- and what of the driver changes.
use nfcee_fw.Base.{ℕ, ◌≤◌, ◌⊎◌, Option, List, ◌≡◌, length}
use nfcee_fw.Run.{Run, Post}
use nfcee_fw.Nfc.{done, fail, eio, Driver}
use nfcee_fw.Nfc.Layer4.{Exchange}

-- `n` bytes at most were stored, the result counts them or is an error, and the driver is `d` but
-- for its block number.
pub record IsBounded (rxlen : ℕ) (d : Driver) (e : Exchange) : Type 0 where
  pub fits : length e.out ≤ rxlen
  pub counted : (e.ret ≡ done (length e.out)) ⊎ (e.ret ≡ fail eio)
  pub same_driver : e.driver ≡ record d { block = e.driver.block }

module _ {W : Type 0} (rxlen : ℕ) where
  abbrev Bounded : Driver → Exchange × W → Type 0
  Bounded d r = IsBounded rxlen d r.0

  -- The rest of the loop, from any state that it can go on with.
  abbrev GoesOn : Driver → (List ℕ → List ℕ → W → Run (Exchange × W)) → Type 0
  GoesOn d again =
      (buf out : List ℕ) (w : W) → length out ≤ rxlen → Post (Bounded d) (again buf out w)

-- Only the block number changes while a chain is sent.
abbrev KeepsDriver : {W : Type 0} → Driver → Option (List ℕ) × Driver × List ℕ × W → Type 0
KeepsDriver d r = r.1 ≡ record d { block = r.1.block }
