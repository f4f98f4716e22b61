-- ===== src/Board/Start.antt =====
-- `boardInit`: the modes of all pads afterwards.
use nfcee_fw.Base.{ℕ, ◌<◌, ◌≡◌, false, List, length}
use nfcee_fw.Gpio.{Port}
use nfcee_fw.Gpio.PortModes.{port_pad_mode}
use nfcee_fw.Board.{board_pads}
use nfcee_fw.Board.Pads.{HaveModes, names}

-- No pad of any port has another mode than before.
abbrev KeepsModes : List Port → List Port → Type 0
KeepsModes ports ports' =
    (length ports' ≡ length ports)
    × ((r i : ℕ) → port_pad_mode ports' r i ≡ port_pad_mode ports r i)

-- What holds of the ports after the start: each pad that `board.h` names has the mode given there, and
-- every pad that it does not name, of any port, has the mode it had.
pub record AreSetUp (ports ports' : List Port) : Type 0 where
  pub named : HaveModes board_pads (port_pad_mode ports')
  pub others :
      (r i : ℕ)
      → i < 16
      → names board_pads r i ≡ false
      → port_pad_mode ports' r i ≡ port_pad_mode ports r i
