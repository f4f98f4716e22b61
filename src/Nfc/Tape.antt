-- ===== src/Nfc/Tape.antt =====
-- A recorded session: a layer below that answers with the replies of a list, one after the other,
-- and writes down what it is asked to send. Any card shows itself as such a list.
use nfcee_fw.Base.{ℕ, ◌+◌, ◌/◌, List, [], ◌∷◌, ◌++◌, take}
use nfcee_fw.Run.{returns}
use nfcee_fw.Nfc.{done, fail, etimedout, Reply, Iovec, Device}
use nfcee_fw.Nfc.Layer4.{Fops}

-- A request: the bytes, the size of the buffer for the answer, the time allowed.
pub record Sent : Type 0 where
  pub frame : List ℕ
  pub cap : ℕ
  pub timeout : ℕ

pub record Tape : Type 0 where
  pub answers : List Reply
  pub sent : List Sent

abbrev pub cut : ℕ → Reply → Reply
cut cap r = record r { stored = take cap r.stored }

abbrev pub play_from : List Reply → Sent → List Sent → Reply × Tape
play_from [] s sent =
    (record { ret = fail etimedout; stored = [] }, record { answers = []; sent = sent ++ s ∷ [] })
play_from (r ∷ rest) s sent = (cut s.cap r, record { answers = rest; sent = sent ++ s ∷ [] })

abbrev pub tape_fops : Fops Tape
tape_fops = record {
  l3_open = λ d w. returns (fail etimedout, d, w);
  l3_transceive = λ d tx cap timeout w.
      play_from w.answers (record { frame = tx; cap = cap; timeout = timeout }) w.sent;
}

-- The same for a reader that takes frames in parts: the parts are put together.
abbrev pub joined : List Iovec → List ℕ
joined [] = []
joined (v ∷ vs) = v.base ++ joined vs

abbrev pub tape_device : Device Tape
tape_device = record {
  dev_open = λ tech w. (done 0, w);
  dev_transceive = λ tx rx_bits timeout w.
      play_from w.answers (record { frame = joined tx; cap = (rx_bits + 7) / 8; timeout = timeout })
        w.sent;
  dev_ioctl = λ req arg w. (done 0, 127, w);
  dev_close = λ w. (done 0, w);
}
