-- ===== src/Nfc/Session.antt =====
-- The session with a card: `nfc_iso14443_open` and `nfc_iso14443_close` of libs/nfc/iso14443.c, the
-- layer below them for type A, and the dispatch on the technology in libs/nfc/nfc.c.
pub mod Outcome
pub mod Technology
use nfcee_fw.Base.{ℕ, ◌*◌, Bool, true, false, ◌||◌, List, if◌then◌else◌}
use nfcee_fw.Run.{Run, returns, ◌>>=◌}
use nfcee_fw.Nfc.{
  Tech, Errno, einval, Ret, done, fail, is_zero, Reply, dev_frame_size, Device, State, power_off,
  idle, selected, halted, Driver,
}
use nfcee_fw.Nfc.Frames.{transceive_crc}
use nfcee_fw.Nfc.TypeA.{Locals, iso14443a_open}
use nfcee_fw.Nfc.Layer4.{Fops, Exchange, iso14443_transceive}

-- The functions that `nfc_iso14443a_driver_init` puts into `driver->l3`.
abbrev pub iso14443a_fops : {W : Type 0} → Device W → Locals → Fops W
iso14443a_fops dev locals = record {
  l3_open = iso14443a_open dev locals;
  l3_transceive = λ d tx rxlen timeout w. transceive_crc dev tx rxlen timeout w;
}

module _ {W : Type 0} (dev : Device W) (l3 : Fops W) where
  -- The second half of `nfc_iso14443_open`: select a card, or switch the reader off again.
  unfoldable pub select_card : Driver → W → Run (Ret × Driver × W)
  select_card d w = l3.l3_open d w >>= λ (ret, d1, w1).
      if is_zero ret
      then returns (done 0, record d1 { state = selected; block = 0 }, w1)
      else (let (_, w2) = dev.dev_close w1 in returns (ret, record d1 { state = power_off }, w2))

  -- The first half: power on, and ask for the frame size of the reader.
  unfoldable pub power_on : Driver → W → Run (Ret × Driver × W)
  unfolding select_card
  power_on d w =
      let (ret, w1) = dev.dev_open d.tech w in
      if is_zero ret
      then (let (_, fsd, w2) = dev.dev_ioctl dev_frame_size d.fsd w1 in
          select_card (record d { fsd = fsd; state = idle }) w2)
      else returns (ret, d, w1)

  unfoldable pub iso14443_open : Driver → W → Run (Ret × Driver × W)
  unfolding power_on
  iso14443_open d w = elim d.state [
    | State.power_off ↦ power_on d w
    | State.idle ↦ select_card d w
    | State.halted ↦ select_card d w
    | State.selected ↦ returns (done 0, d, w)
  ]

  unfoldable pub iso14443_close : Driver → W → Ret × Driver × W
  iso14443_close d w = let (ret, w1) = dev.dev_close w in (ret, record d { state = power_off }, w1)

  -- `nfc_open`, `nfc_transceive`, `nfc_close`: only the two ISO 14443 technologies have a driver.
  unfoldable pub nfc_open : Driver → W → Run (Ret × Driver × W)
  unfolding iso14443_open
  nfc_open d w = elim d.tech [
    | Tech.iso14443a ↦ iso14443_open d w
    | Tech.iso14443b ↦ iso14443_open d w
    | _ ↦ returns (fail einval, d, w)
  ]

  unfoldable pub nfc_transceive : ℕ → List ℕ → Driver → List ℕ → ℕ → ℕ → W → Run (Exchange × W)
  nfc_transceive fuel buf0 d tx rxlen timeout w = elim d.tech [
    | Tech.iso14443a ↦ iso14443_transceive l3 fuel buf0 d tx rxlen timeout w
    | Tech.iso14443b ↦ iso14443_transceive l3 fuel buf0 d tx rxlen timeout w
    | _ ↦ returns (record { ret = fail einval; out = List.[]; driver = d }, w)
  ]

  unfoldable pub nfc_close : Driver → W → Ret × Driver × W
  unfolding iso14443_close
  nfc_close d w = elim d.tech [
    | Tech.iso14443a ↦ iso14443_close d w
    | Tech.iso14443b ↦ iso14443_close d w
    | _ ↦ (fail einval, d, w)
  ]
