-- ===== src/Trf/Exchange/Device.antt =====
-- Frames of libs/nfc through the reader chip: iso14443a.c, trf797x_device.c and trf797x_initiator.c
-- together.
use nfcee_fw.Base.{ℕ, ◌≡◌, List, [], ◌∷◌}
use nfcee_fw.Run.{returns}
use nfcee_fw.Crc.{crc_bytes}
use nfcee_fw.Nfc.{Device, Iovec, Reply, of_bytes}
use nfcee_fw.Trf.{Hal}
use nfcee_fw.Trf.NfcDevice.{Reader, nfc_device_transceive}
use nfcee_fw.Trf.Contract.{Contract}

-- The function for exchanges of a `struct nfc_device` is that of trf797x_device.c: wherever this returns,
-- it gives the same.
abbrev pub IsReader : {W : Type 0} → Hal W → (ℕ → ℕ) → ℕ → Device (Reader × W) → Type 0
IsReader {W} hal ms2st fuel dev =
    (tx : List Iovec) (rx_bits timeout : ℕ) (r : Reader) (w w' : W) (reply : Reply)
    → nfc_device_transceive hal ms2st fuel r tx rx_bits timeout w ≡ returns (reply, w')
    → dev.dev_transceive tx rx_bits timeout (r, w) ≡ (reply, (r, w'))

abbrev with_crc : List ℕ → List Iovec
with_crc tx = of_bytes tx ∷ of_bytes (crc_bytes tx) ∷ []
