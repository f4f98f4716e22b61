-- ===== src/Nfc/Frames.antt =====
-- The frames of libs/nfc/iso14443a.c: bytes as they are, a short frame of 7 bits, and bytes with
-- their checksum behind them.
use nfcee_fw.Base.{ℕ, ◌*◌, List, [], ◌∷◌}
use nfcee_fw.Crc.{crc_bytes}
use nfcee_fw.Nfc.{Device, of_bytes, Reply}

module _ {W : Type 0} (dev : Device W) where
  -- `transceive`: the bytes alone.
  unfoldable pub transceive_plain : List ℕ → ℕ → ℕ → W → Reply × W
  transceive_plain tx rxlen timeout w = dev.dev_transceive (of_bytes tx ∷ []) (rxlen * 8) timeout w

  -- `transceive_short`: 7 bits of one byte.
  unfoldable pub transceive_short : ℕ → ℕ → ℕ → W → Reply × W
  transceive_short tx rxlen timeout w =
      dev.dev_transceive (record { base = tx ∷ []; bits = 7 } ∷ []) (rxlen * 8) timeout w

  -- `nfc_iso14443a_transceive`: the bytes, then their checksum.
  unfoldable pub transceive_crc : List ℕ → ℕ → ℕ → W → Reply × W
  transceive_crc tx rxlen timeout w =
      dev.dev_transceive (of_bytes tx ∷ of_bytes (crc_bytes tx) ∷ []) (rxlen * 8) timeout w
