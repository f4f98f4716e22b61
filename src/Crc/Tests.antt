-- ===== src/Crc/Tests.antt =====
-- Checksums of short frames.
use nfcee_fw.Base.{ℕ, List, [], ◌∷◌, ◌++◌, ◌≡◌, ◌≢◌, ◌↔◌, arith}
use nfcee_fw.Crc.{crca, crc_bytes}
use nfcee_fw.Crc.Reference.{reference_loop, crca-eq-reference}
use nfcee_fw.Crc.Residue.{crca-append-eq-zero_iff}
use nfcee_fw.Crc.Detection.{crca_detects_byte}

-- HLTA, the frame of ISO 14443-3 that is sent with 0x57 0xCD behind it.
abbrev halt : List ℕ
halt = 0x50 ∷ 0x00 ∷ []

crca-eq-reference_example : crca halt ≡ reference_loop 0x6363 halt
crca-eq-reference_example = crca-eq-reference halt (omega arith, (omega arith, tt))

crca-append-eq-zero_iff_example :
    (crca (halt ++ 0x57 ∷ 0xCD ∷ []) ≡ 0) ↔ ((0x57 ∷ 0xCD ∷ []) ≡ crc_bytes halt)
crca-append-eq-zero_iff_example = crca-append-eq-zero_iff halt 0x57 0xCD (omega arith) (omega arith)

crca_detects_byte_example : crca (0x50 ∷ 0x00 ∷ []) ≢ crca (0x51 ∷ 0x00 ∷ [])
crca_detects_byte_example =
    crca_detects_byte [] (0x00 ∷ []) 0x50 0x51 (omega arith) (omega arith) (omega arith, tt)
      (λ e. omega (arith, e))
