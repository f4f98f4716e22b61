-- ===== src/Nfc/TypeA.antt =====
-- Activation of a type A card: `nfc_iso14443a_open`, `nfc_iso14443a_close` and
-- `nfc_iso14443a_driver_init` of libs/nfc.
pub mod Unchanged
pub mod Levels
pub mod Identify
pub mod Ats
pub mod Card
pub mod Activation
pub mod Overflow
mod Tests
use nfcee_fw.Base.{
  ℕ, zero, suc, ◌+◌, ◌*◌, Bool, ◌&&◌, not, Option, none, some, List, [], ◌∷◌, bit_and, bit_or,
  bit_xor, ltb, ◌==◌, if◌then◌else◌, length, get_or, set, take, drop, overlay, overlay_at,
}
use nfcee_fw.Word.{u8, ◌<<<◌, ◌>>>◌}
use nfcee_fw.Run.{Run, returns, fault, ◌>>=◌}
use nfcee_fw.Crc.{crca}
use nfcee_fw.Nfc.{
  iso14443a, Errno, enodev, eproto, eio, Ret, done, fail, is_fail, Reply, Device, power_off, Driver,
}
use nfcee_fw.Nfc.Tables.{fsci2fsc, fsd2fsdi, fwi2fw}
use nfcee_fw.Nfc.Frames.{transceive_plain, transceive_short, transceive_crc}

abbrev default_timeout : ℕ
default_timeout = 15

-- The local arrays of `nfc_iso14443a_open`, which C leaves uninitialised: `buf[8]`, and `sak[3]` at
-- each level.
pub record Locals : Type 0 where
  pub buf : List ℕ
  pub sak : ℕ → List ℕ

abbrev pub byte_at : List ℕ → ℕ → ℕ
byte_at buf i = get_or buf i 0

-- `is_bcc_valid(buf + 2, buf[6])`.
unfoldable pub is_bcc_valid : List ℕ → Bool
is_bcc_valid buf =
    bit_xor (bit_xor (bit_xor (byte_at buf 2) (byte_at buf 3)) (byte_at buf 4)) (byte_at buf 5)
    == byte_at buf 6

-- `memcpy(driver->nfcid.data + driver->nfcid.len, part, n); driver->nfcid.len += n`, where the array
-- has 10 bytes.
unfoldable pub append_nfcid : List ℕ → Driver → Run Driver
append_nfcid part d =
    if ltb 10 (d.nfcid_len + length part)
    then fault
    else returns (record d {
      nfcid_len = d.nfcid_len + length part;
      nfcid_data = overlay_at d.nfcid_len d.nfcid_data part;
    })

-- The end of a level, from the bytes of `sak`: `none` goes on with the next one.
unfoldable pub close_level : List ℕ → List ℕ → Driver → Run (Option Errno × Driver)
close_level sak buf d =
    if bit_and (byte_at sak 0) 4 == 0
    then (if crca (take 1 sak) == byte_at sak 1 + byte_at sak 2 <<< 8
        then (append_nfcid (take 4 (drop 2 buf)) (record d { sak = byte_at sak 0 }) >>= λ d'.
            returns (none, d'))
        else returns (some eio, d))
    else append_nfcid (take 3 (drop 3 buf)) d >>= λ d'. returns (none, d')

module _ {W : Type 0} (dev : Device W) where
  -- One round of the loop over the cascade levels; it returns the buffer for the next one.
  unfoldable pub cascade_level :
      ℕ → List ℕ → List ℕ → Driver → W → Run (Option Errno × Driver × List ℕ × W)
  cascade_level level sak0 buf0 d w =
      let buf1 = set (set buf0 0 (u8 (0x93 + 2 * level))) 1 0x20 in
      let (uid, w1) =
        transceive_plain dev (take (if level == 0 then 2 else 7) buf1) 5 default_timeout w in
      let buf2 = overlay_at 2 buf1 uid.stored in
      if is_fail uid.ret
      then returns (some eio, d, buf2, w1)
      else (if not (is_bcc_valid buf2)
          then returns (some eio, d, buf2, w1)
          else (let buf3 = set buf2 1 0x70 in
              let (ack, w2) = transceive_crc dev (take 7 buf3) 3 default_timeout w1 in
              if is_fail ack.ret
              then returns (some eio, d, buf3, w2)
              else close_level (overlay sak0 ack.stored) buf3 d >>= λ (e, d').
                  returns (e, d', buf3, w2)))

  -- `for (level = 0; level < uid_size; level++)`, with the rounds that are left.
  unfoldable pub cascade :
      ℕ → ℕ → (ℕ → List ℕ) → List ℕ → Driver → W → Run (Option Errno × Driver × W)
  cascade zero level sak0 buf d w = returns (none, d, w)
  cascade (suc rounds) level sak0 buf d w =
      cascade_level level (sak0 level) buf d w >>= λ (e, d', buf', w'). elim e [
        | none ↦ cascade rounds (level + 1) sak0 buf' d' w'
        | some error ↦ returns (some error, d', w')
      ]

  -- The answer to select is kept, and the sizes and times that it announces.
  unfoldable pub apply_ats : Driver → Driver
  apply_ats d =
      let t0 = byte_at d.ats 1 in
      let long = ltb 1 (byte_at d.ats 0) in
      let tb = byte_at d.ats (if bit_and t0 0x10 == 0 then 2 else 3) in
      let fwi = if long && not (bit_and t0 0x20 == 0) then tb >>> 4 else 8 in
      record d { fsc = if long then fsci2fsc (bit_and t0 0x0F) else d.fsc; fwt = fwi2fw fwi }

  -- `if ((driver->sak & 0x24) == 0x20)`: request for answer to select.
  unfoldable pub request_ats : Driver → W → Run (Ret × Driver × W)
  unfolding apply_ats
  request_ats d w =
      if bit_and d.sak 0x24 == 0x20
      then (let rats = 0xE0 ∷ u8 (fsd2fsdi d.fsd <<< 4) ∷ [] in
          let (answer, w1) = transceive_crc dev rats 7 default_timeout w in
          let d1 = record d { ats = overlay d.ats answer.stored } in
          if is_fail answer.ret
          then returns (answer.ret, d1, w1)
          else returns (done 0, apply_ats d1, w1))
      else returns (done 0, d, w)

  unfoldable pub finish_open : Option Errno × Driver × W → Run (Ret × Driver × W)
  finish_open (e, d, w) = elim e [
    | none ↦ request_ats d w
    | some error ↦ returns (fail error, d, w)
  ]

  -- `nfc_iso14443a_open`.
  unfoldable pub iso14443a_open : Locals → Driver → W → Run (Ret × Driver × W)
  iso14443a_open locals d w =
      let (answer, w1) = transceive_short dev 0x52 8 default_timeout w in
      let buf = overlay locals.buf answer.stored in
      if is_fail answer.ret
      then returns (fail enodev, d, w1)
      else (let d1 = record d { atqa = bit_or (byte_at buf 0) (byte_at buf 1 <<< 8) } in
          if bit_and d1.atqa 0x1F == 0
          then returns (fail eproto, d1, w1)
          else (let uid_size = bit_and (byte_at buf 0 >>> 6) 3 + 1 in
              if ltb 3 uid_size
              then returns (fail eio, d1, w1)
              else cascade uid_size 0 locals.sak buf (record d1 { nfcid_len = 0 }) w1
                >>= finish_open))

  -- `nfc_iso14443a_close` sends HLTA; no answer is expected.
  unfoldable pub iso14443a_close : W → Reply × W
  iso14443a_close w = transceive_crc dev (0x50 ∷ 0x00 ∷ []) 0 0 w

-- `nfc_iso14443a_driver_init`, of a structure with any content.
unfoldable pub iso14443a_driver_init : Driver → Driver
iso14443a_driver_init d = record d { state = power_off; tech = iso14443a }
