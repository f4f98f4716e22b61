-- ===== src/Nfc/Layer4.antt =====
-- `nfc_iso14443_open`, `nfc_iso14443_transceive` and `nfc_iso14443_close` of libs/nfc/iso14443.c:
-- the session with a card, and the half-duplex block protocol of ISO 14443-4.
pub mod Bounds
pub mod Ack
pub mod Chaining
pub mod Answer
pub mod Delivery
pub mod Waiting
pub mod Grants
pub mod LateAcks
pub mod LateAnswer
pub mod Late
pub mod Deviations
mod Tests
use nfcee_fw.Base.{
  ℕ, zero, suc, ◌+◌, ◌-◌, ◌*◌, ◌%◌, ◌^◌, min, Bool, true, false, ◌&&◌, ◌||◌, not, Option, none,
  some, List, [], ◌∷◌, ◌++◌, bit_and, bit_or, ltb, ◌==◌, if◌then◌else◌, length, get_or, set, take,
  drop, overlay, overlay_at,
}
use nfcee_fw.Word.{u32}
use nfcee_fw.Nfc.Blocks.{is_iblock, is_ack, is_wtx, togglebit}
use nfcee_fw.Run.{Run, returns, fault, out_of_fuel, ◌>>=◌}
use nfcee_fw.Nfc.{
  Tech, Errno, eio, Ret, done, fail, is_fail, is_zero, Reply, dev_frame_size, Device, State, Driver,
}

-- `struct nfc_iso14443_fops`: what the protocol layer asks of the layer below it.
pub record Fops (W : Type 0) : Type 0 where
  pub l3_open : Driver → W → Run (Ret × Driver × W)
  pub l3_transceive : Driver → List ℕ → ℕ → ℕ → W → Reply × W

abbrev pub byte_at : List ℕ → ℕ → ℕ
byte_at buf i = get_or buf i 0

-- Whether the card that was selected speaks ISO 14443-4.
unfoldable pub is_tcl : Driver → Bool
is_tcl d = elim d.tech [
  | Tech.iso14443a ↦ bit_and d.sak 0x24 == 0x20
  | Tech.iso14443b ↦ bit_and (byte_at d.atqb 10) 0x09 == 0x01
  | _ ↦ false
]

-- `ret < 3` on an `int`.
abbrev pub below_three : Ret → Bool
below_three (done n) = ltb n 3
below_three (fail e) = true

abbrev pub count_of : Ret → ℕ
count_of (done n) = n
count_of (fail e) = 0

-- `MIN(fsd, MIN(fsc, sizeof buffer)) - 3`, on `size_t`.
unfoldable pub inf_size : Driver → ℕ
inf_size d = u32 (min d.fsd (min d.fsc 256) + 2 ^ 32 - 3)

-- The first `n` bytes of the buffer are written over by `memcpy(buffer + 1, …, n)`.
abbrev pub copy_behind : ℕ → List ℕ → List ℕ → List ℕ
copy_behind first part buf = overlay_at 1 (set buf 0 first) part

-- What a transceive leaves: its result, the bytes stored at `rxdata`, and the driver.
pub record Exchange : Type 0 where
  pub ret : Ret
  pub out : List ℕ
  pub driver : Driver

-- `return -EIO`, when `out` has been stored already.
abbrev pub refused : List ℕ → Driver → Exchange
refused out d = record { ret = fail eio; out = out; driver = d }

-- `goto error`, or the `int` of the last transceive and the buffer.
abbrev pub Step : Type 0 → Type 0
Step W = Run (Option ℕ × List ℕ × W)

module _ {W : Type 0} (l3 : Fops W) (d : Driver) where
  -- `while (is_wtx(buffer[0]))` with a receive buffer of `cap` bytes; `n` is the last result.
  unfoldable pub grant_time : ℕ → ℕ → ℕ → List ℕ → W → Step W
  grant_time zero cap n buf w = out_of_fuel
  grant_time (suc fuel) cap n buf w = elim (is_wtx (byte_at buf 0)) [
    | false ↦ returns (some n, buf, w)
    | true ↦
        let buf1 = set buf 1 (bit_and (byte_at buf 1) 0x3F) in
        let (reply, w1) = l3.l3_transceive d (take 2 buf1) cap (u32 (d.fwt * byte_at buf1 1)) w in
        let buf2 = overlay buf1 reply.stored in
        elim (below_three reply.ret) [
          | true ↦ returns (none, buf2, w1)
          | false ↦ grant_time fuel cap (count_of reply.ret) buf2 w1
        ]
  ]

  -- A transceive of the first `n` bytes, then the extensions of time that the card asks for.
  -- While a chain is sent the buffer for the answer has 3 bytes, and an I-block is an error.
  unfoldable pub exchange_block : ℕ → Bool → ℕ → List ℕ → W → Step W
  exchange_block fuel chaining n buf w =
      let cap = if chaining then 3 else 256 in
      let (reply, w1) = l3.l3_transceive d (take n buf) cap d.fwt w in
      let buf1 = overlay buf reply.stored in
      if below_three reply.ret || (chaining && is_iblock (byte_at buf1 0))
      then returns (none, buf1, w1)
      else grant_time fuel cap (count_of reply.ret) buf1 w1

  -- What the loop does with an answer: it stops at an acknowledgement with its own number, and sends
  -- again at one with the other number.
  unfoldable pub after_ack : (List ℕ → W → Step W) → Option ℕ × List ℕ × W → Step W
  after_ack again (none, buf, w) = returns (none, buf, w)
  after_ack again (some i, buf, w) =
      if is_ack (byte_at buf 0)
      then (if togglebit (byte_at buf 0) == togglebit d.block
          then returns (some i, buf, w)
          else again buf w)
      else returns (none, buf, w)

  -- The `do … while` that sends one chained block until it is acknowledged.
  unfoldable pub send_block : ℕ → List ℕ → W → Step W
  send_block zero buf w = out_of_fuel
  send_block (suc fuel) buf w =
      exchange_block fuel true (inf_size d + 1) buf w
      >>= after_ack (λ buf' w'. send_block fuel buf' w')

-- What the first loop leaves to the second: the bytes for the last block, or `none` on an error.
abbrev pub Chain : Type 0 → Type 0
Chain W = Run (Option (List ℕ) × Driver × List ℕ × W)

unfoldable pub next_block : Driver → Driver
next_block d = record d { block = u32 (d.block + 1) }

unfoldable pub after_send :
    {W : Type 0} → Driver → (List ℕ → W → Chain W) → Option ℕ × List ℕ × W → Chain W
after_send d again (none, buf, w) = returns (none, d, buf, w)
after_send d again (some i, buf, w) = again buf w

-- The first loop: blocks of `inf_size` bytes, until what is left fits one block.
unfoldable pub send_chain : {W : Type 0} → Fops W → ℕ → Driver → List ℕ → List ℕ → W → Chain W
send_chain l3 zero d tx buf w = out_of_fuel
send_chain l3 (suc fuel) d tx buf w =
    if ltb (inf_size d) (length tx)
    then (if ltb 255 (inf_size d)
        then fault
        else send_block l3 d fuel
            (copy_behind (bit_or 0x12 (togglebit d.block)) (take (inf_size d) tx) buf) w
          >>= after_send d
              λ buf' w'. send_chain l3 fuel (next_block d) (drop (inf_size d) tx) buf' w')
    else returns (some tx, d, buf, w)

-- The bytes in front of the payload: the block byte, a card identifier, a node address.
unfoldable pub size_of_header : ℕ → ℕ
size_of_header b =
    1 + (if bit_and b 0x08 == 0 then 0 else 1) + (if bit_and b 0x04 == 0 then 0 else 1)

-- `MIN(i - size_of_header - 2, rxlen)`: the difference is an `int`, compared as a `size_t`.
unfoldable pub inf_received : ℕ → ℕ → ℕ → ℕ
inf_received i header rxlen = min (u32 (i + 2 ^ 32 - header - 2)) rxlen

-- `memcpy(rxdata, buffer + size_of_header, inf_size)`, where the buffer has 256 bytes.
unfoldable pub copy_payload : ℕ → ℕ → List ℕ → Run (List ℕ)
copy_payload header n buf =
    if ltb 256 (header + n) then fault else returns (take n (drop header buf))

-- The payload of a block with the expected number is appended to what was received, up to `rxlen`
-- bytes in all; a block with the other number is dropped.
unfoldable pub accept_block : Driver → ℕ → List ℕ → ℕ → List ℕ → Run (List ℕ)
accept_block d i buf rxlen out =
    let b = byte_at buf 0 in
    if togglebit b == togglebit d.block
    then (copy_payload (size_of_header b) (inf_received i (size_of_header b) (rxlen - length out))
          buf
        >>= λ part. returns (out ++ part))
    else returns out

-- What the second loop does with a block: it ends at one that is not chained.
unfoldable pub after_accept :
    {W : Type 0}
    → (List ℕ → List ℕ → W → Run (Exchange × W))
    → Driver
    → List ℕ
    → W
    → List ℕ
    → Run (Exchange × W)
after_accept again d buf w out =
    if bit_and (byte_at buf 0) 0x10 == 0
    then returns (record { ret = done (length out); out = out; driver = next_block d }, w)
    else again (set buf 0 0xA2) out w

unfoldable pub after_block :
    {W : Type 0}
    → (List ℕ → List ℕ → W → Run (Exchange × W))
    → Driver
    → ℕ
    → List ℕ
    → Option ℕ × List ℕ × W
    → Run (Exchange × W)
after_block again d rxlen out (none, buf, w) = returns (refused out d, w)
after_block again d rxlen out (some i, buf, w) =
    if is_iblock (byte_at buf 0)
    then accept_block d i buf rxlen out >>= after_accept again d buf w
    else returns (refused out d, w)

-- The second loop: the last block or an acknowledgement goes out, a block comes back.
unfoldable pub receive_chain :
    {W : Type 0} → Fops W → ℕ → Driver → ℕ → List ℕ → ℕ → List ℕ → W → Run (Exchange × W)
receive_chain l3 zero d txlen buf rxlen out w = out_of_fuel
receive_chain l3 (suc fuel) d txlen buf rxlen out w =
    exchange_block l3 d fuel false (txlen + 1)
      (set buf 0 (bit_or (byte_at buf 0) (togglebit d.block))) w
    >>= after_block (λ buf' out' w'. receive_chain l3 fuel (next_block d) 0 buf' rxlen out' w') d
        rxlen out

-- The last block is put together behind 0x02.
unfoldable pub send_last :
    {W : Type 0} → Fops W → ℕ → ℕ → Option (List ℕ) × Driver × List ℕ × W → Run (Exchange × W)
send_last l3 fuel rxlen (none, d, buf, w) = returns (refused [] d, w)
send_last l3 fuel rxlen (some tx, d, buf, w) =
    if ltb 255 (length tx)
    then fault
    else receive_chain l3 fuel d (length tx) (copy_behind 0x02 tx buf) rxlen [] w

-- `nfc_iso14443_transceive`; `buf0` is the content of the local `buffer[256]`. Without ISO 14443-4
-- the layer below does it all.
unfoldable pub iso14443_transceive :
    {W : Type 0} → Fops W → ℕ → List ℕ → Driver → List ℕ → ℕ → ℕ → W → Run (Exchange × W)
iso14443_transceive l3 fuel buf0 d tx rxlen timeout w =
    if is_tcl d
    then send_chain l3 fuel d tx buf0 w >>= send_last l3 fuel rxlen
    else (let (reply, w1) = l3.l3_transceive d tx rxlen timeout w in
        returns (record { ret = reply.ret; out = reply.stored; driver = d }, w1))
