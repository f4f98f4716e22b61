-- ===== src/Trf/Exchange/Tests.antt =====
-- A chip that keeps the contract, and an exchange with it.
use nfcee_fw.Base.{
  ℕ, ◌≡◌, refl, ◌∙◌, inl, inr, arith, true, false, Bool, some, List, [], ◌∷◌, ◌++◌, ltb, ◌==◌,
  length, take, drop, Bool-cases,
}
use nfcee_fw.Bits.{bit_and-mask}
use nfcee_fw.Run.{Run, returns, fault, out_of_fuel, Must}
use nfcee_fw.Nfc.{Iovec, Device, Reply, Ret, fail, eio}
use nfcee_fw.Trf.NfcDevice.{
  Reader, nfc_device_open, nfc_device_transceive, nfc_device_ioctl, nfc_device_close,
}
use nfcee_fw.Trf.{Hal, Config, idle}
use nfcee_fw.Trf.Registers.{fifo}
use nfcee_fw.Trf.Spi.{read_byte}
use nfcee_fw.Trf.Fifo.{total_bits}
use nfcee_fw.Trf.Initiator.{initiator_transceive}
use nfcee_fw.Trf.Contract.{Signal, Seen, Contract}
use nfcee_fw.Trf.Exchange.Receives.{answer_signals}
use nfcee_fw.Trf.Exchange.Transfer.{tx_over, IsTransferred, initiator_transceive-transfers}

record Model : Type 0 where
  seen : Seen
  opened : ℕ

-- What a transfer reads, by the byte that has opened it.
abbrev read_model : Bool → Bool → ℕ → Model → List ℕ × Model
read_model true status n w = (w.seen.irq ∷ 0 ∷ [], record w { seen = record w.seen { irq = 0 } })
read_model false true n w = (length w.seen.held ∷ [], w)
read_model false false n w =
    (take n w.seen.held, record w { seen = record w.seen { held = drop n w.seen.held } })

-- The next interrupt, if there is one.
abbrev wait_model : List Signal → Model → ℕ × Model
wait_model [] w = (0, w)
wait_model (s ∷ ss) w = (
  1,
  record w { seen = record w.seen { irq = s.irq; held = w.seen.held ++ s.arrived; signals = ss } },
)

abbrev model : Hal Model
model = record {
  exchange = λ b w. record w { opened = b };
  send = λ bytes w. record w { seen = record w.seen { sent = w.seen.sent ++ bytes } };
  receive = λ n w. read_model (w.opened == 0x6c) (w.opened == 0x5c) n w;
  ignore = λ n w. (read_model (w.opened == 0x6c) (w.opened == 0x5c) n w).1;
  select = λ w. w;
  unselect = λ w. w;
  acquire = λ w. w;
  release = λ w. w;
  delay_ns = λ n w. w;
  sleep_ms = λ n w. w;
  set_pad = λ pad w. w;
  clear_pad = λ pad w. w;
  init_event = λ w. w;
  register_event = λ n w. w;
  broadcast = λ n w. w;
  wait_event = λ mask timeout w. wait_model w.seen.signals w;
  get_flags = λ w. (2, w);
}

-- A transfer from the FIFO is neither of the two others.
read_fifo-opened :
    (n : ℕ) → ((read_byte fifo n == 0x6c) ≡ false) × ((read_byte fifo n == 0x5c) ≡ false)
unfolding read_byte
read_fifo-opened n = elim (Bool-cases (ltb 1 n)) [
  | inl e ↦ rw e (refl, refl)
  | inr e ↦ rw e (refl, refl)
]

abbrev model_contract : Contract model 2
unfolding read_byte
model_contract = record {
  seen = λ w. w.seen;
  opened = λ w. w.opened;
  on_exchange = λ b w. (refl, refl);
  on_send = λ bytes w. refl;
  on_select = λ w. refl;
  on_unselect = λ w. refl;
  on_acquire = λ w. refl;
  on_release = λ w. refl;
  on_delay = λ n w. refl;
  on_flags = λ w. (refl, refl);
  on_wait = λ timeout w s ss e. rw e (refl, refl);
  on_irq = λ w e. rw e (refl, refl);
  on_status = λ w e h. rw e (bit_and-mask 7 (length w.seen.held) ∙ omega arith, refl);
  on_fifo = λ n w e h. rw e (rw (read_fifo-opened n).0 (rw (read_fifo-opened n).1 (refl, refl)));
  on_ignore = λ n w e h. rw e (rw (read_fifo-opened n).0 (rw (read_fifo-opened n).1 refl));
}

abbrev started : Config
started = record { event = 1; en = 0; io0 = 1; io1 = 2; io2 = 3; proto = 8 }

abbrev request : List Iovec
request =
    record { base = 0x93 ∷ 0x20 ∷ []; bits = 16 }
    ∷ record { base = 0x11 ∷ 0x22 ∷ 0x33 ∷ []; bits = 24 }
    ∷ []

-- The answer comes in two pieces, three bytes and two, and is read into a buffer of four.
abbrev answered : Model
answered = record {
  seen = record {
    sent = [];
    irq = 0x40;
    held = [];
    signals = tx_over ∷ answer_signals ((0xA ∷ 0xB ∷ 0xC ∷ []) ∷ []) (0xD ∷ 0xE ∷ []) [];
  };
  opened = 0;
}

initiator_transceive-transfers_example :
    Must
      (λ (r, v).
        IsTransferred answered.seen request 4 (0xA ∷ 0xB ∷ 0xC ∷ 0xD ∷ 0xE ∷ []) [] r v.seen)
      (initiator_transceive model 2
        (record { state = idle; config = some started })
        request
        32
        15
        answered)
unfolding total_bits model_contract
initiator_transceive-transfers_example =
    initiator_transceive-transfers model started model_contract ((0xA ∷ 0xB ∷ 0xC ∷ []) ∷ [])
      (0xD ∷ 0xE ∷ []) [] 2 (record { state = idle; config = some started }) request 32 15 answered
      refl (omega arith) (omega arith) (omega arith, (omega arith, tt)) (omega arith)
      (omega arith, omega arith) refl refl

-- The reader as a device of libs/nfc. Where the driver's functions do not return, there is an error.
abbrev reply_of : Reader → Run (Reply × Model) → Reply × (Reader × Model)
reply_of r (returns (reply, w)) = (reply, (r, w))
reply_of r fault = (record { ret = fail eio; stored = [] }, (r, answered))
reply_of r out_of_fuel = (record { ret = fail eio; stored = [] }, (r, answered))

abbrev result_of : Reader → Run (Ret × Reader × Model) → Ret × (Reader × Model)
result_of r (returns (ret, r', w)) = (ret, (r', w))
result_of r fault = (fail eio, (r, answered))
result_of r out_of_fuel = (fail eio, (r, answered))

abbrev model_device : Device (Reader × Model)
unfolding nfc_device_open nfc_device_transceive nfc_device_ioctl nfc_device_close
model_device = record {
  dev_open = λ tech (r, w). let (ret, r', w') = nfc_device_open model r tech w in (ret, (r', w'));
  dev_transceive = λ tx rx_bits timeout (r, w).
      reply_of r (nfc_device_transceive model (λ ms. ms) 2 r tx rx_bits timeout w);
  dev_ioctl =
      λ req arg (r, w). let (ret, arg') = nfc_device_ioctl model req arg in (ret, arg', (r, w));
  dev_close = λ (r, w). result_of r (nfc_device_close model r w);
}

abbrev reader : Reader
reader = record { driver = record { state = idle; config = some started }; config = started }
