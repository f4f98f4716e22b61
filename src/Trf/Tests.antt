-- ===== src/Trf/Tests.antt =====
-- The reader's driver on the bench.
use nfcee_fw.Base.{
  ℕ, ◌^◌, ◌-◌, List, [], ◌∷◌, ◌≡◌, ◌≢◌, ◌<◌, length, refl, arith, not, bit_and, ◌*◌, ◌+◌, ◌/◌, ◌%◌,
  ◌==◌, if◌then◌else◌, get_or, some, false,
}
use nfcee_fw.Run.{Must, Halts, ◌>>=◌}
use nfcee_fw.Nfc.{is_fail, Iovec, Reply, done}
use nfcee_fw.Trf.{Chip, idle}
use nfcee_fw.Trf.Registers.{irq_error}
use nfcee_fw.Trf.Pending.{Pending}
use nfcee_fw.Trf.Initiator.Halts.{initiator_transceive-Halts}
use nfcee_fw.Trf.Bench.{pull, pull_one, Bench, bench, length-pull}
use nfcee_fw.Trf.Fifo.{transmit, fill_step, transmit_header}
use nfcee_fw.Trf.Fifo.Wire.{Wire}
use nfcee_fw.Trf.Fifo.Header.{transmit_header-length}
use nfcee_fw.Trf.Initiator.{after_transmit, initiator_transceive, irq2error}
use nfcee_fw.Trf.Initiator.Boundary.{full_part_wraps}
use nfcee_fw.Trf.Initiator.Errors.{irq2error-is_fail}
use nfcee_fw.Trf.Initiator.Bounds.{IsStored, initiator_transceive-IsStored}

abbrev bench_wire : Wire bench
bench_wire = record {
  sent = λ w. w.out;
  on_send = λ bytes w. refl;
  on_select = λ w. refl;
  on_unselect = λ w. refl;
  on_delay = λ n w. refl;
}

abbrev quiet : Bench
quiet = record { out = []; opened = []; incoming = []; waits = []; flags = []; pads = [] }

abbrev two_parts : List Iovec
two_parts =
    record { base = 0x93 ∷ 0x20 ∷ []; bits = 16 }
    ∷ record { base = 0x11 ∷ 0x22 ∷ 0x33 ∷ []; bits = 24 }
    ∷ []

transmit_header-length_example :
    let high = get_or (transmit_header 39 false) 3 0 in
    let low = get_or (transmit_header 39 false) 4 0 in
    (high * 16 + low / 16 ≡ 39 / 8)
    × (low / 2 % 8 ≡ 39 % 8)
    × (low % 2 ≡ (if 39 % 8 == 0 then 0 else 1))
transmit_header-length_example = transmit_header-length 39 false (omega arith)

abbrev started : Chip
started = record {
  state = idle;
  config = some (record { event = 1; en = 0; io0 = 1; io1 = 2; io2 = 3; proto = 8 });
}

-- A card answers with four bytes, and its answer ends with the second interrupt: the status is
-- read before the exchange, at the end of the sending, and at the end of the answer.
abbrev answering : Bench
answering = record {
  out = [];
  opened = [];
  incoming = 0 ∷ 0 ∷ 0x80 ∷ 0 ∷ 0x40 ∷ 0 ∷ 4 ∷ 0xCA ∷ 0xFE ∷ 0xBA ∷ 0xBE ∷ [];
  waits = 2 ∷ 2 ∷ [];
  flags = [];
  pads = [];
}

abbrev answer : Reply
answer = record { ret = done 4; stored = 0xCA ∷ 0xFE ∷ 0xBA ∷ 0xBE ∷ [] }

initiator_transceive-IsStored_example : IsStored 8 answer
unfolding initiator_transceive fill_step
initiator_transceive-IsStored_example =
    initiator_transceive-IsStored bench (λ n w. length-pull n w.incoming) 2 started two_parts 64 15
      answering _ answer refl

-- On the bench as many waits end with an interrupt as the list says.
bench_pending : Pending bench
bench_pending = record {
  pending = λ w. length w.waits;
  on_wait = λ mask timeout w came. one_less w.waits came;
  on_flags = λ w. omega arith;
  on_exchange = λ b w. omega arith;
  on_send = λ bytes w. omega arith;
  on_receive = λ n w. omega arith;
  on_ignore = λ n w. omega arith;
  on_select = λ w. omega arith;
  on_unselect = λ w. omega arith;
  on_acquire = λ w. omega arith;
  on_release = λ w. omega arith;
  on_delay = λ n w. omega arith;
}
  where
    one_less : (xs : List ℕ) → (pull_one xs).0 ≢ 0 → length (pull_one xs).1 < length xs
    one_less [] came = absurd (came refl)
    one_less (x ∷ xs) came = omega arith

initiator_transceive-Halts_example :
    Halts (λ (r, v). IsStored 8 r) (initiator_transceive bench 3 started two_parts 64 15 answering)
initiator_transceive-Halts_example =
    initiator_transceive-Halts bench bench_pending (λ n w. length-pull n w.incoming) 3 started
      two_parts 64 15 answering (unfold bench_pending in omega arith)

irq2error-is_fail_example : is_fail (irq2error 0x44) ≡ not (bit_and 0x44 irq_error == 0)
irq2error-is_fail_example = irq2error-is_fail 0x44

-- 127 bytes, and two that follow.
abbrev bytes_127 : List ℕ
bytes_127 = (pull 127 []).0

abbrev full_then_two : List Iovec
full_then_two =
    record { base = bytes_127; bits = 1016 } ∷ record { base = 0xAB ∷ 0xCD ∷ []; bits = 16 } ∷ []

full_part_wraps_example :
    Must
      (λ (s, txlen). s.left ≡ 2 ^ 32 + 2 - 127)
      (transmit bench full_then_two 2 false quiet >>= λ (s, w1). after_transmit s)
full_part_wraps_example =
    full_part_wraps bench (record { base = bytes_127; bits = 1016 })
      (record { base = 0xAB ∷ 0xCD ∷ []; bits = 16 }) [] quiet refl (omega arith) (omega arith)
      (omega arith)
