-- ===== src/Trf/Initiator/SendHalts.antt =====
-- The sending loop of `trf797x_initiator_transceive` runs no longer than interrupts come.
use nfcee_fw.Base.{
  ℕ, zero, suc, ◌&&◌, ◌^◌, ◌≤◌, ◌<◌, inl, inr, true, false, not, Bool, Option, none, some, arith,
  List, [], ◌∷◌, bit_and, ◌==◌, if◌then◌else◌, Bool-cases,
}
use nfcee_fw.Run.{Run, returns, fault, Halts, Halts->>=}
use nfcee_fw.Nfc.{Ret, Iovec}
use nfcee_fw.Trf.{Hal, Config, bytes_of}
use nfcee_fw.Trf.Registers.{irq_status, irq_fifo, irq_tx, event_stop}
use nfcee_fw.Trf.Pending.{Pending, register_read1-le, fifo_fill-Halts, AtMost}
use nfcee_fw.Trf.Initiator.{
  Sending, next_part, Wait, quits, status, wait_irq, refill, send_on, send_loop,
}

module _ {W : Type 0} (hal : Hal W) (p : Pending hal) (cfg : Config) where
  open p use {pending, on_wait, on_flags}

  -- A wait that ends with an interrupt has used up one.
  abbrev pub UsesOne : ℕ → Wait × W → Type 0
  UsesOne n (quits ret, w) = Unit
  UsesOne n (status irq, w) = pending w < n

  pub wait_irq-UsesOne :
      (timeout : Option ℕ) (w : W) → UsesOne (pending w) (wait_irq hal cfg timeout w)
  unfolding wait_irq
  wait_irq-UsesOne timeout w =
      let event = hal.wait_event (2 ^ cfg.event) timeout w in
      elim (Bool-cases (event.0 == 0)) [
        | inl e ↦ rw e tt
        | inr e ↦
            rw e (elim (Bool-cases (not (bit_and (hal.get_flags event.1).0 event_stop == 0))) [
              | inl s ↦ rw s tt
              | inr s ↦ rw s (
                  omega (
                    arith,
                    on_wait (2 ^ cfg.event) timeout w (λ none_came. ground arith),
                    on_flags event.1,
                    register_read1-le hal p irq_status (hal.get_flags event.1).1,
                  ))
            ])
      ]

  next_part-Halts : (txlen : ℕ) (s : Sending) → Halts (λ s'. Unit) (next_part txlen s)
  unfolding next_part
  next_part-Halts txlen s = from_parts s.parts (s.left == 0 && not (txlen == 0))
    where
      from_parts :
          (vs : List Iovec) (b : Bool)
          → Halts
              (λ s'. Unit)
              (if b
                then elim vs [
                  | [] ↦ fault
                  | v ∷ us ↦ elim us [
                    | [] ↦ fault
                    | u ∷ rest ↦
                        returns (record { parts = u ∷ rest; buf = u.base; left = bytes_of u.bits })
                  ]
                ]
                else returns s)
      from_parts [] true = tt
      from_parts (v ∷ []) true = tt
      from_parts (v ∷ u ∷ us) true = tt
      from_parts vs false = tt

  refill-Halts :
      (irq txlen n : ℕ) (s : Sending) (w : W)
      → pending w ≤ n
      → Halts (AtMost hal p n) (refill hal cfg irq txlen s w)
  unfolding refill
  refill-Halts irq txlen n s w h = elim (Bool-cases (bit_and irq irq_fifo == 0)) [
    | inl e ↦ rw e h
    | inr e ↦ rw e (
        Halts->>= (λ s1. Unit) (AtMost hal p n) _ _ (next_part-Halts txlen s)
          (λ s1 u. elim (Bool-cases (s1.left == 0)) [
            | inl done ↦ rw done h
            | inr more ↦ rw more (
                Halts->>= (AtMost hal p (pending w)) (AtMost hal p n) _ _
                  (fifo_fill-Halts hal p s1.buf s1.left w) (λ (k, w1) h1. omega arith))
          ]))
  ]

  -- Where the first loop goes on to the second, no interrupts have been added.
  abbrev pub MayReceive : ℕ → Option Ret × W → Type 0
  MayReceive n (none, w) = pending w ≤ n
  MayReceive n (some ret, w) = Unit

  send_on-Halts :
      (again : Sending → W → Run (Option Ret × W)) (txlen n b : ℕ) (s : Sending) (r : Wait × W)
      → n ≤ b
      → UsesOne n r
      → ((s' : Sending) (v : W) → pending v < n → Halts (MayReceive b) (again s' v))
      → Halts (MayReceive b) (send_on hal cfg again txlen s r)
  send_on-Halts again txlen n b s (quits ret, w) small uses go = tt
  send_on-Halts again txlen n b s (status irq, w) small uses go =
      Halts->>= (AtMost hal p (pending w)) (MayReceive b) _ _
        (refill-Halts irq txlen (pending w) s w (omega arith))
        (λ (s', w') h. elim (Bool-cases (irq == irq_tx)) [
          | inl e ↦ rw e (omega arith)
          | inr e ↦ rw e (go s' w' (omega arith))
        ])

  pub send_loop-Halts :
      (fuel txlen b : ℕ) (s : Sending) (w : W)
      → pending w < fuel
      → pending w ≤ b
      → Halts (MayReceive b) (send_loop hal cfg fuel txlen s w)
  unfolding send_loop
  send_loop-Halts zero txlen b s w h k = absurd (omega arith)
  send_loop-Halts (suc fuel) txlen b s w h k =
      send_on-Halts (λ s' w'. send_loop hal cfg fuel txlen s' w') txlen (pending w) b s
        (wait_irq hal cfg none w) k (wait_irq-UsesOne none w)
        (λ s' v h'. send_loop-Halts fuel txlen b s' v (omega arith) (omega arith))
