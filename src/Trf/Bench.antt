-- ===== src/Trf/Bench.antt =====
-- A reader chip on the bench: what is sent to it is written down, and what it answers and signals is
-- read from lists.
use nfcee_fw.Base.{ℕ, zero, suc, List, [], ◌∷◌, ◌++◌, ◌≡◌, refl, ap, length}
use nfcee_fw.Trf.{Hal}

pub record Bench : Type 0 where
  -- The bytes sent, and those that open a transfer.
  pub out : List ℕ
  pub opened : List ℕ
  -- The bytes to be received, the events that end the waits, and the flags with them.
  pub incoming : List ℕ
  pub waits : List ℕ
  pub flags : List ℕ
  -- The pads that were set or cleared.
  pub pads : List (ℕ × ℕ)

-- `n` bytes from the list, and zeros where it ends.
abbrev pub pull : ℕ → List ℕ → List ℕ × List ℕ
pull zero xs = ([], xs)
pull (suc n) [] = let (ys, rest) = pull n [] in (0 ∷ ys, rest)
pull (suc n) (x ∷ xs) = let (ys, rest) = pull n xs in (x ∷ ys, rest)

abbrev pub pull_one : List ℕ → ℕ × List ℕ
pull_one [] = (0, [])
pull_one (x ∷ xs) = (x, xs)

abbrev pub receive_from : ℕ → Bench → List ℕ × Bench
receive_from n w = let (bytes, rest) = pull n w.incoming in (bytes, record w { incoming = rest })

abbrev pub bench : Hal Bench
bench = record {
  exchange = λ b w. record w { opened = w.opened ++ b ∷ [] };
  send = λ bytes w. record w { out = w.out ++ bytes };
  receive = receive_from;
  ignore = λ n w. (receive_from n w).1;
  select = λ w. w;
  unselect = λ w. w;
  acquire = λ w. w;
  release = λ w. w;
  delay_ns = λ n w. w;
  sleep_ms = λ n w. w;
  set_pad = λ pad w. record w { pads = w.pads ++ (pad, 1) ∷ [] };
  clear_pad = λ pad w. record w { pads = w.pads ++ (pad, 0) ∷ [] };
  init_event = λ w. w;
  register_event = λ n w. w;
  broadcast = λ n w. record w { flags = w.flags ++ n ∷ [] };
  wait_event =
      λ mask timeout w. let (event, rest) = pull_one w.waits in (event, record w { waits = rest });
  get_flags = λ w. let (flag, rest) = pull_one w.flags in (flag, record w { flags = rest });
}

pub length-pull : (n : ℕ) (xs : List ℕ) → length (pull n xs).0 ≡ n
length-pull zero xs = refl
length-pull (suc n) [] = ap suc (length-pull n [])
length-pull (suc n) (x ∷ xs) = ap suc (length-pull n xs)
