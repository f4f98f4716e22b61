-- ===== src/Startup/Blinking.antt =====
-- The start of the firmware and the thread `Blinker`, seen by an observer of the calls of ChibiOS.
use nfcee_fw.Base.{ℕ, zero, suc, Bool, true, false, List, [], ◌∷◌, ◌≡◌, if◌then◌else◌}
use nfcee_fw.Startup.Observer.{Observer, observed}
use nfcee_fw.Startup.{Line, count, trace, trace_init}

-- The numbers from `i` on that are printed in `n` rounds: those at which the host was there.
abbrev pub seen_counts : ℕ → List Bool → ℕ → List Line
seen_counts i bs zero = []
seen_counts i [] (suc n) = []
seen_counts i (true ∷ bs) (suc n) = count i ∷ seen_counts (suc i) bs n
seen_counts i (false ∷ bs) (suc n) = seen_counts (suc i) bs n

abbrev after_round : ℕ → Observer → Observer
after_round i o =
    let o1 = observed.sleep_ms 500 (observed.led0 true (trace observed (count i) o)) in
    observed.sleep_ms 500 (observed.led0 false o1)

-- What `trace` prints for the host that is there or not.
abbrev line_if : Bool → Line → List Line
line_if b line = if b then line ∷ [] else []

-- Before anything has run.
pub record IsFresh (o : Observer) : Type 0 where
  pub fine : o.allowed ≡ true
  pub no_threads : o.threads ≡ []
  pub nothing_printed : o.printed ≡ []

-- The observer when `trace_init` is done.
abbrev set_up : Observer → Observer
set_up o = trace_init observed (observed.kernel_init (observed.hal_init o))
