-- ===== src/Gpio/PortModes.antt =====
-- The ports together, as the mode of each pad of each port: what `_gpio_lld_setportmode` and
-- `gpioSetPadMode` change in it.
use nfcee_fw.Base.{
  ℕ, zero, suc, ◌-◌, ◌*◌, ◌^◌, ◌<◌, ◌≡◌, inl, inr, refl, ap, ◌∙◌, sym, arith, Bool, true, false,
  ◌&&◌, Option, none, some, List, [], ◌∷◌, ◌==◌, lt→ltb, ==_refl, if◌then◌else◌, Bool-cases,
  get_elem?, set, length, length-set,
}
use nfcee_fw.Word.{u16, ◌<<<◌}
use nfcee_fw.Run.{Must, Must-map}
use nfcee_fw.Bits.{testbit, testbit-mod, testbit-shl, testbit-zero}
use nfcee_fw.Gpio.{Port, gpio_port, gpio_pad, setportmode, set_pad_mode_of}
use nfcee_fw.Gpio.Mode.{Mode, mode_of, HasMode}
use nfcee_fw.Gpio.PortMode.{setportmode-HasMode}
use nfcee_fw.Gpio.PadModes.{pad_mode, HasMode-pad_mode}

-- The mode of a pad, where the port exists.
abbrev pub port_pad_mode : List Port → ℕ → ℕ → Option Mode
port_pad_mode ports q i = elim (get_elem? ports q) [ none ↦ none | some p ↦ some (pad_mode p i) ]

-- The pads of port `q` that `mask` selects have got the mode; all others have what they had.
abbrev pub IsUpdated : (q mask mode : ℕ) → List Port → List Port → Type 0
IsUpdated q mask mode ports ports' =
    (length ports' ≡ length ports)
    × ((r i : ℕ)
        → i < 16
        → port_pad_mode ports' r i ≡ (
            if (r == q) && (testbit mask i == 1)
            then some (mode_of mode)
            else port_pad_mode ports r i))

pub get_elem?_of_lt :
    (ports : List Port) (q : ℕ) → q < length ports → (p : Port) × (get_elem? ports q ≡ some p)
get_elem?_of_lt [] q h = absurd (omega arith)
get_elem?_of_lt (p ∷ ports) zero h = (p, refl)
get_elem?_of_lt (p ∷ ports) (suc q) h = get_elem?_of_lt ports q (omega arith)

pub get_elem?-set :
    (ports : List Port) (q r : ℕ) (p : Port)
    → q < length ports
    → get_elem? (set ports q p) r ≡ (if r == q then some p else get_elem? ports r)
get_elem?-set [] q r p h = absurd (omega arith)
get_elem?-set (p0 ∷ ports) zero zero p h = refl
get_elem?-set (p0 ∷ ports) zero (suc r) p h = ground arith
get_elem?-set (p0 ∷ ports) (suc q) zero p h = ground arith
get_elem?-set (p0 ∷ ports) (suc q) (suc r) p h =
    get_elem?-set ports q r p (omega arith) ∙ ground arith

pub port_pad_mode-there :
    (ports : List Port) (q i : ℕ) (p : Port)
    → get_elem? ports q ≡ some p
    → port_pad_mode ports q i ≡ some (pad_mode p i)
port_pad_mode-there ports q i p h = rw (h, port_pad_mode) refl

pub port_pad_mode-other :
    (ports ports' : List Port) (r i : ℕ)
    → get_elem? ports' r ≡ get_elem? ports r
    → port_pad_mode ports' r i ≡ port_pad_mode ports r i
port_pad_mode-other ports ports' r i h = rw (h, port_pad_mode) refl

IsUpdated-set :
    (q mask mode : ℕ) (ports : List Port) (p p' : Port)
    → get_elem? ports q ≡ some p
    → q < length ports
    → HasMode 0 mask (mode_of mode) p p'
    → IsUpdated q mask mode ports (set ports q p')
IsUpdated-set q mask mode ports p p' here h written = (
  length-set ports q p',
  λ r i small. elim (Bool-cases (r == q)) [
    | inl e ↦
        let same : r ≡ q = ground arith in
        rw (same, ==_refl q)
          (port_pad_mode-there (set ports q p') q i p'
              (get_elem?-set ports q q p' h ∙ rw (==_refl q) refl)
            ∙ ap some (HasMode-pad_mode mask mode p p' i written small)
            ∙ pull (mode_of mode) (pad_mode p i) (testbit mask i == 1)
                (port_pad_mode-there ports q i p here))
    | inr e ↦
        rw e (
          port_pad_mode-other ports (set ports q p') r i (get_elem?-set ports q r p' h ∙ rw e refl))
  ],
)
  where
    pull :
        (m n : Mode) {o : Option Mode} (b : Bool)
        → o ≡ some n
        → some (if b then m else n) ≡ (if true && b then some m else o)
    pull m n true e = refl
    pull m n false e = sym e

-- `_gpio_lld_setportmode` gives the mode to the pads that the low sixteen bits of the mask select.
pub setportmode-IsUpdated :
    (q mask mode : ℕ) (ports : List Port)
    → q < length ports
    → Must (IsUpdated q (u16 mask) mode ports) (setportmode q mask mode ports)
setportmode-IsUpdated q mask mode ports h =
    let (p, here) = get_elem?_of_lt ports q h in
    Must-map _ (IsUpdated q (u16 mask) mode ports) (setportmode q mask mode ports)
      (λ ports' (p', is_set, written).
        rw is_set (IsUpdated-set q (u16 mask) mode ports p p' here h written))
      (setportmode-HasMode q mask mode ports p here)

testbit-one : (n : ℕ) → testbit 1 n ≡ (if n == 0 then 1 else 0)
testbit-one zero = refl
testbit-one (suc n) = testbit-zero n ∙ ground arith

-- The mask of a single pad.
testbit-pad_mask : (pad i : ℕ) → i < 16 → (testbit (u16 (1 <<< pad)) i == 1) ≡ (i == pad)
testbit-pad_mask pad i h =
    rw (testbit-mod i 16 (1 * 2 ^ pad), lt→ltb i 16 h, testbit-shl pad 1 i, testbit-one (i - pad))
      (ground arith)

-- The pad has got the mode; all other pads of all ports have what they had.
abbrev pub IsPadUpdated : (gpio mode : ℕ) → List Port → List Port → Type 0
IsPadUpdated gpio mode ports ports' =
    (length ports' ≡ length ports)
    × ((r i : ℕ)
        → i < 16
        → port_pad_mode ports' r i ≡ (
            if (r == gpio_port gpio) && (i == gpio_pad gpio)
            then some (mode_of mode)
            else port_pad_mode ports r i))

-- `gpioSetPadMode`, for a pad of a port that exists.
pub set_pad_mode_of-IsPadUpdated :
    (gpio mode : ℕ) (ports : List Port)
    → gpio_port gpio < length ports
    → Must (IsPadUpdated gpio mode ports) (set_pad_mode_of gpio mode ports)
unfolding set_pad_mode_of
set_pad_mode_of-IsPadUpdated gpio mode ports h =
    Must-map (IsUpdated (gpio_port gpio) (u16 (1 <<< gpio_pad gpio)) mode ports)
      (IsPadUpdated gpio mode ports) _
      (λ ports' (same, updated).
        (same, λ r i small. rw (← testbit-pad_mask (gpio_pad gpio) i small) (updated r i small)))
      (setportmode-IsUpdated (gpio_port gpio) (1 <<< gpio_pad gpio) mode ports h)
