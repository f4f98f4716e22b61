-- ===== src/Board/Pads.antt =====
-- The modes of the pads after `boardInit`.
use nfcee_fw.Base.{
  ℕ, ◌≤◌, ◌<◌, ◌≡◌, refl, ap, ◌∙◌, arith, Bool, true, false, not, ltb, ◌&&◌, Bool-cases, ==_refl,
  inl, inr, sym, Option, some, List, [], ◌∷◌, ◌==◌, if◌then◌else◌, length,
}
use mathlib.Core.Bool.{false≢true}
use nfcee_fw.Run.{Must, Must-map, Must->>=}
use nfcee_fw.Gpio.{Port, gpio_port, gpio_pad}
use nfcee_fw.Gpio.Mode.{Mode, mode_of}
use nfcee_fw.Gpio.PortModes.{port_pad_mode, IsPadUpdated, set_pad_mode_of-IsPadUpdated}
use nfcee_fw.Board.{Pad, configure_pads}

-- What a pad's mode is after a list of lines `CONFIGURE_PAD`, when it was `old` before: the last line
-- that names the pad decides.
abbrev pub wanted : List Pad → (r i : ℕ) → Option Mode → Option Mode
wanted [] r i old = old
wanted (pad ∷ pads) r i old =
    wanted pads r i (
      if (r == gpio_port pad.gpio) && (i == gpio_pad pad.gpio)
      then some (mode_of pad.mode)
      else old)

abbrev pub AreConfigured : List Pad → List Port → List Port → Type 0
AreConfigured pads ports ports' =
    (length ports' ≡ length ports)
    × ((r i : ℕ) → i < 16 → port_pad_mode ports' r i ≡ wanted pads r i (port_pad_mode ports r i))

-- All pads of the list are on ports that exist, which have 16 pads each.
abbrev pub ArePresent : List Pad → ℕ → Type 0
ArePresent [] n = Unit
ArePresent (pad ∷ pads) n = (gpio_port pad.gpio < n) × (gpio_pad pad.gpio < 16) × ArePresent pads n

pub configure_pads-AreConfigured :
    (pads : List Pad) (ports : List Port)
    → ArePresent pads (length ports)
    → Must (AreConfigured pads ports) (configure_pads pads ports)
unfolding configure_pads
configure_pads-AreConfigured [] ports h = (refl, λ r i small. refl)
configure_pads-AreConfigured (pad ∷ pads) ports h =
    Must->>= (IsPadUpdated pad.gpio pad.mode ports) (AreConfigured (pad ∷ pads) ports) _
      (configure_pads pads) (set_pad_mode_of-IsPadUpdated pad.gpio pad.mode ports h.0)
      (λ ports1 (same, updated).
        Must-map (AreConfigured pads ports1) (AreConfigured (pad ∷ pads) ports) _
          (λ ports2 (same', configured). (
            same' ∙ same,
            λ r i small. configured r i small ∙ ap (wanted pads r i) (updated r i small),
          ))
          (configure_pads-AreConfigured pads ports1 (rw same h.2)))

-- Whether a line names the pad.
abbrev pub names : List Pad → (r i : ℕ) → Bool
names [] r i = false
names (pad ∷ pads) r i =
    if (r == gpio_port pad.gpio) && (i == gpio_pad pad.gpio) then true else names pads r i

pub wanted-unnamed :
    (pads : List Pad) (r i : ℕ) (old : Option Mode)
    → names pads r i ≡ false
    → wanted pads r i old ≡ old
wanted-unnamed [] r i old h = refl
wanted-unnamed (pad ∷ pads) r i old h =
    elim (Bool-cases ((r == gpio_port pad.gpio) && (i == gpio_pad pad.gpio))) [
      | inl e ↦ absurd (false≢true (sym (rw e at h)))
      | inr e ↦ rw e (wanted-unnamed pads r i old (rw e at h))
    ]

-- No two lines name the same pad.
abbrev pub AreDistinct : List Pad → Type 0
AreDistinct [] = Unit
AreDistinct (pad ∷ pads) =
    (names pads (gpio_port pad.gpio) (gpio_pad pad.gpio) ≡ false) × AreDistinct pads

-- Each pad of the list has the mode that its line gives.
abbrev pub HaveModes : List Pad → (ℕ → ℕ → Option Mode) → Type 0
HaveModes [] modes = Unit
HaveModes (pad ∷ pads) modes =
    (modes (gpio_port pad.gpio) (gpio_pad pad.gpio) ≡ some (mode_of pad.mode))
    × HaveModes pads modes

pub HaveModes-map :
    (pads : List Pad) (n : ℕ) (f g : ℕ → ℕ → Option Mode)
    → ArePresent pads n
    → ((r i : ℕ) → i < 16 → g r i ≡ f r i)
    → HaveModes pads f
    → HaveModes pads g
HaveModes-map [] n f g there same h = tt
HaveModes-map (pad ∷ pads) n f g there same h = (
  same (gpio_port pad.gpio) (gpio_pad pad.gpio) there.1 ∙ h.0,
  HaveModes-map pads n f g there.2 same h.1,
)

pub wanted-HaveModes :
    (pads : List Pad) (old : ℕ → ℕ → Option Mode)
    → AreDistinct pads
    → HaveModes pads (λ r i. wanted pads r i (old r i))
wanted-HaveModes [] old h = tt
wanted-HaveModes (pad ∷ pads) old h =
    let q = gpio_port pad.gpio in
    let k = gpio_pad pad.gpio in
    (
      wanted-unnamed pads q k _ h.0 ∙ rw (==_refl q, ==_refl k) refl,
      wanted-HaveModes pads
          (λ r i.
            if (r == gpio_port pad.gpio) && (i == gpio_pad pad.gpio)
            then some (mode_of pad.mode)
            else old r i)
          h.1,
    )

-- The two conditions on a list of lines as tests.
abbrev pub all_distinct : List Pad → Bool
all_distinct [] = true
all_distinct (pad ∷ pads) =
    not (names pads (gpio_port pad.gpio) (gpio_pad pad.gpio)) && all_distinct pads

pub all_distinct-AreDistinct : (pads : List Pad) → all_distinct pads ≡ true → AreDistinct pads
all_distinct-AreDistinct [] h = tt
all_distinct-AreDistinct (pad ∷ pads) h =
    let (here, rest) = both _ _ h in (here, all_distinct-AreDistinct pads rest)
  where
    both : (a b : Bool) → (not a && b) ≡ true → (a ≡ false) × (b ≡ true)
    both a b e = ground arith

abbrev pub all_present : List Pad → Bool
all_present [] = true
all_present (pad ∷ pads) =
    ltb (gpio_port pad.gpio) 4 && (ltb (gpio_pad pad.gpio) 16 && all_present pads)

pub all_present-ArePresent :
    (pads : List Pad) (n : ℕ) → 4 ≤ n → all_present pads ≡ true → ArePresent pads n
all_present-ArePresent [] n h e = tt
all_present-ArePresent (pad ∷ pads) n h e =
    let (port, number, rest) =
      parts (gpio_port pad.gpio) (gpio_pad pad.gpio) (all_present pads) e in
    (port, number, all_present-ArePresent pads n h rest)
  where
    parts :
        (q k : ℕ) (b : Bool) → (ltb q 4 && (ltb k 16 && b)) ≡ true → (q < n) × (k < 16) × (b ≡ true)
    parts q k b t = ground arith
