-- ===== src/Gpio/PortMode.antt =====
-- What `_gpio_lld_setportmode` leaves in the registers of a port.
use native.Mathlib.Nat.{pow-succ'}
use nfcee_fw.Base.{
  ℕ, zero, suc, ◌+◌, ◌-◌, ◌*◌, ◌/◌, ◌%◌, ◌^◌, ◌<◌, ◌≡◌, inl, inr, refl, ap, ◌∙◌, arith, false, some,
  List, bit_and, ◌==◌, if◌then◌else◌, Bool-cases, get_elem?, set,
}
use nfcee_fw.Word.{u16}
use nfcee_fw.Run.{Run, returns, ◌>>=◌, Must, Must-map, Must->>=}
use nfcee_fw.Bits.{bit_and-mask}
use nfcee_fw.Gpio.{
  Port, fields_of, alternate_of, set_pad_mode, next_fields, port_mode_loop, setportmode, on_port,
}
use nfcee_fw.Gpio.BitFields.{field_value, IsWritten-step, IsWritten-none}
use nfcee_fw.Gpio.Locals.{next_fields-at, fields_of-at}
use nfcee_fw.Gpio.Mode.{
  Mode, mode_of, IsMode, HasMode, fields_at, Touched, keep-Touched, set_pad_mode-Touched,
}

HasMode-step :
    (b mask : ℕ) (m : Mode) (p p1 p' : Port)
    → Touched b mask m p p1
    → HasMode (b + 1) (mask / 2) m p1 p'
    → HasMode b mask m p p'
HasMode-step b mask m p p1 p' t rest = record {
  moder =
      IsWritten-step 0 16 2 (λ i. i * 2) b mask m.m_moder p.moder p1.moder p'.moder t.t_moder
        rest.moder;
  otyper =
      IsWritten-step 0 16 1 (λ i. i) b mask m.m_otyper p.otyper p1.otyper p'.otyper t.t_otyper
        rest.otyper;
  ospeedr =
      IsWritten-step 0 16 2 (λ i. i * 2) b mask m.m_ospeedr p.ospeedr p1.ospeedr p'.ospeedr
        t.t_ospeedr rest.ospeedr;
  pupdr =
      IsWritten-step 0 16 2 (λ i. i * 2) b mask m.m_pupdr p.pupdr p1.pupdr p'.pupdr t.t_pupdr
        rest.pupdr;
  afrl =
      IsWritten-step 0 8 4 (λ i. i * 4) b mask m.m_altr p.afrl p1.afrl p'.afrl t.t_afrl rest.afrl;
  afrh =
      IsWritten-step 8 16 4 (λ i. (i - 8) * 4) b mask m.m_altr p.afrh p1.afrh p'.afrh t.t_afrh
        rest.afrh;
}

HasMode-none : (b : ℕ) (m : Mode) (p : Port) → HasMode b 0 m p p
HasMode-none b m p = record {
  moder = IsWritten-none 0 16 2 (λ i. i * 2) b m.m_moder p.moder;
  otyper = IsWritten-none 0 16 1 (λ i. i) b m.m_otyper p.otyper;
  ospeedr = IsWritten-none 0 16 2 (λ i. i * 2) b m.m_ospeedr p.ospeedr;
  pupdr = IsWritten-none 0 16 2 (λ i. i * 2) b m.m_pupdr p.pupdr;
  afrl = IsWritten-none 0 8 4 (λ i. i * 4) b m.m_altr p.afrl;
  afrh = IsWritten-none 8 16 4 (λ i. (i - 8) * 4) b m.m_altr p.afrh;
}

abbrev round_port : ℕ → Mode → ℕ → Port → Port
round_port mask m b p = if bit_and mask 1 == 0 then p else set_pad_mode m.m_altr (fields_at m b) p

round_port-Touched :
    (b mask : ℕ) (m : Mode) (p : Port)
    → b < 16
    → IsMode m
    → Touched b mask m p (round_port mask m b p)
round_port-Touched b mask m p hb valid =
    let low = bit_and-mask 1 mask in
    elim (Bool-cases (bit_and mask 1 == 0)) [
      | inl even ↦ rw even (keep-Touched b mask m p (ground (arith, low)))
      | inr odd ↦ rw odd (set_pad_mode-Touched b mask m p (ground (arith, low)) hb valid)
    ]

-- Where the rest of the mask is zero the loop has done its last round.
last_round :
    (b mask : ℕ) (m : Mode) (p : Port)
    → mask / 2 ≡ 0
    → b < 16
    → IsMode m
    → HasMode b mask m p (round_port mask m b p)
last_round b mask m p none_left hb valid =
    HasMode-step b mask m p (round_port mask m b p) (round_port mask m b p)
      (round_port-Touched b mask m p hb valid)
      (rw none_left (HasMode-none (b + 1) m (round_port mask m b p)))

loop_stops :
    (fuel mask b : ℕ) (m : Mode) (p : Port)
    → mask / 2 ≡ 0
    → port_mode_loop (suc fuel) mask m.m_altr (fields_at m b) p ≡ returns (round_port mask m b p)
unfolding port_mode_loop
loop_stops fuel mask b m p h = rw h refl

round_more :
    (fuel mask b : ℕ) (m : Mode) (p : Port)
    → (mask / 2 == 0) ≡ false
    → port_mode_loop (suc fuel) mask m.m_altr (fields_at m b) p
      ≡ port_mode_loop fuel
          (mask / 2)
          m.m_altr
          (next_fields (fields_at m b))
          (round_port mask m b p)
unfolding port_mode_loop
round_more fuel mask b m p h = rw h refl

loop_goes_on :
    (fuel mask b : ℕ) (m : Mode) (p : Port)
    → (mask / 2 == 0) ≡ false
    → b < 16
    → port_mode_loop (suc fuel) mask m.m_altr (fields_at m b) p
      ≡ port_mode_loop fuel (mask / 2) m.m_altr (fields_at m (b + 1)) (round_port mask m b p)
loop_goes_on fuel mask b m p h hb =
    round_more fuel mask b m p h
    ∙ ap (λ f. port_mode_loop fuel (mask / 2) m.m_altr f (round_port mask m b p))
        (next_fields-at m b hb)

port_mode_loop-HasMode :
    (fuel mask b : ℕ) (m : Mode) (p : Port)
    → 0 < fuel
    → mask < 2 ^ fuel
    → b + fuel ≡ 16
    → IsMode m
    → Must (HasMode b mask m p) (port_mode_loop fuel mask m.m_altr (fields_at m b) p)
port_mode_loop-HasMode zero mask b m p more small place valid = absurd (omega arith)
port_mode_loop-HasMode (suc zero) mask b m p more small place valid =
    let none_left : mask / 2 ≡ 0 = omega arith in
    rw (loop_stops 0 mask b m p none_left) (last_round b mask m p none_left (omega arith) valid)
port_mode_loop-HasMode (suc (suc fuel)) mask b m p more small place valid =
    elim (Bool-cases (mask / 2 == 0)) [
      | inl zero_left ↦
          let none_left : mask / 2 ≡ 0 = ground arith in
          rw (loop_stops (suc fuel) mask b m p none_left)
            (last_round b mask m p none_left (omega arith) valid)
      | inr left ↦ rw (loop_goes_on (suc fuel) mask b m p left (omega arith)) (
          Must-map (HasMode (b + 1) (mask / 2) m (round_port mask m b p)) (HasMode b mask m p)
            (port_mode_loop (suc fuel) (mask / 2) m.m_altr (fields_at m (b + 1))
              (round_port mask m b p))
            (λ p'.
              HasMode-step b mask m p (round_port mask m b p) p'
                (round_port-Touched b mask m p (omega arith) valid))
            (port_mode_loop-HasMode (suc fuel) (mask / 2) (b + 1) m (round_port mask m b p)
              (omega arith) (omega (arith, pow-succ' 2 (suc fuel))) (omega arith) valid))
    ]

pub on_port-there :
    (port : ℕ) (ports : List Port) (p : Port) (f : Port → Run Port)
    → get_elem? ports port ≡ some p
    → on_port port ports f ≡ (f p >>= λ p1. returns (set ports port p1))
on_port-there port ports p f here = rw (here, on_port) refl

setportmode_lem :
    (port mask mode : ℕ) (ports : List Port) (p : Port)
    → get_elem? ports port ≡ some p
    → setportmode port mask mode ports ≡ (
        port_mode_loop 16 (u16 mask) (mode_of mode).m_altr (fields_at (mode_of mode) 0) p >>= λ p1.
        returns (set ports port p1))
unfolding setportmode
setportmode_lem port mask mode ports p here =
    on_port-there port ports p
      (λ q. port_mode_loop 16 (u16 mask) (alternate_of mode) (fields_of mode) q) here
    ∙ ap (λ run. run >>= λ p1. returns (set ports port p1))
        (ap (λ a. port_mode_loop 16 (u16 mask) a (fields_of mode) p) (field_value 4 7 mode)
          ∙ ap (λ f. port_mode_loop 16 (u16 mask) (mode / 128 % 16) f p) (fields_of-at mode))

-- Setting the mode of a group of pads of a port that exists always returns, in 16 rounds at most. Then
-- each pad of the port that the mask selects has the five fields of the mode in their registers, each
-- other pad has the fields that it had, and the other ports are as they were.
pub setportmode-HasMode :
    (port mask mode : ℕ) (ports : List Port) (p : Port)
    → get_elem? ports port ≡ some p
    → Must
        (λ ports'.
          (p' : Port) × (ports' ≡ set ports port p') × HasMode 0 (u16 mask) (mode_of mode) p p')
        (setportmode port mask mode ports)
setportmode-HasMode port mask mode ports p here = rw (setportmode_lem port mask mode ports p here) (
    Must->>= (HasMode 0 (u16 mask) (mode_of mode) p) _
      (port_mode_loop 16 (u16 mask) (mode_of mode).m_altr (fields_at (mode_of mode) 0) p)
      (λ p1. returns (set ports port p1))
      (port_mode_loop-HasMode 16 (u16 mask) 0 (mode_of mode) p (omega arith) (omega arith) refl
        (omega arith, omega arith, omega arith, omega arith, omega arith))
      (λ p1 h. (p1, refl, h)))
