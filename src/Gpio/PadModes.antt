-- ===== src/Gpio/PadModes.antt =====
-- A port as what it is for: the mode of each of its 16 pads. `_gpio_lld_setportmode` is an update of that
-- map, whatever the registers are.
use nfcee_fw.Base.{
  ℕ, ◌+◌, ◌-◌, ◌*◌, ◌/◌, ◌%◌, ◌^◌, ◌≤◌, ◌<◌, ◌≡◌, inl, inr, refl, ◌∙◌, sym, arith, ltb, ◌==◌,
  ltb→lt, if◌then◌else◌, Bool-cases,
}
use nfcee_fw.Bits.{testbit, testbit_ext, testbit-mod, testbit-shr}
use nfcee_fw.Gpio.{Port}
use nfcee_fw.Gpio.BitFields.{IsWritten, testbit-above}
use nfcee_fw.Gpio.Mode.{Mode, mode_of, HasMode}

-- The mode that the registers hold for a pad.
abbrev pub pad_mode : Port → ℕ → Mode
pad_mode p i = record {
  m_moder = p.moder / 2 ^ (i * 2) % 2 ^ 2;
  m_otyper = p.otyper / 2 ^ i % 2 ^ 1;
  m_ospeedr = p.ospeedr / 2 ^ (i * 2) % 2 ^ 2;
  m_pupdr = p.pupdr / 2 ^ (i * 2) % 2 ^ 2;
  m_altr = if ltb i 8 then p.afrl / 2 ^ (i * 4) % 2 ^ 4 else p.afrh / 2 ^ ((i - 8) * 4) % 2 ^ 4;
}

field-bit :
    (k s reg j : ℕ) → testbit (reg / 2 ^ s % 2 ^ k) j ≡ (if ltb j k then testbit reg (s + j) else 0)
field-bit k s reg j = testbit-mod j k (reg / 2 ^ s) ∙ rw (testbit-shr s reg j) refl

pub IsWritten-field :
    (lo hi k : ℕ) (pos : ℕ → ℕ) (mask value reg reg' i : ℕ)
    → IsWritten lo hi k pos 0 mask value reg reg'
    → lo ≤ i
    → i < hi
    → value < 2 ^ k
    → reg' / 2 ^ pos i % 2 ^ k ≡ (if testbit mask i == 1 then value else reg / 2 ^ pos i % 2 ^ k)
IsWritten-field lo hi k pos mask value reg reg' i h hlo hhi small =
    let same : i - 0 ≡ i = omega arith in
    elim (Bool-cases (testbit mask i == 1)) [
      | inl selected ↦ rw selected (
          testbit_ext (reg' / 2 ^ pos i % 2 ^ k) value (λ j.
            field-bit k (pos i) reg' j ∙ elim (Bool-cases (ltb j k)) [
              | inl inside ↦
                  rw inside (h i j hlo hhi (ltb→lt j k inside) ∙ rw (same, selected) (ground arith))
              | inr outside ↦ rw outside (sym (testbit-above k value j small (ground arith)))
            ]))
      | inr other ↦ rw other (
          testbit_ext (reg' / 2 ^ pos i % 2 ^ k) (reg / 2 ^ pos i % 2 ^ k) (λ j.
            field-bit k (pos i) reg' j ∙ elim (Bool-cases (ltb j k)) [
              | inl inside ↦ rw inside (
                  h i j hlo hhi (ltb→lt j k inside)
                  ∙ rw (same, other) (ground (arith, field-bit k (pos i) reg j)))
              | inr outside ↦ ground (arith, field-bit k (pos i) reg j)
            ]))
    ]

module _ (mask mode : ℕ) (p p' : Port) (i : ℕ) (h : HasMode 0 mask (mode_of mode) p p') where
  alternate-field :
      i < 16
      → (pad_mode p' i).m_altr
        ≡ (if testbit mask i == 1 then (mode_of mode).m_altr else (pad_mode p i).m_altr)
  alternate-field small = elim (Bool-cases (ltb i 8)) [
    | inl low ↦ rw low (
        IsWritten-field 0 8 4 (λ n. n * 4) mask (mode / 128 % 16) p.afrl p'.afrl i h.afrl
          (omega arith) (ltb→lt i 8 low) (omega arith))
    | inr high ↦ rw high (
        IsWritten-field 8 16 4 (λ n. (n - 8) * 4) mask (mode / 128 % 16) p.afrh p'.afrh i h.afrh
          (ground arith) small (omega arith))
  ]

  -- All pads of a port after its registers were written for those that the mask selects.
  pub HasMode-pad_mode :
      i < 16 → pad_mode p' i ≡ (if testbit mask i == 1 then mode_of mode else pad_mode p i)
  HasMode-pad_mode small =
      let moder =
        IsWritten-field 0 16 2 (λ n. n * 2) mask (mode % 4) p.moder p'.moder i h.moder (omega arith)
          small (omega arith) in
      let otyper =
        IsWritten-field 0 16 1 (λ n. n) mask (mode / 4 % 2) p.otyper p'.otyper i h.otyper
          (omega arith) small (omega arith) in
      let ospeedr =
        IsWritten-field 0 16 2 (λ n. n * 2) mask (mode / 8 % 4) p.ospeedr p'.ospeedr i h.ospeedr
          (omega arith) small (omega arith) in
      let pupdr =
        IsWritten-field 0 16 2 (λ n. n * 2) mask (mode / 32 % 4) p.pupdr p'.pupdr i h.pupdr
          (omega arith) small (omega arith) in
      let altr = alternate-field small in
      elim (Bool-cases (testbit mask i == 1)) [
        | inl e ↦ rw e (
            together (rw e at moder) (rw e at otyper) (rw e at ospeedr) (rw e at pupdr)
              (rw e at altr))
        | inr e ↦ rw e (
            together (rw e at moder) (rw e at otyper) (rw e at ospeedr) (rw e at pupdr)
              (rw e at altr))
      ]
    where
      together :
          {m n : Mode}
          → m.m_moder ≡ n.m_moder
          → m.m_otyper ≡ n.m_otyper
          → m.m_ospeedr ≡ n.m_ospeedr
          → m.m_pupdr ≡ n.m_pupdr
          → m.m_altr ≡ n.m_altr
          → m ≡ n
      together a b c d e = cc
