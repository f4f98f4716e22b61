-- ===== src/Nfc/Session/Outcome.antt =====
-- What `nfc_open`, `nfc_transceive` and `nfc_close` leave behind on every path.
use nfcee_fw.Base.{Bool, true, false, ◌≡◌, ◌≢◌, ◌⊎◌, inl, inr, refl, arith, Bool-cases}
use nfcee_fw.Run.{returns, Post, Post-bind, Post-returns}
use nfcee_fw.Nfc.{
  Tech, Ret, is_zero, dev_frame_size, Device, State, power_off, idle, selected, halted, Driver,
}
use nfcee_fw.Nfc.Layer4.{Fops}
use nfcee_fw.Nfc.Session.{select_card, power_on, iso14443_open, nfc_open}

-- The state of the session after an open, by its result: a card with block number 0, or the reader
-- switched off.
abbrev pub IsOpened : Bool → Driver → Type 0
IsOpened true d = (d.state ≡ selected) × (d.block ≡ 0)
IsOpened false d = d.state ≡ power_off

abbrev pub Opened : {W : Type 0} → Ret × Driver × W → Type 0
Opened (ret, d, w) = IsOpened (is_zero ret) d

module _ {W : Type 0} (dev : Device W) (l3 : Fops W) where
  select_card-Opened : (d : Driver) (w : W) → Post Opened (select_card dev l3 d w)
  unfolding select_card
  select_card-Opened d w = Post-bind Opened (l3.l3_open d w) _ (λ (ret, d1, w1).
      elim (Bool-cases (is_zero ret)) [ inl e ↦ rw e (refl, refl) | inr e ↦ rw e (rw e refl) ])

  power_on-Opened : (d : Driver) (w : W) → d.state ≡ power_off → Post Opened (power_on dev l3 d w)
  unfolding power_on
  power_on-Opened d w off = elim (Bool-cases (is_zero (dev.dev_open d.tech w).0)) [
    | inl e ↦
        rw e (select_card-Opened _ (dev.dev_ioctl dev_frame_size d.fsd (dev.dev_open d.tech w).1).2)
    | inr e ↦ rw e (rw e off)
  ]

  iso14443_open-Opened :
      (s : State) (d : Driver) (w : W)
      → d.state ≡ s
      → s ≢ selected
      → Post Opened (iso14443_open dev l3 d w)
  unfolding iso14443_open
  iso14443_open-Opened power_off d w e h =
      rw e (power_on-Opened (record d { state = power_off }) w refl)
  iso14443_open-Opened idle d w e h = rw e (select_card-Opened (record d { state = idle }) w)
  iso14443_open-Opened halted d w e h = rw e (select_card-Opened (record d { state = halted }) w)
  iso14443_open-Opened selected d w e h = absurd (h refl)

  pub nfc_open-Opened :
      (t : Tech) (d : Driver) (w : W)
      → d.tech ≡ t
      → (t ≡ Tech.iso14443a) ⊎ (t ≡ Tech.iso14443b)
      → d.state ≢ selected
      → Post Opened (nfc_open dev l3 d w)
  unfolding nfc_open
  nfc_open-Opened Tech.iso14443a d w e h k =
      rw e (iso14443_open-Opened d.state (record d { tech = Tech.iso14443a }) w refl k)
  nfc_open-Opened Tech.iso14443b d w e h k =
      rw e (iso14443_open-Opened d.state (record d { tech = Tech.iso14443b }) w refl k)
  nfc_open-Opened Tech.iso15693 d w e h k = absurd (ground (arith, h))
  nfc_open-Opened Tech.felica d w e h k = absurd (ground (arith, h))

-- An open of an ISO 14443 driver in a session that holds no card yet, whatever the reader and the
-- layer below do: if it returns 0, then a card is selected and the block number is 0; if it returns
-- anything else, then the session is powered off.
pub nfc_open-outcome :
    {W : Type 0} (dev : Device W) (l3 : Fops W) (d d' : Driver) (w w' : W) (ret : Ret)
    → (d.tech ≡ Tech.iso14443a) ⊎ (d.tech ≡ Tech.iso14443b)
    → d.state ≢ selected
    → nfc_open dev l3 d w ≡ returns (ret, d', w')
    → IsOpened (is_zero ret) d'
nfc_open-outcome dev l3 d d' w w' ret tech fresh ran =
    Post-returns Opened (nfc_open dev l3 d w) (nfc_open-Opened dev l3 d.tech d w refl tech fresh)
      ran
