-- ===== src/Nfc/Session/Technology.antt =====
-- The technology of a driver over an open and a close.
use nfcee_fw.Base.{◌≡◌, refl, inl, inr, Bool-cases}
use nfcee_fw.Run.{Post, Post->>=}
use nfcee_fw.Nfc.{
  Tech, Ret, is_zero, dev_frame_size, Device, State, power_off, idle, selected, halted, Driver,
}
use nfcee_fw.Nfc.TypeA.{Locals}
use nfcee_fw.Nfc.TypeA.Unchanged.{OpenSame, iso14443a_open-same}
use nfcee_fw.Nfc.Session.{iso14443a_fops, select_card, power_on, iso14443_open, nfc_open}

module _ {W : Type 0} (dev : Device W) (locals : Locals) where
  abbrev pub KeepsTech : Tech → Ret × Driver × W → Type 0
  KeepsTech t (ret, d, w) = d.tech ≡ t

  select_card-KeepsTech :
      (d : Driver) (w : W)
      → Post (KeepsTech d.tech) (select_card dev (iso14443a_fops dev locals) d w)
  unfolding select_card
  select_card-KeepsTech d w =
      Post->>= (OpenSame dev d) (KeepsTech d.tech) ((iso14443a_fops dev locals).l3_open d w) _
        (iso14443a_open-same dev locals d w)
        (λ (ret, d1, w1) h. elim (Bool-cases (is_zero ret)) [
          | inl e ↦ rw e h.tech
          | inr e ↦ rw e h.tech
        ])

  power_on-KeepsTech :
      (d : Driver) (w : W) → Post (KeepsTech d.tech) (power_on dev (iso14443a_fops dev locals) d w)
  unfolding power_on
  power_on-KeepsTech d w = elim (Bool-cases (is_zero (dev.dev_open d.tech w).0)) [
    | inl e ↦
        rw e
          (select_card-KeepsTech _ (dev.dev_ioctl dev_frame_size d.fsd (dev.dev_open d.tech w).1).2)
    | inr e ↦ rw e refl
  ]

  iso14443_open-KeepsTech :
      (s : State) (d : Driver) (w : W)
      → d.state ≡ s
      → Post (KeepsTech d.tech) (iso14443_open dev (iso14443a_fops dev locals) d w)
  unfolding iso14443_open
  iso14443_open-KeepsTech power_off d w e =
      rw e (power_on-KeepsTech (record d { state = power_off }) w)
  iso14443_open-KeepsTech idle d w e = rw e (select_card-KeepsTech (record d { state = idle }) w)
  iso14443_open-KeepsTech halted d w e =
      rw e (select_card-KeepsTech (record d { state = halted }) w)
  iso14443_open-KeepsTech selected d w e = rw e refl

  pub nfc_open-KeepsTech :
      (d : Driver) (w : W)
      → d.tech ≡ Tech.iso14443a
      → Post (KeepsTech Tech.iso14443a) (nfc_open dev (iso14443a_fops dev locals) d w)
  unfolding nfc_open
  nfc_open-KeepsTech d w e =
      rw e (iso14443_open-KeepsTech d.state (record d { tech = Tech.iso14443a }) w refl)
