-- ===== src/Usb/Layout.antt =====
-- What is relied on of the descriptor macros of ChibiOS: the layouts of the USB 2.0 standard, chapter 9.
use nfcee_fw.Base.{ℕ, ◌/◌, ◌≡◌, [], ◌∷◌}
use nfcee_fw.Word.{u8}
use nfcee_fw.Usb.Descriptors.{Macros}

-- Numbers of two bytes stand with the low byte first.
abbrev pub low : ℕ → ℕ
low n = u8 n

abbrev pub high : ℕ → ℕ
high n = u8 (n / 256)

pub record IsUsb (x : Macros) : Type 0 where
  pub byte_lem : (n : ℕ) → x.byte n ≡ u8 n ∷ []
  pub word_lem : (n : ℕ) → x.word n ≡ low n ∷ high n ∷ []
  pub bcd_lem : (n : ℕ) → x.bcd n ≡ low n ∷ high n ∷ []
  pub device_lem :
      (usb cls sub protocol size vendor product release maker name serial configs : ℕ)
      → x.device usb cls sub protocol size vendor product release maker name serial configs
        ≡ 18
          ∷ 1
          ∷ low usb
          ∷ high usb
          ∷ u8 cls
          ∷ u8 sub
          ∷ u8 protocol
          ∷ u8 size
          ∷ low vendor
          ∷ high vendor
          ∷ low product
          ∷ high product
          ∷ low release
          ∷ high release
          ∷ u8 maker
          ∷ u8 name
          ∷ u8 serial
          ∷ u8 configs
          ∷ []
  pub configuration_lem :
      (total interfaces value name attributes power : ℕ)
      → x.configuration total interfaces value name attributes power
        ≡ 9
          ∷ 2
          ∷ low total
          ∷ high total
          ∷ u8 interfaces
          ∷ u8 value
          ∷ u8 name
          ∷ u8 attributes
          ∷ u8 power
          ∷ []
  pub interface_lem :
      (number alternate endpoints cls sub protocol name : ℕ)
      → x.interface number alternate endpoints cls sub protocol name
        ≡ 9
          ∷ 4
          ∷ u8 number
          ∷ u8 alternate
          ∷ u8 endpoints
          ∷ u8 cls
          ∷ u8 sub
          ∷ u8 protocol
          ∷ u8 name
          ∷ []
  pub endpoint_lem :
      (address attributes size interval : ℕ)
      → x.endpoint address attributes size interval
        ≡ 7 ∷ 5 ∷ u8 address ∷ u8 attributes ∷ low size ∷ high size ∷ u8 interval ∷ []
  pub device_type : x.descriptor_device ≡ 1
  pub configuration_type : x.descriptor_configuration ≡ 2
  pub string_type : x.descriptor_string ≡ 3
