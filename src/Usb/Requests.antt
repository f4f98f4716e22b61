-- ===== src/Usb/Requests.antt =====
-- The answers to a host's requests for descriptors.
use nfcee_fw.Base.{
  ℕ, zero, suc, ◌+◌, ◌*◌, ◌≤◌, ◌<◌, ◌≡◌, ◌≢◌, refl, arith, false, Option, none, some, List, [], ◌∷◌,
  get_elem?, get_or, drop, length, ◌==◌, ltb, if◌then◌else◌, inl, inr, Bool-cases,
}
use nfcee_fw.Usb.Descriptors.{
  Macros, Version, device_descriptor_data, configuration_descriptor_data, functional_descriptors,
  string0, string1, string2, string3,
}
use nfcee_fw.Usb.Layout.{IsUsb}
use nfcee_fw.Usb.{Descriptor, strings, get_descriptor}

-- The length that the bytes announce themselves: that of the whole tree for a configuration.
abbrev pub announced : ℕ → List ℕ → ℕ
announced dtype bytes =
    if dtype == 2 then get_or bytes 2 0 + get_or bytes 3 0 * 256 else get_or bytes 0 0

-- What a host may rely on: the bytes are as many as the size says and as they say themselves, and they
-- are of the type that was asked for. There is no answer exactly for other types, and for strings
-- behind the fourth.
abbrev pub IsServed : (dtype dindex : ℕ) → Option Descriptor → Type 0
IsServed dtype dindex none = (dtype ≢ 1) × (dtype ≢ 2) × (dtype ≡ 3 → 4 ≤ dindex)
IsServed dtype dindex (some d) =
    (length d.bytes ≡ d.size)
    × (announced dtype d.bytes ≡ d.size)
    × (get_or d.bytes 1 0 ≡ dtype)
    × (1 ≤ dtype)
    × (dtype ≤ 3)
    × (dtype ≡ 3 → dindex < 4)

-- A string that announces less than it has: `letter` is not within the length that it announces.
abbrev pub IsCut : (letter : ℕ) → Option Descriptor → Type 0
IsCut letter none = ⊥
IsCut letter (some d) =
    (length d.bytes ≡ d.size)
    × (announced 3 d.bytes + 2 ≡ d.size)
    × (drop (announced 3 d.bytes) d.bytes ≡ letter ∷ 0 ∷ [])

abbrev pub last_letter : ℕ → ℕ
last_letter dindex = if dindex == 1 then b'e' else b't'

module _ (x : Macros) (v : Version) (l : IsUsb x) where
  device-IsServed :
      (dindex : ℕ)
      → IsServed 1 dindex (some (record { size = 18; bytes = device_descriptor_data x }))
  unfolding device_descriptor_data
  device-IsServed dindex =
      simp l.device_lem (refl, refl, refl, omega arith, omega arith, λ h. absurd (omega arith))

  configuration-IsServed :
      (dindex : ℕ)
      → IsServed 2 dindex (some (record { size = 67; bytes = configuration_descriptor_data x }))
  unfolding configuration_descriptor_data functional_descriptors
  configuration-IsServed dindex =
      simp (l.byte_lem, l.bcd_lem, l.configuration_lem, l.interface_lem, l.endpoint_lem)
        (refl, refl, refl, omega arith, omega arith, λ h. absurd (omega arith))

  string-IsServed :
      (dindex : ℕ)
      → dindex ≢ 1
      → dindex ≢ 2
      → IsServed 3 dindex (if ltb dindex 4 then get_elem? (strings x v) dindex else none)
  unfolding strings string0 string1 string2 string3
  string-IsServed zero not_vendor not_product =
      simp (l.byte_lem, l.word_lem, l.string_type)
        (refl, refl, refl, omega arith, omega arith, λ h. omega arith)
  string-IsServed (suc zero) not_vendor not_product = absurd (not_vendor refl)
  string-IsServed (suc (suc zero)) not_vendor not_product = absurd (not_product refl)
  string-IsServed (suc (suc (suc zero))) not_vendor not_product =
      simp (l.byte_lem, l.string_type)
        (refl, refl, refl, omega arith, omega arith, λ h. omega arith)
  string-IsServed (suc (suc (suc (suc n)))) not_vendor not_product =
      let behind : ltb (suc (suc (suc (suc n)))) 4 ≡ false = ground arith in
      rw behind (λ h. absurd (omega (arith, h)), λ h. absurd (omega (arith, h)), λ h. omega arith)

  -- Every request for a descriptor, whatever its type and index, but those for the strings 1 and 2: the answer has as many bytes as its size
  -- says and as the bytes announce themselves, and is of the type that was asked for; and it is missing
  -- exactly for types other than device, configuration and string, and for strings behind the fourth.
  pub get_descriptor-IsServed :
      (dtype dindex : ℕ)
      → (dtype ≡ 3 → dindex ≢ 1)
      → (dtype ≡ 3 → dindex ≢ 2)
      → IsServed dtype dindex (get_descriptor x v dtype dindex)
  unfolding get_descriptor
  get_descriptor-IsServed dtype dindex not_vendor not_product =
      rw (l.device_type, l.configuration_type, l.string_type)
        (elim (Bool-cases (dtype == 1)) [
          | inl e ↦
              let is_device : dtype ≡ 1 = ground arith in rw is_device (device-IsServed dindex)
          | inr e ↦ rw e (elim (Bool-cases (dtype == 2)) [
            | inl e2 ↦
                let is_configuration : dtype ≡ 2 = ground arith in
                rw is_configuration (configuration-IsServed dindex)
            | inr e2 ↦ rw e2 (elim (Bool-cases (dtype == 3)) [
              | inl e3 ↦
                  let is_string : dtype ≡ 3 = ground arith in
                  rw is_string
                    (string-IsServed dindex (not_vendor is_string) (not_product is_string))
              | inr e3 ↦ rw e3 (λ h. ground arith, λ h. ground arith, λ h. ground arith)
            ])
          ])
        ])

  -- The strings of the vendor and of the product announce two bytes fewer than they have, so that their
  -- last letters, `e` and `t`, are lost on a host.
  pub string_descriptor-IsCut :
      (dindex : ℕ)
      → 1 ≤ dindex
      → dindex ≤ 2
      → IsCut (last_letter dindex) (get_descriptor x v 3 dindex)
  unfolding get_descriptor strings string1 string2
  string_descriptor-IsCut zero lo hi = absurd (omega arith)
  string_descriptor-IsCut (suc zero) lo hi =
      simp (l.device_type, l.configuration_type, l.string_type, l.byte_lem) (refl, refl, refl)
  string_descriptor-IsCut (suc (suc zero)) lo hi =
      simp (l.device_type, l.configuration_type, l.string_type, l.byte_lem) (refl, refl, refl)
  string_descriptor-IsCut (suc (suc (suc n))) lo hi = absurd (omega arith)
