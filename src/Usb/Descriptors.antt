-- ===== src/Usb/Descriptors.antt =====
-- The descriptors of usbcfg.c. The macros of ChibiOS that lay them out are parameters.
use nfcee_fw.Base.{ℕ, ◌+◌, List, [], ◌∷◌, ◌++◌, bit_or}
use nfcee_fw.Word.{u8}

-- `USB_DESC_BYTE`, `USB_DESC_WORD`, `USB_DESC_BCD`, and those for whole descriptors, with their
-- arguments in order; the types of descriptors.
pub record Macros : Type 0 where
  pub byte : ℕ → List ℕ
  pub word : ℕ → List ℕ
  pub bcd : ℕ → List ℕ
  pub device : ℕ → ℕ → ℕ → ℕ → ℕ → ℕ → ℕ → ℕ → ℕ → ℕ → ℕ → ℕ → List ℕ
  pub configuration : ℕ → ℕ → ℕ → ℕ → ℕ → ℕ → List ℕ
  pub interface : ℕ → ℕ → ℕ → ℕ → ℕ → ℕ → ℕ → List ℕ
  pub endpoint : ℕ → ℕ → ℕ → ℕ → List ℕ
  pub descriptor_device : ℕ
  pub descriptor_configuration : ℕ
  pub descriptor_string : ℕ

-- `CH_KERNEL_MAJOR`, `CH_KERNEL_MINOR`, `CH_KERNEL_PATCH`.
pub record Version : Type 0 where
  pub major : ℕ
  pub minor : ℕ
  pub patch : ℕ

abbrev pub data_request_ep : ℕ
data_request_ep = 1

abbrev pub data_available_ep : ℕ
data_available_ep = 1

abbrev pub interrupt_request_ep : ℕ
interrupt_request_ep = 2

module _ (x : Macros) where
  -- `vcom_device_descriptor_data`.
  unfoldable pub device_descriptor_data : List ℕ
  device_descriptor_data = x.device 0x0110 0x02 0x00 0x00 0x40 0x0483 0x5740 0x0200 1 2 3 1

  -- The functional descriptors of the communications class: header, call management, abstract control
  -- management, union.
  unfoldable pub functional_descriptors : List ℕ
  functional_descriptors =
      x.byte 5
      ++ (x.byte 0x24
          ++ (x.byte 0x00
              ++ (x.bcd 0x0110
                  ++ (x.byte 5
                      ++ (x.byte 0x24
                          ++ (x.byte 0x01
                              ++ (x.byte 0x00
                                  ++ (x.byte 0x01
                                      ++ (x.byte 4
                                          ++ (x.byte 0x24
                                              ++ (x.byte 0x02
                                                  ++ (x.byte 0x02
                                                      ++ (x.byte 5
                                                          ++ (x.byte 0x24
                                                            ++ (x.byte 0x06
                                                            ++ (x.byte 0x00
                                                            ++ x.byte 0x01))))))))))))))))

  -- `vcom_configuration_descriptor_data`.
  unfoldable pub configuration_descriptor_data : List ℕ
  unfolding functional_descriptors
  configuration_descriptor_data =
      x.configuration 67 0x02 0x01 0 0xC0 50
      ++ (x.interface 0x00 0x00 0x01 0x02 0x02 0x01 0
          ++ (functional_descriptors
              ++ (x.endpoint (bit_or interrupt_request_ep 0x80) 0x03 0x0008 0xFF
                  ++ (x.interface 0x01 0x00 0x02 0x0A 0x00 0x00 0x00
                      ++ (x.endpoint data_available_ep 0x02 0x0040 0x00
                          ++ x.endpoint (bit_or data_request_ep 0x80) 0x02 0x0040 0x00)))))

  -- `vcom_string0` to `vcom_string3`.
  unfoldable pub string0 : List ℕ
  string0 = x.byte 4 ++ (x.byte x.descriptor_string ++ x.word 0x0409)

  unfoldable pub string1 : List ℕ
  string1 =
      x.byte 10
      ++ (x.byte x.descriptor_string ++ (b'N' ∷ 0 ∷ b'F' ∷ 0 ∷ b'C' ∷ 0 ∷ b'e' ∷ 0 ∷ b'e' ∷ 0 ∷ []))

  unfoldable pub string2 : List ℕ
  string2 =
      x.byte 32
      ++ (x.byte x.descriptor_string
          ++ (b'N' ∷ 0 ∷ b'F' ∷ 0 ∷ b'C' ∷ 0 ∷ b'e' ∷ 0 ∷ b'e' ∷ 0 ∷ b' ' ∷ 0 ∷ b'D' ∷ 0 ∷ b'e' ∷ 0
              ∷ b'b' ∷ 0 ∷ b'u' ∷ 0 ∷ b'g' ∷ 0 ∷ b' ' ∷ 0 ∷ b'P' ∷ 0 ∷ b'o' ∷ 0 ∷ b'r' ∷ 0 ∷ b't'
              ∷ 0 ∷ []))

  unfoldable pub string3 : Version → List ℕ
  string3 v =
      x.byte 8
      ++ (x.byte x.descriptor_string
          ++ (u8 (b'0' + v.major) ∷ 0 ∷ u8 (b'0' + v.minor) ∷ 0 ∷ u8 (b'0' + v.patch) ∷ 0 ∷ []))
