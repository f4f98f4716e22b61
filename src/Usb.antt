-- ===== src/Usb.antt =====
-- The serial port over USB that carries the trace: usbcfg.c. The descriptors are in Usb/Descriptors.
pub mod Descriptors
pub mod Layout
pub mod Requests
pub mod Endpoints
pub mod Locking
mod Tests
use nfcee_fw.Base.{
  ℕ, Bool, Option, none, some, List, [], ◌∷◌, bit_or, get_elem?, ◌==◌, ltb, if◌then◌else◌, length,
}
use nfcee_fw.Usb.Descriptors.{
  Macros, Version, device_descriptor_data, configuration_descriptor_data, string0, string1, string2,
  string3, data_request_ep, data_available_ep, interrupt_request_ep,
}

-- `USBDescriptor`: a size and the bytes.
pub record Descriptor : Type 0 where
  pub size : ℕ
  pub bytes : List ℕ

-- `{sizeof data, data}`, for an array without a declared size; the other two declare 18 and 67 bytes.
abbrev pub descriptor : List ℕ → Descriptor
descriptor bytes = record { size = length bytes; bytes = bytes }

module _ (x : Macros) (v : Version) where
  -- `vcom_strings`.
  unfoldable pub strings : List Descriptor
  unfolding string0 string1 string2 string3
  strings =
      descriptor (string0 x)
      ∷ descriptor (string1 x)
      ∷ descriptor (string2 x)
      ∷ descriptor (string3 x v)
      ∷ []

  -- `get_descriptor`; the driver and the language are not used.
  unfoldable pub get_descriptor : ℕ → ℕ → Option Descriptor
  unfolding strings device_descriptor_data configuration_descriptor_data
  get_descriptor dtype dindex =
      if dtype == x.descriptor_device
      then some (record { size = 18; bytes = device_descriptor_data x })
      else if dtype == x.descriptor_configuration
      then some (record { size = 67; bytes = configuration_descriptor_data x })
      else if dtype == x.descriptor_string
      then (if ltb dindex 4 then get_elem? strings dindex else none)
      else none

-- `USB_EP_MODE_TYPE_BULK`, `USB_EP_MODE_TYPE_INTR`.
pub data EpMode : Type 0 where
  bulk intr : EpMode

-- The callbacks of the serial driver of ChibiOS.
pub data Callback : Type 0 where
  data_transmitted data_received interrupt_transmitted : Callback

-- The static states `ep1instate`, `ep1outstate`, `ep2instate`.
pub data EpState : Type 0 where
  ep1_in_state ep1_out_state ep2_in_state : EpState

-- `USBEndpointConfig`; the callback for setup packets and their buffer are null in both.
pub record EndpointConfig : Type 0 where
  pub mode : EpMode
  pub in_cb : Option Callback
  pub out_cb : Option Callback
  pub in_maxsize : ℕ
  pub out_maxsize : ℕ
  pub in_state : Option EpState
  pub out_state : Option EpState
  pub in_multiplier : ℕ

abbrev pub ep1_config : EndpointConfig
ep1_config = record {
  mode = bulk;
  in_cb = some data_transmitted;
  out_cb = some data_received;
  in_maxsize = 0x0040;
  out_maxsize = 0x0040;
  in_state = some ep1_in_state;
  out_state = some ep1_out_state;
  in_multiplier = 2;
}

abbrev pub ep2_config : EndpointConfig
ep2_config = record {
  mode = intr;
  in_cb = some interrupt_transmitted;
  out_cb = none;
  in_maxsize = 0x0010;
  out_maxsize = 0x0000;
  in_state = some ep2_in_state;
  out_state = none;
  in_multiplier = 1;
}

-- `usbevent_t`.
pub data UsbEvent : Type 0 where
  reset address configured unconfigured suspend wakeup stalled : UsbEvent

-- What the callbacks call of ChibiOS: the lock for interrupt handlers, `usbInitEndpointI`,
-- `sduConfigureHookI`, `sduDisconnectI` and `sduSOFHookI`.
pub record UsbHal (W : Type 0) : Type 0 where
  pub lock : W → W
  pub unlock : W → W
  pub init_endpoint : ℕ → EndpointConfig → W → W
  pub configure_hook : W → W
  pub disconnect : W → W
  pub sof_hook : W → W

module _ {W : Type 0} (hal : UsbHal W) where
  -- `usb_event`.
  unfoldable pub usb_event : UsbEvent → W → W
  usb_event reset w = w
  usb_event address w = w
  usb_event configured w =
      let w1 = hal.init_endpoint data_request_ep ep1_config (hal.lock w) in
      let w2 = hal.init_endpoint interrupt_request_ep ep2_config w1 in
      hal.unlock (hal.configure_hook w2)
  usb_event unconfigured w = w
  usb_event suspend w = hal.unlock (hal.disconnect (hal.lock w))
  usb_event wakeup w = w
  usb_event stalled w = w

  -- `sof_handler`.
  unfoldable pub sof_handler : W → W
  sof_handler w = hal.unlock (hal.sof_hook (hal.lock w))

-- `serusbcfg`, on the driver `USBD1`.
pub record SerialConfig : Type 0 where
  pub bulk_in : ℕ
  pub bulk_out : ℕ
  pub int_in : ℕ

abbrev pub serial_config : SerialConfig
serial_config = record {
  bulk_in = data_request_ep;
  bulk_out = data_available_ep;
  int_in = interrupt_request_ep;
}
