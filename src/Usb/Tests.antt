-- ===== src/Usb/Tests.antt =====
-- Descriptors with macros that lay them out as the USB standard does, and a short life on the bus.
use nfcee_fw.Base.{refl, arith, true, false, none, List, [], ◌∷◌}
use nfcee_fw.Word.{u8}
use nfcee_fw.Usb.Descriptors.{Macros, Version, configuration_descriptor_data}
use nfcee_fw.Usb.Layout.{IsUsb, low, high}
use nfcee_fw.Usb.{get_descriptor, configured, suspend, usb_event}
use nfcee_fw.Usb.Requests.{IsServed, IsCut, get_descriptor-IsServed, string_descriptor-IsCut}
use nfcee_fw.Usb.Endpoints.{IsUsable, Table, table_hal, walk, configured-IsUsable}
use nfcee_fw.Usb.Locking.{
  Call, event, start_of_frame, Monitor, monitor_hal, IsFree, handle_all, handle_all-IsFree,
}

abbrev standard : Macros
standard = record {
  byte = λ n. u8 n ∷ [];
  word = λ n. low n ∷ high n ∷ [];
  bcd = λ n. low n ∷ high n ∷ [];
  device = λ usb cls sub protocol size vendor product release maker name serial configs.
      18
      ∷ 1
      ∷ low usb
      ∷ high usb
      ∷ u8 cls
      ∷ u8 sub
      ∷ u8 protocol
      ∷ u8 size
      ∷ low vendor
      ∷ high vendor
      ∷ low product
      ∷ high product
      ∷ low release
      ∷ high release
      ∷ u8 maker
      ∷ u8 name
      ∷ u8 serial
      ∷ u8 configs
      ∷ [];
  configuration = λ total interfaces value name attributes power.
      9
      ∷ 2
      ∷ low total
      ∷ high total
      ∷ u8 interfaces
      ∷ u8 value
      ∷ u8 name
      ∷ u8 attributes
      ∷ u8 power
      ∷ [];
  interface = λ number alternate endpoints cls sub protocol name.
      9
      ∷ 4
      ∷ u8 number
      ∷ u8 alternate
      ∷ u8 endpoints
      ∷ u8 cls
      ∷ u8 sub
      ∷ u8 protocol
      ∷ u8 name
      ∷ [];
  endpoint = λ address attributes size interval.
      7 ∷ 5 ∷ u8 address ∷ u8 attributes ∷ low size ∷ high size ∷ u8 interval ∷ [];
  descriptor_device = 1;
  descriptor_configuration = 2;
  descriptor_string = 3;
}

standard-IsUsb : IsUsb standard
standard-IsUsb = record {
  byte_lem = λ n. refl;
  word_lem = λ n. refl;
  bcd_lem = λ n. refl;
  device_lem = λ a b c d e f g h i j k l. refl;
  configuration_lem = λ a b c d e f. refl;
  interface_lem = λ a b c d e f g. refl;
  endpoint_lem = λ a b c d. refl;
  device_type = refl;
  configuration_type = refl;
  string_type = refl;
}

abbrev kernel : Version
kernel = record { major = 4; minor = 0; patch = 0 }

get_descriptor-IsServed_example : IsServed 3 3 (get_descriptor standard kernel 3 3)
get_descriptor-IsServed_example =
    get_descriptor-IsServed standard kernel standard-IsUsb 3 3 (λ h k. absurd (omega arith))
      (λ h k. absurd (omega arith))

string_descriptor-IsCut_example : IsCut b'e' (get_descriptor standard kernel 3 1)
string_descriptor-IsCut_example =
    string_descriptor-IsCut standard kernel standard-IsUsb 1 (omega arith) (omega arith)

abbrev no_endpoints : Table
no_endpoints n = none

configured-IsUsable_example :
    IsUsable
      (usb_event table_hal configured no_endpoints)
      (walk 67 (configuration_descriptor_data standard))
configured-IsUsable_example = configured-IsUsable standard standard-IsUsb no_endpoints

abbrev unlocked : Monitor
unlocked = record { locked = false; allowed = true }

abbrev plugged_and_pulled : List Call
plugged_and_pulled = event configured ∷ start_of_frame ∷ event suspend ∷ []

handle_all-IsFree_example : IsFree (handle_all monitor_hal plugged_and_pulled unlocked)
handle_all-IsFree_example = handle_all-IsFree plugged_and_pulled unlocked (refl, refl)
