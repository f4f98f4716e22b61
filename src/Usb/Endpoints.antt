-- ===== src/Usb/Endpoints.antt =====
-- The endpoints that the configuration descriptor announces, as a host reads them, and those that
-- `usb_event` sets up.
use nfcee_fw.Base.{
  ℕ, zero, suc, ◌+◌, ◌-◌, ◌*◌, ◌/◌, ◌%◌, ◌≤◌, ◌≡◌, arith, Bool, true, false, ◌||◌, Option, none,
  some, List, [], ◌∷◌, length, get_or, take, drop, ltb, ◌==◌, if◌then◌else◌,
}
use nfcee_fw.Usb.Descriptors.{Macros, configuration_descriptor_data, functional_descriptors}
use nfcee_fw.Usb.Layout.{IsUsb}
use nfcee_fw.Usb.{EpMode, bulk, intr, EndpointConfig, UsbHal, configured, usb_event}

-- A host cuts the tree into descriptors by their first bytes; `none` is a tree that does not end with a
-- descriptor.
pub walk : ℕ → List ℕ → Option (List (List ℕ))
walk fuel [] = some []
walk zero (n ∷ bytes) = none
walk (suc fuel) (n ∷ bytes) =
    if ltb n 2 || ltb (length bytes) (n - 1) then none else elim (walk fuel (drop (n - 1) bytes)) [
      | none ↦ none
      | some found ↦ some ((n ∷ take (n - 1) bytes) ∷ found)
    ]

-- How many descriptors have the type.
abbrev pub count_type : ℕ → List (List ℕ) → ℕ
count_type t [] = 0
count_type t (d ∷ found) =
    let rest = count_type t found in if get_or d 1 0 == t then suc rest else rest

-- The table of a USB driver: the endpoints that have been set up.
abbrev pub Table : Type 0
Table = ℕ → Option EndpointConfig

abbrev pub table_hal : UsbHal Table
table_hal = record {
  lock = λ t. t;
  unlock = λ t. t;
  init_endpoint = λ ep config t n. if n == ep then some config else t n;
  configure_hook = λ t. t;
  disconnect = λ t. t;
  sof_hook = λ t. t;
}

-- The code of a transfer type in an endpoint descriptor.
abbrev pub transfer_type : EpMode → ℕ
transfer_type bulk = 2
transfer_type intr = 3

abbrev pub max_size : Bool → EndpointConfig → ℕ
max_size true c = c.in_maxsize
max_size false c = c.out_maxsize

-- The endpoint of a descriptor is set up, in the direction and with the transfer type that are announced,
-- and for packets as long as announced.
abbrev pub IsEnabled : Table → List ℕ → Type 0
IsEnabled t d = elim (t (get_or d 2 0 % 128)) [
  | none ↦ ⊥
  | some c ↦
      (transfer_type c.mode ≡ get_or d 3 0)
      × (get_or d 4 0 + get_or d 5 0 * 256 ≤ max_size (get_or d 2 0 / 128 == 1) c)
]

abbrev pub AllEnabled : Table → List (List ℕ) → Type 0
AllEnabled t [] = Unit
AllEnabled t (d ∷ found) = (if get_or d 1 0 == 5 then IsEnabled t d else Unit) × AllEnabled t found

-- How many endpoints come before the next interface.
abbrev pub endpoints_ahead : List (List ℕ) → ℕ
endpoints_ahead [] = 0
endpoints_ahead (d ∷ found) =
    let rest = endpoints_ahead found in
    if get_or d 1 0 == 4 then 0 else if get_or d 1 0 == 5 then suc rest else rest

-- Each interface is followed by as many endpoints as it says.
abbrev pub CountsEndpoints : List (List ℕ) → Type 0
CountsEndpoints [] = Unit
CountsEndpoints (d ∷ found) =
    (if get_or d 1 0 == 4 then get_or d 4 0 ≡ endpoints_ahead found else Unit)
    × CountsEndpoints found

-- A tree that begins with the number of its interfaces.
abbrev pub CountsInterfaces : List (List ℕ) → Type 0
CountsInterfaces [] = ⊥
CountsInterfaces (d ∷ found) = get_or d 4 0 ≡ count_type 4 found

abbrev pub IsUsable : Table → Option (List (List ℕ)) → Type 0
IsUsable t none = ⊥
IsUsable t (some found) = CountsInterfaces found × CountsEndpoints found × AllEnabled t found

-- A host can cut the whole configuration descriptor into descriptors. It has as many interfaces as it
-- says, each with as many endpoints as it says; and when the host has chosen the configuration, every
-- endpoint that it found is set up, with the transfer type that is announced and for packets at least as
-- long as announced, whatever was set up before.
pub configured-IsUsable :
    (x : Macros) (l : IsUsb x) (t : Table)
    → IsUsable (usb_event table_hal configured t) (walk 67 (configuration_descriptor_data x))
unfolding usb_event configuration_descriptor_data functional_descriptors walk
configured-IsUsable x l t =
    simp (l.byte_lem, l.bcd_lem, l.configuration_lem, l.interface_lem, l.endpoint_lem) (omega arith)
