-- ===== src/Usb/Locking.antt =====
-- The calls of ChibiOS with the suffix `I` stand between a lock and an unlock, in usbcfg.c.
use nfcee_fw.Base.{List, [], ◌∷◌, ◌≡◌, arith, Bool, true, false, not, ◌&&◌}
use nfcee_fw.Usb.{
  UsbHal, UsbEvent, reset, address, configured, unconfigured, suspend, wakeup, stalled, usb_event,
  sof_handler,
}

-- An observer of the lock: whether it is held, and whether all calls so far were allowed. A lock is taken
-- when it is free, and given back when it is held; the other calls want it held.
pub record Monitor : Type 0 where
  pub locked : Bool
  pub allowed : Bool

abbrev pub inside : Monitor → Monitor
inside m = record m { allowed = m.allowed && m.locked }

abbrev pub monitor_hal : UsbHal Monitor
monitor_hal = record {
  lock = λ m. record { locked = true; allowed = m.allowed && not m.locked };
  unlock = λ m. record { locked = false; allowed = m.allowed && m.locked };
  init_endpoint = λ ep config m. inside m;
  configure_hook = inside;
  disconnect = inside;
  sof_hook = inside;
}

abbrev pub IsFree : Monitor → Type 0
IsFree m = (m.locked ≡ false) × (m.allowed ≡ true)

-- A callback of the USB driver: an event, or the start of a frame.
pub data Call : Type 0 where
  event : UsbEvent → Call
  start_of_frame : Call

abbrev pub handle : {W : Type 0} → UsbHal W → Call → W → W
handle hal (event e) w = usb_event hal e w
handle hal start_of_frame w = sof_handler hal w

abbrev pub handle_all : {W : Type 0} → UsbHal W → List Call → W → W
handle_all hal [] w = w
handle_all hal (c ∷ calls) w = handle_all hal calls (handle hal c w)

handle-IsFree : (c : Call) (m : Monitor) → IsFree m → IsFree (handle monitor_hal c m)
unfolding usb_event sof_handler
handle-IsFree (event reset) m h = h
handle-IsFree (event address) m h = h
handle-IsFree (event configured) m h = ground arith
handle-IsFree (event unconfigured) m h = h
handle-IsFree (event suspend) m h = ground arith
handle-IsFree (event wakeup) m h = h
handle-IsFree (event stalled) m h = h
handle-IsFree start_of_frame m h = ground arith

-- Whatever callbacks come in whatever order: each takes the lock when it is free, makes its calls with
-- the lock held, and gives it back.
pub handle_all-IsFree :
    (calls : List Call) (m : Monitor) → IsFree m → IsFree (handle_all monitor_hal calls m)
handle_all-IsFree [] m h = h
handle_all-IsFree (c ∷ calls) m h =
    handle_all-IsFree calls (handle monitor_hal c m) (handle-IsFree c m h)
