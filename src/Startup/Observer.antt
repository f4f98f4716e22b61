-- ===== src/Startup/Observer.antt =====
-- An observer of the calls of ChibiOS while the firmware starts.
use nfcee_fw.Base.{Bool, true, false, ◌&&◌, List, [], ◌∷◌, ◌++◌, ◌≡◌}
use nfcee_fw.Startup.{Line, Thread, System}

-- What has been set up, what the host says when it is asked for, what was printed, which threads
-- there are, the light, and whether every call has found set up what it needs.
pub record Observer : Type 0 where
  pub hal : Bool
  pub kernel : Bool
  pub port : Bool
  pub serial : Bool
  pub usb : Bool
  pub active : List Bool
  pub printed : List Line
  pub threads : List Thread
  pub light : Bool
  pub allowed : Bool

abbrev pub needs : Bool → Observer → Observer
needs b o = record o { allowed = o.allowed && b }

-- No host is there when the list is used up.
abbrev pub next_active : List Bool → Bool
next_active [] = false
next_active (b ∷ bs) = b

abbrev pub later_active : List Bool → List Bool
later_active [] = []
later_active (b ∷ bs) = bs

-- The HAL comes first, then the kernel; threads and delays need the kernel, the serial port an
-- initialised driver, USB a serial port, and the bus a USB driver.
abbrev pub observed : System Observer
observed = record {
  hal_init = λ o. record o { hal = true };
  kernel_init = λ o. record (needs o.hal o) { kernel = true };
  create_thread = λ t o. record (needs o.kernel o) { threads = o.threads ++ t ∷ [] };
  name_thread = λ t o. needs o.kernel o;
  sleep_ms = λ n o. needs o.kernel o;
  sleep_us = λ n o. needs o.kernel o;
  serial_init = λ o. record (needs o.kernel o) { port = true };
  serial_start = λ config o. record (needs o.port o) { serial = true };
  bus_disconnect = λ o. needs o.hal o;
  usb_start = λ o. record (needs o.serial o) { usb = true };
  bus_connect = λ o. needs o.usb o;
  is_active =
      λ o. (next_active o.active, record (needs o.serial o) { active = later_active o.active });
  print = λ line o. record (needs o.serial o) { printed = o.printed ++ line ∷ [] };
  led0 = λ on o. record o { light = on };
  enable_channel = λ o. needs o.hal o;
  lock_isr = λ o. o;
  unlock_isr = λ o. o;
}

-- The firmware runs, and no call has come too early.
pub record IsRunning (threads : List Thread) (printed : List Line) (o : Observer) : Type 0 where
  pub fine : o.allowed ≡ true
  pub kernel_up : o.kernel ≡ true
  pub serial_up : o.serial ≡ true
  pub has_threads : o.threads ≡ threads
  pub has_printed : o.printed ≡ printed
