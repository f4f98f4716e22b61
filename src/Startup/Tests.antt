-- ===== src/Startup/Tests.antt =====
-- The start with a host that is there for a while.
use nfcee_fw.Base.{true, false, [], ◌∷◌}
use nfcee_fw.Startup.Observer.{Observer}

-- The host misses the greeting and the second round, and leaves after the third.
abbrev fresh : Observer
fresh = record {
  hal = false;
  kernel = false;
  port = false;
  serial = false;
  usb = false;
  active = false ∷ true ∷ false ∷ true ∷ [];
  printed = [];
  threads = [];
  light = false;
  allowed = true;
}
