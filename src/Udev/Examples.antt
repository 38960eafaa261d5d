-- ===== src/Udev/Examples.antt =====
-- Runs of the registrations of udev devices at concrete inputs.
use boardswarm.Prelude.{Outcome, ok, err, string_eq, ℕ, ◌+◌, ◌≡◌, refl, List, [], ◌∷◌, arith}
use boardswarm.Registry.Properties.{Properties}
use boardswarm.Registry.Properties
use boardswarm.Registry.Store
use boardswarm.Registry.Invariant.{IsValid, new-IsValid}
use boardswarm.Server.Items.{Server, ItemType, actuator, device, console, volume, registry_of}
use boardswarm.Server.Items
use boardswarm.Server.Calls.{IsValidServer, Room}
use boardswarm.Udev.Registrations.{
  DeviceRegistrations, PreRegistration, GuardCall, register_console, register_volume,
  register_batch, remove, pre_register, new,
}
use boardswarm.Udev.Counting.{tracked}
use boardswarm.Udev.Ownership.{live}
use boardswarm.Udev.History.{Event, pre_registers, registers, disappears, run, costs, no_item_leaks}
use boardswarm.Udev.Interfaces.{
  UsbInterface, from_udev, written, from_udev-written, split_colons, parse_all, parse_interface,
}
use boardswarm.Udev.Stream.{UdevEvent, add_type, remove_type, other_type}
use boardswarm.Udev.Races.{disappeared_never_registers}

abbrev server : Server ℕ
server = Items.new

registry-IsValid : (k : ItemType) → IsValid (registry_of server k)
unfolding Items.new Store.new
registry-IsValid actuator = new-IsValid
registry-IsValid device = new-IsValid
registry-IsValid console = new-IsValid
registry-IsValid volume = new-IsValid

server-IsValidServer : IsValidServer server
server-IsValidServer = record { valid = registry-IsValid }

abbrev port : PreRegistration
port = record { syspath = "/sys/devices/usb1/1-1"; seqnum = 7 }

abbrev found : List (GuardCall ℕ)
found =
    register_console (Properties.new "console") 3 ∷ register_volume (Properties.new "disk") 4 ∷ []

-- The device goes away and comes back while the first preparation still runs.
abbrev replugged : List (Event ℕ)
replugged =
    pre_registers port.syspath 7
    ∷ disappears port.syspath
    ∷ pre_registers port.syspath 9
    ∷ registers port found
    ∷ registers (record port { seqnum = 9 }) found
    ∷ []

server-Room : Room (costs replugged) server
unfolding Items.new Store.new
server-Room actuator = omega arith
server-Room device = omega arith
server-Room console = omega arith
server-Room volume = omega arith

no_item_leaks_example :
    tracked console 0 (run (new server) replugged).registrations + live server console 0
    ≡ live (run (new server) replugged).server console 0
no_item_leaks_example = no_item_leaks server replugged console 0 server-IsValidServer server-Room

disappeared_never_registers_example :
    register_batch
      (run (remove (new server) port.syspath) (pre_registers port.syspath 9 ∷ []))
      port
      found
    ≡ run (remove (new server) port.syspath) (pre_registers port.syspath 9 ∷ [])
disappeared_never_registers_example =
    disappeared_never_registers (new server) port (pre_registers port.syspath 9 ∷ []) found
      (refl, tt)

abbrev pending_server : DeviceRegistrations ℕ
pending_server = (pre_register (new server) port.syspath 7).1

abbrev interfaces : List UsbInterface
interfaces =
    record { class = 18; subclass = 52; protocol = 86 }
    ∷ record { class = 103; subclass = 52; protocol = 137 }
    ∷ []

from_udev-written_example : from_udev (written interfaces) ≡ interfaces
from_udev-written_example =
    from_udev-written interfaces
      ((omega arith, omega arith, omega arith), ((omega arith, omega arith, omega arith), tt))

-- The test of the repository: `::` holds no interface.
no_interfaces : from_udev (58 ∷ 58 ∷ []) ≡ []
unfolding from_udev split_colons parse_all parse_interface
no_interfaces = refl

abbrev events : List (Outcome (UdevEvent ℕ) ℕ)
events =
    err 1
    ∷ ok (record { event_type = add_type; device = 5; sequence_number = 40 })
    ∷ ok (record { event_type = other_type; device = 5; sequence_number = 41 })
    ∷ ok (record { event_type = remove_type; device = 5; sequence_number = 42 })
    ∷ []
