-- ===== src/Registry/Examples.antt =====
-- Runs of the registry at concrete inputs.
use boardswarm.Prelude.{nat_eq, ℕ, ◌≡◌, refl, true, false, String, none, List, [], ◌∷◌, arith, drop}
use boardswarm.Collections.BTreeMap
use boardswarm.Collections.HashMap
use boardswarm.Registry.Properties
use boardswarm.Registry.Properties.{Properties, Item, matches, name_key, instance_key}
use boardswarm.Registry.Store.{Registry, lookup, add, find, monitor}
use boardswarm.Registry.Store
use boardswarm.Registry.History.{Call, adds, removes, step, run, hands_out}
use boardswarm.Registry.Invariant.{IsValid, new-IsValid, run-IsValid, id_not_reused}
use boardswarm.Registry.Monitor.{replay, monitor_converges}

abbrev board : Properties
board = Properties.insert (Properties.new "test") "udev.BADGER" "5"

abbrev remote_board : Properties
remote_board = Properties.insert board instance_key "lab"

abbrev wanted : List (String × String)
wanted = (name_key, "test") ∷ ("udev.BADGER", "5") ∷ []

matches_both : matches board wanted ≡ true
unfolding matches Properties.new Properties.insert HashMap.get HashMap.insert Properties.get
    Properties.instance_of
matches_both = refl

matches_wrong_value : matches board ((name_key, "test") ∷ ("udev.BADGER", "7") ∷ []) ≡ false
unfolding matches Properties.new Properties.insert HashMap.get HashMap.insert Properties.get
    Properties.instance_of
matches_wrong_value = refl

-- A remote item has to be asked for by its instance.
matches_remote : matches remote_board wanted ≡ false
unfolding matches Properties.new Properties.insert HashMap.get HashMap.insert Properties.get
    Properties.instance_of
matches_remote = refl

abbrev calls : List (Call ℕ)
calls = adds board 7 ∷ adds remote_board 8 ∷ removes 0 ∷ []

abbrev filled : Registry ℕ
filled = run Store.new calls

filled-IsValid : IsValid filled
unfolding Store.new
filled-IsValid = run-IsValid Store.new calls (omega arith) new-IsValid

id_not_reused_example : (hands_out filled calls 0 ≡ false) × (lookup (run filled calls) 0 ≡ none)
unfolding Store.new run step Store.add Store.remove lookup BTreeMap.get BTreeMap.insert
    BTreeMap.remove Store.next_index hands_out
id_not_reused_example = id_not_reused Store.new calls calls 0 (omega arith) refl refl

monitor_converges_example :
    BTreeMap.get
      (replay
        (drop (monitor (Store.new {T = ℕ})) (run (run Store.new calls) calls).sent)
        (run Store.new calls).contents)
      1
    ≡ lookup (run (run Store.new calls) calls) 1
monitor_converges_example = monitor_converges Store.new calls calls 1
