-- ===== src/Server/Examples.antt =====
-- Runs of the server's handlers at concrete inputs.
use boardswarm.Prelude.{ℕ, ◌≡◌, Bool, false, List, [], ◌∷◌, map, arith, ok, err, drop, Outcome}
use boardswarm.Collections.BTreeMap
use boardswarm.Registry.Properties
use boardswarm.Registry.Store.{lookup, monitor}
use boardswarm.Registry.Store
use boardswarm.Registry.History.{Call, adds, removes, run}
use boardswarm.Registry.Invariant.{new-IsValid}
use boardswarm.Server.Items.{Server, volume, actuator, register, unregister}
use boardswarm.Server.Items
use boardswarm.Server.Stream.{see, to_item_stream, listed_at, stream_view_converges}
use boardswarm.VolumeIo.Replies.{VolumeError, failure}

abbrev before : List (Call ℕ)
before = adds (Properties.new "disk") 3 ∷ adds (Properties.new "card") 4 ∷ []

abbrev after : List (Call ℕ)
after = removes 0 ∷ adds (Properties.new "stick") 5 ∷ []

stream_view_converges_example :
    BTreeMap.get
      (see
        (to_item_stream
          (run (Store.new {T = ℕ}) before)
          (map ok (drop (monitor (Store.new {T = ℕ})) (run (run Store.new before) after).sent)))
        [])
      1
    ≡ listed_at 1 (lookup (run (run Store.new before) after) 1)
unfolding Store.new
stream_view_converges_example =
    stream_view_converges Store.new before after 1 new-IsValid (omega arith)

abbrev server : Server ℕ
server = Items.new

-- A volume that fails.
abbrev commit : ℕ → ℕ → ℕ × Outcome (Unit {0}) VolumeError
commit h w = (w, err (failure "worn out"))

abbrev broken : ℕ → ℕ → ℕ → ℕ × Bool
broken h p w = (w, false)
