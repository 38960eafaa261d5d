-- ===== src/Server/Stream.antt =====
-- `list`, `monitor` and `item_properties` of boardswarm/src/main.rs, and a client that follows the
-- stream of a monitor.
use boardswarm.Prelude.{
  nat_beq, ℕ, ◌+◌, ◌<◌, ◌≡◌, refl, ap, ◌∙◌, Option, none, some, List, [], ◌∷◌, map, arith, String,
  nat_eq, if◌then◌else◌, Outcome, ok, err, drop, length,
}
use boardswarm.Status.{Status, not_found, invalid_argument}
use boardswarm.Collections.BTreeMap
use boardswarm.Collections.BTreeMap.{BTreeMap, Ascending, get-insert, get-remove, get_under}
use boardswarm.Registry.Properties.{Item, name, instance_of}
use boardswarm.Registry.Store.{Registry, RegistryChange, added, removed, lookup, monitor, u64_mod}
use boardswarm.Registry.History.{Call, run}
use boardswarm.Registry.Invariant.{IsValid, run-IsValid}
use boardswarm.Registry.Monitor.{replay, monitor_converges}
use boardswarm.Server.Items.{
  Server, ItemType, actuator, device, console, volume, ListedItem, to_item_list, registry_of,
  item_list_for,
}

-- `boardswarm_protocol::ItemEvent`
pub data ItemEvent : Type 0 where
  add_event : List ListedItem → ItemEvent
  remove_event : ℕ → ItemEvent

-- The item type of a request, by its number in the protocol.
unfoldable pub item_type_of : ℕ → Option ItemType
item_type_of n =
    if nat_beq n 0
    then some device
    else if nat_beq n 1
    then some console
    else if nat_beq n 2
    then some actuator
    else if nat_beq n 3
    then some volume
    else none

module _ {H : Type 0} where
  abbrev pub listed : ℕ → Item H → ListedItem
  listed id item = record {
    id = id;
    name = name item.properties;
    instance_name = instance_of item.properties;
  }

  unfoldable pub event_of : RegistryChange H → ItemEvent
  event_of (added id item) = add_event (listed id item ∷ [])
  event_of (removed id) = remove_event id

  -- The unfold over the receiver: it ends when the receiver lags.
  unfoldable pub later_events : List (Outcome (RegistryChange H) (Unit {0})) → List ItemEvent
  unfolding event_of
  later_events [] = []
  later_events (ok e ∷ rest) = event_of e ∷ later_events rest
  later_events (err _ ∷ rest) = []

  -- `to_item_stream`: the contents when they are read, and what the receiver gives after that.
  unfoldable pub to_item_stream :
      Registry H → List (Outcome (RegistryChange H) (Unit {0})) → List ItemEvent
  unfolding later_events
  to_item_stream contents received = add_event (to_item_list contents) ∷ later_events received

  unfoldable pub list : Server H → ℕ → Outcome (List ListedItem) Status
  list s type_ = elim (item_type_of type_) [
    | none ↦ err (invalid_argument "Unknown item type ")
    | some k ↦ ok (item_list_for s k)
  ]

  unfoldable pub item_properties : Server H → ℕ → ℕ → Outcome (List (String × String)) Status
  item_properties s type_ id = elim (item_type_of type_) [
    | none ↦ err (invalid_argument "Unknown item type ")
    | some k ↦ elim (lookup (registry_of s k) id) [
      | none ↦ err (not_found "Item not found")
      | some item ↦ ok item.properties.properties
    ]
  ]

-- A client's view of the items, by id.
unfoldable pub put_all : List ListedItem → BTreeMap ListedItem → BTreeMap ListedItem
put_all [] view = view
put_all (i ∷ is) view = put_all is (BTreeMap.insert view i.id i)

unfoldable pub see : List ItemEvent → BTreeMap ListedItem → BTreeMap ListedItem
unfolding put_all
see [] view = view
see (add_event items ∷ es) view = see es (put_all items view)
see (remove_event id ∷ es) view = see es (BTreeMap.remove view id)

module _ {H : Type 0} where
  abbrev pub listed_at : ℕ → Option (Item H) → Option ListedItem
  listed_at k none = none
  listed_at k (some item) = some (listed k item)

  -- The view shows what the map holds.
  abbrev Shows : BTreeMap ListedItem → BTreeMap (Item H) → Type 0
  Shows view m = (k : ℕ) → BTreeMap.get view k ≡ listed_at k (BTreeMap.get m k)

  get-put_all :
      (lo : ℕ) (m : BTreeMap (Item H)) (view : BTreeMap ListedItem) (k : ℕ)
      → Ascending lo m
      → BTreeMap.get (put_all (map (λ e. listed e.0 e.1) m) view) k
        ≡ elim (BTreeMap.get m k) [ none ↦ BTreeMap.get view k | some item ↦ some (listed k item) ]
  unfolding put_all BTreeMap.get
  get-put_all lo [] view k a = refl
  get-put_all lo ((j, item) ∷ m) view k a = ground (
    arith,
    get-put_all (j + 1) m (BTreeMap.insert view j (listed j item)) k a.1,
    get-insert view j k (listed j item),
    get_under (j + 1) m k a.1,
  )

  see-Shows :
      (es : List (RegistryChange H)) (view : BTreeMap ListedItem) (m : BTreeMap (Item H))
      → Shows view m
      → Shows (see (later_events (map ok es)) view) (replay es m)
  unfolding see put_all later_events event_of replay
  see-Shows [] view m h = h
  see-Shows (added id item ∷ es) view m h =
      see-Shows es (BTreeMap.insert view id (listed id item)) (BTreeMap.insert m id item)
        (λ k. ground (arith, h k, get-insert view id k (listed id item), get-insert m id k item))
  see-Shows (removed id ∷ es) view m h =
      see-Shows es (BTreeMap.remove view id) (BTreeMap.remove m id)
        (λ k. ground (arith, h k, get-remove view id k, get-remove m id k))

  -- From an empty view, what is put is what is there.
  shown :
      (j : ℕ) (o : Option (Item H))
      → elim o [ none ↦ BTreeMap.get {V = ListedItem} [] j | some item ↦ some (listed j item) ]
        ≡ listed_at j o
  unfolding BTreeMap.get
  shown j none = refl
  shown j (some item) = refl

  -- A client that follows a monitor's stream, whose receiver did not lag, sees under every id what
  -- the registry holds there in the end: the items that came or went between the subscription and
  -- the first list too. The registry is valid and has ids left for what happens before that list.
  pub stream_view_converges :
      (r : Registry H) (before after : List (Call H)) (k : ℕ)
      → IsValid r
      → r.next + length before < u64_mod
      → BTreeMap.get
          (see
            (to_item_stream
              (run r before)
              (map ok (drop (monitor r) (run (run r before) after).sent)))
            [])
          k
        ≡ listed_at k (lookup (run (run r before) after) k)
  unfolding to_item_stream see to_item_list
  stream_view_converges r before after k v room =
      let m = (run r before).contents in
      let es = drop (monitor r) (run (run r before) after).sent in
      let valid = run-IsValid r before room v in
      see-Shows es (put_all (map (λ e. listed e.0 e.1) m) []) m
        (λ j. get-put_all 0 m [] j valid.ascending ∙ shown j (BTreeMap.get m j)) k
      ∙ ap (listed_at k) (monitor_converges r before after k)
