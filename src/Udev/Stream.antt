-- ===== src/Udev/Stream.antt =====
-- `DeviceStream` of boardswarm/src/udev.rs: the devices that are there when it starts, and then the
-- events of the monitor. `D` stands for a udev device, `E` for the monitor's errors.
use boardswarm.Prelude.{
  ℕ, zero, suc, ◌+◌, ◌≡◌, refl, ap, Option, none, some, List, [], ◌∷◌, ◌++◌, map, Outcome, ok, err,
  take,
}

pub data EventType : Type 0 where
  add_type remove_type other_type : EventType

-- A `tokio_udev::Event`
pub record UdevEvent (D : Type 0) : Type 0 where
  pub event_type : EventType
  pub device : D
  pub sequence_number : ℕ

pub data DeviceEvent (D : Type 0) : Type 0 where
  add : D → ℕ → DeviceEvent D
  remove : D → DeviceEvent D

-- `monitor` is all that the socket will give.
pub record DeviceStream (D E : Type 0) : Type 0 where
  pub existing : List (ℕ × D)
  pub monitor : List (Outcome (UdevEvent D) E)

unfoldable pub numbered : {D : Type 0} → ℕ → List D → List (ℕ × D)
numbered i [] = []
numbered i (d ∷ ds) = (i, d) ∷ numbered (i + 1) ds

module _ {D E : Type 0} where
  -- `DeviceStream::new`: the devices that the enumerator finds, numbered from zero.
  unfoldable pub new : List D → List (Outcome (UdevEvent D) E) → DeviceStream D E
  unfolding numbered
  new devices monitor = record { existing = numbered 0 devices; monitor = monitor }

  -- The loop over the monitor's events: errors and other events are passed over.
  unfoldable pub poll_monitor :
      List (Outcome (UdevEvent D) E) → Option (DeviceEvent D) × List (Outcome (UdevEvent D) E)
  poll_monitor [] = (none, [])
  poll_monitor (err e ∷ rest) = poll_monitor rest
  poll_monitor (ok event ∷ rest) =
      let later = poll_monitor rest in
      elim event.event_type [
        | add_type ↦ (some (add event.device event.sequence_number), rest)
        | remove_type ↦ (some (remove event.device), rest)
        | other_type ↦ later
      ]

  unfoldable pub poll_next : DeviceStream D E → Option (DeviceEvent D) × DeviceStream D E
  unfolding poll_monitor
  poll_next s = elim s.existing [
    | (seqnum, device) ∷ rest ↦ (some (add device seqnum), record s { existing = rest })
    | [] ↦ let (event, rest) = poll_monitor s.monitor in (event, record s { monitor = rest })
  ]

  -- What the stream gives in its first polls.
  unfoldable pub collect : ℕ → DeviceStream D E → List (DeviceEvent D)
  unfolding poll_next
  collect zero s = []
  collect (suc n) s =
      let (event, s') = poll_next s in
      let later = collect n s' in elim event [ none ↦ [] | some e ↦ e ∷ later ]

  -- What a monitor's event says, if it is an addition or a removal.
  abbrev pub told : List (Outcome (UdevEvent D) E) → List (DeviceEvent D)
  told [] = []
  told (err e ∷ rest) = told rest
  told (ok event ∷ rest) = elim event.event_type [
    | add_type ↦ add event.device event.sequence_number ∷ told rest
    | remove_type ↦ remove event.device ∷ told rest
    | other_type ↦ told rest
  ]

  abbrev from_monitor : List (Outcome (UdevEvent D) E) → DeviceStream D E
  from_monitor monitor = record { existing = []; monitor = monitor }

  -- One event of the monitor, by its type.
  collect-event :
      (n : ℕ) (t : EventType) (d : D) (seqnum : ℕ) (rest : List (Outcome (UdevEvent D) E))
      → collect n (from_monitor rest) ≡ take n (told rest)
      → collect (suc n) (from_monitor rest) ≡ take (suc n) (told rest)
      → let event : UdevEvent D = record { event_type = t; device = d; sequence_number = seqnum } in
        collect (suc n) (from_monitor (ok event ∷ rest)) ≡ take (suc n) (told (ok event ∷ rest))
  unfolding collect poll_next poll_monitor
  collect-event n add_type d seqnum rest next same = ap (λ r. add d seqnum ∷ r) next
  collect-event n remove_type d seqnum rest next same = ap (λ r. remove d ∷ r) next
  collect-event n other_type d seqnum rest next same = same

  collect-monitor :
      (n : ℕ) (monitor : List (Outcome (UdevEvent D) E))
      → collect n (record { existing = []; monitor = monitor }) ≡ take n (told monitor)
  unfolding collect poll_next poll_monitor
  collect-monitor zero monitor = refl
  collect-monitor (suc n) [] = refl
  collect-monitor (suc n) (err e ∷ rest) = collect-monitor (suc n) rest
  collect-monitor (suc n) (ok event ∷ rest) =
      collect-event n event.event_type event.device event.sequence_number rest
        (collect-monitor n rest) (collect-monitor (suc n) rest)

  -- The stream gives the devices that were there first, each as an addition under its number, and
  -- then the additions and removals that the monitor tells, in their order, errors left out.
  pub stream_events :
      (n : ℕ) (existing : List (ℕ × D)) (monitor : List (Outcome (UdevEvent D) E))
      → collect n (record { existing = existing; monitor = monitor })
        ≡ take n (map (λ e. add e.1 e.0) existing ++ told monitor)
  unfolding collect poll_next
  stream_events n [] monitor = collect-monitor n monitor
  stream_events zero (e ∷ existing) monitor = refl
  stream_events (suc n) (e ∷ existing) monitor =
      ap (λ r. add e.1 e.0 ∷ r) (stream_events n existing monitor)
