-- ===== src/Remote/Ending.antt =====
-- Histories of a device of another server: what was told of it, and how they leave it once its task has
-- ended.
use boardswarm.Prelude.{
  Bool, ◌∙◌, none, if◌then◌else◌, ◌+◌, ◌≡◌, refl, ap, sym, subst, true, false, some, List, [], ◌∷◌,
  ◌++◌, ◌==◌, nat_eq, Bool-cases, inl, inr, ok, err,
}
use boardswarm.Device.Watching.{DeviceView}
use boardswarm.Remote.Device.{
  ProviderIds, RemoteDevice, on_provider, view, Moment, provider_moves, info_comes, task_wakes,
  on_item, at_moment, at_moments,
}

-- What comes from there ends the task.
abbrev pub is_end : Moment → Bool
is_end (info_comes (some (ok info))) = false
is_end (info_comes (some (err e))) = true
is_end (info_comes none) = true
is_end (provider_moves consoles volumes) = false
is_end task_wakes = false

abbrev pub has_end : List Moment → Bool
has_end [] = false
has_end (m ∷ ms) = let rest = has_end ms in if is_end m then true else rest

-- What the device is there, by what was told from there last.
abbrev pub last_told : DeviceView → List Moment → DeviceView
last_told info [] = info
last_told info (provider_moves consoles volumes ∷ ms) = last_told info ms
last_told info (info_comes (some (ok info')) ∷ ms) = last_told info' ms
last_told info (info_comes (some (err e)) ∷ ms) = last_told info ms
last_told info (info_comes none ∷ ms) = last_told info ms
last_told info (task_wakes ∷ ms) = last_told info ms

-- Once the task has ended, the device stays as it is.
pub ended_device_stays :
    (x : ProviderIds × RemoteDevice) (ms : List Moment)
    → x.1.running ≡ false
    → (at_moments x ms).1 ≡ x.1
unfolding at_moments at_moment
ended_device_stays x [] over = refl
ended_device_stays (p, d) (provider_moves consoles volumes ∷ ms) over =
    ended_device_stays
      (record { consoles = consoles; volumes = volumes; notified = p.notified + 1 }, d) ms over
ended_device_stays (p, d) (info_comes item ∷ ms) over =
    ap (λ e. (at_moments (p, if e then on_item p d item else d) ms).1) over
    ∙ ended_device_stays (p, d) ms over
ended_device_stays (p, d) (task_wakes ∷ ms) over =
    ap
      (λ e.
        (at_moments (p, if e then (if d.seen == p.notified then d else on_provider p d) else d)
          ms).1)
      over
    ∙ ended_device_stays (p, d) ms over

stopped :
    (d : RemoteDevice)
    → let d' : RemoteDevice = if d.running then record d { running = false } else d in
      (d'.running ≡ false) × (view d' ≡ view d)
unfolding view
stopped d = elim (Bool-cases d.running) [
  | inl runs ↦
      subst
        (λ e.
          let d' : RemoteDevice = if e then record d { running = false } else d in
          (d'.running ≡ false) × (view d' ≡ view d))
        (sym runs) (refl, refl)
  | inr over ↦
      subst
        (λ e.
          let d' : RemoteDevice = if e then record d { running = false } else d in
          (d'.running ≡ false) × (view d' ≡ view d))
        (sym over) (over, refl)
]

pub end_stops :
    (x : ProviderIds × RemoteDevice) (m : Moment)
    → is_end m ≡ true
    → ((at_moment x m).1.running ≡ false) × (view (at_moment x m).1 ≡ view x.1)
unfolding at_moment on_item
end_stops (p, d) (provider_moves consoles volumes) over = absurd (let no : ⊥ = cc in no)
end_stops (p, d) (info_comes (some (ok info))) over = absurd (let no : ⊥ = cc in no)
end_stops (p, d) (info_comes (some (err e))) over = stopped d
end_stops (p, d) (info_comes none) over = stopped d
end_stops (p, d) task_wakes over = absurd (let no : ⊥ = cc in no)

pub at_moments-append :
    (x : ProviderIds × RemoteDevice) (ms ns : List Moment)
    → at_moments x (ms ++ ns) ≡ at_moments (at_moments x ms) ns
unfolding at_moments
at_moments-append x [] ns = refl
at_moments-append x (m ∷ ms) ns = at_moments-append (at_moment x m) ms ns
