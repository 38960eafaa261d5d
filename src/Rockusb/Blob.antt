-- ===== src/Rockusb/Blob.antt =====
-- A blob that is loaded into a device in maskrom mode, and what any writes leave in its buffer.
use boardswarm.Prelude.{
  ℕ, ◌+◌, ◌*◌, ◌≤◌, ◌≡◌, refl, sym, ap, ◌∙◌, some, List, [], ◌∷◌, ◌++◌, append_assoc, append-nil,
  String, ◌==◌, nat_eq, Bytes, arith, Outcome, ok, err, map_err, length, length-append, ltb,
  Bool-cases, Outcome-cases, inl, inr, ◌⊎◌,
}
use boardswarm.Status.{Status}
use boardswarm.VolumeIo.Replies.{Queued, queued_write, queued_shutdown}
use boardswarm.VolumeIo.Serve.{write_request, shutdown_request, Received, serve, serve_request}
use boardswarm.Rockusb.Device.{
  RockUsbError, rock_usb, reached, RockusbCrate, status_of_error, command, open_device,
  write_maskrom_area,
}
use boardswarm.Rockusb.Targets.{
  MaskromTarget, new_maskrom, maskrom_write, maskrom_shutdown, maskrom_volume_target,
}

abbrev pub joined : List Bytes → Bytes
joined [] = []
joined (c ∷ cs) = c ++ joined cs

-- The requests of a blob in pieces: each behind the one before, and a shutdown.
abbrev pub blob_requests : ℕ → List Bytes → List Received
blob_requests offset [] = ok (some shutdown_request) ∷ []
blob_requests offset (c ∷ cs) =
    ok (some (write_request c offset)) ∷ blob_requests (offset + length c) cs

-- What is queued for them, with the answer to the shutdown.
abbrev pub blob_replies : List Bytes → Outcome (Unit {0}) Status → List Queued
blob_replies [] r = queued_shutdown (some r) ∷ []
blob_replies (c ∷ cs) r = queued_write (some (ok (length c))) ∷ blob_replies cs r

maskrom_write_next :
    (t : MaskromTarget) (b : Bytes)
    → length t.data_ + length b ≤ t.capacity
    → maskrom_write t b (length t.data_) ≡ (record t { data_ = t.data_ ++ b }, ok (length b))
unfolding maskrom_write
maskrom_write_next t b room = ground arith

module _ {W : Type 0} (usb : RockusbCrate W) (text : RockUsbError → String) where
  blob_served :
      (w : W) (t : MaskromTarget) (cs : List Bytes) (whole : Bytes)
      → t.data_ ++ joined cs ≡ whole
      → length whole ≤ t.capacity
      → serve (maskrom_volume_target usb text) (w, t) (blob_requests (length t.data_) cs) ≡ (
        (maskrom_shutdown usb w (record t { data_ = whole })).0,
        blob_replies cs (
            map_err (status_of_error text) (maskrom_shutdown usb w (record t { data_ = whole })).1),
      )
  unfolding serve serve_request maskrom_volume_target
  blob_served w t [] whole e room =
      let same : t.data_ ≡ whole = sym (append-nil t.data_) ∙ e in
      ap
        (λ b. (
          (maskrom_shutdown usb w (record t { data_ = b })).0,
          queued_shutdown (
                some (
                  map_err (status_of_error text)
                    (maskrom_shutdown usb w (record t { data_ = b })).1))
              ∷ [],
        ))
        same
  blob_served w t (c ∷ cs) whole e room =
      let t' : MaskromTarget = record t { data_ = t.data_ ++ c } in
      let fits : length t.data_ + length c ≤ t.capacity = omega (
        arith,
        room,
        ap length e,
        length-append t.data_ (c ++ joined cs),
        length-append c (joined cs),
      ) in
      let next = blob_served w t' cs whole (append_assoc t.data_ c (joined cs) ∙ e) room in
      rw (maskrom_write_next t c fits, sym (length-append t.data_ c), next) refl

  shutdown_sends :
      (w w' : W) (t : MaskromTarget)
      → usb.reach w ≡ reached
      → usb.open_device w ≡ (w', ok tt)
      → maskrom_shutdown usb w t ≡ (
        ((usb.write_maskrom_area w' t.area t.data_).0, record t { data_ = []; capacity = 0 }),
        map_err rock_usb (usb.write_maskrom_area w' t.area t.data_).1,
      )
  unfolding maskrom_shutdown command open_device write_maskrom_area
  shutdown_sends w w' t reaches opens =
      rw (reaches, command, opens)
        (elim (Outcome-cases (usb.write_maskrom_area w' t.area t.data_).1) [
          | inl (u, e) ↦ rw e refl
          | inr (x, e) ↦ rw e refl
        ])

  -- A blob that is written in pieces to a device in maskrom mode, each behind the one before, and
  -- is at most a megabyte, reaches the device's area whole and once, at the shutdown: each write
  -- is answered with its length, and the shutdown with what the device makes of the blob, if the
  -- task is reached and opens the device.
  pub blob_reaches_device :
      (w w' : W) (area : ℕ) (cs : List Bytes)
      → length (joined cs) ≤ 1024 * 1024
      → usb.reach w ≡ reached
      → usb.open_device w ≡ (w', ok tt)
      → let (w'', r) = usb.write_maskrom_area w' area (joined cs) in
        serve (maskrom_volume_target usb text) (w, new_maskrom area) (blob_requests 0 cs) ≡ (
          (w'', record { area = area; data_ = []; capacity = 0 }),
          blob_replies cs (map_err (λ e. status_of_error text (rock_usb e)) r),
        )
  unfolding new_maskrom
  blob_reaches_device w w' area cs room reaches opens =
      blob_served w (new_maskrom area) cs (joined cs) refl room
      ∙ rw (shutdown_sends w w' (record (new_maskrom area) { data_ = joined cs }) reaches opens)
          (elim (Outcome-cases (usb.write_maskrom_area w' area (joined cs)).1) [
            | inl (u, e) ↦ rw e refl
            | inr (x, e) ↦ rw e refl
          ])

-- Writes at any offsets, and what each is answered.
unfoldable pub write_all :
    MaskromTarget → List (Bytes × ℕ) → MaskromTarget × List (Outcome ℕ Status)
write_all t [] = (t, [])
write_all t ((b, offset) ∷ ws) =
    let (t', r) = maskrom_write t b offset in let (t'', rs) = write_all t' ws in (t'', r ∷ rs)

-- The data of the writes that were not refused.
abbrev pub kept : List (Bytes × ℕ) → List (Outcome ℕ Status) → Bytes
kept ((b, offset) ∷ ws) (ok n ∷ rs) = b ++ kept ws rs
kept ((b, offset) ∷ ws) (err e ∷ rs) = kept ws rs
kept _ _ = []

maskrom_write_kept :
    (t : MaskromTarget) (b : Bytes) (offset : ℕ)
    → length t.data_ ≤ t.capacity
    → let (t', r) = maskrom_write t b offset in
      (length t'.data_ ≤ t'.capacity)
      × (t'.capacity ≡ t.capacity)
      × (((e : Status) × (r ≡ err e) × (t'.data_ ≡ t.data_))
          ⊎ ((r ≡ ok (length b)) × (t'.data_ ≡ t.data_ ++ b) × (offset ≡ length t.data_)))
unfolding maskrom_write
maskrom_write_kept t b offset room = elim (Bool-cases (offset == length t.data_)) [
  | inr elsewhere ↦ rw elsewhere (room, refl, inl (_, refl, refl))
  | inl next ↦ elim (Bool-cases (ltb t.capacity (length b + length t.data_))) [
    | inl full ↦ rw (next, full) (room, refl, inl (_, refl, refl))
    | inr fits ↦
        rw (next, fits)
          (ground (arith, length-append t.data_ b), refl, inr (refl, refl, ground arith))
  ]
]

-- Writes at any offsets leave in a maskrom target's buffer, behind what it held, the data of
-- exactly those that were not refused, in order, and never more than its capacity.
pub write_all_keeps :
    (t : MaskromTarget) (ws : List (Bytes × ℕ))
    → length t.data_ ≤ t.capacity
    → ((write_all t ws).0.data_ ≡ t.data_ ++ kept ws (write_all t ws).1)
      × (length (write_all t ws).0.data_ ≤ t.capacity)
unfolding write_all
write_all_keeps t [] room = (sym (append-nil t.data_), room)
write_all_keeps t ((b, offset) ∷ ws) room =
    let t' = (maskrom_write t b offset).0 in
    let (room', same, how) = maskrom_write_kept t b offset room in
    let (all, fits) = write_all_keeps t' ws room' in
    elim how [
      | inl (e, refused, stays) ↦
          rw (refused, kept)
            (all ∙ ap (λ l. l ++ kept ws (write_all t' ws).1) stays, omega (arith, fits, same))
      | inr (taken, added, at) ↦
          rw (taken, kept)
            (
              all ∙ ap (λ l. l ++ kept ws (write_all t' ws).1) added ∙ append_assoc t.data_ b _,
              omega (arith, fits, same),
            )
    ]
