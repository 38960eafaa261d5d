-- ===== src/VolumeIo/Replies.antt =====
-- `VolumeError`, `VolumeTarget`, `VolumeIoReplies` of boardswarm/src/main.rs. A completion is what it
-- will be given in the end, `none` when it is dropped before; a reply waits for it, so it is known by
-- then.
use boardswarm.Prelude.{
  ℕ, zero, suc, Bool, Option, none, some, List, [], ◌∷◌, String, Bytes, Outcome, ok, err,
}
use boardswarm.Status.{Status, not_found, unimplemented, internal, aborted}

pub data VolumeError : Type 0 where
  unknown_target_requested not_implemented : VolumeError
  internal_error failure : String → VolumeError

unfoldable pub status_of_volume_error : VolumeError → Status
status_of_volume_error unknown_target_requested = not_found "Unknown target requested"
status_of_volume_error not_implemented = unimplemented "Operation not implemented for this volume"
status_of_volume_error (internal_error e) = internal e
status_of_volume_error (failure e) = aborted e

-- `boardswarm_protocol::VolumeTarget`
pub record VolumeTargetInfo : Type 0 where
  pub name : String
  pub readable : Bool
  pub writable : Bool
  pub seekable : Bool
  pub size : Option ℕ
  pub blocksize : Option ℕ

-- The result that a completion gets.
abbrev pub Completion : Type 0 → Type 0
Completion A = Option (Outcome A Status)

-- The trait `VolumeTarget` with its state.
pub record VolumeTarget (S : Type 0) : Type 0 where
  pub read : S → ℕ → ℕ → S × Completion Bytes
  pub write : S → Bytes → ℕ → S × Completion ℕ
  pub flush : S → S × Completion (Unit {0})
  pub shutdown : S → S × Completion (Unit {0})

module _ {S : Type 0} where
  -- The methods that a target need not give.
  unfoldable pub read_default : S → ℕ → ℕ → S × Completion Bytes
  read_default s length offset = (s, some (err (unimplemented "Target is not readable")))

  unfoldable pub write_default : S → Bytes → ℕ → S × Completion ℕ
  write_default s data_ offset = (s, some (err (unimplemented "Target is not writable")))

  unfoldable pub flush_default : S → S × Completion (Unit {0})
  flush_default s = (s, some (ok tt))

  -- Its completion is the one of the target's own flush.
  unfoldable pub shutdown_default : (S → S × Completion (Unit {0})) → S → S × Completion (Unit {0})
  shutdown_default flush s = flush s

-- What waits to be sent: the enum `VolumeIoReply`.
pub data Queued : Type 0 where
  queued_target : VolumeTargetInfo → Queued
  queued_read : Completion Bytes → Queued
  queued_write : Completion ℕ → Queued
  queued_flush queued_shutdown : Completion (Unit {0}) → Queued
  queued_fatal : Status → Queued

-- `boardswarm_protocol::VolumeIoReply`
pub data Reply : Type 0 where
  target_reply : Option VolumeTargetInfo → Reply
  read_reply : Bytes → Reply
  write_reply : ℕ → Reply
  flush_reply shutdown_reply : Reply

abbrev pub reply_with {ℓ} : {A : Type ℓ} → (A → Reply) → Outcome A Status → Outcome Reply Status
reply_with f (ok a) = ok (f a)
reply_with f (err e) = err e

-- One round of the task of `VolumeIoReplies::new`; `none` is its `break`.
unfoldable pub reply_of : Queued → Option (Outcome Reply Status)
reply_of (queued_target t) = some (ok (target_reply (some t)))
reply_of (queued_read none) = none
reply_of (queued_read (some r)) = some (reply_with read_reply r)
reply_of (queued_write none) = none
reply_of (queued_write (some w)) = some (reply_with write_reply w)
reply_of (queued_flush none) = none
reply_of (queued_flush (some f)) = some (reply_with (λ _. flush_reply) f)
reply_of (queued_shutdown none) = none
reply_of (queued_shutdown (some s)) = some (reply_with (λ _. shutdown_reply) s)
reply_of (queued_fatal e) = some (err e)

-- The task: replies in the order in which they were queued, while the client takes them. `listens` is
-- how many more it takes.
unfoldable pub replies : ℕ → List Queued → List (Outcome Reply Status)
unfolding reply_of
replies listens [] = []
replies zero (q ∷ qs) = []
replies (suc listens) (q ∷ qs) =
    let later = replies listens qs in elim (reply_of q) [ none ↦ [] | some r ↦ r ∷ later ]
