-- ===== src/Server/Consoles.antt =====
-- The console handlers of boardswarm/src/main.rs: `console_configure`, `console_stream_output` and
-- `console_stream_input`, with `ConsoleError` and `ConsoleExt`. `H` stands for the consoles, `W` for
-- the world; a stream is the list of what it gives.
use boardswarm.Prelude.{
  ℕ, Bool, true, false, Option, none, some, List, [], ◌∷◌, String, Bytes, Outcome, ok, err,
}
use boardswarm.Status.{Status, not_found, invalid_argument, aborted, unavailable}
use boardswarm.Server.Items.{Server, console, get}
use boardswarm.Server.Handlers.{Answer, answered, panicked}

pub data ConsoleError : Type 0 where
  console_unavailable : String → ConsoleError
  console_closed : ConsoleError

unfoldable pub status_of_console_error : ConsoleError → Status
status_of_console_error console_closed = aborted "Console was closed"
status_of_console_error (console_unavailable msg) = unavailable msg

-- The trait `Console`: `send` is the sink that `input` gives, `output` the items of its stream.
pub record Console (H P W : Type 0) : Type 0 where
  pub configure : H → P → W → W × Outcome (Unit {0}) ConsoleError
  pub input : H → W → W × Outcome (Unit {0}) ConsoleError
  pub send : H → Bytes → W → W × Outcome (Unit {0}) ConsoleError
  pub output : H → W → W × Outcome (List (Outcome Bytes ConsoleError)) ConsoleError

-- What a client is sent, and whether the stream ended by an `unwrap`.
pub record OutputStream : Type 0 where
  pub sent : List Bytes
  pub broken : Bool

-- `output_stream` of `ConsoleExt`
unfoldable pub output_stream : List (Outcome Bytes ConsoleError) → OutputStream
output_stream [] = record { sent = []; broken = false }
output_stream (err e ∷ items) = record { sent = []; broken = true }
output_stream (ok b ∷ items) =
    let rest = output_stream items in record rest { sent = b ∷ rest.sent }

-- `console_input_request::TargetOrData`
pub data TargetOrData : Type 0 where
  input_console : ℕ → TargetOrData
  input_data : Bytes → TargetOrData

abbrev pub InputMessage : Type 0
InputMessage = Outcome (Option TargetOrData) Status

abbrev pub unwrapped : {A W : Type 0} → W × Outcome A ConsoleError → W × Answer A
unwrapped (w, ok a) = (w, answered (ok a))
unwrapped (w, err e) = (w, panicked)

-- What follows a call whose error is unwrapped.
abbrev pub unless_panic :
    {A B W : Type 0} → W × Outcome A ConsoleError → (W → W × Answer B) → W × Answer B
unless_panic (w, ok a) k = k w
unless_panic (w, err e) k = (w, panicked)

module _ {H P W : Type 0} (c : Console H P W) where
  unfoldable pub console_configure : Server H → ℕ → Option P → W → W × Answer (Unit {0})
  console_configure s id parameters w = elim (get console s id) [
    | none ↦ (w, answered (err (invalid_argument "Can't find console")))
    | some handle ↦ elim parameters [
      | none ↦ (w, panicked)
      | some p ↦ unwrapped (c.configure handle p w)
    ]
  ]

  abbrev pub streamed :
      W × Outcome (List (Outcome Bytes ConsoleError)) ConsoleError → W × Outcome OutputStream Status
  streamed (w, ok items) = (w, ok (output_stream items))
  streamed (w, err e) = (w, err (status_of_console_error e))

  unfoldable pub console_stream_output : Server H → ℕ → W → W × Outcome OutputStream Status
  unfolding output_stream status_of_console_error
  console_stream_output s id w = elim (get console s id) [
    | none ↦ (w, err (invalid_argument "Can't find output console"))
    | some handle ↦ streamed (c.output handle w)
  ]

  -- The loop of `console_stream_input`.
  unfoldable pub input_loop : H → List InputMessage → W → W × Answer (Unit {0})
  input_loop handle [] w = (w, answered (ok tt))
  input_loop handle (err e ∷ rest) w = (w, answered (err e))
  input_loop handle (ok (some (input_data b)) ∷ rest) w =
      unless_panic (c.send handle b w) (input_loop handle rest)
  input_loop handle (ok (some (input_console _)) ∷ rest) w =
      (w, answered (err (invalid_argument "Target cannot be changed")))
  input_loop handle (ok none ∷ rest) w =
      (w, answered (err (invalid_argument "Target cannot be changed")))

  unfoldable pub console_stream_input : Server H → List InputMessage → W → W × Answer (Unit {0})
  unfolding input_loop
  console_stream_input s [] w = (w, answered (ok tt))
  console_stream_input s (err e ∷ rest) w = (w, answered (err e))
  console_stream_input s (ok (some (input_console id)) ∷ rest) w = elim (get console s id) [
    | none ↦ (w, answered (err (not_found "No console by that name")))
    | some handle ↦ unless_panic (c.input handle w) (input_loop handle rest)
  ]
  console_stream_input s (ok _ ∷ rest) w =
      (w, answered (err (invalid_argument "Target should be set first")))
