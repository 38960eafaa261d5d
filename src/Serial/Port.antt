-- ===== src/Serial/Port.antt =====
-- `SerialPort` and `SerialPortOutput` of boardswarm/src/serial/mod.rs. Of the opened port its state has
-- what was broadcast and what was written; a receiver of the broadcast channel is a position in what
-- was broadcast. The tasks take turns: each operation is a step.
use boardswarm.Prelude.{
  ℕ, ◌+◌, ◌-◌, Bool, true, false, Option, none, some, List, [], ◌∷◌, ◌++◌, String, Bytes, Outcome,
  ok, err, length, ltb, if◌then◌else◌, drop,
}
use Prim.Native.String.{◌++◌ as ◌+++◌}
use boardswarm.Server.Consoles.{ConsoleError, console_unavailable, console_closed}

-- `SerialOpen`, with the task that reads the port.
pub record SerialOpen : Type 0 where
  pub written : Bytes
  pub broadcast : List Bytes
  pub task_reads : Bool

pub record SerialPort : Type 0 where
  pub path : String
  pub rate : ℕ
  pub opened : Option SerialOpen

unfoldable pub new : String → SerialPort
new path = record { path = path; rate = 115200; opened = none }

-- `configure`: the rate counts from the next opening on.
unfoldable pub configure : SerialPort → ℕ → SerialPort
configure p rate = record p { rate = rate }

-- What a read of the port gives: data, none of it at the end, or an error, which the task unwraps.
unfoldable pub task_read : SerialOpen → Outcome Bytes String → SerialOpen
task_read o (err e) = record o { task_reads = false }
task_read o (ok []) = record o { task_reads = false }
task_read o (ok (x ∷ b)) =
    if o.task_reads then record o { broadcast = o.broadcast ++ (x ∷ b) ∷ [] } else o

-- `open_native` opens a path at a rate; its error is the text of what `anyhow` prints.
module _ (open_native : String → ℕ → Outcome (Unit {0}) String) where
  unfoldable pub open_port : SerialPort → Outcome SerialPort ConsoleError
  open_port p = elim (open_native p.path p.rate) [
    | err e ↦ err (console_unavailable ("Failed to open '" +++ p.path +++ "' serial: " +++ e))
    | ok _ ↦
        ok (record p { opened = some (record { written = []; broadcast = []; task_reads = true }) })
  ]

  -- `get_reader` and `get_writer` open the port unless it is open.
  unfoldable pub get_open : SerialPort → Outcome SerialPort ConsoleError
  unfolding open_port
  get_open p = elim p.opened [ some o ↦ ok p | none ↦ open_port p ]

  abbrev pub subscribed : SerialPort → ℕ
  subscribed p = elim p.opened [ none ↦ 0 | some o ↦ length o.broadcast ]

  -- A receiver gets what is broadcast from now on.
  unfoldable pub get_reader : SerialPort → Outcome (SerialPort × ℕ) ConsoleError
  unfolding get_open
  get_reader p = elim (get_open p) [ err e ↦ err e | ok p' ↦ ok (p', subscribed p') ]

-- The sink of `input`: `write_all` of the data, whose error is unwrapped; `none` is the panic.
unfoldable pub send_input : SerialOpen → Bytes → Outcome (Unit {0}) String → Option SerialOpen
send_input o b (ok _) = some (record o { written = o.written ++ b })
send_input o b (err e) = none

abbrev pub first : List Bytes → Option Bytes
first [] = none
first (b ∷ bs) = some b

-- `broadcast::channel(64)` keeps the last values; `recv_data` gives an error for those that are lost, and
-- the receiver stands at the oldest that is kept. `none` is that nothing is there to receive: the
-- sender is kept by the port, so that the channel is not closed.
abbrev pub kept_values : ℕ
kept_values = 64

unfoldable pub recv_data : SerialOpen → ℕ → Option (Outcome Bytes ConsoleError × ℕ)
recv_data o pos =
    if ltb (pos + kept_values) (length o.broadcast)
    then some (err console_closed, length o.broadcast - kept_values)
    else (elim (first (drop pos o.broadcast)) [ none ↦ none | some b ↦ some (ok b, pos + 1) ])

-- What happens while a client reads: the task is given a read of the port, or the client polls its
-- stream.
pub data Moment : Type 0 where
  reads : Outcome Bytes String → Moment
  polls : Moment

-- `SerialPortOutput`: what its polls give in a history.
unfoldable pub run : SerialOpen → ℕ → List Moment → SerialOpen × List (Outcome Bytes ConsoleError)
unfolding task_read recv_data
run o pos [] = (o, [])
run o pos (reads r ∷ ms) = run (task_read o r) pos ms
run o pos (polls ∷ ms) =
    let idle = run o pos ms in
    elim (recv_data o pos) [
      | none ↦ idle
      | some (item, pos') ↦ let (o', items) = run o pos' ms in (o', item ∷ items)
    ]
