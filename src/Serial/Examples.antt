-- ===== src/Serial/Examples.antt =====
-- Runs of the console streams and witnesses of the theorems on them.
use boardswarm.Prelude.{
  ℕ, zero, suc, ◌≡◌, refl, true, none, some, List, [], ◌∷◌, ◌++◌, arith, String, Bytes, Outcome, ok,
  err, drop, length,
}
use boardswarm.Server.Consoles.{console_unavailable, console_closed, output_stream}
use boardswarm.Collections.BTreeMap
use boardswarm.Registry.Properties
use boardswarm.Registry.Store.{add, lookup}
use boardswarm.Registry.Store
use boardswarm.Server.Items.{Server, console, register}
use boardswarm.Server.Items
use boardswarm.Server.Handlers.{answered}
use boardswarm.Server.Consoles.{Console, input_console, input_data, console_stream_input}
use boardswarm.Server.Input.{Takes, leading_data, ending, input_written}
use boardswarm.Serial.Port.{
  SerialOpen, SerialPort, new, configure, open_port, get_reader, send_input, Moment, reads, polls,
  run,
}
use boardswarm.Serial.Readers.{
  client_sees_in_order, lagging_reader_panics, reads_all, ended_port_stays,
}

abbrev quiet : SerialOpen
quiet = record { written = []; broadcast = []; task_reads = true }

abbrev two_lines : List Moment
two_lines = reads (ok (104 ∷ 105 ∷ [])) ∷ polls ∷ reads (ok (10 ∷ [])) ∷ polls ∷ polls ∷ []

-- Both lines arrive; the third poll waits.
lines_arrive : (output_stream (run quiet 0 two_lines).1).sent ≡ (104 ∷ 105 ∷ []) ∷ (10 ∷ []) ∷ []
unfolding run output_stream
lines_arrive = refl

abbrev refuses : String → ℕ → Outcome (Unit {0}) String
refuses path rate = err "No such device"

no_port :
    open_port refuses (new "/dev/ttyUSB0")
    ≡ err (console_unavailable "Failed to open '/dev/ttyUSB0' serial: No such device")
unfolding open_port new
no_port = refl

abbrev opens : String → ℕ → Outcome (Unit {0}) String
opens path rate = ok tt

new_rate : (configure (new "/dev/ttyUSB0") 9600).rate ≡ 9600
unfolding configure new
new_rate = refl

writes : send_input quiet (1 ∷ 2 ∷ []) (ok tt) ≡ some (record quiet { written = 1 ∷ 2 ∷ [] })
unfolding send_input
writes = refl

client_sees_in_order_example :
    (rest : List Bytes) × (drop 0 (run quiet 0 two_lines).0.broadcast
      ≡ (output_stream (run quiet 0 two_lines).1).sent ++ rest)
client_sees_in_order_example = client_sees_in_order quiet 0 two_lines (omega arith)

abbrev chunks_of : ℕ → List (ℕ × Bytes)
chunks_of zero = []
chunks_of (suc n) = (65, []) ∷ chunks_of n

lagging_reader_panics_example :
    output_stream (run quiet 0 (reads_all (chunks_of 65) (polls ∷ []))).1
    ≡ record { sent = []; broken = true }
lagging_reader_panics_example = lagging_reader_panics quiet 0 (chunks_of 65) [] refl (omega arith)

-- The port ends behind the two lines; a read after that is not there any more.
abbrev end_of_file : Moment
end_of_file = reads (ok [])

abbrev ended : SerialOpen
ended = (run quiet 0 (two_lines ++ end_of_file ∷ two_lines)).0

abbrev ended_port : SerialPort
ended_port = record { path = "/dev/ttyUSB0"; rate = 115200; opened = some ended }

ended_port_stays_example :
    (ended.broadcast ≡ (run quiet 0 two_lines).0.broadcast)
    × (get_reader opens ended_port ≡ ok (ended_port, length ended.broadcast))
    × (run ended (length ended.broadcast) two_lines ≡ (ended, []))
unfolding new
ended_port_stays_example =
    ended_port_stays opens (new "/dev/ttyUSB0") quiet 0 two_lines two_lines two_lines (ok []) refl

-- An opened port, whose writes succeed, as the console of the server's handler.
abbrev port_console : Console (Unit {0}) ℕ Bytes
port_console = record {
  configure = λ h rate w. (w, ok tt);
  input = λ h w. (w, ok tt);
  send = λ h b w. (elim (send_input (record quiet { written = w }) b (ok tt)) [
    | none ↦ (w, err console_closed)
    | some o ↦ (o.written, ok tt)
  ]);
  output = λ h w. (w, ok []);
}

port_console-Takes : Takes port_console (λ w. w)
unfolding send_input
port_console-Takes = record { opens = λ h w. refl; sends = λ h b w. (w ++ b, refl, refl) }

abbrev one_console : Server (Unit {0})
one_console = (register console Items.new (Properties.new "uart") tt).1

input_written_example :
    let msgs =
      ok (some (input_data (104 ∷ []))) ∷ ok none ∷ ok (some (input_data (105 ∷ []))) ∷ [] in
    let (w', answer) =
      console_stream_input port_console one_console (ok (some (input_console 0)) ∷ msgs) [] in
    (w' ≡ [] ++ leading_data msgs) × (answer ≡ answered (ending msgs))
unfolding register Items.new Items.get lookup BTreeMap.get add BTreeMap.insert Store.new
input_written_example =
    input_written port_console (λ w. w) port_console-Takes one_console 0 tt
      (ok (some (input_data (104 ∷ []))) ∷ ok none ∷ ok (some (input_data (105 ∷ []))) ∷ []) [] refl
