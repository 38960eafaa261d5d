-- ===== src/Serial/Readers.antt =====
-- What a client that reads a serial console is sent.
use boardswarm.Prelude.{
  ℕ, zero, suc, ◌+◌, ◌-◌, ◌≤◌, ◌<◌, ◌≡◌, refl, sym, ap, ◌∙◌, true, false, none, some, List, [], ◌∷◌,
  ◌++◌, append_assoc, append-nil, arith, String, Bytes, Outcome, ok, err, length, length-append,
  ltb, drop, drop-length, Bool, Bool-cases, Option-cases, ◌⊎◌, inl, inr,
}
use boardswarm.Server.Consoles.{ConsoleError, console_closed, output_stream}
use boardswarm.Serial.Port.{
  SerialOpen, SerialPort, task_read, first, kept_values, recv_data, Moment, reads, polls, run,
  get_reader, get_open,
}

-- Whatever the task reads, what was broadcast stays.
task_read_extends :
    (o : SerialOpen) (r : Outcome Bytes String)
    → (new : List Bytes) × ((task_read o r).broadcast ≡ o.broadcast ++ new)
unfolding task_read
task_read_extends o (err e) = ([], sym (append-nil o.broadcast))
task_read_extends o (ok []) = ([], sym (append-nil o.broadcast))
task_read_extends o (ok (x ∷ b)) = elim (Bool-cases o.task_reads) [
  | inl on ↦ rw on ((x ∷ b) ∷ [], refl)
  | inr off ↦ rw off ([], sym (append-nil o.broadcast))
]

run_extends :
    (o : SerialOpen) (pos : ℕ) (ms : List Moment)
    → (new : List Bytes) × ((run o pos ms).0.broadcast ≡ o.broadcast ++ new)
unfolding run
run_extends o pos [] = ([], sym (append-nil o.broadcast))
run_extends o pos (reads r ∷ ms) =
    let (one, e) = task_read_extends o r in
    let (more, e') = run_extends (task_read o r) pos ms in
    (one ++ more, e' ∙ ap (λ l. l ++ more) e ∙ append_assoc o.broadcast one more)
run_extends o pos (polls ∷ ms) = elim (Option-cases (recv_data o pos)) [
  | inl idle ↦ rw (idle, run) (run_extends o pos ms)
  | inr ((item, pos'), got) ↦ rw (got, run) (run_extends o pos' ms)
]

first-drop :
    (l new : List Bytes) (pos : ℕ) (b : Bytes)
    → first (drop pos l) ≡ some b
    → (drop pos (l ++ new) ≡ b ∷ drop (pos + 1) (l ++ new)) × (pos + 1 ≤ length l)
first-drop [] new zero b e = cc
first-drop [] new (suc pos) b e = cc
first-drop (x ∷ l) new zero b e = let same : x ≡ b = cc in (rw same refl, omega arith)
first-drop (x ∷ l) new (suc pos) b e =
    let (split, bound) = first-drop l new pos b e in
    let one : suc pos + 1 ≡ suc (pos + 1) = omega arith in (rw one split, omega arith)

-- What a poll can give: the error of a receiver that lags, or the next value.
recv_data-lags :
    (o : SerialOpen) (pos : ℕ)
    → ltb (pos + kept_values) (length o.broadcast) ≡ true
    → recv_data o pos ≡ some (err console_closed, length o.broadcast - kept_values)
unfolding recv_data
recv_data-lags o pos lags = rw lags refl

recv_data-idle :
    (o : SerialOpen) (pos : ℕ)
    → ltb (pos + kept_values) (length o.broadcast) ≡ false
    → first (drop pos o.broadcast) ≡ none
    → recv_data o pos ≡ none
unfolding recv_data
recv_data-idle o pos near idle = rw (near, idle) refl

recv_data-next :
    (o : SerialOpen) (pos : ℕ) (b : Bytes)
    → ltb (pos + kept_values) (length o.broadcast) ≡ false
    → first (drop pos o.broadcast) ≡ some b
    → recv_data o pos ≡ some (ok b, pos + 1)
unfolding recv_data
recv_data-next o pos b near got = rw (near, got) refl

recv_data-cases :
    (o : SerialOpen) (pos pos' : ℕ) (item : Outcome Bytes ConsoleError)
    → recv_data o pos ≡ some (item, pos')
    → (item ≡ err console_closed)
      ⊎ ((b : Bytes) × (item ≡ ok b) × (pos' ≡ pos + 1) × (first (drop pos o.broadcast) ≡ some b))
unfolding recv_data
recv_data-cases o pos pos' item e =
    elim (Bool-cases (ltb (pos + kept_values) (length o.broadcast))) [
      | inl lags ↦ inl (
          let e' : some (err console_closed, length o.broadcast - kept_values) ≡ some (item, pos') =
            sym (recv_data-lags o pos lags) ∙ e in
          cc)
      | inr near ↦ inr (elim (Option-cases (first (drop pos o.broadcast))) [
        | inl idle ↦ let e' : recv_data o pos ≡ none = recv_data-idle o pos near idle in cc
        | inr (b, got) ↦
            let e' : some (ok b, pos + 1) ≡ some (item, pos') =
              sym (recv_data-next o pos b near got) ∙ e in
            (b, cc, cc, got)
      ])
    ]

run-polls :
    (o : SerialOpen) (pos pos' : ℕ) (item : Outcome Bytes ConsoleError) (ms : List Moment)
    → recv_data o pos ≡ some (item, pos')
    → run o pos (polls ∷ ms) ≡ ((run o pos' ms).0, item ∷ (run o pos' ms).1)
unfolding run
run-polls o pos pos' item ms got = rw (got, run) refl

-- One poll that gives an item, before the polls after it.
sees :
    (o : SerialOpen) (pos pos' : ℕ) (item : Outcome Bytes ConsoleError) (ms : List Moment)
    → (pos' ≤ length o.broadcast
        → (rest : List Bytes) × (drop pos' (run o pos' ms).0.broadcast
            ≡ (output_stream (run o pos' ms).1).sent ++ rest))
    → (item ≡ err console_closed)
      ⊎ ((b : Bytes) × (item ≡ ok b) × (pos' ≡ pos + 1) × (first (drop pos o.broadcast) ≡ some b))
    → (rest : List Bytes) × (drop pos (run o pos' ms).0.broadcast
        ≡ (output_stream (item ∷ (run o pos' ms).1)).sent ++ rest)
unfolding output_stream
sees o pos pos' item ms after (inl e) = rw e (drop pos (run o pos' ms).0.broadcast, refl)
sees o pos pos' item ms after (inr (b, e, next, got)) =
    let (new, ext) = run_extends o pos' ms in
    let (split, bound) = first-drop o.broadcast new pos b got in
    let (rest, ih) = after (rw next bound) in
    rw e (
      rest,
      ap (drop pos) ext
          ∙ split
          ∙ ap (λ l. b ∷ l)
              (ap (λ k. drop k (o.broadcast ++ new)) (sym next) ∙ ap (drop pos') (sym ext) ∙ ih),
    )

-- What a client is sent of a serial console, however the reads of the port and its own polls take
-- turns, is what was broadcast from its place on, up to some end: nothing left out, doubled or
-- moved. Its place is one that was broadcast, or the end.
pub client_sees_in_order :
    (o : SerialOpen) (pos : ℕ) (ms : List Moment)
    → pos ≤ length o.broadcast
    → (rest : List Bytes) × (drop pos (run o pos ms).0.broadcast
        ≡ (output_stream (run o pos ms).1).sent ++ rest)
unfolding run output_stream
client_sees_in_order o pos [] h = (drop pos o.broadcast, refl)
client_sees_in_order o pos (reads r ∷ ms) h =
    let (new, e) = task_read_extends o r in
    client_sees_in_order (task_read o r) pos ms (rw (e, length-append) (omega arith))
client_sees_in_order o pos (polls ∷ ms) h = elim (Option-cases (recv_data o pos)) [
  | inl idle ↦ rw (idle, run) (client_sees_in_order o pos ms h)
  | inr ((item, pos'), got) ↦ rw (run-polls o pos pos' item ms got) (
      sees o pos pos' item ms (client_sees_in_order o pos' ms)
        (recv_data-cases o pos pos' item got))
]

-- The port gives chunks, one read each, before what follows.
abbrev pub reads_all : List (ℕ × Bytes) → List Moment → List Moment
reads_all [] ms = ms
reads_all ((x, b) ∷ chunks) ms = reads (ok (x ∷ b)) ∷ reads_all chunks ms

task_read-length :
    (o : SerialOpen) (x : ℕ) (b : Bytes)
    → o.task_reads ≡ true
    → (length (task_read o (ok (x ∷ b))).broadcast ≡ length o.broadcast + 1)
      × ((task_read o (ok (x ∷ b))).task_reads ≡ true)
unfolding task_read
task_read-length o x b on = rw on (length-append o.broadcast _, refl)

-- When a running port has read so much that a client is more than the channel's 64 values behind,
-- its next poll breaks the stream by a panic, and the client is sent none of them.
pub lagging_reader_panics :
    (o : SerialOpen) (pos : ℕ) (chunks : List (ℕ × Bytes)) (ms : List Moment)
    → o.task_reads ≡ true
    → pos + kept_values < length o.broadcast + length chunks
    → output_stream (run o pos (reads_all chunks (polls ∷ ms))).1
      ≡ record { sent = []; broken = true }
unfolding run output_stream
lagging_reader_panics o pos [] ms on h =
    rw
      (run-polls o pos (length o.broadcast - kept_values) (err console_closed) ms
        (recv_data-lags o pos (ground arith)))
      refl
lagging_reader_panics o pos ((x, b) ∷ chunks) ms on h =
    let (more, still) = task_read-length o x b on in
    lagging_reader_panics (task_read o (ok (x ∷ b))) pos chunks ms still (omega arith)

ended_read : (o : SerialOpen) (r : Outcome Bytes String) → o.task_reads ≡ false → task_read o r ≡ o
unfolding task_read
ended_read o (err e) off = ap (λ t. record o { task_reads = t }) (sym off)
ended_read o (ok []) off = ap (λ t. record o { task_reads = t }) (sym off)
ended_read o (ok (x ∷ b)) off = rw (off, task_read) refl

-- The reads that a history has, whatever is polled in between.
after_reads : SerialOpen → List Moment → SerialOpen
after_reads o [] = o
after_reads o (reads r ∷ ms) = after_reads (task_read o r) ms
after_reads o (polls ∷ ms) = after_reads o ms

run_reads : (o : SerialOpen) (pos : ℕ) (ms : List Moment) → (run o pos ms).0 ≡ after_reads o ms
unfolding run after_reads
run_reads o pos [] = refl
run_reads o pos (reads r ∷ ms) = run_reads (task_read o r) pos ms
run_reads o pos (polls ∷ ms) = elim (Option-cases (recv_data o pos)) [
  | inl idle ↦ rw (idle, run) (run_reads o pos ms)
  | inr ((item, pos'), got) ↦ rw (run-polls o pos pos' item ms got) (run_reads o pos' ms)
]

after_reads-append :
    (o : SerialOpen) (ms ns : List Moment)
    → after_reads o (ms ++ ns) ≡ after_reads (after_reads o ms) ns
unfolding after_reads
after_reads-append o [] ns = refl
after_reads-append o (reads r ∷ ms) ns = after_reads-append (task_read o r) ms ns
after_reads-append o (polls ∷ ms) ns = after_reads-append o ms ns

ended_reads : (o : SerialOpen) (ms : List Moment) → o.task_reads ≡ false → after_reads o ms ≡ o
unfolding after_reads
ended_reads o [] off = refl
ended_reads o (reads r ∷ ms) off =
    ap (λ o'. after_reads o' ms) (ended_read o r off) ∙ ended_reads o ms off
ended_reads o (polls ∷ ms) off = ended_reads o ms off

-- A read that ends the task: its error, or the end of the file.
abbrev pub is_last : Outcome Bytes String → Bool
is_last (err e) = true
is_last (ok []) = true
is_last (ok (x ∷ b)) = false

last_read :
    (o : SerialOpen) (r : Outcome Bytes String)
    → is_last r ≡ true
    → ((task_read o r).task_reads ≡ false) × ((task_read o r).broadcast ≡ o.broadcast)
unfolding task_read
last_read o (err e) last = (refl, refl)
last_read o (ok []) last = (refl, refl)
last_read o (ok (x ∷ b)) last = absurd (let no : ⊥ = cc in no)

run_silent :
    (o : SerialOpen) (ms : List Moment)
    → o.task_reads ≡ false
    → run o (length o.broadcast) ms ≡ (o, [])
unfolding run
run_silent o [] off = refl
run_silent o (reads r ∷ ms) off =
    ap (λ o'. run o' (length o.broadcast) ms) (ended_read o r off) ∙ run_silent o ms off
run_silent o (polls ∷ ms) off =
    let near : ltb (length o.broadcast + kept_values) (length o.broadcast) ≡ false = ground arith in
    let idle = recv_data-idle o (length o.broadcast) near (ap first (drop-length o.broadcast)) in
    rw (idle, run) (run_silent o ms off)

-- Once a port's reading task has been given the end of the file or an error, nothing is broadcast
-- any more, whatever is read and polled before and after; a new reader is given the same opened
-- port, which is not opened again; and its polls give it no item, not even an end.
pub ended_port_stays :
    (open_native : String → ℕ → Outcome (Unit {0}) String)
    → (p : SerialPort) (o : SerialOpen) (pos : ℕ) (before after later : List Moment)
      (r : Outcome Bytes String)
    → is_last r ≡ true
    → let o' = (run o pos (before ++ reads r ∷ after)).0 in
      let p' : SerialPort = record p { opened = some o' } in
      (o'.broadcast ≡ (run o pos before).0.broadcast)
      × (get_reader open_native p' ≡ ok (p', length o'.broadcast))
      × (run o' (length o'.broadcast) later ≡ (o', []))
unfolding get_reader get_open after_reads
ended_port_stays open_native p o pos before after later r last =
    let o1 = (run o pos before).0 in
    let (off, still) = last_read o1 r last in
    let e : (run o pos (before ++ reads r ∷ after)).0 ≡ task_read o1 r =
      run_reads o pos (before ++ reads r ∷ after)
      ∙ after_reads-append o before (reads r ∷ after)
      ∙ ap (λ o'. after_reads (task_read o' r) after) (sym (run_reads o pos before))
      ∙ ended_reads (task_read o1 r) after off in
    (ap (λ o'. o'.broadcast) e ∙ still, refl, run_silent _ later (ap (λ o'. o'.task_reads) e ∙ off))
