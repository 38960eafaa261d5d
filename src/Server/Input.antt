-- ===== src/Server/Input.antt =====
-- What `console_stream_input` of boardswarm/src/main.rs gives a console.
use boardswarm.Prelude.{
  ℕ, ◌≡◌, refl, sym, ap, ◌∙◌, none, some, List, [], ◌∷◌, ◌++◌, append_assoc, append-nil, Bytes,
  Outcome, ok, err,
}
use boardswarm.Status.{Status, invalid_argument}
use boardswarm.Server.Items.{Server, console, get}
use boardswarm.Server.Handlers.{answered}
use boardswarm.Server.Consoles.{
  Console, InputMessage, input_console, input_data, input_loop, console_stream_input,
}

-- The data up to the first message that is none, and the answer that message gives.
abbrev pub leading_data : List InputMessage → Bytes
leading_data (ok (some (input_data b)) ∷ rest) = b ++ leading_data rest
leading_data _ = []

abbrev pub ending : List InputMessage → Outcome (Unit {0}) Status
ending [] = ok tt
ending (err e ∷ rest) = err e
ending (ok (some (input_data b)) ∷ rest) = ending rest
ending (ok (some (input_console _)) ∷ rest) = err (invalid_argument "Target cannot be changed")
ending (ok none ∷ rest) = err (invalid_argument "Target cannot be changed")

-- A console that takes what it is sent: `shown` is what it was given so far.
pub record Takes {H P W : Type 0} (c : Console H P W) (shown : W → Bytes) : Type 0 where
  pub opens : (h : H) (w : W) → c.input h w ≡ (w, ok tt)
  pub sends :
      (h : H) (b : Bytes) (w : W)
      → (w' : W) × (c.send h b w ≡ (w', ok tt)) × (shown w' ≡ shown w ++ b)

module _ {H P W : Type 0} (c : Console H P W) (shown : W → Bytes) (takes : Takes c shown) where
  loop_written :
      (h : H) (msgs : List InputMessage) (w : W)
      → (shown (input_loop c h msgs w).0 ≡ shown w ++ leading_data msgs)
        × ((input_loop c h msgs w).1 ≡ answered (ending msgs))
  unfolding input_loop
  loop_written h [] w = (sym (append-nil (shown w)), refl)
  loop_written h (err e ∷ rest) w = (sym (append-nil (shown w)), refl)
  loop_written h (ok (some (input_data b)) ∷ rest) w =
      let (w', sent, more) = takes.sends h b w in
      let (shows, ends) = loop_written h rest w' in
      rw sent (
        shows
            ∙ ap (λ l. l ++ leading_data rest) more
            ∙ append_assoc (shown w) b (leading_data rest),
        ends,
      )
  loop_written h (ok (some (input_console _)) ∷ rest) w = (sym (append-nil (shown w)), refl)
  loop_written h (ok none ∷ rest) w = (sym (append-nil (shown w)), refl)

  -- The bytes that a client sends to a registered console, up to its first message that is no
  -- data, follow what the console was given before, in order; the answer is what that message
  -- makes of it, or success at the end. The console opens and takes what it is sent.
  pub input_written :
      (s : Server H) (id : ℕ) (h : H) (msgs : List InputMessage) (w : W)
      → get console s id ≡ some h
      → let (w', answer) = console_stream_input c s (ok (some (input_console id)) ∷ msgs) w in
        (shown w' ≡ shown w ++ leading_data msgs) × (answer ≡ answered (ending msgs))
  unfolding console_stream_input
  input_written s id h msgs w found =
      rw (console_stream_input, found, takes.opens h w) (loop_written h msgs w)
