-- ===== src/Agent/StreamLoop/Reader.antt =====
-- The goroutine of StreamSession.run in agent/stream.go that reads what the browser sends, and the
-- four channels between it and the capture loop. JSON is decoded by parameters, and the clipboard
-- is that of the operating system.
use oblireach.Base.{
  ℕ, Bool, true, false, Option, none, some, List, [], ◌∷◌, ◌++◌, Bytes, codes, length, text_eq, ltb,
  ◌==◌, if◌then◌else◌, ℤ, Result, ok, err,
}
use oblireach.Agent.WebSocket.{ReadError}
pub mod Queues
pub mod Channels
pub mod InOrder
mod Examples

-- A buffered channel, with what was taken from it.
pub record Queue (A : Type 0) : Type 0 where
  pub waiting : List A
  pub taken : List A

unfoldable pub empty : {A : Type 0} → Queue A
empty = record { waiting = []; taken = [] }

-- `select { case ch <- x: default: }` on a channel of a capacity
unfoldable pub offer : {A : Type 0} → ℕ → A → Queue A → Queue A
offer cap x q =
    if ltb (length q.waiting) cap then record q { waiting = q.waiting ++ (x ∷ []) } else q

unfoldable pub take_from : {A : Type 0} → List A → Queue A → Queue A
take_from [] q = q
take_from (x ∷ xs) q = record { waiting = xs; taken = q.taken ++ (x ∷ []) }

-- `x := <-ch` of the loop's select, where the channel has something.
unfoldable pub receive : {A : Type 0} → Queue A → Queue A
receive q = take_from q.waiting q

abbrev pub input_cap : ℕ
input_cap = 64

abbrev pub request_cap : ℕ
request_cap = 4

-- The fields that the reader looks at first.
pub record Peek : Type 0 where
  pub kind : Bytes
  pub codec : Bytes
  pub index : ℤ
  pub block : Bool
  pub recording : Bool

-- What a text frame is: one of the reader's own messages, or the loop's input.
pub data Control : Type 0 where
  set_recording : Bool → Control
  set_codec : Bytes → Control
  set_monitor : ℤ → Control
  set_input_block : Bool → Control
  clipboard_set clipboard_get : Control
  for_input : Control

unfoldable pub control_of : Option Peek → Control
control_of none = for_input
control_of (some p) =
    if text_eq p.kind (codes "set_recording")
    then set_recording p.recording
    else if text_eq p.kind (codes "set_codec")
    then set_codec p.codec
    else if text_eq p.kind (codes "set_monitor")
    then set_monitor p.index
    else if text_eq p.kind (codes "set_input_block")
    then set_input_block p.block
    else if text_eq p.kind (codes "clipboard_set")
    then clipboard_set
    else if text_eq p.kind (codes "clipboard_get")
    then clipboard_get
    else for_input

-- What the reader writes: a pong, and the content of the clipboard.
pub data Answer : Type 0 where
  pong : Bytes → Answer
  clipboard_content : Bytes → Answer

pub record Reader : Type 0 where
  pub input : Queue Bytes
  pub codec : Queue Bytes
  pub monitor : Queue ℤ
  pub block : Queue Bool
  pub recording : Bool
  pub clipboard : Bytes
  pub answers : List Answer
  pub running : Bool

unfoldable pub fresh : Reader
fresh = record {
  input = empty;
  codec = empty;
  monitor = empty;
  block = empty;
  recording = false;
  clipboard = [];
  answers = [];
  running = true;
}

unfoldable pub set_clipboard : Option Bytes → Reader → Reader
set_clipboard none s = s
set_clipboard (some t) s = record s { clipboard = t }

-- ReadFrame returns, the user copies a text, or the loop's select takes from a channel.
pub data Event : Type 0 where
  received : Result ReadError (ℕ × Bytes) → Event
  copied : Bytes → Event
  take_input take_codec take_monitor take_block : Event

module _ (peek : Bytes → Option Peek) (clip_text : Bytes → Option Bytes) where
  unfoldable pub on_control : Bytes → Control → Reader → Reader
  on_control payload (set_recording b) s = record s { recording = b }
  on_control payload (set_codec c) s = record s { codec = offer request_cap c s.codec }
  on_control payload (set_monitor i) s = record s { monitor = offer request_cap i s.monitor }
  on_control payload (set_input_block b) s = record s { block = offer request_cap b s.block }
  on_control payload clipboard_set s = set_clipboard (clip_text payload) s
  on_control payload clipboard_get s = record s {
    answers = s.answers ++ (clipboard_content s.clipboard ∷ []);
  }
  on_control payload for_input s = record s { input = offer input_cap payload s.input }

  -- A frame while the reader runs; stop is deferred.
  unfoldable pub on_frame : Result ReadError (ℕ × Bytes) → Reader → Reader
  on_frame (err e) s = record s { running = false }
  on_frame (ok (opcode, payload)) s =
      if opcode == 0x8
      then record s { running = false }
      else if opcode == 0x9
      then record s { answers = s.answers ++ (pong payload ∷ []) }
      else if opcode == 0x1
      then on_control payload (control_of (peek payload)) s
      else s

  unfoldable pub step : Event → Reader → Reader
  step (received r) s = if s.running then on_frame r s else s
  step (copied t) s = record s { clipboard = t }
  step take_input s = record s { input = receive s.input }
  step take_codec s = record s { codec = receive s.codec }
  step take_monitor s = record s { monitor = receive s.monitor }
  step take_block s = record s { block = receive s.block }

  unfoldable pub run : List Event → Reader → Reader
  run [] s = s
  run (e ∷ es) s = run es (step e s)
