-- ===== src/Agent/StreamLoop/Reader/Examples.antt =====
-- The reader of a stream at concrete inputs.
use oblireach.Base.{
  ◌≡◌, refl, false, Option, none, some, List, [], ◌∷◌, Bytes, codes, text_eq, if◌then◌else◌, pos,
  ok, err,
}
use oblireach.Agent.WebSocket.{eof}
use oblireach.Agent.StreamLoop.Reader.{
  Peek, fresh, Event, received, copied, take_input, take_codec, run, step, on_frame, on_control,
  control_of, offer, receive, take_from, empty, pong, clipboard_content,
}
use oblireach.Agent.StreamLoop.Reader.Channels.{Kept}
use oblireach.Agent.StreamLoop.Reader.InOrder.{texts, run-fresh-Kept}

-- `c` asks for VP9, `g` for the clipboard, and other texts are input.
abbrev peek_letter : Bytes → Option Peek
peek_letter s =
    if text_eq s (codes "c")
    then some (record {
      kind = codes "set_codec";
      codec = codes "vp9";
      index = pos 0;
      block = false;
      recording = false;
    })
    else if text_eq s (codes "g")
    then some (record {
      kind = codes "clipboard_get";
      codec = [];
      index = pos 0;
      block = false;
      recording = false;
    })
    else none

abbrev no_text : Bytes → Option Bytes
no_text s = none

abbrev events : List Event
events =
    received (ok (0x1, codes "k"))
    ∷ copied (codes "hi")
    ∷ received (ok (0x1, codes "c"))
    ∷ received (ok (0x9, codes "p"))
    ∷ take_input
    ∷ received (ok (0x1, codes "g"))
    ∷ received (err eof)
    ∷ take_codec
    ∷ []

run-fresh-Kept_example : Kept peek_letter (texts events) (run peek_letter no_text events fresh)
run-fresh-Kept_example = run-fresh-Kept peek_letter no_text events

answered :
    (run peek_letter no_text events fresh).answers
    ≡ pong (codes "p") ∷ clipboard_content (codes "hi") ∷ []
unfolding run step on_frame on_control control_of offer receive take_from empty fresh text_eq
answered = refl
