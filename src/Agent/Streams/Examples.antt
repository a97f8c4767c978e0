-- ===== src/Agent/Streams/Examples.antt =====
-- The registry of streams at concrete inputs.
use oblireach.Base.{◌≡◌, refl, true, List, [], ◌∷◌, codes, text_eq}
use oblireach.Agent.Streams.{
  Streams, no_streams, start_stream, stop, stop_stream, Event, started, ended, step, run,
}
use oblireach.Agent.Streams.Registry.{stop_stream_reaches}

abbrev two_tokens : List Event
two_tokens = started (codes "a") true ∷ started (codes "b") true ∷ ended 0 ∷ []

stop_stream_reaches_example :
    ((stop_stream
        ((run two_tokens no_streams).sessions 1).token
        (run two_tokens no_streams)).sessions
      1).stopped
    ≡ true
unfolding run step start_stream stop no_streams text_eq
stop_stream_reaches_example = stop_stream_reaches two_tokens 1 refl refl

-- One token, started twice.
abbrev twice : Streams
twice = run (started (codes "a") true ∷ started (codes "a") true ∷ []) no_streams
