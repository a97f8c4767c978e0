-- ===== src/Agent/Pipe/Examples.antt =====
-- The pipes at concrete inputs.
use oblireach.Base.{ℕ, ◌≡◌, refl, List, [], ◌∷◌, Bytes, codes, arith}
use oblireach.Agent.Pipe.{put_uint32, pipe_send, send_all, recv_all}
use oblireach.Agent.Pipe.RoundTrip.{recv_all-send_all}

sent_frame : pipe_send 2 (codes "ab") ≡ 2 ∷ 0 ∷ 0 ∷ 0 ∷ 2 ∷ b'a' ∷ b'b' ∷ []
unfolding pipe_send put_uint32
sent_frame = refl

abbrev messages : List (ℕ × Bytes)
messages = (1, codes "init") ∷ (2, codes "frame") ∷ (4, []) ∷ []

recv_all-send_all_example : recv_all 5 (send_all messages) ≡ messages
recv_all-send_all_example =
    recv_all-send_all messages 5 (omega arith, (omega arith, (omega arith, ground arith)))
      (omega arith)
