-- ===== src/Agent/WebSocket/Examples.antt =====
-- Frames and addresses at concrete inputs.
use oblireach.Base.{◌≡◌, refl, arith, [], ◌∷◌, ◌++◌, Bytes, codes, ok, err}
use oblireach.Agent.WebSocket.{
  eof, read_full, mask_from, read_length, read_key, read_payload, read_frame, length_header,
  write_frame,
}
use oblireach.Agent.WebSocket.Frames.{read_frame-write_frame}

abbrev key : Bytes
key = 1 ∷ 2 ∷ 3 ∷ 4 ∷ []

written : write_frame 1 key (codes "ab") ≡ 0x81 ∷ 0x82 ∷ 1 ∷ 2 ∷ 3 ∷ 4 ∷ 0x60 ∷ 0x60 ∷ []
unfolding write_frame length_header mask_from
written = refl

cut_short : read_frame (0x81 ∷ 0x05 ∷ 7 ∷ []) ≡ err eof
unfolding read_frame read_length read_key read_payload read_full
cut_short = refl

read_frame-write_frame_example :
    read_frame (write_frame 1 key (codes "ab") ++ codes "zz") ≡ ok (1, codes "ab", codes "zz")
read_frame-write_frame_example =
    read_frame-write_frame 1 key (codes "ab") (codes "zz") (omega arith) refl (omega arith)
      (omega arith) (omega arith)
