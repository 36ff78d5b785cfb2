-- ===== src/Connect/Tests.antt =====
-- Frames of cursoragentv1/connect.go on concrete bytes.
use cursor_agent2api.Base.{
  ℕ, ◌+◌, ◌≡◌, refl, List, [], ◌∷◌, ◌++◌, none, length, drop, concat, arith, ◌≤◌,
}
use cursor_agent2api.Connect.{
  connect_header_size, max_connect_payload_size, complete, parse_connect_frame,
  frame_connect_with_flags, put_uint32, Frame, receive, receive_all, idle,
}
use cursor_agent2api.Connect.Frames.{parse-frame, frame-parse}
use cursor_agent2api.Connect.Chunks.{receive_all-concat, receive_all-wire}

parse-frame_example :
    parse_connect_frame (frame_connect_with_flags (10 ∷ 20 ∷ []) 2 ++ (9 ∷ []))
    ≡ complete 2 (10 ∷ 20 ∷ []) (connect_header_size + 2)
parse-frame_example = parse-frame 2 (10 ∷ 20 ∷ []) (9 ∷ []) (ground arith)

abbrev one_byte : List ℕ
one_byte = 42 ∷ []

abbrev three_bytes : List ℕ
three_bytes = 0 ∷ 0 ∷ 0 ∷ 0 ∷ 1 ∷ 42 ∷ 7 ∷ []

three_bytes-parse : parse_connect_frame three_bytes ≡ complete 0 (42 ∷ []) 6
unfolding parse_connect_frame
three_bytes-parse = refl

frame-parse_example :
    (three_bytes ≡ frame_connect_with_flags (42 ∷ []) 0 ++ drop 6 three_bytes)
    × (6 ≡ connect_header_size + length one_byte)
    × (length one_byte ≤ max_connect_payload_size)
frame-parse_example = frame-parse three_bytes 0 (42 ∷ []) 6 (ground arith) three_bytes-parse

abbrev two_frames : List Frame
two_frames = (0, 42 ∷ []) ∷ (2, 1 ∷ 2 ∷ []) ∷ []

abbrev cut_bytes : List (List ℕ)
cut_bytes = (0 ∷ 0 ∷ 0 ∷ []) ∷ (0 ∷ 1 ∷ 42 ∷ 2 ∷ []) ∷ (0 ∷ 0 ∷ 0 ∷ 2 ∷ 1 ∷ 2 ∷ []) ∷ []

receive_all-concat_example :
    ((receive_all idle cut_bytes).frames ≡ (receive idle (concat cut_bytes)).frames)
    × ((receive_all idle cut_bytes).failure ≡ (receive idle (concat cut_bytes)).failure)
receive_all-concat_example = receive_all-concat cut_bytes

receive_all-wire_example :
    ((receive_all idle cut_bytes).frames ≡ two_frames)
    × ((receive_all idle cut_bytes).failure ≡ none)
    × ((receive_all idle cut_bytes).buffer ≡ [])
unfolding frame_connect_with_flags put_uint32
receive_all-wire_example = receive_all-wire two_frames cut_bytes (ground arith) refl
