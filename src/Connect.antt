-- ===== src/Connect.antt =====
-- cursoragentv1/connect.go, and the loop of cursoragentv1/runner.go that takes frames off the
-- receive buffer.
pub mod Frames
pub mod Chunks
pub mod Tests
use cursor_agent2api.Base.{
  ℕ, zero, suc, ◌+◌, ◌-◌, ◌*◌, ◌/◌, ◌%◌, ◌^◌, List, [], ◌∷◌, ◌++◌, Option, none, some, length, take,
  drop, ltb, if◌then◌else◌, Text, text,
}

abbrev pub connect_header_size : ℕ
connect_header_size = 5

-- 16 << 20
abbrev pub max_connect_payload_size : ℕ
max_connect_payload_size = 16 * 2 ^ 20

-- `^uint(0) >> 1` of a 64-bit platform.
abbrev pub max_int : ℕ
max_int = 2 ^ 63 - 1

-- The errors of framing, with the numbers that their texts carry.
pub data FrameError : Type 0 where
  exceeds_limit : Text → FrameError
  exceeds_limit_size : Text → ℕ → FrameError
  overflows_int : ℕ → FrameError

-- What `parseConnectFrame` returns: `ok` is false, an error, or flags, payload and the size consumed.
pub data Parsed : Type 0 where
  incomplete : Parsed
  invalid : FrameError → Parsed
  complete : ℕ → List ℕ → ℕ → Parsed

-- `binary.BigEndian.PutUint32` of a length that was converted to `uint32`.
unfoldable pub put_uint32 : ℕ → List ℕ
put_uint32 n = (n / 2 ^ 24 % 256) ∷ (n / 2 ^ 16 % 256) ∷ (n / 2 ^ 8 % 256) ∷ (n % 256) ∷ []

-- `binary.BigEndian.Uint32`
unfoldable pub uint32 : ℕ → ℕ → ℕ → ℕ → ℕ
uint32 a b c d = a * 2 ^ 24 + b * 2 ^ 16 + c * 2 ^ 8 + d

unfoldable pub frame_connect_with_flags : List ℕ → ℕ → List ℕ
frame_connect_with_flags payload flags = flags ∷ (put_uint32 (length payload % 2 ^ 32) ++ payload)

unfoldable pub frame_connect : List ℕ → List ℕ
unfolding frame_connect_with_flags
frame_connect payload = frame_connect_with_flags payload 0

-- The bytes that are handed to the stream, or the refusal.
pub data Written : Type 0 where
  wrote : List ℕ → Written
  refused : FrameError → Written

unfoldable pub write_connect_payload : List ℕ → Written
unfolding frame_connect
write_connect_payload payload =
    if ltb max_connect_payload_size (length payload)
    then refused (exceeds_limit (text "Cursor Agent v1 outbound Connect payload"))
    else wrote (frame_connect payload)

-- The checks behind the header, with its length field and the bytes that follow.
unfoldable pub parse_body : ℕ → ℕ → List ℕ → Parsed
parse_body flags len rest =
    if ltb max_connect_payload_size len
    then invalid (exceeds_limit_size (text "cursor Agent v1 Connect frame") len)
    else if ltb (max_int - connect_header_size) len
    then invalid (overflows_int len)
    else if ltb (length rest) len
    then incomplete
    else complete flags (take len rest) (connect_header_size + len)

-- A buffer that is shorter than a header is not complete.
unfoldable pub parse_connect_frame : List ℕ → Parsed
unfolding uint32 parse_body
parse_connect_frame [] = incomplete
parse_connect_frame (f ∷ []) = incomplete
parse_connect_frame (f ∷ a ∷ []) = incomplete
parse_connect_frame (f ∷ a ∷ b ∷ []) = incomplete
parse_connect_frame (f ∷ a ∷ b ∷ c ∷ []) = incomplete
parse_connect_frame (f ∷ a ∷ b ∷ c ∷ d ∷ rest) = parse_body f (uint32 a b c d) rest

-- A frame: its flags and its payload.
abbrev pub Frame : Type 0
Frame = ℕ × List ℕ

-- The receive buffer, the frames taken off it so far, and the error that ended the run.
pub record Receiver : Type 0 where
  pub buffer : List ℕ
  pub frames : List Frame
  pub failure : Option FrameError

-- The head of the inner loop: takes complete frames off the buffer until none is left. What the
-- body does with a frame, and the returns by which it ends the run early, are left out.
unfoldable pub drain : ℕ → List ℕ → Receiver
unfolding parse_connect_frame
drain zero buffer = record { buffer = buffer; frames = []; failure = none }
drain (suc fuel) buffer = elim (parse_connect_frame buffer) [
  | incomplete ↦ record { buffer = buffer; frames = []; failure = none }
  | invalid e ↦ record { buffer = buffer; frames = []; failure = some e }
  | complete flags payload consumed ↦
      let rest = drain fuel (drop consumed buffer) in
      record rest { frames = (flags, payload) ∷ rest.frames }
]

-- One chunk of the HTTP/2 body. After an error the run has returned and reads nothing more.
unfoldable pub receive : Receiver → List ℕ → Receiver
unfolding drain
receive r chunk = elim r.failure [
  | some e ↦ r
  | none ↦
      let buffer = r.buffer ++ chunk in
      let d = drain (suc (length buffer)) buffer in record d { frames = r.frames ++ d.frames }
]

unfoldable pub receive_all : Receiver → List (List ℕ) → Receiver
unfolding receive
receive_all r [] = r
receive_all r (chunk ∷ chunks) = receive_all (receive r chunk) chunks

abbrev pub idle : Receiver
idle = record { buffer = []; frames = []; failure = none }
