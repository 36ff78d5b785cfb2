-- ===== src/Connect/Frames.antt =====
-- One frame: writing and parsing it (`frameConnectWithFlags`, `parseConnectFrame`).
use cursor_agent2api.Base.{
  ℕ, suc, ◌+◌, ◌/◌, ◌%◌, ◌^◌, ◌≤◌, ◌<◌, ◌≡◌, refl, ap, ◌∙◌, List, [], ◌∷◌, ◌++◌, arith, length,
  take, drop, length-append, take-append, length-take_le, take-append-drop, append-ne, ◌≢◌, All,
}
use cursor_agent2api.Connect.{
  incomplete, complete, put_uint32, uint32, frame_connect_with_flags, parse_connect_frame,
  parse_body, max_connect_payload_size, connect_header_size,
}

-- The length field is read back.
uint32-put_uint32 :
    (n : ℕ)
    → n < 2 ^ 32
    → uint32 (n / 2 ^ 24 % 256) (n / 2 ^ 16 % 256) (n / 2 ^ 8 % 256) (n % 256) ≡ n
unfolding uint32
uint32-put_uint32 n h = omega arith

parse_body-append :
    (flags : ℕ) (payload rest : List ℕ)
    → length payload ≤ max_connect_payload_size
    → parse_body flags (length payload) (payload ++ rest)
      ≡ complete flags payload (connect_header_size + length payload)
unfolding parse_body
parse_body-append flags payload rest h =
    ground (arith, length-append payload rest, take-append payload rest)

-- A frame whose payload is within the limit is read back from the front of any buffer: with its
-- flags, its payload and its whole size as the number of consumed bytes.
pub parse-frame :
    (flags : ℕ) (payload rest : List ℕ)
    → length payload ≤ max_connect_payload_size
    → parse_connect_frame (frame_connect_with_flags payload flags ++ rest)
      ≡ complete flags payload (connect_header_size + length payload)
unfolding frame_connect_with_flags parse_connect_frame put_uint32
parse-frame flags payload rest h =
    let small : length payload % 2 ^ 32 ≡ length payload = omega arith in
    rw small (
      rw (uint32-put_uint32 (length payload) (omega arith))
        (parse_body-append flags payload rest h))

-- The bytes of a length that was read are written again.
put_uint32-uint32 :
    (a b c d n : ℕ)
    → a < 256
    → b < 256
    → c < 256
    → d < 256
    → n ≡ uint32 a b c d
    → put_uint32 (n % 2 ^ 32) ≡ a ∷ b ∷ c ∷ d ∷ []
unfolding put_uint32 uint32
put_uint32-uint32 a b c d n ha hb hc hd e = ground arith

parse_body-complete :
    (flags len : ℕ) (rest : List ℕ) (f : ℕ) (payload : List ℕ) (n : ℕ)
    → parse_body flags len rest ≡ complete f payload n
    → (f ≡ flags)
      × (payload ≡ take len rest)
      × (n ≡ connect_header_size + len)
      × (len ≤ length rest)
      × (len ≤ max_connect_payload_size)
unfolding parse_body
parse_body-complete flags len rest f payload n h = ground arith

drop-header :
    (f a b c d : ℕ) (u : ℕ) (rest : List ℕ)
    → drop (connect_header_size + u) (f ∷ a ∷ b ∷ c ∷ d ∷ rest) ≡ drop u rest
drop-header f a b c d u rest =
    let size : connect_header_size + u ≡ suc (suc (suc (suc (suc u)))) = omega arith in rw size

frame-header :
    (f a b c d n u : ℕ) (rest payload : List ℕ)
    → put_uint32 (length payload % 2 ^ 32) ≡ a ∷ b ∷ c ∷ d ∷ []
    → n ≡ connect_header_size + u
    → payload ≡ take u rest
    → f ∷ a ∷ b ∷ c ∷ d ∷ rest
      ≡ frame_connect_with_flags payload f ++ drop n (f ∷ a ∷ b ∷ c ∷ d ∷ rest)
unfolding frame_connect_with_flags
frame-header f a b c d n u rest payload bytes size taken =
    rw size (rw (drop-header f a b c d u rest) (rw bytes (rw taken (rw (take-append-drop u rest)))))

-- What was parsed was framed: the buffer starts with the frame of that payload and those flags,
-- and the payload is within the limit.
pub frame-parse :
    (buffer : List ℕ) (flags : ℕ) (payload : List ℕ) (n : ℕ)
    → All (λ b. b < 256) buffer
    → parse_connect_frame buffer ≡ complete flags payload n
    → (buffer ≡ frame_connect_with_flags payload flags ++ drop n buffer)
      × (n ≡ connect_header_size + length payload)
      × (length payload ≤ max_connect_payload_size)
unfolding parse_connect_frame frame_connect_with_flags
frame-parse [] flags payload n bytes h = cc
frame-parse (f ∷ []) flags payload n bytes h = cc
frame-parse (f ∷ a ∷ []) flags payload n bytes h = cc
frame-parse (f ∷ a ∷ b ∷ []) flags payload n bytes h = cc
frame-parse (f ∷ a ∷ b ∷ c ∷ []) flags payload n bytes h = cc
frame-parse (f ∷ a ∷ b ∷ c ∷ d ∷ rest) flags payload n (_, (ha, (hb, (hc, (hd, _))))) h =
    let (same, taken, size, fits, limit) =
      parse_body-complete f (uint32 a b c d) rest flags payload n h in
    let len : length payload ≡ uint32 a b c d =
      ap length taken ∙ length-take_le (uint32 a b c d) rest fits in
    (
      rw same (
          frame-header f a b c d n (uint32 a b c d) rest payload
            (put_uint32-uint32 a b c d (length payload) ha hb hc hd len) size taken),
      omega arith,
      omega arith,
    )

parse_body-short :
    (flags len : ℕ) (rest : List ℕ)
    → len ≤ max_connect_payload_size
    → length rest < len
    → parse_body flags len rest ≡ incomplete
unfolding parse_body
parse_body-short flags len rest h short = ground arith

-- A part of a frame is not complete, wherever it ends.
pub parse-prefix :
    (flags : ℕ) (payload p q : List ℕ)
    → length payload ≤ max_connect_payload_size
    → frame_connect_with_flags payload flags ≡ p ++ q
    → q ≢ []
    → parse_connect_frame p ≡ incomplete
unfolding parse_connect_frame frame_connect_with_flags put_uint32
parse-prefix flags payload [] q h e n = refl
parse-prefix flags payload (f ∷ []) q h e n = refl
parse-prefix flags payload (f ∷ a ∷ []) q h e n = refl
parse-prefix flags payload (f ∷ a ∷ b ∷ []) q h e n = refl
parse-prefix flags payload (f ∷ a ∷ b ∷ c ∷ []) q h e n = refl
parse-prefix flags payload (f ∷ a ∷ b ∷ c ∷ d ∷ rest) q h e n =
    let tail : payload ≡ rest ++ q = cc in
    let len : uint32 a b c d ≡ length payload =
      ground (arith, uint32-put_uint32 (length payload)) in
    parse_body-short f (uint32 a b c d) rest (omega arith)
      (omega (arith, ap length tail, append-ne rest q n))
