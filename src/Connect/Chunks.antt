-- ===== src/Connect/Chunks.antt =====
-- The receive buffer of cursoragentv1/runner.go: the frames that are taken off do not depend on
-- how the transport cuts the bytes into chunks.
use mathlib.Core.List.{append_assoc, append-nil}
use cursor_agent2api.Base.{
  ℕ, zero, suc, ◌+◌, ◌≤◌, ◌<◌, ◌≡◌, refl, sym, ap, ap₂, ◌∙◌, List, [], ◌∷◌, ◌++◌, none, some, arith,
  length, concat, drop, length-append, drop-append, drop-append_le, take-append_le, length-drop,
  All, ◌⊎◌, inl, inr,
}
use cursor_agent2api.Connect.{
  Parsed, uint32, incomplete, invalid, complete, FrameError, parse_connect_frame, parse_body,
  max_connect_payload_size, connect_header_size, Receiver, Frame, drain, receive, receive_all, idle,
  frame_connect_with_flags, put_uint32,
}
use cursor_agent2api.Connect.Frames.{parse-frame}

pub Parsed-cases :
    (p : Parsed)
    → (p ≡ incomplete)
      ⊎ ((e : FrameError) × (p ≡ invalid e))
      ⊎ ((f : ℕ) × (payload : List ℕ) × (n : ℕ) × (p ≡ complete f payload n))
Parsed-cases incomplete = inl refl
Parsed-cases (invalid e) = inr (inl (e, refl))
Parsed-cases (complete f payload n) = inr (inr (f, payload, n, refl))

-- A complete frame is not changed by the bytes that come after it.
parse_body-more :
    (f len : ℕ) (rest c : List ℕ) (flags : ℕ) (payload : List ℕ) (n : ℕ)
    → parse_body f len rest ≡ complete flags payload n
    → (parse_body f len (rest ++ c) ≡ complete flags payload n)
      × (n ≡ connect_header_size + len)
      × (len ≤ length rest)
unfolding parse_body
parse_body-more f len rest c flags payload n h =
    ground (arith, length-append rest c, take-append_le len rest c)

parse_body-invalid :
    (f len : ℕ) (rest c : List ℕ) (e : FrameError)
    → parse_body f len rest ≡ invalid e
    → parse_body f len (rest ++ c) ≡ invalid e
unfolding parse_body
parse_body-invalid f len rest c e h = ground (arith, length-append rest c)

pub parse-more :
    (b c : List ℕ) (flags : ℕ) (payload : List ℕ) (n : ℕ)
    → parse_connect_frame b ≡ complete flags payload n
    → (parse_connect_frame (b ++ c) ≡ complete flags payload n) × (n ≤ length b) × (0 < n)
unfolding parse_connect_frame
parse-more [] c flags payload n h = cc
parse-more (f ∷ []) c flags payload n h = cc
parse-more (f ∷ x ∷ []) c flags payload n h = cc
parse-more (f ∷ x ∷ y ∷ []) c flags payload n h = cc
parse-more (f ∷ x ∷ y ∷ z ∷ []) c flags payload n h = cc
parse-more (f ∷ x ∷ y ∷ z ∷ w ∷ rest) c flags payload n h =
    let facts = parse_body-more f (uint32 x y z w) rest c flags payload n h in
    (facts.0, omega (arith, facts.1, facts.2), omega (arith, facts.1))

parse-invalid :
    (b c : List ℕ) (e : FrameError)
    → parse_connect_frame b ≡ invalid e
    → parse_connect_frame (b ++ c) ≡ invalid e
unfolding parse_connect_frame
parse-invalid [] c e h = cc
parse-invalid (f ∷ []) c e h = cc
parse-invalid (f ∷ x ∷ []) c e h = cc
parse-invalid (f ∷ x ∷ y ∷ []) c e h = cc
parse-invalid (f ∷ x ∷ y ∷ z ∷ []) c e h = cc
parse-invalid (f ∷ x ∷ y ∷ z ∷ w ∷ rest) c e h = parse_body-invalid f (uint32 x y z w) rest c e h

-- Enough fuel: one round for each byte, since a frame has a header.
drain-fuel : (f g : ℕ) (b : List ℕ) → length b < f → length b < g → drain f b ≡ drain g b
unfolding drain
drain-fuel zero g b h k = elim h [ ]
drain-fuel (suc f) zero b h k = elim k [ ]
drain-fuel (suc f) (suc g) b h k = elim (Parsed-cases (parse_connect_frame b)) [
  | inl e ↦ rw (e, drain) refl
  | inr (inl (x, e)) ↦ rw (e, drain) refl
  | inr (inr (flags, payload, n, e)) ↦
      let (_, fits, some_bytes) = parse-more b [] flags payload n e in
      rw (e, drain)
        (rw (
          drain-fuel f g (drop n b) (omega (arith, length-drop n b))
            (omega (arith, length-drop n b))))
]

-- Draining with all the fuel that is needed.
unfoldable pub drain_all : List ℕ → Receiver
drain_all b = drain (suc (length b)) b

abbrev pub prepend : List Frame → Receiver → Receiver
prepend fs r = record r { frames = fs ++ r.frames }

drain_all-complete :
    (b : List ℕ) (flags : ℕ) (payload : List ℕ) (n : ℕ)
    → parse_connect_frame b ≡ complete flags payload n
    → drain_all b ≡ prepend ((flags, payload) ∷ []) (drain_all (drop n b))
unfolding drain_all drain
drain_all-complete b flags payload n e =
    let (_, fits, some_bytes) = parse-more b [] flags payload n e in
    rw (e, drain)
      (rw (
        drain-fuel (length b) (suc (length (drop n b))) (drop n b) (omega (arith, length-drop n b))
          (omega arith)))

drain_all-incomplete :
    (b : List ℕ)
    → parse_connect_frame b ≡ incomplete
    → drain_all b ≡ record { buffer = b; frames = []; failure = none }
unfolding drain_all drain
drain_all-incomplete b e = rw (e, drain) refl

drain_all-invalid :
    (b : List ℕ) (x : FrameError)
    → parse_connect_frame b ≡ invalid x
    → drain_all b ≡ record { buffer = b; frames = []; failure = some x }
unfolding drain_all drain
drain_all-invalid b x e = rw (e, drain) refl

-- What the receiver of the bytes `b ++ c` has read, against that of `b`.
abbrev Continues : Receiver → Receiver → List ℕ → Type 0
Continues whole d c =
    ((d.failure ≡ none) × (whole ≡ prepend d.frames (drain_all (d.buffer ++ c))))
    ⊎ ((e : FrameError) × (d.failure ≡ some e)
        × (whole.failure ≡ some e)
        × (whole.frames ≡ d.frames))

Continues-prepend :
    (fs : List Frame) (whole d : Receiver) (c : List ℕ)
    → Continues whole d c
    → Continues (prepend fs whole) (prepend fs d) c
Continues-prepend fs whole d c (inl (ended, same)) = inl (
  ended,
  ap (prepend fs) same
      ∙ ap (λ (xs : List Frame). record (drain_all (d.buffer ++ c)) { frames = xs })
          (sym (append_assoc fs d.frames (drain_all (d.buffer ++ c)).frames)),
)
Continues-prepend fs whole d c (inr (e, old, new, same)) = inr (e, old, new, ap (◌++◌ fs) same)

drain-append :
    (f : ℕ) (b c : List ℕ) → length b < f → Continues (drain_all (b ++ c)) (drain_all b) c
drain-append zero b c h = elim h [ ]
drain-append (suc f) b c h = elim (Parsed-cases (parse_connect_frame b)) [
  | inl e ↦ rw (drain_all-incomplete b e) (inl (refl, refl))
  | inr (inl (x, e)) ↦
      rw (drain_all-invalid b x e)
        (rw (drain_all-invalid (b ++ c) x (parse-invalid b c x e)) (inr (x, refl, refl, refl)))
  | inr (inr (flags, payload, n, e)) ↦
      let (more, fits, some_bytes) = parse-more b c flags payload n e in
      rw (drain_all-complete b flags payload n e) (
        rw (drain_all-complete (b ++ c) flags payload n more) (
          rw (drop-append_le n b c fits) (
            Continues-prepend ((flags, payload) ∷ []) _ _ c
              (drain-append f (drop n b) c (omega (arith, length-drop n b))))))
]

-- The receiver has read the bytes `w`, in whatever chunks.
record Reads (r : Receiver) (w : List ℕ) : Type 0 where
  frames : r.frames ≡ (drain_all w).frames
  failure : r.failure ≡ (drain_all w).failure
  buffer : r.failure ≡ none → r.buffer ≡ (drain_all w).buffer

receive-failed : (r : Receiver) (c : List ℕ) (e : FrameError) → r.failure ≡ some e → receive r c ≡ r
unfolding receive
receive-failed r c e h = ground arith

receive-running :
    (r : Receiver) (c : List ℕ)
    → r.failure ≡ none
    → receive r c ≡ prepend r.frames (drain_all (r.buffer ++ c))
unfolding receive drain_all
receive-running r c h = rw (h, receive) refl

receive-Reads : (r : Receiver) (w c : List ℕ) → Reads r w → Reads (receive r c) (w ++ c)
receive-Reads r w c v = elim (drain-append (suc (length w)) w c (omega arith)) [
  | inl (ended, same) ↦
      let running : r.failure ≡ none = v.failure ∙ ended in
      let read : receive r c ≡ drain_all (w ++ c) =
        receive-running r c running
        ∙ ap₂ (λ xs ys. prepend xs (drain_all (ys ++ c))) v.frames (v.buffer running)
        ∙ sym same in
      rw read (record { frames = refl; failure = refl; buffer = λ _. refl })
  | inr (e, old, new, same) ↦
      let stopped : r.failure ≡ some e = v.failure ∙ old in
      rw (receive-failed r c e stopped)
        (record { frames = v.frames ∙ sym same; failure = stopped ∙ sym new; buffer = λ h. cc })
]

receive_all-Reads :
    (r : Receiver) (w : List ℕ) (chunks : List (List ℕ))
    → Reads r w
    → Reads (receive_all r chunks) (w ++ concat chunks)
unfolding receive_all
receive_all-Reads r w [] v = rw (append-nil w) v
receive_all-Reads r w (c ∷ cs) v =
    rw (← append_assoc w c (concat cs))
      (receive_all-Reads (receive r c) (w ++ c) cs (receive-Reads r w c v))

idle-Reads : Reads idle []
unfolding drain_all drain parse_connect_frame
idle-Reads = record { frames = refl; failure = refl; buffer = λ _. refl }

-- However the transport cuts the bytes into chunks, the receiver ends with the same frames and the
-- same error, or none, as if all of them had come in one chunk.
pub receive_all-concat :
    (chunks : List (List ℕ))
    → ((receive_all idle chunks).frames ≡ (receive idle (concat chunks)).frames)
      × ((receive_all idle chunks).failure ≡ (receive idle (concat chunks)).failure)
receive_all-concat chunks =
    let many = receive_all-Reads idle [] chunks idle-Reads in
    let one = receive-Reads idle [] (concat chunks) idle-Reads in
    (many.frames ∙ sym one.frames, many.failure ∙ sym one.failure)

-- What the other side writes for a list of frames.
abbrev pub wire : List Frame → List ℕ
wire [] = []
wire ((flags, payload) ∷ fs) = frame_connect_with_flags payload flags ++ wire fs

parse-nil : parse_connect_frame [] ≡ incomplete
unfolding parse_connect_frame
parse-nil = refl

length-frame :
    (payload : List ℕ) (flags : ℕ)
    → length (frame_connect_with_flags payload flags) ≡ connect_header_size + length payload
unfolding frame_connect_with_flags put_uint32
length-frame payload flags = omega arith

drop-frame :
    (payload : List ℕ) (flags : ℕ) (rest : List ℕ)
    → drop (connect_header_size + length payload) (frame_connect_with_flags payload flags ++ rest)
      ≡ rest
drop-frame payload flags rest =
    rw (← length-frame payload flags) (drop-append (frame_connect_with_flags payload flags) rest)

drain_all-wire :
    (fs : List Frame)
    → All (λ f. length f.1 ≤ max_connect_payload_size) fs
    → drain_all (wire fs) ≡ record { buffer = []; frames = fs; failure = none }
drain_all-wire [] h = drain_all-incomplete [] parse-nil
drain_all-wire ((flags, payload) ∷ fs) h =
    drain_all-complete (wire ((flags, payload) ∷ fs)) flags payload _
      (parse-frame flags payload (wire fs) h.0)
    ∙ ap (prepend ((flags, payload) ∷ []))
        (ap drain_all (drop-frame payload flags (wire fs)) ∙ drain_all-wire fs h.1)

-- Frames within the limit arrive as they were sent, in order and with no error, however the
-- transport cuts their bytes into chunks.
pub receive_all-wire :
    (fs : List Frame) (chunks : List (List ℕ))
    → All (λ f. length f.1 ≤ max_connect_payload_size) fs
    → concat chunks ≡ wire fs
    → ((receive_all idle chunks).frames ≡ fs)
      × ((receive_all idle chunks).failure ≡ none)
      × ((receive_all idle chunks).buffer ≡ [])
receive_all-wire fs chunks h e =
    let whole : drain_all (concat chunks) ≡ record { buffer = []; frames = fs; failure = none } =
      ap drain_all e ∙ drain_all-wire fs h in
    let v = receive_all-Reads idle [] chunks idle-Reads in
    let running = v.failure ∙ ap (λ (r : Receiver). r.failure) whole in
    (
      v.frames ∙ ap (λ (r : Receiver). r.frames) whole,
      running,
      v.buffer running ∙ ap (λ (r : Receiver). r.buffer) whole,
    )
