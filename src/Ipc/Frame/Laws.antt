-- ===== src/Ipc/Frame/Laws.antt =====
-- Frames written and read.
use sc_helper.Prelude.{
  ℕ, zero, suc, ◌+◌, ◌-◌, ◌%◌, ◌^◌, ◌≤◌, ◌<◌, ◌≡◌, refl, ap, ◌∙◌, [], ◌∷◌, ◌++◌, length,
  length-append, take, drop, take-length-append, drop-length-append, ltb, leb, if◌then◌else◌, Bytes,
  append_assoc, length-take_of_le, take-append-drop, ◌≢◌, true, All, Bool-cases, inl, inr, arith,
}
use sc_helper.Prelude.Program.{done, failed}
use sc_helper.Std.Word.{
  IsByte, to_be_bytes, from_be_bytes, length-to_be_bytes, from_be_bytes-to_be_bytes_four,
  to_be_bytes-from_be_bytes_four,
}
use sc_helper.Ipc.{max_frame_bytes}
use sc_helper.Ipc.Frame.{Stream, too_large, read_frame, write_frame}

-- A frame: the length in four big-endian bytes, then the body.
unfoldable pub frame : Bytes → Bytes
frame body = to_be_bytes 4 (length body) ++ body

take-append_past :
    (n : ℕ) (xs ys : Bytes) → length xs ≤ n → take n (xs ++ ys) ≡ xs ++ take (n - length xs) ys
take-append_past n [] ys h = ap (λ k. take k ys) (omega arith)
take-append_past zero (x ∷ xs) ys h = absurd (omega arith)
take-append_past (suc n) (x ∷ xs) ys h =
    let less : suc n - suc (length xs) ≡ n - length xs = omega arith in
    rw less (ap (λ l. x ∷ l) (take-append_past n xs ys (omega arith)))

take-append_within : (n : ℕ) (xs ys : Bytes) → n ≤ length xs → take n (xs ++ ys) ≡ take n xs
take-append_within zero xs ys h = refl
take-append_within (suc n) [] ys h = absurd (omega arith)
take-append_within (suc n) (x ∷ xs) ys h =
    ap (λ l. x ∷ l) (take-append_within n xs ys (omega arith))

-- `write_frame` refuses a body over the cap and writes nothing of it. A body within the cap goes
-- out as its frame, or as much of that as the peer takes before it is gone, and then the call
-- fails.
pub write_frame_lem :
    (body : Bytes) (s : Stream)
    → write_frame body s ≡ (
        if ltb max_frame_bytes (length body)
        then (failed (too_large (length body)), s)
        else if leb (4 + length body) s.room
        then (
          done tt,
          record s { output = s.output ++ frame body; room = s.room - (4 + length body) },
        )
        else (failed s.fault, record s { output = s.output ++ take s.room (frame body); room = 0 }))
unfolding write_frame frame
write_frame_lem body s = elim (Bool-cases (ltb max_frame_bytes (length body))) [
  | inl over ↦ rw over
  | inr within ↦
      let head = to_be_bytes 4 (length body) in
      let small : length body % 2 ^ 32 ≡ length body = ground arith in
      rw (within, small)
        (ground (
          arith,
          length-to_be_bytes 4 (length body),
          append_assoc s.output head body,
          append_assoc s.output head (take (s.room - 4) body),
          take-append_past s.room head body,
          take-append_within s.room head body,
        ))
]

take_four-to_be_bytes :
    (n : ℕ) (rest : Bytes)
    → (take 4 (to_be_bytes 4 n ++ rest) ≡ to_be_bytes 4 n)
      × (drop 4 (to_be_bytes 4 n ++ rest) ≡ rest)
unfolding to_be_bytes
take_four-to_be_bytes n rest = (refl, refl)

-- `read_frame` on a connection whose next four bytes say `n`: over the cap it fails and reads no
-- further; else it returns the next `n` bytes, and fails if the peer closes before them.
pub read_frame_lem :
    (n : ℕ) (rest : Bytes) (s : Stream)
    → n < 2 ^ 32
    → s.input ≡ to_be_bytes 4 n ++ rest
    → read_frame s ≡ (
        if ltb max_frame_bytes n
        then (failed (too_large n), record s { input = rest })
        else if leb n (length rest)
        then (done (take n rest), record s { input = drop n rest })
        else (failed s.fault, record s { input = drop (length rest) rest }))
unfolding read_frame
read_frame_lem n rest s h e =
    let (front, back) = take_four-to_be_bytes n rest in
    let long : leb 4 (length (to_be_bytes 4 n ++ rest)) ≡ true = at_least_four in
    rw e (rw (front, back) (rw long (rw (from_be_bytes-to_be_bytes_four n h) (ground (arith, e)))))
  where
    at_least_four : leb 4 (length (to_be_bytes 4 n ++ rest)) ≡ true
    at_least_four = ground (arith, length-append (to_be_bytes 4 n) rest, length-to_be_bytes 4 n)

-- `read_frame` takes a frame from the front of the input.
pub read_frame_ok :
    (body rest : Bytes) (s : Stream)
    → length body ≤ max_frame_bytes
    → s.input ≡ frame body ++ rest
    → read_frame s ≡ (done body, record s { input = rest })
unfolding frame
read_frame_ok body rest s h i =
    rw
      (read_frame_lem (length body) (body ++ rest) s (omega arith)
        (i ∙ append_assoc (to_be_bytes 4 (length body)) body rest))
      (ground (
        arith,
        length-append body rest,
        take-length-append body rest,
        drop-length-append body rest,
      ))

-- What `write_frame` sends of a body within the cap, to a peer with room for it, `read_frame` at
-- the other end returns, and it leaves whatever follows.
pub read_frame-write_frame :
    (body rest : Bytes) (w r : Stream)
    → length body ≤ max_frame_bytes
    → 4 + length body ≤ w.room
    → w.output ≡ []
    → r.input ≡ (write_frame body w).1.output ++ rest
    → read_frame r ≡ (done body, record r { input = rest })
read_frame-write_frame body rest w r h room empty sent =
    read_frame_ok body rest r h (sent ∙ ap (λ l. l ++ rest) written)
  where
    written : (write_frame body w).1.output ≡ frame body
    written = ground (arith, write_frame_lem body w)

read_frame_short :
    (s t : Stream) (body : Bytes) → length s.input < 4 → read_frame s ≢ (done body, t)
unfolding read_frame
read_frame_short s t body h e = ground arith

read_frame_parts :
    (input : Bytes) (s t : Stream) (body : Bytes)
    → s.input ≡ input
    → All IsByte input
    → read_frame s ≡ (done body, t)
    → (n : ℕ) × (rest : Bytes) × (n < 2 ^ 32) × (s.input ≡ to_be_bytes 4 n ++ rest)
read_frame_parts (a ∷ b ∷ c ∷ d ∷ rest) s t body i (ha, (hb, (hc, (hd, _)))) e =
    let (small, same) = to_be_bytes-from_be_bytes_four a b c d (ha, (hb, (hc, (hd, tt)))) in
    (from_be_bytes (a ∷ b ∷ c ∷ d ∷ []), rest, small, rw same i)
read_frame_parts [] s t body i h e =
    absurd (read_frame_short s t body (omega (arith, ap length i)) e)
read_frame_parts (a ∷ []) s t body i h e =
    absurd (read_frame_short s t body (omega (arith, ap length i)) e)
read_frame_parts (a ∷ b ∷ []) s t body i h e =
    absurd (read_frame_short s t body (omega (arith, ap length i)) e)
read_frame_parts (a ∷ b ∷ c ∷ []) s t body i h e =
    absurd (read_frame_short s t body (omega (arith, ap length i)) e)

-- On an input of bytes, what `read_frame` returns is within the cap, and it was in the input as one
-- frame, behind which the input is left. Nothing is written.
pub read_frame_sound :
    (s t : Stream) (body : Bytes)
    → All IsByte s.input
    → read_frame s ≡ (done body, t)
    → (length body ≤ max_frame_bytes) × (s.input ≡ frame body ++ t.input) × (t.output ≡ s.output)
unfolding frame
read_frame_sound s t body bytes e =
    let (n, rest, small, front) = read_frame_parts s.input s t body refl bytes e in
    ground (
      arith,
      read_frame_lem n rest s small front,
      length-take_of_le n rest,
      take-append-drop n rest,
      append_assoc (to_be_bytes 4 n) (take n rest) (drop n rest),
    )
