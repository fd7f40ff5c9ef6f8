-- ===== src/Receiver/Total.antt =====
-- session.go: how many rounds `frameLoop` takes.
use plampshade.Base.{
  ℕ, zero, suc, ◌+◌, ◌≤◌, ◌<◌, ◌≡◌, refl, Bool, true, List, ◌++◌, ltb, ◌==◌, length, length-drop,
  arith, Bool-cases, Option-cases, inl, inr, ◌≢◌, some,
}
use plampshade.Wire.{from_big_endian, frame_type_and_id}
use plampshade.Session.{Session, get_or_create_stream, has}
use plampshade.Receiver.{
  read_full, no_fuel, Round, next, stop, on_header, on_ack, on_rst, on_ping, on_echo, on_data,
  on_frame, frame_round, frame_loop, receive_frames,
}

-- A round that goes on leaves at most `n` bytes, and one that stops has not run out of fuel.
abbrev Leaves : ℕ → Round → Type 0
Leaves n (next first rest s) = length rest ≤ n
Leaves n (stop r) = r ≢ no_fuel

read_full_rest :
    (n : ℕ) (bs b rest : List ℕ) → read_full n bs ≡ some (b, rest) → length rest + n ≡ length bs
unfolding read_full
read_full_rest n bs b rest e = ground (arith, length-drop n bs)

on_ack-Leaves :
    (first : Bool) (id : ℕ) (bs : List ℕ) (s : Session) → Leaves (length bs) (on_ack first id bs s)
unfolding on_ack
on_ack-Leaves first id bs s = elim (Bool-cases (get_or_create_stream id s).1) [
  | inl e ↦ rw e (elim (Option-cases (read_full 4 bs)) [
    | inl r ↦ rw (r, on_ack) (λ p. cc)
    | inr ((b, rest), r) ↦ rw (r, on_ack) (omega (arith, read_full_rest 4 bs b rest r))
  ])
  | inr e ↦ rw e (omega arith)
]

on_rst-Leaves :
    (first : Bool) (id : ℕ) (bs : List ℕ) (s : Session) → Leaves (length bs) (on_rst first id bs s)
unfolding on_rst
on_rst-Leaves first id bs s = elim (Bool-cases (has id s.streams)) [
  | inl e ↦ rw e (omega arith)
  | inr e ↦ rw e (omega arith)
]

on_ping-Leaves :
    (first : Bool) (bs : List ℕ) (s : Session) → Leaves (length bs) (on_ping first bs s)
unfolding on_ping
on_ping-Leaves first bs s = elim (Option-cases (read_full 8 bs)) [
  | inl r ↦ rw (r, on_ping) (λ p. cc)
  | inr ((b, rest), r) ↦ rw (r, on_ping) (omega (arith, read_full_rest 8 bs b rest r))
]

on_echo-Leaves :
    (first : Bool) (bs : List ℕ) (s : Session) → Leaves (length bs) (on_echo first bs s)
unfolding on_echo
on_echo-Leaves first bs s = elim (Option-cases (read_full 8 bs)) [
  | inl r ↦ rw (r, on_echo) (λ p. cc)
  | inr ((b, rest), r) ↦ elim (Bool-cases s.tracks_rtt) [
    | inl e ↦ rw (r, on_echo, e) (omega (arith, read_full_rest 8 bs b rest r))
    | inr e ↦ rw (r, on_echo, e) (λ p. cc)
  ]
]

on_frame-Leaves :
    (first : Bool) (id : ℕ) (frame rest : List ℕ) (s : Session)
    → Leaves (length rest) (on_frame first id frame rest s)
unfolding on_frame
on_frame-Leaves first id frame rest s = elim (Bool-cases (get_or_create_stream id s).1) [
  | inl e ↦ rw e (elim (Bool-cases first) [
    | inl f ↦ rw f (elim (Bool-cases s.ack_on_first) [
      | inl g ↦ rw g (omega arith)
      | inr g ↦ rw g (omega arith)
    ])
    | inr f ↦ rw f (omega arith)
  ])
  | inr e ↦ rw e (omega arith)
]

Leaves-mono : (m n : ℕ) (r : Round) → m ≤ n → Leaves m r → Leaves n r
Leaves-mono m n (next first rest s) h l = omega arith
Leaves-mono m n (stop r) h l = l

-- The part of `on_data` behind the length.
data_body-Leaves :
    (first : Bool) (header len_bytes rest bs : List ℕ) (id : ℕ) (s : Session)
    → read_full 2 bs ≡ some (len_bytes, rest)
    → Leaves (length bs) (on_data first header id bs s)
unfolding on_data
data_body-Leaves first header len_bytes rest bs id s r =
    let n = from_big_endian len_bytes in
    elim (Bool-cases (ltb 1448 (5 + n))) [
      | inl long ↦ rw (r, on_data, long) (λ p. cc)
      | inr short ↦
          rw (r, on_data, short)
            (elim (Option-cases (read_full n rest)) [
              | inl q ↦ rw (q, on_data) (λ p. cc)
              | inr ((b, rest'), q) ↦
                  rw (q, on_data)
                    (Leaves-mono (length rest') (length bs) _
                      (omega (
                        arith,
                        read_full_rest n rest b rest' q,
                        read_full_rest 2 bs len_bytes rest r,
                      ))
                      (on_frame-Leaves first id (header ++ (len_bytes ++ b)) rest' s))
            ])
    ]

on_data-Leaves :
    (first : Bool) (header : List ℕ) (id : ℕ) (bs : List ℕ) (s : Session)
    → Leaves (length bs) (on_data first header id bs s)
on_data-Leaves first header id bs s = elim (Option-cases (read_full 2 bs)) [
  | inl r ↦ unfold on_data in rw (r, on_data) (λ p. cc)
  | inr ((b, rest), r) ↦ data_body-Leaves first header b rest bs id s r
]

on_header-Leaves :
    (first : Bool) (header : List ℕ) (t id : ℕ) (bs : List ℕ) (s : Session)
    → Leaves (length bs) (on_header first header t id bs s)
unfolding on_header
on_header-Leaves first header t id bs s = elim (Bool-cases (t == 0)) [
  | inl e ↦ rw e (λ p. cc)
  | inr e ↦ rw e (elim (Bool-cases (t == 254)) [
    | inl e ↦ rw e (on_ack-Leaves first id bs s)
    | inr e ↦ rw e (elim (Bool-cases (t == 255)) [
      | inl e ↦ rw e (on_rst-Leaves first id bs s)
      | inr e ↦ rw e (elim (Bool-cases (t == 252)) [
        | inl e ↦ rw e (on_ping-Leaves first bs s)
        | inr e ↦ rw e (elim (Bool-cases (t == 253)) [
          | inl e ↦ rw e (on_echo-Leaves first bs s)
          | inr e ↦ rw e (on_data-Leaves first header id bs s)
        ])
      ])
    ])
  ])
]

abbrev Shrinks : ℕ → Round → Type 0
Shrinks n (next first rest s) = length rest < n
Shrinks n (stop r) = r ≢ no_fuel

Leaves-Shrinks : (m n : ℕ) (r : Round) → m < n → Leaves m r → Shrinks n r
Leaves-Shrinks m n (next first rest s) h l = omega arith
Leaves-Shrinks m n (stop r) h l = l

-- The header takes three bytes.
frame_round-Shrinks :
    (first : Bool) (bs : List ℕ) (s : Session) → Shrinks (length bs) (frame_round first bs s)
unfolding frame_round
frame_round-Shrinks first bs s = elim (Option-cases (read_full 3 bs)) [
  | inl r ↦ rw (r, frame_round) (λ p. cc)
  | inr ((header, rest), r) ↦
      let h = frame_type_and_id header in
      rw (r, frame_round)
        (Leaves-Shrinks (length rest) (length bs) _
          (omega (arith, read_full_rest 3 bs header rest r))
          (on_header-Leaves first header h.0 h.1 rest s))
]

after_round :
    (fuel : ℕ) (first : Bool) (bs : List ℕ) (s : Session) (r : Round)
    → frame_round first bs s ≡ r
    → Shrinks (length bs) r
    → ((first' : Bool) (rest : List ℕ) (s' : Session)
        → length rest < length bs
        → frame_loop fuel first' rest s' ≢ no_fuel)
    → frame_loop (suc fuel) first bs s ≢ no_fuel
unfolding frame_loop
after_round fuel first bs s (next first' rest s') e l go = rw (e, frame_loop) (go first' rest s' l)
after_round fuel first bs s (stop r) e l go = rw (e, frame_loop) l

frame_loop-ne-no_fuel :
    (fuel : ℕ) (first : Bool) (bs : List ℕ) (s : Session)
    → length bs < fuel
    → frame_loop fuel first bs s ≢ no_fuel
frame_loop-ne-no_fuel zero first bs s h = absurd (omega arith)
frame_loop-ne-no_fuel (suc fuel) first bs s h =
    after_round fuel first bs s (frame_round first bs s) refl (frame_round-Shrinks first bs s)
      λ first' rest s' l. frame_loop-ne-no_fuel fuel first' rest s' (omega arith)

-- On every input the work on a session frame comes to an end: all bytes are read, a read fails, or
-- the code panics.
pub receive_frames-ne-no_fuel : (bs : List ℕ) (s : Session) → receive_frames bs s ≢ no_fuel
unfolding receive_frames
receive_frames-ne-no_fuel bs s = frame_loop-ne-no_fuel (suc (length bs)) true bs s (omega arith)
