-- ===== src/Receiver/Moves.antt =====
-- session.go: what one round of `frameLoop` does to the bytes, and where it panics.
use plampshade.Base.{
  ℕ, ◌+◌, ◌≡◌, refl, sym, ap, ◌∙◌, Bool, true, not, ◌&&◌, List, [], ◌++◌, append_assoc, ltb, leb,
  ◌==◌, if◌then◌else◌, length, take, take-append-drop, drop, arith, some, if_rule, Bool-cases,
  Option-cases, inl, inr,
}
use plampshade.Wire.{
  header_size, len_size, ts_size, max_data_len, type_padding, type_ping, type_echo, type_ack,
  type_rst, from_big_endian, frame_type_and_id,
}
use plampshade.Session.{Session, get_or_create_stream, has}
use plampshade.Receiver.{
  read_full, crashed, Round, next, stop, on_header, on_ack, on_rst, on_ping, on_echo, on_data,
  on_frame, frame_round,
}
use plampshade.Receiver.Crashes.{created-tracks_rtt, closed-tracks_rtt}

-- Whether a frame type is one that is read as data.
abbrev pub is_data : ℕ → Bool
is_data t =
    not (t == type_padding)
    && (not (t == type_ack)
        && (not (t == type_rst) && (not (t == type_ping) && not (t == type_echo))))

-- Whether the bytes behind a header of type `t` are those of an echo frame, in a session without an
-- `emaRTT`, or start with the length of a data frame, and that is above `MaxDataLen`.
abbrev pub panics_behind : ℕ → Session → List ℕ → Bool
panics_behind t s bs =
    if t == type_echo
    then not s.tracks_rtt && leb ts_size (length bs)
    else is_data t
      && (leb len_size (length bs) && ltb max_data_len (from_big_endian (take len_size bs)))

-- Whether the bytes start with such a frame, header included.
abbrev pub panics : Session → List ℕ → Bool
panics s bs =
    leb header_size (length bs)
    && panics_behind (frame_type_and_id (take header_size bs)).0 s (drop header_size bs)

-- A round goes on behind some of the bytes, with the same `emaRTT`, or it panics only if `B`.
abbrev pub Moves : Type 0 → List ℕ → Session → Round → Type 0
Moves B bs s (next first rest t) =
    ((before : List ℕ) × (bs ≡ before ++ rest)) × (t.tracks_rtt ≡ s.tracks_rtt)
Moves B bs s (stop r) = r ≡ crashed → B

read_full-append-eq :
    (n : ℕ) (bs b rest : List ℕ) → read_full n bs ≡ some (b, rest) → bs ≡ b ++ rest
unfolding read_full
read_full-append-eq n bs b rest e = ground (arith, take-append-drop n bs)

read_full-take :
    (n : ℕ) (bs b rest : List ℕ)
    → read_full n bs ≡ some (b, rest)
    → (leb n (length bs) ≡ true) × (take n bs ≡ b) × (drop n bs ≡ rest)
unfolding read_full
read_full-take n bs b rest e = ground arith

on_ack-Moves :
    (B : Type 0) (first : Bool) (id : ℕ) (bs : List ℕ) (s : Session)
    → Moves B bs s (on_ack first id bs s)
unfolding on_ack
on_ack-Moves B first id bs s =
    if_rule (Moves B bs s) (get_or_create_stream id s).1
      (λ e. elim (Option-cases (read_full 4 bs)) [
        | inl r ↦ rw (r, on_ack) (λ p. cc)
        | inr ((b, rest), r) ↦
            rw (r, on_ack) ((b, read_full-append-eq 4 bs b rest r), created-tracks_rtt id s)
      ])
      (λ e. (([], refl), created-tracks_rtt id s))

on_rst-Moves :
    (B : Type 0) (first : Bool) (id : ℕ) (bs : List ℕ) (s : Session)
    → Moves B bs s (on_rst first id bs s)
unfolding on_rst
on_rst-Moves B first id bs s =
    if_rule (Moves B bs s) (has id s.streams) (λ e. (([], refl), closed-tracks_rtt id s))
      (λ e. (([], refl), closed-tracks_rtt id s))

on_ping-Moves :
    (B : Type 0) (first : Bool) (bs : List ℕ) (s : Session) → Moves B bs s (on_ping first bs s)
unfolding on_ping
on_ping-Moves B first bs s = elim (Option-cases (read_full 8 bs)) [
  | inl r ↦ rw (r, on_ping) (λ p. cc)
  | inr ((b, rest), r) ↦ rw (r, on_ping) ((b, read_full-append-eq 8 bs b rest r), refl)
]

on_echo-Moves :
    (first : Bool) (bs : List ℕ) (s : Session)
    → Moves ((not s.tracks_rtt && leb ts_size (length bs)) ≡ true) bs s (on_echo first bs s)
unfolding on_echo
on_echo-Moves first bs s = elim (Option-cases (read_full 8 bs)) [
  | inl r ↦ rw (r, on_echo) (λ p. cc)
  | inr ((b, rest), r) ↦
      rw (r, on_echo)
        (elim (Bool-cases s.tracks_rtt) [
          | inl e ↦ rw e ((b, read_full-append-eq 8 bs b rest r), refl)
          | inr e ↦ rw e (λ p. (read_full-take 8 bs b rest r).0)
        ])
]

on_frame-Moves :
    (B : Type 0) (first : Bool) (id : ℕ) (frame rest : List ℕ) (s : Session)
    → Moves B rest s (on_frame first id frame rest s)
unfolding on_frame
on_frame-Moves B first id frame rest s =
    let kept = created-tracks_rtt id s in
    if_rule (Moves B rest s) (get_or_create_stream id s).1
      (λ e.
        if_rule (Moves B rest s) first
          (λ f.
            if_rule (Moves B rest s) s.ack_on_first (λ g. (([], refl), kept))
              (λ g. (([], refl), kept)))
          (λ f. (([], refl), kept)))
      (λ e. (([], refl), kept))

-- What goes on behind some of the bytes goes on behind more of them.
Moves-append :
    (B : Type 0) (bs before rest : List ℕ) (s : Session) (r : Round)
    → bs ≡ before ++ rest
    → Moves B rest s r
    → Moves B bs s r
Moves-append B bs before rest s (next first rest' t) e ((more, e'), kept) =
    ((before ++ more, e ∙ ap (λ xs. before ++ xs) e' ∙ sym (append_assoc before more rest')), kept)
Moves-append B bs before rest s (stop r) e m = m

on_data-Moves :
    (first : Bool) (header : List ℕ) (id : ℕ) (bs : List ℕ) (s : Session)
    → Moves
        ((leb len_size (length bs) && ltb max_data_len (from_big_endian (take len_size bs))) ≡ true)
        bs
        s
        (on_data first header id bs s)
unfolding on_data
on_data-Moves first header id bs s = elim (Option-cases (read_full 2 bs)) [
  | inl r ↦ rw (r, on_data) (λ p. cc)
  | inr ((b, rest), r) ↦
      let (enough, taken, left) = read_full-take 2 bs b rest r in
      let n = from_big_endian b in
      rw (r, on_data, enough, taken)
        (if_rule (Moves (ltb 1443 n ≡ true) bs s) (ltb 1448 (5 + n)) (λ e p. ground arith)
          (λ e. elim (Option-cases (read_full n rest)) [
            | inl q ↦ rw (q, on_data) (λ p. cc)
            | inr ((c, rest'), q) ↦
                rw (q, on_data)
                  (Moves-append _ bs b rest s _ (read_full-append-eq 2 bs b rest r) (
                    Moves-append _ rest c rest' s _ (read_full-append-eq n rest c rest' q)
                      (on_frame-Moves _ first id (header ++ (b ++ c)) rest' s)))
          ]))
]

on_header-Moves :
    (first : Bool) (header : List ℕ) (t id : ℕ) (bs : List ℕ) (s : Session)
    → Moves (panics_behind t s bs ≡ true) bs s (on_header first header t id bs s)
unfolding on_header
on_header-Moves first header t id bs s =
    let P = Moves (panics_behind t s bs ≡ true) bs s in
    if_rule P (t == 0) (λ e p. cc)
      λ e0.
        if_rule P (t == 254) (λ e. on_ack-Moves _ first id bs s)
          λ e1.
            if_rule P (t == 255) (λ e. on_rst-Moves _ first id bs s)
              λ e2.
                if_rule P (t == 252) (λ e. on_ping-Moves _ first bs s)
                  λ e3.
                    if_rule P (t == 253) (λ e. rw e (on_echo-Moves first bs s))
                      λ e. rw (e0, e1, e2, e3, e) (on_data-Moves first header id bs s)

pub frame_round-Moves :
    (first : Bool) (bs : List ℕ) (s : Session)
    → Moves (panics s bs ≡ true) bs s (frame_round first bs s)
unfolding frame_round
frame_round-Moves first bs s = elim (Option-cases (read_full 3 bs)) [
  | inl r ↦ rw (r, frame_round) (λ p. cc)
  | inr ((header, rest), r) ↦
      let (enough, taken, left) = read_full-take 3 bs header rest r in
      let h = frame_type_and_id header in
      rw (r, frame_round, enough, taken, left)
        (Moves-append _ bs header rest s _ (read_full-append-eq 3 bs header rest r)
          (on_header-Moves first header h.0 h.1 rest s))
]
