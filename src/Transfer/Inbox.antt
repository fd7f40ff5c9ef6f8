-- ===== src/Transfer/Inbox.antt =====
-- sendbuffer.go and session.go: the frames of one stream, from the `out` channel of its send
-- buffer to the receive buffer at the other end of the session.
use mathlib.Core.Path.{subst}
use mathlib.Core.List.{append_cancel_right}
use plampshade.Base.{
  ℕ, ◌≡◌, ◌≢◌, refl, sym, ap, ◌∙◌, Bool, true, false, List, [], ◌∷◌, ◌++◌, map, append-nil,
  append_assoc, length, length-append, ◌==◌, ==_iff, if◌then◌else◌, if_rule, arith, true≢false,
  Bool-cases, inl, inr,
}
use plampshade.Wire.{new_header, with_frame_type, type_data, type_rst, first_byte, big_endian}
use plampshade.Wire.Message.{Message, data_of, ack_of, rst_of, ping_at, echo_at, wire, queued}
use plampshade.Session.Spec.{
  Life, Status, unknown, running, gone, advance, advance_at, is_for, live,
}
use plampshade.Session.Views.{is_gone, advance_at-gone}
use plampshade.Flow.Reading.{payload}
use plampshade.Stream.Writing.{joined}

-- A frame of the send buffer of this stream.
abbrev pub is_own : ℕ → Message → Bool
is_own id (data_of j b) = j == id
is_own id (rst_of j) = j == id
is_own id (ack_of j n) = false
is_own id (ping_at ts) = false
is_own id (echo_at ts) = false

-- The byte slices that the session took from the send buffer of this stream.
abbrev pub taken_from : ℕ → List Message → List (List ℕ)
taken_from id [] = []
taken_from id (m ∷ ms) =
    if is_own id m then (queued m).bytes ∷ taken_from id ms else taken_from id ms

-- What a send buffer gives out for these chunks, with an RST or without.
abbrev pub given_out : ℕ → List (List ℕ) → Bool → List (List ℕ)
given_out id chunks rst =
    map (λ c. c ++ new_header type_data id) chunks
    ++ (if rst then with_frame_type (new_header type_data id) type_rst ∷ [] else [])

abbrev pub data_frames : ℕ → List (List ℕ) → List (List ℕ)
data_frames id chunks = map (λ c. wire (data_of id c)) chunks

-- A data frame is not an RST.
data-ne-rst :
    (id : ℕ) (b : List ℕ)
    → b ++ new_header type_data id ≢ with_frame_type (new_header type_data id) type_rst
unfolding new_header with_frame_type big_endian
data-ne-rst id [] h = let types : type_data ≡ type_rst = ap first_byte h in omega arith
data-ne-rst id (x ∷ b) h =
    omega (arith, ap (length {A = ℕ}) h, length-append b (new_header type_data id))

first_data :
    (id : ℕ) (b : List ℕ) (rest chunks : List (List ℕ)) (rst : Bool)
    → (b ++ new_header type_data id) ∷ rest ≡ given_out id chunks rst
    → (more : List (List ℕ)) × (chunks ≡ b ∷ more) × (rest ≡ given_out id more rst)
first_data id b rest [] true h = absurd (data-ne-rst id b (cc))
first_data id b rest [] false h = cc
first_data id b rest (c ∷ chunks) rst h =
    let same : b ++ new_header type_data id ≡ c ++ new_header type_data id = cc in
    (
      chunks,
      ap (λ x. x ∷ chunks) (sym (append_cancel_right b c (new_header type_data id) same)),
      cc,
    )

first_rst :
    (id : ℕ) (rest chunks : List (List ℕ)) (rst : Bool)
    → with_frame_type (new_header type_data id) type_rst ∷ rest ≡ given_out id chunks rst
    → chunks ≡ []
first_rst id rest [] rst h = refl
first_rst id rest (c ∷ chunks) rst h = absurd (data-ne-rst id c (cc))

live-gone :
    (id : ℕ) (ms : List Message) (l : Life)
    → is_gone l.status ≡ true
    → (live id ms l).inbox ≡ l.inbox
unfolding live advance
live-gone id [] l g = refl
live-gone id (m ∷ ms) l g =
    let IsKept = λ (x : Life). (live id ms x).inbox ≡ l.inbox in
    if_rule IsKept (is_for id m)
      (λ e. subst IsKept (sym (advance_at-gone l.status m l g)) (live-gone id ms l g))
      (λ e. live-gone id ms l g)

advance_at-data :
    (t : Status) (j : ℕ) (b : List ℕ) (l : Life)
    → is_gone t ≡ false
    → advance_at t (data_of j b) l
      ≡ record l { status = running; inbox = l.inbox ++ (wire (data_of j b) ∷ []) }
advance_at-data unknown j b l g = refl
advance_at-data running j b l g = refl
advance_at-data gone j b l g = true≢false (is_gone gone) refl g

advance_at-ack :
    (t : Status) (j n : ℕ) (l : Life)
    → is_gone t ≡ false
    → advance_at t (ack_of j n) l ≡ record l { status = running; credits = l.credits ++ (n ∷ []) }
advance_at-ack unknown j n l g = refl
advance_at-ack running j n l g = refl
advance_at-ack gone j n l g = true≢false (is_gone gone) refl g

advance_at-rst :
    (t : Status) (j : ℕ) (l : Life)
    → is_gone t ≡ false
    → advance_at t (rst_of j) l ≡ record l { status = gone }
advance_at-rst unknown j l g = refl
advance_at-rst running j l g = refl
advance_at-rst gone j l g = true≢false (is_gone gone) refl g

-- The inbox once it is known whether the first message is for the stream.
arrived :
    (id : ℕ) (m : Message) (ms : List Message) (l : Life) (frames : List (List ℕ)) (for : Bool)
    → is_for id m ≡ for
    → (live id ms (if for then advance m l else l)).inbox ≡ l.inbox ++ frames
    → (live id (m ∷ ms) l).inbox ≡ l.inbox ++ frames
unfolding live
arrived id m ms l frames for e h =
    subst (λ b. (live id ms (if b then advance m l else l)).inbox ≡ l.inbox ++ frames) (sym e) h

-- What the session took from the send buffer reaches the inbox, in its order, whatever else it
-- carries.
pub live-given_out :
    (id : ℕ) (ms : List Message) (chunks : List (List ℕ)) (rst : Bool) (l : Life)
    → is_gone l.status ≡ false
    → taken_from id ms ≡ given_out id chunks rst
    → (live id ms l).inbox ≡ l.inbox ++ data_frames id chunks
unfolding live advance queued
live-given_out id [] [] rst l g h = sym (append-nil l.inbox)
live-given_out id [] (c ∷ chunks) rst l g h = cc
live-given_out id (data_of j b ∷ ms) chunks rst l g h = elim (Bool-cases (j == id)) [
  | inl e ↦
      let same : j ≡ id = (==_iff j id).0 e in
      let taken : (b ++ new_header type_data j) ∷ taken_from id ms ≡ given_out id chunks rst =
        rw e at h in
      let (more, first, rest) = first_data id b (taken_from id ms) chunks rst (
        subst (λ i. (b ++ new_header type_data i) ∷ taken_from id ms ≡ given_out id chunks rst) same
          taken) in
      let l' = record l { status = running; inbox = l.inbox ++ (wire (data_of j b) ∷ []) } in
      arrived id (data_of j b) ms l (data_frames id chunks) true e (
        ap (λ x. (live id ms x).inbox) (advance_at-data l.status j b l g)
        ∙ live-given_out id ms more rst l' refl rest
        ∙ append_assoc l.inbox (wire (data_of j b) ∷ []) (data_frames id more)
        ∙ ap (λ i. l.inbox ++ (wire (data_of i b) ∷ data_frames id more)) same
        ∙ ap (λ cs. l.inbox ++ data_frames id cs) (sym first))
  | inr e ↦
      arrived id (data_of j b) ms l (data_frames id chunks) false e
        (live-given_out id ms chunks rst l g (rw e at h))
]
live-given_out id (rst_of j ∷ ms) chunks rst l g h = elim (Bool-cases (j == id)) [
  | inl e ↦
      let same : j ≡ id = (==_iff j id).0 e in
      let taken : with_frame_type (new_header type_data j) type_rst ∷ taken_from id ms
          ≡ given_out id chunks rst =
        rw e at h in
      let none_left = first_rst id (taken_from id ms) chunks rst (
        subst
          (λ i.
            with_frame_type (new_header type_data i) type_rst ∷ taken_from id ms
            ≡ given_out id chunks rst)
          same taken) in
      arrived id (rst_of j) ms l (data_frames id chunks) true e (
        ap (λ x. (live id ms x).inbox) (advance_at-rst l.status j l g)
        ∙ live-gone id ms (record l { status = gone }) refl
        ∙ sym (append-nil l.inbox)
        ∙ ap (λ cs. l.inbox ++ data_frames id cs) (sym none_left))
  | inr e ↦
      arrived id (rst_of j) ms l (data_frames id chunks) false e
        (live-given_out id ms chunks rst l g (rw e at h))
]
live-given_out id (ack_of j n ∷ ms) chunks rst l g h =
    let l' = record l { status = running; credits = l.credits ++ (n ∷ []) } in
    let Arrives = λ (x : Life). (live id ms x).inbox ≡ l.inbox ++ data_frames id chunks in
    if_rule Arrives (j == id)
      (λ e.
        subst Arrives (sym (advance_at-ack l.status j n l g))
          (live-given_out id ms chunks rst l' refl h))
      (λ e. live-given_out id ms chunks rst l g h)
live-given_out id (ping_at ts ∷ ms) chunks rst l g h = live-given_out id ms chunks rst l g h
live-given_out id (echo_at ts ∷ ms) chunks rst l g h = live-given_out id ms chunks rst l g h

pub payload-data_frames :
    (id : ℕ) (chunks : List (List ℕ)) → payload (data_frames id chunks) ≡ joined chunks
unfolding wire new_header big_endian
payload-data_frames id [] = refl
payload-data_frames id (c ∷ chunks) = ap (λ x. c ++ x) (payload-data_frames id chunks)
