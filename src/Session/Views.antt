-- ===== src/Session/Views.antt =====
-- session.go: what `closeStream`, `getOrCreateStream` and their effects do to the life of a stream.
use plampshade.Base.{
  ℕ, ◌≡◌, refl, ap, sym, ◌∙◌, Bool, true, false, not, ◌&&◌, List, [], ◌∷◌, append-nil, ◌==◌,
  if◌then◌else◌, if_rule, arith, Bool-cases, inl, inr, true≢false,
}
use plampshade.Wire.Message.{Message, data_of, ack_of, rst_of, wire}
use plampshade.Session.{
  Session, Effect, submitted, acked, session_closed, opened, emit, has, is_empty, delete, close,
  close_stream, get_or_create_stream,
}
use plampshade.Session.Table.{has-delete}
use plampshade.Session.Spec.{
  Status, unknown, running, gone, Life, advance, advance_at, advance_for, is_for, frames_of,
  credits_of, noted, status_of, view, view-emit,
}

-- An effect that gives the stream neither a frame nor an ACK.
pub view-quiet :
    (id : ℕ) (s : Session) (e : Effect)
    → frames_of id e ≡ []
    → credits_of id e ≡ []
    → view id (emit s e) ≡ view id s
view-quiet id s e f c =
    view-emit id s e ∙ rw (f, c, append-nil (view id s).inbox, append-nil (view id s).credits) refl

pub view-close : (id : ℕ) (s : Session) → view id (close s) ≡ view id s
unfolding close view
view-close id s =
    if_rule (λ (t : Session). view id t ≡ view id s) s.is_closed (λ e. refl)
      (λ e. view-quiet id (record s { is_closed = true }) session_closed refl refl)

view-taken_out :
    (id j : ℕ) (s : Session)
    → view id (record s { streams = delete j s.streams; closed = j ∷ s.closed })
      ≡ advance_for id (rst_of j) (view id s)
unfolding view advance
view-taken_out id j s = rw (has-delete j id s.streams) (elim (Bool-cases (j == id)) [
  | inl e ↦ rw e (elim (Bool-cases (has id s.streams)) [
    | inl f ↦ rw f refl
    | inr f ↦ rw f (elim (Bool-cases (has id s.closed)) [ inl g ↦ rw g refl | inr g ↦ rw g refl ])
  ])
  | inr e ↦ rw e refl
])

pub view-close_stream :
    (id j : ℕ) (s : Session) → view id (close_stream j s) ≡ advance_for id (rst_of j) (view id s)
unfolding close_stream
view-close_stream id j s =
    let s' : Session = record s { streams = delete j s.streams; closed = j ∷ s.closed } in
    if_rule (λ (t : Session). view id t ≡ advance_for id (rst_of j) (view id s))
      (s'.defunct && is_empty s'.streams) (λ e. view-close id s' ∙ view-taken_out id j s)
      (λ e. view-taken_out id j s)

-- A stream that is handed out is open from then on; one that is not is closed.
abbrev Handed : ℕ → ℕ → Session → Session × Bool → Type 0
Handed id j s (s', is_open) =
    view id s'
    ≡ (if is_open && (j == id) then record (view id s) { status = running } else view id s)

running_already :
    (id j : ℕ) (s : Session)
    → has j s.streams ≡ true
    → view id s ≡ (if j == id then record (view id s) { status = running } else view id s)
unfolding view
running_already id j s h = elim (Bool-cases (j == id)) [
  | inl e ↦
      let same : j ≡ id = ground arith in
      let there : has id s.streams ≡ true = ap (λ (i : ℕ). has i s.streams) (sym same) ∙ h in
      rw (e, there) refl
  | inr e ↦ rw e refl
]

view-opened :
    (id j : ℕ) (s : Session)
    → view id (record s { streams = j ∷ s.streams })
      ≡ (if j == id then record (view id s) { status = running } else view id s)
unfolding view
view-opened id j s = elim (Bool-cases (j == id)) [ inl e ↦ rw e refl | inr e ↦ rw e refl ]

view-get_or_create_stream : (id j : ℕ) (s : Session) → Handed id j s (get_or_create_stream j s)
unfolding get_or_create_stream
view-get_or_create_stream id j s =
    if_rule (Handed id j s) (has j s.streams) (λ e. running_already id j s e)
      (λ e.
        if_rule (Handed id j s) (has j s.closed) (λ f. refl)
          (λ f.
            view-quiet id (record s { streams = j ∷ s.streams }) (opened j s.notifies) refl refl
            ∙ view-opened id j s))

abbrev pub is_gone : Status → Bool
is_gone unknown = false
is_gone running = false
is_gone gone = true

-- A stream is handed out unless it was closed.
handed : (j : ℕ) (s : Session) → (get_or_create_stream j s).1 ≡ not (is_gone (status_of j s))
unfolding get_or_create_stream
handed j s = elim (Bool-cases (has j s.streams)) [
  | inl e ↦ rw e refl
  | inr e ↦ rw e (elim (Bool-cases (has j s.closed)) [ inl f ↦ rw f refl | inr f ↦ rw f refl ])
]

pub advance_at-gone :
    (t : Status) (m : Message) (l : Life) → is_gone t ≡ true → advance_at t m l ≡ l
advance_at-gone unknown m l h = true≢false (is_gone unknown) h refl
advance_at-gone running m l h = true≢false (is_gone running) h refl
advance_at-gone gone m l h = refl

-- A message for the stream `j`, and the effect by which an open stream learns of it.
pub record IsTold (id j : ℕ) (m : Message) (e : Effect) : Type 0 where
  for : is_for id m ≡ (j == id)
  told :
      (t : Status) (l : Life)
      → (j == id) ≡ true
      → is_gone t ≡ false
      → advance_at t m l ≡ record (noted id e l) { status = running }
  others : (j == id) ≡ false → (frames_of id e ≡ []) × (credits_of id e ≡ [])

not_gone :
    (id j : ℕ) (s : Session)
    → (get_or_create_stream j s).1 ≡ true
    → (j == id) ≡ true
    → is_gone (status_of id s) ≡ false
not_gone id j s o h =
    let same : j ≡ id = ground arith in
    let told : not (is_gone (status_of j s)) ≡ true = sym (handed j s) ∙ o in
    ap (λ (i : ℕ). is_gone (status_of i s)) (sym same) ∙ ground arith

pub view-told :
    (id j : ℕ) (s : Session) (m : Message) (e : Effect)
    → IsTold id j m e
    → (get_or_create_stream j s).1 ≡ true
    → view id (emit (get_or_create_stream j s).0 e) ≡ advance_for id m (view id s)
view-told id j s m e t o =
    let s' = (get_or_create_stream j s).0 in
    let before = view-get_or_create_stream id j s in
    elim (Bool-cases (j == id)) [
      | inl h ↦
          let opened_now : view id s' ≡ record (view id s) { status = running } =
            before ∙ rw (o, h) refl in
          let advances : advance (m) (view id s)
              ≡ record (noted id e (view id s)) { status = running } =
            unfold advance view in t.told (status_of id s) (view id s) h (not_gone id j s o h) in
          let whole : advance_for id m (view id s)
              ≡ record (noted id e (view id s)) { status = running } =
            rw (t.for, h) advances in
          view-emit id s' e ∙ ap (noted id e) opened_now ∙ sym whole
      | inr h ↦
          let nothing : advance_for id m (view id s) ≡ view id s = rw (t.for, h) refl in
          let kept : view id s' ≡ view id s = before ∙ rw (o, h) refl in
          view-quiet id s' e (t.others h).0 (t.others h).1 ∙ kept ∙ sym nothing
    ]

data_advances :
    (id j : ℕ) (b : List ℕ) (t : Status) (l : Life)
    → (j == id) ≡ true
    → is_gone t ≡ false
    → advance_at t (data_of j b) l
      ≡ record (noted id (submitted j (wire (data_of j b))) l) { status = running }
data_advances id j b unknown l h g = rw (h, append-nil l.credits) refl
data_advances id j b running l h g = rw (h, append-nil l.credits) refl
data_advances id j b gone l h g = true≢false (is_gone gone) refl g

ack_advances :
    (id j n : ℕ) (t : Status) (l : Life)
    → (j == id) ≡ true
    → is_gone t ≡ false
    → advance_at t (ack_of j n) l ≡ record (noted id (acked j n) l) { status = running }
ack_advances id j n unknown l h g = rw (h, append-nil l.inbox) refl
ack_advances id j n running l h g = rw (h, append-nil l.inbox) refl
ack_advances id j n gone l h g = true≢false (is_gone gone) refl g

pub IsTold-data :
    (id j : ℕ) (b : List ℕ) → IsTold id j (data_of j b) (submitted j (wire (data_of j b)))
IsTold-data id j b = record {
  for = refl;
  told = λ t l h g. data_advances id j b t l h g;
  others = λ h. (rw h refl, refl);
}

pub IsTold-ack : (id j n : ℕ) → IsTold id j (ack_of j n) (acked j n)
IsTold-ack id j n = record {
  for = refl;
  told = λ t l h g. ack_advances id j n t l h g;
  others = λ h. (refl, rw h refl);
}

-- A stream that is not handed out was closed, and no message of its changes anything.
pub view-refused :
    (id j : ℕ) (s : Session) (m : Message)
    → is_for id m ≡ (j == id)
    → (get_or_create_stream j s).1 ≡ false
    → view id (get_or_create_stream j s).0 ≡ advance_for id m (view id s)
view-refused id j s m f o =
    let before = view-get_or_create_stream id j s in
    let kept : view id (get_or_create_stream j s).0 ≡ view id s = before ∙ rw o refl in
    elim (Bool-cases (j == id)) [
      | inl h ↦
          let same : j ≡ id = ground arith in
          let told : not (is_gone (status_of j s)) ≡ false = sym (handed j s) ∙ o in
          let g : is_gone (status_of id s) ≡ true =
            ap (λ (i : ℕ). is_gone (status_of i s)) (sym same) ∙ ground arith in
          let stays : advance m (view id s) ≡ view id s =
            unfold advance view in advance_at-gone (status_of id s) m (view id s) g in
          let nothing : advance_for id m (view id s) ≡ view id s = rw (f, h) stays in
          kept ∙ sym nothing
      | inr h ↦
          let nothing : advance_for id m (view id s) ≡ view id s = rw (f, h) refl in
          kept ∙ sym nothing
    ]
