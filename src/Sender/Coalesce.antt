-- ===== src/Sender/Coalesce.antt =====
-- `coalesceAdditionalFrames`: which of the frames that are ready join the session frame.
use plampshade.Base.{
  ℕ, ◌+◌, ◌≤◌, ◌≡◌, refl, sym, ap, ◌∙◌, Bool, true, false, List, [], ◌∷◌, ◌++◌, append-nil,
  append_assoc, map, ltb, ltb→lt, if◌then◌else◌, length, arith, Bool-cases, inl, inr,
}
use plampshade.Wire.{coalesce_threshold}
use plampshade.Wire.Message.{Message, IsMessage, wire, wires, queued, length-wire-le}
use plampshade.Sender.{
  ok, Sender, Ready, closing, frame_ready, buffer_frame, coalesce_additional_frames,
}
use plampshade.Sender.Grown.{written, Grown, Grown-trans}
use plampshade.Sender.Buffer.{Buffered, closes, buffer_frame-wire}

-- What the `select` meets, with the frames as messages.
pub data Choice : Type 0 where
  closes_session : Choice
  offers : Message → Choice

abbrev pub ready_of : Choice → Ready
ready_of closes_session = closing
ready_of (offers m) = frame_ready (queued m)

abbrev pub AreOffers : List Choice → Type 0
AreOffers [] = Unit {0}
AreOffers (closes_session ∷ cs) = AreOffers cs
AreOffers (offers m ∷ cs) = IsMessage m × AreOffers cs

-- The frames that join, if `used` bytes of the packet are taken: while these are below the
-- threshold, and until the session closes.
unfoldable pub accepted : ℕ → List Choice → List Message
accepted used [] = []
accepted used (closes_session ∷ cs) = []
accepted used (offers m ∷ cs) =
    let more = accepted (used + length (wire m)) cs in
    if ltb used coalesce_threshold then m ∷ more else []

-- Whether the loop ended with the session open.
unfoldable pub stays_open : ℕ → List Choice → Bool
stays_open used [] = true
stays_open used (closes_session ∷ cs) = if ltb used coalesce_threshold then false else true
stays_open used (offers m ∷ cs) =
    let more = stays_open (used + length (wire m)) cs in
    if ltb used coalesce_threshold then more else true

abbrev pub closes_all : List Message → List ℕ
closes_all [] = []
closes_all (m ∷ ms) = closes m ++ closes_all ms

-- `t` is `s` with the frames `ms` buffered.
pub record Sent (s t : Sender) (ms : List Message) : Type 0 where
  pub grown_by : Grown s t (wires ms)
  pub more : t.coalesced ≡ s.coalesced + length ms
  pub overhead_kept : t.cipher_overhead ≡ s.cipher_overhead
  pub interval_kept : t.ping_interval ≡ s.ping_interval
  pub ping_kept : t.last_ping ≡ s.last_ping
  pub closing_all : t.closed_streams ≡ s.closed_streams ++ closes_all ms

Sent-nil : (s : Sender) → Sent s s []
unfolding wires
Sent-nil s = record {
  grown_by = record {
    start = refl;
    count = omega arith;
    size = refl;
    bytes = sym (append-nil (written s));
  };
  more = omega arith;
  overhead_kept = refl;
  interval_kept = refl;
  ping_kept = refl;
  closing_all = sym (append-nil s.closed_streams);
}

pub Sent-cons :
    (s t u : Sender) (m : Message) (ms : List Message)
    → Buffered s t m
    → t.closed_streams ≡ s.closed_streams ++ closes m
    → Sent t u ms
    → Sent s u (m ∷ ms)
unfolding wires
Sent-cons s t u m ms b c r = record {
  grown_by = Grown-trans s t u (wire m) (wires ms) b.grown_by r.grown_by;
  more = omega (arith, b.one_more, r.more);
  overhead_kept = r.overhead_kept ∙ b.overhead_kept;
  interval_kept = r.interval_kept ∙ b.interval_kept;
  ping_kept = r.ping_kept ∙ b.ping_kept;
  closing_all =
      r.closing_all
      ∙ ap (λ (l : List ℕ). l ++ closes_all ms) c
      ∙ append_assoc s.closed_streams (closes m) (closes_all ms);
}

abbrev pub used : Sender → ℕ
used s = s.start_of_data + s.coalesced_bytes + s.cipher_overhead

-- Twice the threshold: the last frame may start just below it.
abbrev pub most : ℕ
most = 2896

abbrev pub Fits : Sender → Type 0
Fits s = (s.start_of_data + s.coalesced_bytes ≤ most) × (most ≤ length s.session_frame)

abbrev pub Coalesces : Sender → List Choice → Type 0
Coalesces s cs =
    (t : Sender) × (coalesce_additional_frames (map ready_of cs) s ≡ ok (t, stays_open (used s) cs))
    × Sent s t (accepted (used s) cs)
    × Fits t

coalesce_one :
    (s t : Sender) (m : Message) (cs : List Choice)
    → ltb (used s) coalesce_threshold ≡ true
    → buffer_frame s (queued m) ≡ ok t
    → coalesce_additional_frames (map ready_of (offers m ∷ cs)) s
      ≡ coalesce_additional_frames (map ready_of cs) t
unfolding coalesce_additional_frames
coalesce_one s t m cs low e = rw (low, e)

accepted_one :
    (n n' : ℕ) (m : Message) (cs : List Choice)
    → ltb n coalesce_threshold ≡ true
    → n' ≡ n + length (wire m)
    → (accepted n (offers m ∷ cs) ≡ m ∷ accepted n' cs)
      × (stays_open n (offers m ∷ cs) ≡ stays_open n' cs)
unfolding accepted stays_open
accepted_one n n' m cs low e = (rw (low, e), rw (low, e))

coalesce_more :
    (s t : Sender) (m : Message) (cs : List Choice)
    → ltb (used s) coalesce_threshold ≡ true
    → buffer_frame s (queued m) ≡ ok t
    → Buffered s t m
    → t.closed_streams ≡ s.closed_streams ++ closes m
    → Coalesces t cs
    → Coalesces s (offers m ∷ cs)
coalesce_more s t m cs low e b c (u, r, sent, fits) =
    let g = b.grown_by in
    let one =
      accepted_one (used s) (used t) m cs low (omega (arith, g.start, g.count, b.overhead_kept)) in
    (
      u,
      coalesce_one s t m cs low e ∙ r ∙ ap (λ (o : Bool). ok (u, o)) (sym one.1),
      rw one.0 (Sent-cons s t u m (accepted (used t) cs) b c sent),
      fits,
    )

-- The loop never panics, takes exactly the frames that `accepted` says, and stays below twice the
-- threshold.
pub coalesce_additional_frames-accepted :
    (s : Sender) (cs : List Choice) → AreOffers cs → Fits s → Coalesces s cs
coalesce_additional_frames-accepted s [] v f =
    unfold coalesce_additional_frames accepted stays_open in (s, refl, Sent-nil s, f)
coalesce_additional_frames-accepted s (closes_session ∷ cs) v f =
    unfold coalesce_additional_frames accepted stays_open in (s, ground arith, Sent-nil s, f)
coalesce_additional_frames-accepted s (offers m ∷ cs) v f =
    elim (Bool-cases (ltb (used s) coalesce_threshold)) [
      | inr full ↦
          unfold coalesce_additional_frames accepted stays_open in rw full (s, refl, Sent-nil s, f)
      | inl low ↦
          let below = ltb→lt (used s) coalesce_threshold low in
          let short = length-wire-le m v.0 in
          let (t, e, b, c, p) = buffer_frame-wire s m v.0 (omega arith) in
          let g = b.grown_by in
          coalesce_more s t m cs low e b c
            (coalesce_additional_frames-accepted t cs v.1 (omega (arith, g.start, g.count, g.size)))
    ]
