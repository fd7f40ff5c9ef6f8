-- ===== src/Sender/Send.antt =====
-- `sender.send` as a whole: one packet with the frames that were ready.
use plampshade.Base.{
  ℕ, ◌+◌, ◌-◌, ◌^◌, ◌≤◌, ◌<◌, ◌≡◌, refl, sym, ap, ◌∙◌, Bool, true, false, ◌&&◌, List, [], ◌∷◌, ◌++◌,
  append-nil, map, ltb, if◌then◌else◌, length, length-append, arith, Bool-cases, inl, inr,
}
use plampshade.Wire.{coalesce_threshold}
use plampshade.Wire.Message.{
  Message, ping_at, IsMessage, wire, wires, wires-append, queued, length-wire-le,
}
use plampshade.Sender.{ok, Sender, buffer_frame, coalesce_additional_frames, add_ping}
use plampshade.Sender.Grown.{written, Room, Grown, Grown-trans}
use plampshade.Sender.Buffer.{Buffered, Buffers, closes, buffer_frame-wire}
use plampshade.Sender.Coalesce.{
  Choice, ready_of, AreOffers, accepted, stays_open, closes_all, Sent, Sent-cons, Fits, used,
  Coalesces, coalesce_additional_frames-accepted,
}

abbrev pub ping_due : ℕ → ℕ → ℕ → Bool
ping_due interval last now = ltb 0 interval && ltb interval (now - last)

-- The ping that joins the packet, if one is due.
abbrev pub pings : Bool → ℕ → List Message
pings true clock = ping_at clock ∷ []
pings false clock = []

add_ping-pings :
    (s : Sender) (now clock : ℕ)
    → clock < 2 ^ 64
    → Room s coalesce_threshold
    → (t : Sender) × (add_ping now clock s ≡ ok t)
      × Grown s t (wires (pings (ping_due s.ping_interval s.last_ping now) clock))
      × (t.closed_streams ≡ s.closed_streams)
      × (t.last_ping ≡ (if ping_due s.ping_interval s.last_ping now then now else s.last_ping))
unfolding add_ping queued wires
add_ping-pings s now clock h room = elim (Bool-cases (ping_due s.ping_interval s.last_ping now)) [
  | inr e ↦
      let g : Grown s s [] = record {
        start = refl;
        count = omega arith;
        size = refl;
        bytes = sym (append-nil (written s));
      } in
      rw e (s, refl, g, refl, refl)
  | inl e ↦
      let short = length-wire-le (ping_at clock) h in
      let (t, r, b, c, p) = buffer_frame-wire s (ping_at clock) h (omega arith) in
      let g = b.grown_by in
      let g' : Grown s (record t { last_ping = now }) (wire (ping_at clock)) = record {
        start = g.start;
        count = g.count;
        size = g.size;
        bytes = g.bytes;
      } in
      rw e (
        record t { last_ping = now },
        rw r,
        rw (append-nil (wire (ping_at clock))) g',
        c ∙ append-nil s.closed_streams,
        refl,
      )
]

length-pings : (due : Bool) (clock : ℕ) → clock < 2 ^ 64 → length (wires (pings due clock)) ≤ 1448
unfolding wires
length-pings false clock h = omega arith
length-pings true clock h =
    omega (arith, length-append (wire (ping_at clock)) [], length-wire-le (ping_at clock) h)

-- The frames of one packet: the first, those that were ready, and a ping if one is due.
abbrev pub packet : ℕ → Message → List Choice → List Message → List Message
packet overhead m cs pinged = (m ∷ accepted (2 + length (wire m) + overhead) cs) ++ pinged

-- What stays for the next packet: a buffer of the same size, and the time of the last ping.
abbrev pub Leaves : ℕ → Sender → Sender → Type 0
Leaves now s t =
    (length t.session_frame ≡ length s.session_frame)
    × (t.last_ping ≡ (if ping_due s.ping_interval s.last_ping now then now else s.last_ping))

-- The state of the sender before `writeToWire`.
abbrev pub Collects : Sender → ℕ → ℕ → Message → List Choice → Type 0
Collects s now clock m cs =
    let pinged = pings (ping_due s.ping_interval s.last_ping now) clock in
    (s1 s2 s3 : Sender) × (buffer_frame s (queued m) ≡ ok s1)
    × (coalesce_additional_frames (map ready_of cs) s1
        ≡ ok (s2, stays_open (2 + length (wire m) + s.cipher_overhead) cs))
    × (add_ping now clock s2 ≡ ok s3)
    × Grown s s3 (wires (packet s.cipher_overhead m cs pinged))
    × (s3.closed_streams ≡ closes_all (m ∷ accepted (2 + length (wire m) + s.cipher_overhead) cs))
    × (s3.start_of_data + s3.coalesced_bytes ≤ 2896 + 1448)
    × Leaves now s s3

collected :
    (s s1 s2 s3 : Sender) (now clock : ℕ) (m : Message) (cs : List Choice)
    → s.start_of_data ≡ 2
    → s.coalesced_bytes ≡ 0
    → s.closed_streams ≡ []
    → clock < 2 ^ 64
    → buffer_frame s (queued m) ≡ ok s1
    → Buffered s s1 m
    → s1.closed_streams ≡ s.closed_streams ++ closes m
    → coalesce_additional_frames (map ready_of cs) s1 ≡ ok (s2, stays_open (used s1) cs)
    → Sent s1 s2 (accepted (used s1) cs)
    → Fits s2
    → add_ping now clock s2 ≡ ok s3
    → Grown s2 s3 (wires (pings (ping_due s2.ping_interval s2.last_ping now) clock))
    → s3.closed_streams ≡ s2.closed_streams
    → s3.last_ping ≡ (if ping_due s2.ping_interval s2.last_ping now then now else s2.last_ping)
    → Collects s now clock m cs
collected s s1 s2 s3 now clock m cs h2 h0 hn hc e1 b1 c1 e2 sent fits e3 g3 c3 p3 =
    let g1 = b1.grown_by in
    let u : used s1 ≡ 2 + length (wire m) + s.cipher_overhead =
      omega (arith, g1.start, g1.count, b1.overhead_kept) in
    let from_s = Sent-cons s s1 s2 m (accepted (used s1) cs) b1 c1 sent in
    let due = ping_due s.ping_interval s.last_ping now in
    let ping = pings due clock in
    let ready = m ∷ accepted (used s1) cs in
    let g3' : Grown s2 s3 (wires ping) = rw (sym from_s.interval_kept, sym from_s.ping_kept) g3 in
    (
      s1,
      s2,
      s3,
      e1,
      rw (sym u) e2,
      e3,
      rw (sym u, wires-append ready ping)
          (Grown-trans s s2 s3 (wires ready) (wires ping) from_s.grown_by g3'),
      rw (sym u) (c3 ∙ from_s.closing_all ∙ ap (λ (l : List ℕ). l ++ closes_all ready) hn),
      omega (
        arith,
        g3.start,
        g3.count,
        length-pings (ping_due s2.ping_interval s2.last_ping now) clock hc,
      ),
      (
        g3.size ∙ from_s.grown_by.size,
        p3
            ∙ ap (λ (p : ℕ × ℕ). if ping_due p.0 p.1 now then now else p.1)
                (λ i. (from_s.interval_kept i, from_s.ping_kept i)),
      ),
    )

pub collects :
    (s : Sender) (now clock : ℕ) (m : Message) (cs : List Choice)
    → s.start_of_data ≡ 2
    → s.coalesced_bytes ≡ 0
    → s.closed_streams ≡ []
    → 4344 ≤ length s.session_frame
    → IsMessage m
    → AreOffers cs
    → clock < 2 ^ 64
    → Collects s now clock m cs
collects s now clock m cs h2 h0 hn room hm hcs hc =
    let short = length-wire-le m hm in first (buffer_frame-wire s m hm (omega arith))
  where
    first : Buffers s m → Collects s now clock m cs
    first (s1, e1, b1, c1, p1) =
        let g1 = b1.grown_by in
        let short = length-wire-le m hm in
        second (
          coalesce_additional_frames-accepted s1 cs hcs
            (omega (arith, g1.start, g1.count, g1.size)))
      where
        second : Coalesces s1 cs → Collects s now clock m cs
        second (s2, e2, sent, fits) =
            let room2 : 4344 ≤ length s2.session_frame =
              omega (arith, sent.grown_by.size, b1.grown_by.size) in
            let (s3, e3, g3, c3, p3) = add_ping-pings s2 now clock hc (omega arith) in
            collected s s1 s2 s3 now clock m cs h2 h0 hn hc e1 b1 c1 e2 sent fits e3 g3 c3 p3
