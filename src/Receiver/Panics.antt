-- ===== src/Receiver/Panics.antt =====
-- session.go: where `recvLoop` panics, whatever bytes it reads.
use plampshade.Base.{
  ℕ, zero, suc, ◌≡◌, refl, sym, ap, ◌∙◌, Bool, true, List, [], ◌++◌, append_assoc, length,
}
use plampshade.Session.{Session}
use plampshade.Receiver.{crashed, Round, next, stop, frame_round, frame_loop, receive_frames}
use plampshade.Receiver.Moves.{panics, Moves, frame_round-Moves}

-- Somewhere in the bytes stands a frame at which the session panics.
abbrev pub Panics : Session → List ℕ → Type 0
Panics s bs = (before rest : List ℕ) × (bs ≡ before ++ rest) × (panics s rest ≡ true)

panics-same :
    (s t : Session) (bs : List ℕ) → t.tracks_rtt ≡ s.tracks_rtt → panics t bs ≡ panics s bs
panics-same s t bs e = rw e refl

crashed_after :
    (fuel : ℕ) (first : Bool) (bs : List ℕ) (s : Session) (r : Round)
    → frame_round first bs s ≡ r
    → Moves (panics s bs ≡ true) bs s r
    → frame_loop (suc fuel) first bs s ≡ crashed
    → ((first' : Bool) (rest : List ℕ) (t : Session)
        → frame_loop fuel first' rest t ≡ crashed
        → Panics t rest)
    → Panics s bs
unfolding frame_loop
crashed_after fuel first bs s (next first' rest t) e ((before, split), kept) h later =
    let goes_on : frame_loop (suc fuel) first bs s ≡ frame_loop fuel first' rest t =
      rw (e, frame_loop) in
    let (more, rest', split', p) = later first' rest t (sym goes_on ∙ h) in
    (
      before ++ more,
      rest',
      split ∙ ap (λ xs. before ++ xs) split' ∙ sym (append_assoc before more rest'),
      sym (panics-same s t rest' kept) ∙ p,
    )
crashed_after fuel first bs s (stop r) e m h later =
    let stops : frame_loop (suc fuel) first bs s ≡ r = rw (e, frame_loop) in
    ([], bs, refl, m (sym stops ∙ h))

frame_loop-crashed :
    (fuel : ℕ) (first : Bool) (bs : List ℕ) (s : Session)
    → frame_loop fuel first bs s ≡ crashed
    → Panics s bs
unfolding frame_loop
frame_loop-crashed zero first bs s h = cc
frame_loop-crashed (suc fuel) first bs s h =
    crashed_after fuel first bs s (frame_round first bs s) refl (frame_round-Moves first bs s) h
      (frame_loop-crashed fuel)

-- Whatever bytes arrive, the receiver panics only where somewhere among them stand the header and
-- the length of a data frame, of any type that is read as data, with a length above `MaxDataLen`,
-- or in a session without an `emaRTT` the header and the time of an echo frame.
pub receive_frames-crashed :
    (bs : List ℕ) (s : Session) → receive_frames bs s ≡ crashed → Panics s bs
unfolding receive_frames
receive_frames-crashed bs s h = frame_loop-crashed (suc (length bs)) true bs s h
