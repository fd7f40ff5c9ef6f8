-- ===== src/Sender/Grown.antt =====
-- `sender.coalesce`: what is written lies behind what was there, if there is room.
use plampshade.Base.{
  ℕ, ◌+◌, ◌≤◌, ◌≡◌, refl, ap, ◌∙◌, List, ◌++◌, append_assoc, arith, length, length-append, take,
  copy_at, length-copy_at, take-copy_at,
}
use plampshade.Sender.{ok, Sender, coalesce}

-- The session frame up to the end of the data.
abbrev pub written : Sender → List ℕ
written snd = take (snd.start_of_data + snd.coalesced_bytes) snd.session_frame

abbrev pub Room : Sender → ℕ → Type 0
Room snd n = snd.start_of_data + snd.coalesced_bytes + n ≤ length snd.session_frame

abbrev pub grown : Sender → List ℕ → Sender
grown snd b = record snd {
  session_frame = copy_at (snd.start_of_data + snd.coalesced_bytes) snd.session_frame b;
  coalesced_bytes = snd.coalesced_bytes + length b;
}

-- `t` has the data of `s` with `b` behind it, in a buffer of the same size.
pub record Grown (s t : Sender) (b : List ℕ) : Type 0 where
  pub start : t.start_of_data ≡ s.start_of_data
  pub count : t.coalesced_bytes ≡ s.coalesced_bytes + length b
  pub size : length t.session_frame ≡ length s.session_frame
  pub bytes : written t ≡ written s ++ b

pub coalesce_fits :
    (snd : Sender) (b : List ℕ) → Room snd (length b) → coalesce snd b ≡ ok (grown snd b)
unfolding coalesce
coalesce_fits snd b h = ground arith

pub grown-Grown : (snd : Sender) (b : List ℕ) → Room snd (length b) → Grown snd (grown snd b) b
grown-Grown snd b h = record {
  start = refl;
  count = refl;
  size = length-copy_at (snd.start_of_data + snd.coalesced_bytes) snd.session_frame b;
  bytes =
      let e : snd.start_of_data + (snd.coalesced_bytes + length b)
          ≡ snd.start_of_data + snd.coalesced_bytes + length b =
        omega arith in
      rw e (take-copy_at (snd.start_of_data + snd.coalesced_bytes) snd.session_frame b h);
}

pub Grown-trans : (s t u : Sender) (a b : List ℕ) → Grown s t a → Grown t u b → Grown s u (a ++ b)
Grown-trans s t u a b g h = record {
  start = h.start ∙ g.start;
  count = omega (arith, g.count, h.count, length-append a b);
  size = h.size ∙ g.size;
  bytes = h.bytes ∙ ap (λ (w : List ℕ). w ++ b) g.bytes ∙ append_assoc (written s) a b;
}

-- Two pieces behind one another.
abbrev pub grown2 : Sender → List ℕ → List ℕ → Sender
grown2 snd a b = grown (grown snd a) b

pub Room-grown :
    (snd : Sender) (a : List ℕ) (n : ℕ) → Room snd (length a + n) → Room (grown snd a) n
Room-grown snd a n h =
    omega (arith, length-copy_at (snd.start_of_data + snd.coalesced_bytes) snd.session_frame a)

pub coalesce_fits_second :
    (snd : Sender) (a b : List ℕ)
    → Room snd (length a + length b)
    → coalesce (grown snd a) b ≡ ok (grown2 snd a b)
coalesce_fits_second snd a b h = coalesce_fits (grown snd a) b (Room-grown snd a (length b) h)

pub grown2-Grown :
    (snd : Sender) (a b : List ℕ)
    → Room snd (length a + length b)
    → Grown snd (grown2 snd a b) (a ++ b)
grown2-Grown snd a b h =
    Grown-trans snd (grown snd a) (grown2 snd a b) a b (grown-Grown snd a (omega arith))
      (grown-Grown (grown snd a) b (Room-grown snd a (length b) h))

-- The counter does not show in the data.
pub counted :
    (snd t : Sender) (b : List ℕ) (n : ℕ) → Grown (record snd { coalesced = n }) t b → Grown snd t b
counted snd t b n g = record { start = g.start; count = g.count; size = g.size; bytes = g.bytes }
