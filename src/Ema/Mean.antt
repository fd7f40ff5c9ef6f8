-- ===== src/Ema/Mean.antt =====
-- What a moving average promises: a mean or none, through any sequence of calls.
use mathlib.Core.Path.{subst}
use plampshade.Base.{
  ◌≡◌, refl, sym, ap, ◌∙◌, inl, inr, Bool-cases, Bool, true, false, List, [], ◌∷◌, Option, none,
  some, if◌then◌else◌, ◌-◌, ◌^◌, ◌==◌, arith,
}
use plampshade.Base.Int.{ℤ, pos, negsuc}
use plampshade.Ema.{
  Floats, Ema, new_with_beta, is_unset, scale_to_int, scale_from_int, mix, update_alpha_beta,
  update_alpha, update, update_duration, set, set_duration, clear, get, get_duration,
}

module _ (fl : Floats) where
  pub data Call : Type 0 where
    updates : fl.Float → Call
    updates_alpha : fl.Float → fl.Float → Call
    updates_duration : ℤ → Call
    sets : fl.Float → Call
    sets_duration : ℤ → Call
    clears : Call
    gets : Call
    gets_duration : Call

  pub data Answer : Type 0 where
    nothing : Answer
    float : fl.Float → Answer
    duration : ℤ → Answer

  abbrev pub with_float : Ema fl.Float × fl.Float → Ema fl.Float × Answer
  with_float (e, f) = (e, float f)

  abbrev pub with_duration : Ema fl.Float × ℤ → Ema fl.Float × Answer
  with_duration (e, d) = (e, duration d)

  unfoldable pub step : Call → Ema fl.Float → Ema fl.Float × Answer
  step (updates v) e = with_float (update fl v e)
  step (updates_alpha v α) e = with_float (update_alpha fl v α e)
  step (updates_duration v) e = with_duration (update_duration fl v e)
  step (sets v) e = (set fl v e, nothing)
  step (sets_duration v) e = (set_duration fl v e, nothing)
  step clears e = (clear fl e, nothing)
  step gets e = (e, float (get fl e))
  step gets_duration e = (e, duration (get_duration fl e))

  unfoldable pub run : List Call → Ema fl.Float → Ema fl.Float × List Answer
  run [] e = (e, [])
  run (c ∷ cs) e = let (e', a) = step c e in let (e'', rest) = run cs e' in (e'', a ∷ rest)

  -- The mean, with the parameters of an average.
  pub record Mean : Type 0 where
    pub default_alpha : fl.Float
    pub default_beta : fl.Float
    pub default_value : fl.Float
    pub mean : Option fl.Float

  -- A value with three decimal places, as an integer and back.
  abbrev pub thousandths : fl.Float → ℤ
  thousandths f = fl.to_int (fl.mul f (fl.of_int (pos 1000)))

  abbrev pub kept : fl.Float → fl.Float
  kept f = fl.div (fl.of_int (thousandths f)) (fl.of_int (pos 1000))

  -- (1 - w) m + w v
  abbrev pub weighted : fl.Float → fl.Float → fl.Float → fl.Float
  weighted w m v = fl.add (fl.mul (fl.sub (fl.of_int (pos 1)) w) m) (fl.mul w v)

  -- The next mean: of a value alone, or of it and the mean, weighted for a rise or a fall.
  abbrev pub next_mean : fl.Float → fl.Float → fl.Float → Option fl.Float → fl.Float
  next_mean v α β none = v
  next_mean v α β (some m) = if fl.ge v m then weighted α m v else weighted β m v

  abbrev pub mean_or : fl.Float → Option fl.Float → fl.Float
  mean_or f none = f
  mean_or f (some m) = m

  -- What is stored next, if a value is, and the answer.
  abbrev pub answer : Call → Mean → Answer
  answer (updates v) m = float (next_mean v m.default_alpha m.default_beta m.mean)
  answer (updates_alpha v α) m = float (next_mean v α α m.mean)
  answer (updates_duration v) m =
      duration (fl.to_int (next_mean (fl.of_int v) m.default_alpha m.default_beta m.mean))
  answer (sets v) m = nothing
  answer (sets_duration v) m = nothing
  answer clears m = nothing
  answer gets m = float (mean_or m.default_value m.mean)
  answer gets_duration m = duration (fl.to_int (mean_or m.default_value m.mean))

  abbrev pub stored : Call → Mean → Option fl.Float
  stored (updates v) m = some (next_mean v m.default_alpha m.default_beta m.mean)
  stored (updates_alpha v α) m = some (next_mean v α α m.mean)
  stored (updates_duration v) m =
      some (next_mean (fl.of_int v) m.default_alpha m.default_beta m.mean)
  stored (sets v) m = some v
  stored (sets_duration v) m = some (fl.of_int v)
  stored clears m = none
  stored gets m = none
  stored gets_duration m = none

  abbrev pub clears_mean : Call → Bool
  clears_mean clears = true
  clears_mean c = false

  abbrev pub store : Call → Option fl.Float → Mean → Mean
  store c (some f) m = record m { mean = some (kept f) }
  store c none m = if clears_mean c then record m { mean = none } else m

  unfoldable pub answers : List Call → Mean → List Answer
  answers [] m = []
  answers (c ∷ cs) m = answer c m ∷ answers cs (store c (stored c m) m)

  -- No value that is stored scales to the integer that stands for no value.
  abbrev pub Scales : Option fl.Float → Type 0
  Scales none = Unit
  Scales (some f) = ¬ (thousandths f ≡ negsuc (2 ^ 63 - 1))

  unfoldable pub ScalesAll : List Call → Mean → Type 0
  ScalesAll [] m = Unit
  ScalesAll (c ∷ cs) m = Scales (stored c m) × ScalesAll cs (store c (stored c m) m)

  -- Before the first value.
  abbrev pub start : fl.Float → fl.Float → fl.Float → Mean
  start default_value default_alpha default_beta = record {
    default_alpha = default_alpha;
    default_beta = default_beta;
    default_value = default_value;
    mean = none;
  }

  is_unset-false : (i : ℤ) → ¬ (i ≡ negsuc (2 ^ 63 - 1)) → is_unset i ≡ false
  is_unset-false (pos n) h = refl
  is_unset-false (negsuc n) h = elim (Bool-cases (n == 2 ^ 63 - 1)) [
    | inl e ↦ absurd (h (ap negsuc (ground arith)))
    | inr e ↦ e
  ]

  -- The mean that an average holds.
  abbrev pub mean_of : Ema fl.Float → Mean
  mean_of e = record {
    default_alpha = e.default_alpha;
    default_beta = e.default_beta;
    default_value = e.default_value;
    mean = if is_unset e.v then none else some (fl.div (fl.of_int e.v) (fl.of_int (pos 1000)));
  }

  update_alpha_beta-next_mean :
      (v α β : fl.Float) (e : Ema fl.Float)
      → (update_alpha_beta fl v α β e).1 ≡ next_mean v α β (mean_of e).mean
  unfolding update_alpha_beta mix scale_from_int
  update_alpha_beta-next_mean v α β e = elim (Bool-cases (is_unset e.v)) [
    | inl u ↦ rw u refl
    | inr u ↦ rw u refl
  ]

  get-mean_or : (e : Ema fl.Float) → get fl e ≡ mean_or e.default_value (mean_of e).mean
  unfolding get scale_from_int
  get-mean_or e = elim (Bool-cases (is_unset e.v)) [ inl u ↦ rw u refl | inr u ↦ rw u refl ]

  -- Storing a value that scales keeps what scaling keeps of it.
  mean_of-scaled :
      (f : fl.Float) (e : Ema fl.Float)
      → ¬ (thousandths f ≡ negsuc (2 ^ 63 - 1))
      → mean_of (record e { v = scale_to_int fl f }) ≡ record (mean_of e) { mean = some (kept f) }
  unfolding scale_to_int
  mean_of-scaled f e h = let known = is_unset-false (thousandths f) h in rw known refl

  step-answer : (c : Call) (e : Ema fl.Float) → (step c e).1 ≡ answer c (mean_of e)
  unfolding step update_alpha update update_duration get_duration
  step-answer (updates v) e =
      ap float (update_alpha_beta-next_mean v e.default_alpha e.default_beta e)
  step-answer (updates_alpha v α) e = ap float (update_alpha_beta-next_mean v α α e)
  step-answer (updates_duration v) e =
      ap (λ f. duration (fl.to_int f))
        (update_alpha_beta-next_mean (fl.of_int v) e.default_alpha e.default_beta e)
  step-answer (sets v) e = refl
  step-answer (sets_duration v) e = refl
  step-answer clears e = refl
  step-answer gets e = ap float (get-mean_or e)
  step-answer gets_duration e = ap (λ f. duration (fl.to_int f)) (get-mean_or e)

  updated-mean :
      (v α β : fl.Float) (e : Ema fl.Float)
      → ¬ (thousandths (next_mean v α β (mean_of e).mean) ≡ negsuc (2 ^ 63 - 1))
      → mean_of (update_alpha_beta fl v α β e).0
        ≡ record (mean_of e) { mean = some (kept (next_mean v α β (mean_of e).mean)) }
  unfolding update_alpha_beta
  updated-mean v α β e h =
      ap (λ f. mean_of (record e { v = scale_to_int fl f })) (update_alpha_beta-next_mean v α β e)
      ∙ mean_of-scaled (next_mean v α β (mean_of e).mean) e h

  step-mean :
      (c : Call) (e : Ema fl.Float)
      → Scales (stored c (mean_of e))
      → mean_of (step c e).0 ≡ store c (stored c (mean_of e)) (mean_of e)
  unfolding step update_alpha update update_duration set set_duration clear
  step-mean (updates v) e h = updated-mean v e.default_alpha e.default_beta e h
  step-mean (updates_alpha v α) e h = updated-mean v α α e h
  step-mean (updates_duration v) e h = updated-mean (fl.of_int v) e.default_alpha e.default_beta e h
  step-mean (sets v) e h = mean_of-scaled v e h
  step-mean (sets_duration v) e h = mean_of-scaled (fl.of_int v) e h
  step-mean clears e h = refl
  step-mean gets e h = refl
  step-mean gets_duration e h = refl

  run-mean :
      (cs : List Call) (e : Ema fl.Float)
      → ScalesAll cs (mean_of e)
      → (run cs e).1 ≡ answers cs (mean_of e)
  unfolding run answers ScalesAll
  run-mean [] e h = refl
  run-mean (c ∷ cs) e (h, k) =
      let m = step-mean c e h in
      ap (λ a. a ∷ (run cs (step c e).0).1) (step-answer c e)
      ∙ ap (λ r. answer c (mean_of e) ∷ r)
          (run-mean cs (step c e).0 (subst (ScalesAll cs) (sym m) k) ∙ ap (answers cs) m)

  -- Through any calls on a new average, by which no value is stored that scales to the integer for
  -- no value, the least one of 64 bits, it answers as the mean of its values does: the first value
  -- after the start or a `Clear` is the mean; each other one v makes (1 - w) m + w v of the mean m,
  -- of which three decimal places were kept, where w is alpha if v is not below m, and else beta;
  -- `Set` replaces the mean, and without one `Get` gives the default.
  pub run-answers :
      (cs : List Call) (default_value default_alpha default_beta : fl.Float)
      → ScalesAll cs (start default_value default_alpha default_beta)
      → (run cs (new_with_beta fl default_value default_alpha default_beta)).1
        ≡ answers cs (start default_value default_alpha default_beta)
  unfolding new_with_beta
  run-answers cs default_value default_alpha default_beta h =
      run-mean cs (new_with_beta fl default_value default_alpha default_beta) h
