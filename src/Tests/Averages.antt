-- ===== src/Tests/Averages.antt =====
-- A moving average at concrete values: whole numbers stand for the floats, α is one and β zero.
use plampshade.Base.{ℕ, ◌+◌, ◌-◌, ◌*◌, ◌/◌, ◌^◌, ◌≡◌, List, [], ◌∷◌, leb}
use plampshade.Base.Int.{pos, negsuc}
use plampshade.Ema.{Floats, new_with_beta, scale_to_int, scale_from_int, mix}
use plampshade.Ema.Mean.{
  Call, updates, sets, clears, gets, updates_duration, nothing, float, duration, ScalesAll, run,
  answers, run-answers,
}

abbrev whole : Floats
whole = record {
  Float = ℕ;
  add = ◌+◌;
  sub = ◌-◌;
  mul = ◌*◌;
  div = ◌/◌;
  ge = λ x y. leb y x;
  of_int = λ i. elim i [ pos n ↦ n | negsuc n ↦ 0 ];
  to_int = pos;
}

abbrev calls : List (Call whole)
calls =
    gets
    ∷ (updates 5
        ∷ (updates 3
            ∷ (updates_duration (pos 8) ∷ (gets ∷ (sets 3 ∷ (gets ∷ (clears ∷ (gets ∷ []))))))))

known : {n : ℕ} → ¬ (pos n ≡ negsuc (2 ^ 63 - 1))
known e = cc

run-answers_example :
    (run whole calls (new_with_beta whole 7 1 0)).1
    ≡ float 7
      ∷ (float 5
          ∷ (float 5
              ∷ (duration (pos 8)
                  ∷ (float 8 ∷ (nothing ∷ (float 3 ∷ (nothing ∷ (float 7 ∷ []))))))))
unfolding new_with_beta scale_to_int scale_from_int mix answers ScalesAll
run-answers_example =
    run-answers whole calls 7 1 0
      (tt, (known, (known, (known, (tt, (known, (tt, (tt, (tt, tt)))))))))
