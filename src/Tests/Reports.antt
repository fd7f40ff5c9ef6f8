-- ===== src/Tests/Reports.antt =====
-- ops/ops.go at a concrete input: an op on goroutine 4, two reporters, and a failure.
use plampshade.Base.{ℕ, ◌≡◌, ◌≢◌, refl, false, List, [], ◌∷◌, none, some, if_rule, ◌==◌, arith}
use plampshade.Context.{
  current_context, start_go, go, lookup, next, enter, Entry, static, plain, new_manager,
}
use plampshade.Ops.{Ops, Op, Failure, panicked, begin, end_op}
use plampshade.Context.Filling.{stack}
use plampshade.Context.Branching.{value_at, start_go-value_at}
use plampshade.Context.Fuel.{Older, IsValid}
use plampshade.Ops.Root.{Inherits, begin-Inherits}
use plampshade.Ops.Nesting.{set_all, calls}
use plampshade.Ops.Ending.{end_op-begin, fail_all, fail_all-latest}

abbrev two_reporters : Ops ℕ
two_reporters = record { cm = new_manager; reporters = 1 ∷ (2 ∷ []); reports = [] }

abbrev refused : Failure ℕ
refused = record { concrete_type = 5; text = 77; fills = [] }

abbrev failed_op : Op ℕ
failed_op = record { ctx = 0; canceled = false; failure = some refused }

abbrev one_set : List (ℕ × Entry ℕ)
one_set = (9, static (plain 3)) ∷ []

end_op-begin_example :
    (current_context 4 (end_op failed_op (set_all one_set failed_op (begin 4 8 two_reporters).0)).cm
      ≡ none)
    × (calls (end_op failed_op (set_all one_set failed_op (begin 4 8 two_reporters).0)).reports
        ≡ (1, some refused) ∷ ((2, some refused) ∷ []))
unfolding begin enter
end_op-begin_example = end_op-begin 4 4 8 one_set failed_op two_reporters refl

fail_all-latest_example :
    fail_all
      (refused ∷ (record refused { concrete_type = 6 } ∷ []))
      (record failed_op { failure = none })
    ≡ panicked
fail_all-latest_example =
    fail_all-latest refused (record refused { concrete_type = 6 } ∷ [])
      (record failed_op { failure = none }) refl

-- Goroutine 4 is in an op whose name is 8, with another value.
abbrev in_op : Ops ℕ
in_op = record two_reporters {
  cm = record {
    heap =
        record {
          id = 4;
          parent = none;
          branched_from = none;
          data_of = (9, static (plain 3)) ∷ ((1, static (plain 8)) ∷ ((0, static (plain 8)) ∷ []));
        }
        ∷ [];
    contexts = (4, 0) ∷ [];
    global = [];
  };
}

in_op-known : (id : ℕ) → Older 1 (lookup id ((4, 0) ∷ []))
in_op-known id = if_rule (Older 1) (4 == id) (λ e. omega arith) (λ e. tt)

in_op-IsValid : IsValid in_op.cm
unfolding next
in_op-IsValid = record { ranked = (tt, tt); known = in_op-known }

begin-Inherits_example : Inherits 4 5 in_op
unfolding stack next
begin-Inherits_example =
    begin-Inherits 4 5 in_op in_op-IsValid (((3, refl), ((8, refl), ((8, refl), tt))), tt)

start_go-value_at_example :
    ((j : ℕ) → value_at j 7 (start_go 7 4 in_op.cm) ≡ value_at j 4 in_op.cm)
    × ((k : ℕ) → k ≢ 7 → current_context k (start_go 7 4 in_op.cm) ≡ current_context k in_op.cm)
    × ((k : ℕ) → current_context k (go 7 4 (λ cm. cm) in_op.cm) ≡ current_context k in_op.cm)
unfolding stack next
start_go-value_at_example =
    start_go-value_at 7 4 in_op.cm (λ cm. cm) in_op-IsValid refl
      (((3, refl), ((8, refl), ((8, refl), tt))), tt) (λ k. refl)
