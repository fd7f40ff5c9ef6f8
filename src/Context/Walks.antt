-- ===== src/Context/Walks.antt =====
-- context/context.go: the loop of `Fill` after any calls on a manager.
use mathlib.Core.Path.{subst}
use plampshade.Base.{
  ℕ, ◌<◌, ◌≡◌, refl, List, [], ◌∷◌, some, ◌==◌, if_rule, Option-cases, inl, inr, length, arith,
}
use plampshade.Context.{
  Entry, Context, next, Manager, new_manager, insert, current_context, enter, exit_context, merge,
  start_go, update, put, exists_in, put_if_absent, put_global, fill_context,
}
use plampshade.Context.Fuel.{
  Older, IsRanked, IsValid, Fills, fill_context-Fills, exit_context-IsValid, enter-IsValid,
  branch-IsValid, merge-IsValid,
}

-- The calls that change a manager: `Enter` on a goroutine, `Exit` of a context, the two ends of
-- what `Go` starts on the first goroutine from the second, and the three that put a value.
pub data Call {ℓ} (V : Type ℓ) : Type ℓ where
  enters : ℕ → Call V
  exits : ℕ → Call V
  starts : ℕ → ℕ → Call V
  merges : ℕ → Call V
  puts : ℕ → ℕ → Entry V → Call V
  puts_if_absent : ℕ → ℕ → Entry V → Call V
  puts_global : ℕ → Entry V → Call V

module _ {ℓ} {V : Type ℓ} where
  unfoldable pub step : Call V → Manager V → Manager V
  step (enters id) cm = (enter id cm).0
  step (exits c) cm = exit_context c cm
  step (starts id me) cm = start_go id me cm
  step (merges id) cm = merge id cm
  step (puts c key value) cm = put c key value cm
  step (puts_if_absent c key value) cm = put_if_absent c key value cm
  step (puts_global key value) cm = put_global key value cm

  unfoldable pub run : List (Call V) → Manager V → Manager V
  run [] cm = cm
  run (c ∷ cs) cm = run cs (step c cm)

  abbrev with_entry : ℕ → Entry V → Context V → Context V
  with_entry key value ctx = record ctx { data_of = insert key value ctx.data_of }

  length-update :
      (n key : ℕ) (value : Entry V) (heap : List (Context V))
      → length (update n (with_entry key value) heap) ≡ length heap
  unfolding update
  length-update n key value [] = refl
  length-update n key value (c ∷ heap) = ground (arith, length-update n key value heap)

  update-IsRanked :
      (n key : ℕ) (value : Entry V) (heap : List (Context V))
      → IsRanked heap
      → IsRanked (update n (with_entry key value) heap)
  unfolding update next
  update-IsRanked n key value [] r = tt
  update-IsRanked n key value (c ∷ heap) (o, r) =
      if_rule IsRanked (length heap == n) (λ e. (o, r))
        (λ e. (rw (length-update n key value heap) o, update-IsRanked n key value heap r))

  put-IsValid :
      (c key : ℕ) (value : Entry V) (cm : Manager V) → IsValid cm → IsValid (put c key value cm)
  unfolding put
  put-IsValid c key value cm v = record {
    ranked = update-IsRanked c key value cm.heap v.ranked;
    known = λ id. rw (length-update c key value cm.heap) (v.known id);
  }

  start_go-IsValid : (id me : ℕ) (cm : Manager V) → IsValid cm → IsValid (start_go id me cm)
  unfolding start_go
  start_go-IsValid id me cm v = elim (Option-cases (current_context me cm)) [
    | inl e ↦ rw (e, start_go) v
    | inr (c, e) ↦
        let known : c < length cm.heap = subst (Older (length cm.heap)) e (v.known me) in
        rw (e, start_go) (branch-IsValid id c cm known v)
  ]

  step-IsValid : (c : Call V) (cm : Manager V) → IsValid cm → IsValid (step c cm)
  unfolding step put_if_absent put_global
  step-IsValid (enters id) cm v = enter-IsValid id cm v
  step-IsValid (exits c) cm v = exit_context-IsValid c cm v
  step-IsValid (starts id me) cm v = start_go-IsValid id me cm v
  step-IsValid (merges id) cm v = merge-IsValid id cm v
  step-IsValid (puts c key value) cm v = put-IsValid c key value cm v
  step-IsValid (puts_if_absent c key value) cm v =
      if_rule IsValid (exists_in (length cm.heap) key (some c) cm.heap) (λ e. v)
        (λ e. put-IsValid c key value cm v)
  step-IsValid (puts_global key value) cm v = record { ranked = v.ranked; known = v.known }

  run-IsValid : (cs : List (Call V)) (cm : Manager V) → IsValid cm → IsValid (run cs cm)
  unfolding run
  run-IsValid [] cm v = v
  run-IsValid (c ∷ cs) cm v = run-IsValid cs (step c cm) (step-IsValid c cm v)

  -- Whatever calls were made on a new manager, in any order and on any goroutines: the loop of
  -- `Fill` over the contexts of a goroutine ends, from any map, and with the map that the walk
  -- returns for which one round for each context is allowed.
  pub fill_context-run :
      (id : ℕ) (cs : List (Call V)) (m : List (ℕ × V))
      → let cm = run cs new_manager in
        Fills cm.heap
          (current_context id cm)
          m
          (fill_context (length cm.heap) (current_context id cm) cm.heap m)
  fill_context-run id cs m =
      fill_context-Fills id (run cs new_manager) m
        (run-IsValid cs new_manager (record { ranked = tt; known = λ j. tt }))
