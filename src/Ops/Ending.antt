-- ===== src/Ops/Ending.antt =====
-- The end of an op, canceled or not, and its failure.
use plampshade.Base.{
  ℕ, ◌≡◌, refl, sym, ap, ◌∙◌, Bool, true, List, [], ◌∷◌, ◌++◌, append-nil, Option, none, some, ◌==◌,
  ◌&&◌, if◌then◌else◌, ==_iff, Bool-cases, inl, inr,
}
use plampshade.Context.{current_context, Entry, lookup, insert, enter, exit_context}
use plampshade.Context.Filling.{lookup-insert}
use plampshade.Ops.{
  Ops, Op, Failure, Outcome, returned, panicked, begin, set, end_op, report_all, report_values,
  store, fail_if,
}
use plampshade.Ops.Nesting.{
  Keeps, Keeps_trans, set_all, set_all-Keeps, begin-Keeps, enter-contexts, leave-enter, calls,
  each_with, calls-append, calls-report_all,
}

module _ {ℓ} {V : Type ℓ} where
  set_all-reports :
      (sets : List (ℕ × Entry V)) (o : Op V) (ops : Ops V)
      → ((set_all sets o ops).reports ≡ ops.reports)
        × ((set_all sets o ops).reporters ≡ ops.reporters)
  unfolding set_all set
  set_all-reports [] o ops = (refl, refl)
  set_all-reports ((key, value) ∷ sets) o ops = set_all-reports sets o (set o key value ops)

  -- Begin an op on the goroutine `id`, set values, fail or cancel it, and end it: each goroutine
  -- has its context back, and each reporter was called once, in turn, with the failure. A
  -- canceled op reports nothing, but its context stays the current_context one of the goroutine.
  pub end_op-begin :
      (id j : ℕ) (name : V) (sets : List (ℕ × Entry V)) (o : Op V) (ops : Ops V)
      → o.ctx ≡ (begin id name ops).1.ctx
      → (current_context j (end_op o (set_all sets o (begin id name ops).0)).cm
          ≡ (if o.canceled && (id == j) then some o.ctx else current_context j ops.cm))
        × (calls (end_op o (set_all sets o (begin id name ops).0)).reports
            ≡ calls ops.reports ++ (if o.canceled then [] else each_with o.failure ops.reporters))
  unfolding end_op begin
  end_op-begin id j name sets o ops at =
      let ops1 = (begin id name ops).0 in
      let ops2 = set_all sets o ops1 in
      let entered = (enter id ops.cm).0 in
      let kept : Keeps entered ops2.cm =
        Keeps_trans entered ops1.cm ops2.cm (begin-Keeps id name ops) (set_all-Keeps sets o ops1) in
      let (same, reporters) = set_all-reports sets o ops1 in
      let values = report_values o ops2 in
      let contexts : ops2.cm.contexts ≡ insert id o.ctx ops.cm.contexts =
        kept.currents ∙ enter-contexts id ops.cm ∙ ap (λ c. insert id c ops.cm.contexts) (sym at) in
      elim (Bool-cases o.canceled) [
        | inl e ↦ simp e (
          ap (lookup j) contexts ∙ lookup-insert id j o.ctx ops.cm.contexts,
          ap calls same ∙ sym (append-nil (calls ops.reports)),
        )
        | inr e ↦ simp e (
          ap (λ c. current_context j (exit_context c ops2.cm)) at
              ∙ leave-enter id j ops.cm ops2.cm kept,
          calls-append ops2.reports (report_all ops2.reporters o.failure values)
              ∙ ap (λ rs. calls rs ++ calls (report_all ops2.reporters o.failure values)) same
              ∙ ap (λ cs. calls ops.reports ++ cs)
                  (calls-report_all ops2.reporters o.failure values
                    ∙ ap (each_with o.failure) reporters),
        )
      ]

module _ {ℓ} {V : Type ℓ} where
  -- `FailIf` with each error in turn.
  unfoldable pub fail_all : List (Failure V) → Op V → Outcome (Op V)
  fail_all [] o = returned o
  fail_all (e ∷ es) o = elim (fail_if (some e) o) [
    | panicked ↦ panicked
    | returned failed ↦ fail_all es failed
  ]

  abbrev pub all_of : ℕ → List (Failure V) → Bool
  all_of t [] = true
  all_of t (e ∷ es) = t == e.concrete_type && all_of t es

  abbrev pub last_of : Failure V → List (Failure V) → Failure V
  last_of e [] = e
  last_of e (f ∷ es) = last_of f es

  fail_all-later :
      (e : Failure V) (es : List (Failure V)) (o : Op V)
      → o.failure ≡ some e
      → fail_all es o ≡ (
          if all_of e.concrete_type es
          then returned (record o { failure = some (last_of e es) })
          else panicked)
  unfolding fail_all fail_if store
  fail_all-later e [] o h = ap (λ (f : Option (Failure V)). returned (record o { failure = f })) h
  fail_all-later e (f ∷ es) o h = elim (Bool-cases (e.concrete_type == f.concrete_type)) [
    | inl q ↦
        let same : e.concrete_type ≡ f.concrete_type = (==_iff _ _).0 q in
        rw (h, q, fail_all)
          (fail_all-later f es (record o { failure = some f }) refl
            ∙ ap
                (λ t.
                  if all_of t es
                  then returned (record o { failure = some (last_of f es) })
                  else panicked)
                (sym same))
    | inr q ↦ rw (h, q, fail_all) refl
  ]

  -- An op without a failure that is given errors, one or more: if all of them are of the concrete
  -- type of the first, the last one is its failure; else the program panics.
  pub fail_all-latest :
      (e : Failure V) (es : List (Failure V)) (o : Op V)
      → o.failure ≡ none
      → fail_all (e ∷ es) o ≡ (
          if all_of e.concrete_type es
          then returned (record o { failure = some (last_of e es) })
          else panicked)
  unfolding fail_all fail_if store
  fail_all-latest e es o h =
      rw (h, fail_all) (fail_all-later e es (record o { failure = some e }) refl)
