-- ===== src/Ops.antt =====
-- ops/ops.go: operations with a context, their failure and their reports. Keys and goroutine ids
-- are numbers, as in Context; `id` is the goroutine that calls.
pub mod Nesting
pub mod Root
pub mod Ending
use plampshade.Base.{
  ℕ, Bool, true, false, List, [], ◌∷◌, ◌++◌, Option, none, some, ◌==◌, if◌then◌else◌,
}
use plampshade.Context.{
  Value, put_dynamic, put_global_dynamic, manager_as_map, Context, Entry, static, plain, Manager,
  new_manager, lookup, insert, defined, deref, enter, exit_context, put, put_if_absent, put_global,
  fill_map, as_map,
}

abbrev pub op_key : ℕ
op_key = 0

abbrev pub root_op_key : ℕ
root_op_key = 1

abbrev pub error_key : ℕ
error_key = 2

-- An `error`: the number of its concrete type, its text, and what it fills in if it is a
-- `Contextual`.
pub record Failure {ℓ} (V : Type ℓ) : Type ℓ where
  pub concrete_type : ℕ
  pub text : V
  pub fills : List (ℕ × V)

-- `op`; its context is a number in the heap of the manager.
pub record Op {ℓ} (V : Type ℓ) : Type ℓ where
  pub ctx : ℕ
  pub canceled : Bool
  pub failure : Option (Failure V)

-- A call of a reporter, by the number of the reporter.
pub record Report {ℓ} (V : Type ℓ) : Type ℓ where
  pub reporter : ℕ
  pub reported : Option (Failure V)
  pub values : List (ℕ × V)

-- The variables of the package, and what the reporters were called with.
pub record Ops {ℓ} (V : Type ℓ) : Type ℓ where
  pub cm : Manager V
  pub reporters : List ℕ
  pub reports : List (Report V)

-- A Go panic, or a value.
pub data Outcome {ℓ} (A : Type ℓ) : Type ℓ where
  returned : A → Outcome A
  panicked : Outcome A

module _ {ℓ} {V : Type ℓ} where
  unfoldable pub register_reporter : ℕ → Ops V → Ops V
  register_reporter r ops = record ops { reporters = ops.reporters ++ (r ∷ []) }

  -- `Begin` on the goroutine `id`.
  unfoldable pub begin : ℕ → V → Ops V → Ops V × Op V
  begin id name ops =
      let (cm, c) = enter id ops.cm in
      let cm' = put c op_key (static (plain name)) cm in
      (
        record ops { cm = put_if_absent c root_op_key (static (plain name)) cm' },
        record { ctx = c; canceled = false; failure = none },
      )

  -- `Begin` of an op enters on the goroutine that its context is of. A context that is not in the
  -- heap does not occur.
  unfoldable pub begin_under : Op V → V → Ops V → Ops V × Op V
  begin_under o name ops = elim (deref o.ctx ops.cm.heap) [
    | none ↦ (ops, o)
    | some ctx ↦ begin ctx.id name ops
  ]

  unfoldable pub cancel : Op V → Op V
  cancel o = record o { canceled = true }

  -- `Set`, by the entry.
  unfoldable pub set : Op V → ℕ → Entry V → Ops V → Ops V
  set o key value ops = record ops { cm = put o.ctx key value ops.cm }

  abbrev set_dynamic : Op V → ℕ → Value V → Ops V → Ops V
  set_dynamic o key now ops = record ops { cm = put_dynamic o.ctx key now ops.cm }

  -- `SetGlobal`, by the entry.
  unfoldable pub set_global : ℕ → Entry V → Ops V → Ops V
  set_global key value ops = record ops { cm = put_global key value ops.cm }

  abbrev set_global_dynamic : ℕ → Value V → Ops V → Ops V
  set_global_dynamic key now ops = record ops { cm = put_global_dynamic key now ops.cm }

  -- `AsMap` of the package on the goroutine `id`; `own` is what its argument fills in.
  abbrev pub current_as_map : ℕ → List (ℕ × V) → Bool → Ops V → List (ℕ × V)
  current_as_map id own include_globals ops = manager_as_map id own include_globals ops.cm

  -- `atomic.Value.Store` panics at a value of another concrete type than the one it holds.
  unfoldable pub store : Option (Failure V) → Failure V → Outcome (Option (Failure V))
  store none e = returned (some e)
  store (some old) e = if old.concrete_type == e.concrete_type then returned (some e) else panicked

  unfoldable pub fail_if : Option (Failure V) → Op V → Outcome (Op V)
  fail_if none o = returned o
  fail_if (some e) o = elim (store o.failure e) [
    | panicked ↦ panicked
    | returned failure ↦ returned (record o { failure = failure })
  ]

  -- What `End` gives to the reporters.
  unfoldable pub report_values : Op V → Ops V → List (ℕ × V)
  report_values o ops = elim o.failure [
    | none ↦ as_map (some o.ctx) [] true ops.cm
    | some e ↦
        let values = as_map (some o.ctx) (fill_map e.fills []) true ops.cm in
        if defined (lookup error_key values) then values else insert error_key e.text values
  ]

  unfoldable pub report_all : List ℕ → Option (Failure V) → List (ℕ × V) → List (Report V)
  report_all [] failure values = []
  report_all (r ∷ rs) failure values =
      record { reporter = r; reported = failure; values = values } ∷ report_all rs failure values

  unfoldable pub end_op : Op V → Ops V → Ops V
  end_op o ops = if o.canceled then ops else record ops {
    reports = ops.reports ++ report_all ops.reporters o.failure (report_values o ops);
    cm = exit_context o.ctx ops.cm;
  }
