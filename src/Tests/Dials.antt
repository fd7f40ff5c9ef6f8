-- ===== src/Tests/Dials.antt =====
-- dialer.go and context/context.go at concrete inputs.
use plampshade.Base.{List, ℕ, ◌≡◌, refl, true, [], ◌∷◌, none, some, arith}
use plampshade.Dialer.{redial, Dialer, new_dialer, new_session, session_started, receive_session}
use plampshade.Dialer.Counts.{
  redials, receives, starts, Reachable, fresh, then_step, IsCounted, Reachable-IsCounted,
}
use plampshade.Context.{
  fill_context, next, Manager, static, dynval, plain, as_map, lookup, new_manager, enter,
  exit_context, exit, start_go, branch, make_context, put, update, insert, remove,
}
use plampshade.Context.Filling.{stack, lookup-as_map}
use plampshade.Context.Fuel.{Fills}
use plampshade.Context.Walks.{Call, enters, puts, starts, exits, run, step, fill_context-run}

-- A second session is started while a dial has the first one.
abbrev busy : Dialer
busy = receive_session true 0 [] (session_started (some 7) (redial (new_dialer 2)))

busy-Reachable : Reachable 2 busy
unfolding receive_session new_session new_dialer redial session_started
busy-Reachable =
    then_step _ busy
      (then_step _ (session_started (some 7) (redial (new_dialer 2)))
        (then_step (new_dialer 2) _ fresh (redials (new_dialer 2)))
        (starts (some 7) 0 (redial (new_dialer 2)) refl))
      (receives true 0 [] (session_started (some 7) (redial (new_dialer 2))) refl)

Reachable-IsCounted_example : IsCounted 2 busy
Reachable-IsCounted_example = Reachable-IsCounted 2 busy (omega arith) busy-Reachable

-- Goroutine 4 has a context with key 1, inside of one with the keys 1 and 2.
abbrev nested_contexts : Manager ℕ
nested_contexts = record {
  heap =
      record {
        id = 4;
        parent = some 0;
        branched_from = none;
        data_of = (1, static (plain 10)) ∷ [];
      }
      ∷ (record {
        id = 4;
        parent = none;
        branched_from = none;
        data_of = (1, static (plain 20)) ∷ ((2, dynval (plain 30)) ∷ []);
      }
          ∷ []);
  contexts = (4, 1) ∷ [];
  global = (3, static (plain 40)) ∷ [];
}

lookup-as_map_example : lookup 2 (as_map (some 1) [] true nested_contexts) ≡ some 30
unfolding stack next
lookup-as_map_example =
    lookup-as_map 2 (some 1) [] true nested_contexts
      (((10, refl), tt), (((20, refl), ((30, refl), tt)), tt)) ((40, refl), tt)

-- Two contexts, one of a goroutine that was started from the other's.
abbrev branched_calls : List (Call ℕ)
branched_calls =
    enters 4
    ∷ (puts 0 1 (static (plain 10))
        ∷ (starts 7 4 ∷ (puts 1 2 (dynval (plain 30)) ∷ (enters 7 ∷ (exits 2 ∷ [])))))

abbrev branched : Manager ℕ
branched = run branched_calls new_manager

fill_context-run_example :
    Fills branched.heap (some 1) [] (fill_context 3 (some 1) branched.heap [])
unfolding run step enter exit_context exit start_go branch make_context put update insert remove
fill_context-run_example = fill_context-run 7 branched_calls []
