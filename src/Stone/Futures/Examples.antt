-- ===== src/Stone/Futures/Examples.antt =====
-- `FutureList` and `FuturePtr` at concrete futures.
use recommender.Prelude.{◌+◌, true, false, some, none, [], ◌∷◌, if◌then◌else◌, ◌==◌}
use recommender.Run.{ok}
use recommender.Stone.Closure.{FunctionClosure}
use recommender.Stone.Futures.Closures.{
  FutureOps, FutureClass, set_callback, lifetime, lifetime-once,
}
use recommender.Prelude.{ℕ, ◌+◌, ◌-◌, ◌≡◌, refl, List, [], ◌∷◌, ◌==◌, if◌then◌else◌, at_put}
use recommender.Stone.Futures.{FutureList, clear}
use recommender.Stone.Futures.Pointers.{Owners, Action, act}
use recommender.Stone.Futures.Queue.{Call, IsQueue, serve, serve-answers, clear-IsQueue}
use recommender.Stone.IntrusiveList.Doubly.{Nodes}

abbrev two_ends : FutureList
two_ends = record { head = 1; tail = 2 }

abbrev fresh : Nodes
fresh = clear (record { prev = λ p. 0; next = λ p. 0 }) two_ends

abbrev calls : List Call
calls =
    Call.push_back_call 5
    ∷ (Call.push_back_call 6 ∷ (Call.remove_front_call ∷ (Call.push_back_call 5 ∷ [])))

serve-answers_example :
    (m : Nodes) × (serve fresh two_ends calls ≡ ok (m, 5 ∷ [])) × IsQueue m two_ends (6 ∷ (5 ∷ []))
serve-answers_example = serve-answers calls fresh two_ends [] (clear-IsQueue _ two_ends refl) (
  refl,
  (refl, (refl, tt)),
  (refl, (refl, (refl, (refl, tt))), (refl, (refl, (refl, (refl, tt))), tt)),
)

-- The counts themselves.
abbrev ref : (ℕ → ℕ) → ℕ → ℕ → ℕ
ref s f = at_put s f (s f + 1)

abbrev unref : (ℕ → ℕ) → ℕ → ℕ → ℕ
unref s f = at_put s f (s f - 1)

abbrev count : (ℕ → ℕ) → ℕ → ℕ
count s f = s f

-- Two pointers, to the futures 5 and 6, of which 5 is referred to by other code too.
abbrev owners : Owners (ℕ → ℕ)
owners = record {
  store = λ f. if f == 5 then 2 else if f == 6 then 1 else 0;
  pointer = λ i. i + 5;
  held = λ f. if f == 5 then 1 else 0;
}

abbrev assigned : Owners (ℕ → ℕ)
assigned = act ref unref count owners (Action.assigning 0 1)

-- A future that counts its completions, and that takes no callback.
abbrev counting : FutureOps ℕ
counting = record {
  wait = λ f timeout. (true, f);
  is_completed = λ f. true;
  get_state = λ f. f;
  complete = λ f state. (f + 1, true);
  reset = λ f. 0;
  set_completion_callback = λ f. (f, false, false);
  unref = λ f. f + 100;
}

abbrev increment : FunctionClosure ℕ (Unit {0}) [] []
increment = record { del = true; m_func = λ args s. (s + 1, tt); m_args = tt }

abbrev base : FutureClass ℕ
base = record { m_future = 0; m_completion_callback = 0 }

lifetime-once_example :
    lifetime counting []
      (record { base = base; has_closure = true })
      (record { state = 5; object = some increment })
      2
    ≡ ok (102, record { state = 6; object = none })
lifetime-once_example = lifetime-once counting [] increment base 5 2

-- The callback that was there is lost, and the new one is not kept.
set_callback-refused :
    set_callback counting (record base { m_completion_callback = 64 }) 128 ≡ (base, false, [])
unfolding set_callback
set_callback-refused = refl
