-- ===== src/Stone/LockFree/Ledger.antt =====
-- What the threads of a lock-free container have asked for, and what their calls have done: for each
-- thread its latest call, and the operations of type `O` that its steps since then took effect with.
use recommender.Prelude.{ℕ, Bool, List, [], ◌++◌, if◌then◌else◌, at_put}

pub data Asked (A : Type 0) : Type 0 where
  nothing : Asked A
  push_of : A → Asked A
  pop_of : Asked A

pub record Ledger (A O : Type 0) : Type 0 where
  pub asked : ℕ → Asked A
  pub done : ℕ → List O

module _ {A O : Type 0} where
  -- Before any call.
  abbrev pub no_calls : Ledger A O
  no_calls = record { asked = λ t. Asked.nothing; done = λ t. [] }

  -- The thread `t` makes a call, if it is outside.
  abbrev pub note_call : Ledger A O → Bool → ℕ → Asked A → Ledger A O
  note_call l outside t a =
      if outside then record { asked = at_put l.asked t a; done = at_put l.done t [] } else l

  -- A step of the thread `t` takes effect with the operations `os`.
  abbrev pub note_step : Ledger A O → ℕ → List O → Ledger A O
  note_step l t os = record l { done = at_put l.done t (os ++ l.done t) }
