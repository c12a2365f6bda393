-- ===== src/Stone/LockFree/FreeList/Runs.antt =====
-- The runs of the free list, and sequences of operations on a list.
use mathlib.Core.Path.{subst}
use mathlib.Core.Option.{none-ne-some, some-injective}
use recommender.Prelude.{at_put, ℕ, ◌≡◌, refl, sym, ap, true, none, List, [], ◌∷◌, ◌++◌}
use recommender.Stone.LockFree.Ledger.{no_calls}
use recommender.Stone.LockFree.{get_pointer, get_tag}
use recommender.Stone.LockFree.FreeList.{
  Pc, create, step, System, Event, call, act, run, is_outside,
}
use recommender.Stone.LockFree.FreeList.Calls.{operation, ledger, AllAccord, run-AllAccord}
use recommender.Stone.LockFree.FreeList.Interleaving.{
  Clock, tick, IsConsistent, IsFree, moved-IsConsistent, called-IsConsistent,
  overwrite-IsConsistent,
}
use recommender.Stone.LockFree.FreeList.Moves.{Effect, Moves}
use recommender.Stone.LockFree.FreeList.Refinement.{counted, read_at, IsTimely, step-Moves}
use recommender.Stone.LockFree.Stack.Linear.{Operation, Performs, Performs-append}

abbrev pub tail : List ℕ → List ℕ
tail [] = []
tail (x ∷ xs) = xs

-- What an operation makes of the objects on the list.
abbrev pub applied : List ℕ → List (Operation ℕ) → List ℕ
applied c [] = c
applied c (Operation.push x ∷ os) = applied (x ∷ c) os
applied c (Operation.pop x ∷ os) = applied (tail c) os
applied c (Operation.pop_empty ∷ os) = applied c os

pub Effect-applied :
    (pc pc' : Pc) (c c' : List ℕ) → Effect pc pc' c c' → applied c (operation pc pc') ≡ c'
Effect-applied (Pc.push_exchange x h) Pc.push_size c c' e = sym e
Effect-applied (Pc.pop_exchange h n) (Pc.pop_size x) c c' e = ap tail e
Effect-applied Pc.pop_head (Pc.popped none) c c' e = sym (e.0)
Effect-applied pc pc' c c' e = sym e

Effect-Performs :
    (pc pc' : Pc) (c c' : List ℕ) → Effect pc pc' c c' → Performs c (operation pc pc') c'
Effect-Performs (Pc.push_exchange x h) Pc.push_size c c' e = e
Effect-Performs (Pc.pop_exchange h n) (Pc.pop_size x) c c' e = (c', e, refl)
Effect-Performs Pc.pop_head (Pc.popped none) c c' e = (e.1, e.0)
Effect-Performs pc pc' c c' e = e

-- The list before any call, with any number of threads.
abbrev pub fresh : (ℕ → ℕ) → System
fresh links = record { list = create links; thread = λ t. Pc.idle }

abbrev pub start : Clock
start = record { count = 0; since = λ t. 0 }

module _ (offset : ℕ) where
  -- The operations that a schedule takes effect with.
  unfoldable pub history : System → List Event → List (Operation ℕ)
  history m [] = []
  history m (Event.advance t ∷ es) =
      operation (m.thread t) (step offset m.list (m.thread t)).1
      ++ history (act offset m (Event.advance t)) es
  history m (e ∷ es) = history (act offset m e) es

  -- What the callers and the scheduler owe to a list with the objects `c`: `Push` is called with an
  -- object that is neither on the list nor with another call, an object that is overwritten is such a
  -- one too, and no thread is delayed in `Pop`, between its read of the head and its exchange, by
  -- 2 ^ 16 exchanges.
  abbrev pub IsAllowed : System → Clock → List ℕ → List Event → Type 0
  IsAllowed m k c [] = Unit {0}
  IsAllowed m k c (Event.call_push t x ∷ es) =
      (is_outside (m.thread t) ≡ true → IsFree m c x)
      × IsAllowed (act offset m (Event.call_push t x)) k c es
  IsAllowed m k c (Event.call_pop t ∷ es) = IsAllowed (act offset m (Event.call_pop t)) k c es
  IsAllowed m k c (Event.advance t ∷ es) =
      IsTimely k.count (k.since t) (m.thread t)
      × IsAllowed (act offset m (Event.advance t)) (tick offset m t k)
          (applied c (operation (m.thread t) (step offset m.list (m.thread t)).1)) es
  IsAllowed m k c (Event.overwrite x v ∷ es) =
      IsFree m c x × IsAllowed (act offset m (Event.overwrite x v)) k c es

  -- What a run leaves: a consistent list of the objects `held`, which the operations `os` make of `c`.
  pub record Outcome (c : List ℕ) (os : List (Operation ℕ)) (m : System) : Type 0 where
    pub held : List ℕ
    pub clock : Clock
    pub consistent : IsConsistent offset m clock held
    pub performs : Performs c os held

  pub pushed-IsConsistent :
      (m : System) (k : Clock) (t x : ℕ) (held : List ℕ)
      → IsConsistent offset m k held
      → (is_outside (m.thread t) ≡ true → IsFree m held x)
      → IsConsistent offset (call m t (Pc.push_head x)) k held
  pushed-IsConsistent m k t x held h free =
      called-IsConsistent offset m k t (Pc.push_head x) held h tt
        (λ e y e'. subst (IsFree m held) (some-injective _ _ e') (free e))

  pub popping-IsConsistent :
      (m : System) (k : Clock) (t : ℕ) (held : List ℕ)
      → IsConsistent offset m k held
      → IsConsistent offset (call m t Pc.pop_head) k held
  popping-IsConsistent m k t held h =
      called-IsConsistent offset m k t Pc.pop_head held h tt (λ e y e'. absurd (none-ne-some _ e'))

  module _ (m : System) (k : Clock) (t : ℕ) (held : List ℕ) (h : IsConsistent offset m k held)
      (few : IsTimely k.count (k.since t) (m.thread t)) where
    -- What the next step of the thread `t` leaves.
    abbrev pub advance-Moves :
        Moves offset m.list k.count
          (m.thread t)
          held
          (step offset m.list (m.thread t))
          (counted (m.thread t) (step offset m.list (m.thread t)).1 k.count)
          (read_at (m.thread t) k.count (k.since t))
    advance-Moves = step-Moves offset m.list k.count (k.since t) (m.thread t) held (h.sound t) few

    pub advance-IsConsistent :
        IsConsistent offset (act offset m (Event.advance t)) (tick offset m t k) advance-Moves.held'
    unfolding act tick
    advance-IsConsistent =
        moved-IsConsistent offset m k t _ _ (step offset m.list (m.thread t)) held
          advance-Moves.held' h advance-Moves.sound (λ u ne f. advance-Moves.others (m.thread u) f)

  run-Performs :
      (es : List Event) (m : System) (k : Clock) (held : List ℕ)
      → IsConsistent offset m k held
      → IsAllowed m k held es
      → Outcome held (history m es) (run offset m es)
  unfolding run history act
  run-Performs [] m k held h ok = record { held = held; clock = k; consistent = h; performs = refl }
  run-Performs (Event.call_push t x ∷ es) m k held h ok =
      run-Performs es (call m t (Pc.push_head x)) k held (pushed-IsConsistent m k t x held h (ok.0))
        (ok.1)
  run-Performs (Event.call_pop t ∷ es) m k held h ok =
      run-Performs es (call m t Pc.pop_head) k held (popping-IsConsistent m k t held h) ok
  run-Performs (Event.overwrite x v ∷ es) m k held h (free, ok) =
      run-Performs es (record m { list = record m.list { next = at_put m.list.next x v } }) k held
        (overwrite-IsConsistent offset m k x v held h free) ok
  run-Performs (Event.advance t ∷ es) m k held h (few, ok) =
      let r = step offset m.list (m.thread t) in
      let moves = advance-Moves m k t held h few in
      let same = Effect-applied (m.thread t) r.1 held moves.held' moves.effect in
      let m' = act offset m (Event.advance t) in
      let rest =
        run-Performs es m' (tick offset m t k) moves.held' (advance-IsConsistent m k t held h few)
          (subst (λ c. IsAllowed m' (tick offset m t k) c es) same ok) in
      record {
        held = rest.held;
        clock = rest.clock;
        consistent = rest.consistent;
        performs =
            Performs-append held moves.held' _ (operation (m.thread t) r.1) _
              (Effect-Performs (m.thread t) r.1 held moves.held' moves.effect) rest.performs;
      }

  pub fresh-IsConsistent : (links : ℕ → ℕ) → IsConsistent offset (fresh links) start []
  unfolding create get_pointer get_tag
  fresh-IsConsistent links = record {
    sound = λ t. record {
      chain = refl;
      tag_lem = refl;
      knows = tt;
      owned = λ x e. absurd (none-ne-some x e);
    };
    foreign = λ t u ne x e. absurd (none-ne-some x e);
  }

  -- A free list from its construction on, called by any number of threads, whose steps come in any
  -- order, for any length of time: its objects are at each time what a sequence of operations makes of
  -- the empty list, each at one step of its call. `Push` puts its object on top, `Pop` takes the top off
  -- or finds the list empty. Of these operations a call of `Push` that has returned did one, the push of
  -- its object; a call of `Pop` that has returned an object did one, which took that object off, and one
  -- that has returned none did one, which found the list empty. The objects have addresses in user
  -- space, the one that is pushed is at that time neither on the list nor with another call, the link of
  -- an object is overwritten only where it is neither, and no thread is delayed, between its read of the
  -- head in `Pop` and its exchange, by 2 ^ 16 exchanges of others.
  pub create-Performs :
      (links : ℕ → ℕ) (es : List Event)
      → IsAllowed (fresh links) start [] es
      → Outcome [] (history (fresh links) es) (run offset (fresh links) es)
        × AllAccord (run offset (fresh links) es) (ledger offset (fresh links) no_calls es)
  create-Performs links es ok = (
    run-Performs es (fresh links) start [] (fresh-IsConsistent links) ok,
    run-AllAccord offset es (fresh links) no_calls (λ t. tt),
  )
