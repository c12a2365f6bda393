-- ===== src/Stone/Futures/Closures.antt =====
-- apsara/stone/threading/sync/future.h: `FutureClass`, which hands its calls on to a future, and
-- `FutureClosure`. The code of `Future` is in the binary: its functions are parameters, on a state that
-- they change. A callback is its address, and 0 is the null pointer.
use recommender.Prelude.{
  ℕ, zero, suc, ◌≡◌, refl, arith, Bool, true, false, Option, none, some, List, [], ◌∷◌, ◌==◌,
  if◌then◌else◌, Bool-cases, inl, inr, ne→==, ◌∙◌,
}
use recommender.Run.{Run, ok, aborted, ◌>>=◌}
use recommender.Stone.Closure.{
  both_args, FunctionClosure, run_function, is_auto_delete, delete_closure, self_delete,
}

-- The virtual functions of `Future`, and `Unref`. `wait` gives its answer and the state that it stores;
-- `set_completion_callback` is called with the `FutureClass` itself, and gives its answer and whether it
-- has called the `OnFutureComplete` of that one meanwhile.
pub record FutureOps (F : Type 0) : Type 0 where
  pub wait : F → ℕ → Bool × ℕ
  pub is_completed : F → Bool
  pub get_state : F → ℕ
  pub complete : F → ℕ → F × Bool
  pub reset : F → F
  pub set_completion_callback : F → F × Bool × Bool
  pub unref : F → F

pub record FutureClass (F : Type 0) : Type 0 where
  pub m_future : F
  pub m_completion_callback : ℕ

module _ {F : Type 0} (ops : FutureOps F) where
  -- `FutureClass(future)`; a null pointer is `none`.
  unfoldable pub create_class : Option F → Run (FutureClass F)
  create_class none = aborted
  create_class (some f) = ok (record { m_future = f; m_completion_callback = 0 })

  -- `~FutureClass()`, and what it leaves of the future.
  unfoldable pub close_class : FutureClass F → F
  close_class c = ops.unref c.m_future

  unfoldable pub wait_class : FutureClass F → ℕ → Bool × ℕ
  wait_class c timeout = ops.wait c.m_future timeout

  unfoldable pub is_completed_class : FutureClass F → Bool
  is_completed_class c = ops.is_completed c.m_future

  unfoldable pub get_state_class : FutureClass F → ℕ
  get_state_class c = ops.get_state c.m_future

  unfoldable pub complete_class : FutureClass F → ℕ → FutureClass F × Bool
  complete_class c state =
      let (f, done) = ops.complete c.m_future state in (record c { m_future = f }, done)

  unfoldable pub reset_class : FutureClass F → FutureClass F
  reset_class c = record c { m_future = ops.reset c.m_future }

-- `OnFutureComplete`: the callbacks that it calls.
unfoldable pub on_future_complete : {F : Type 0} → FutureClass F → List ℕ
on_future_complete c = if c.m_completion_callback == 0 then [] else c.m_completion_callback ∷ []

module _ {F : Type 0} (ops : FutureOps F) where
  -- `SetCompletionCallback`: its answer, and the callbacks that were called meanwhile. The callback is
  -- written first.
  unfoldable pub set_callback : FutureClass F → ℕ → FutureClass F × Bool × List ℕ
  unfolding on_future_complete
  set_callback c callback =
      let written = record c { m_completion_callback = callback } in
      let (f, accepted, at_once) = ops.set_completion_callback written.m_future in
      let called = if at_once then on_future_complete written else [] in
      if accepted
      then (record written { m_future = f }, true, called)
      else (record { m_future = f; m_completion_callback = 0 }, false, called)

-- `FutureClosure<A1>`: the base, and the argument of the last `Run`.
pub record ArgFutureClosure (F A : Type 0) : Type 0 where
  pub base : FutureClass F
  pub m_a1 : A

unfoldable pub run_arg :
    {F A : Type 0} → FutureOps F → ArgFutureClosure F A → A → ArgFutureClosure F A
unfolding complete_class
run_arg ops c a1 = record { base = (complete_class ops c.base 0).0; m_a1 = a1 }

-- `FutureClosure<void>`: the base, and whether `mClosure` is not null.
pub record FutureClosure (F : Type 0) : Type 0 where
  pub base : FutureClass F
  pub has_closure : Bool

self_delete-if :
    {C : Type 0} (del : Bool) (c : C) → self_delete del (some c) ≡ (if del then none else some c)
self_delete-if true c = refl
self_delete-if false c = refl

-- The state that the functions change, and the closure that was handed over, if it still lives.
pub record World (S : Type 0) (As : List (Type 0)) : Type 0 where
  pub state : S
  pub object : Option (FunctionClosure S (Unit {0}) As [])

module _ {F : Type 0} (ops : FutureOps F) where
  -- The future after `n` completions.
  abbrev pub completed : ℕ → F → F
  completed zero f = f
  completed (suc n) f = completed n (ops.complete f 0).0

module _ {F S : Type 0} (ops : FutureOps F) (As : List (Type 0)) where
  unfoldable pub run_held : FutureClosure F → World S As → Run (FutureClosure F × World S As)
  run_held c w =
      if c.has_closure
      then (do
        (r, o) ← run_function As [] w.object tt w.state
        ok (record c { has_closure = false }, record { state = r.0; object = o }))
      else ok (c, w)

  -- `Run()`
  unfoldable pub run_closure : FutureClosure F → World S As → Run (FutureClosure F × World S As)
  unfolding run_held complete_class
  run_closure c w = do
    (c', w') ← run_held c w
    ok (record c' { base = (complete_class ops c'.base 0).0 }, w')

  -- `~FutureClosure()`: what it leaves of the future, and the world.
  unfoldable pub close_closure : FutureClosure F → World S As → Run (F × World S As)
  unfolding close_class
  close_closure c w =
      if c.has_closure
      then (do
        del ← is_auto_delete As [] w.object
        o ← if del then delete_closure w.object else ok w.object
        ok (close_class ops c.base, record w { object = o }))
      else ok (close_class ops c.base, w)

  -- `n` calls of `Run`, and the destructor.
  unfoldable pub lifetime : FutureClosure F → World S As → ℕ → Run (F × World S As)
  unfolding run_closure close_closure
  lifetime c w zero = close_closure c w
  lifetime c w (suc n) = do (c', w') ← run_closure c w; lifetime c' w' n

  lifetime-done :
      (b : FutureClass F) (w : World S As) (n : ℕ)
      → lifetime (record { base = b; has_closure = false }) w n
        ≡ ok (ops.unref (completed ops n b.m_future), w)
  unfolding lifetime run_closure run_held close_closure close_class complete_class
  lifetime-done b w zero = refl
  lifetime-done b w (suc n) =
      lifetime-done (record b { m_future = (ops.complete b.m_future 0).0 }) w n

  -- A `FutureClosure` runs its closure at the first of any number of calls of `Run`, or never if there is
  -- none, completes its future at each, and gives it back in its destructor; and at the end a closure that
  -- deletes itself was deleted, once, and another one lives.
  pub lifetime-once :
      (c : FunctionClosure S (Unit {0}) As []) (b : FutureClass F) (s : S) (n : ℕ)
      → lifetime (record { base = b; has_closure = true }) (record { state = s; object = some c }) n
        ≡ ok (
          ops.unref (completed ops n b.m_future),
          record {
            state = if n == 0 then s else (c.m_func (both_args As [] c.m_args tt) s).0;
            object = if c.del then none else some c;
          },
        )
  unfolding lifetime run_closure run_held close_closure close_class complete_class is_auto_delete
      run_function
  lifetime-once c b s zero = elim (Bool-cases c.del) [ inl e ↦ rw e refl | inr e ↦ rw e refl ]
  lifetime-once c b s (suc n) =
      lifetime-done (complete_class ops b 0).0
        (record {
          state = (c.m_func (both_args As [] c.m_args tt) s).0;
          object = self_delete c.del (some c);
        })
        n
      ∙ rw (ne→== (suc n) 0 (omega arith), self_delete-if c.del c) refl
