-- ===== src/Stone/LockFree/FreeList/Examples.antt =====
-- The free list with two objects and two threads.
use mathlib.Core.Option.{some-injective, none-ne-some}
use recommender.Prelude.{
  ℕ, zero, suc, ◌≡◌, refl, arith, true, List, [], ◌∷◌, ◌++◌, ◌==◌, ◌<◌, inl, inr, Bool-cases,
  length,
}
use recommender.Stone.LockFree.{get_pointer, get_tag, make_tagged}
use recommender.Stone.LockFree.FreeList.{
  Event, act, step, run, call, create, link_of, object_of, get_size, is_empty, is_outside,
}
use recommender.Stone.LockFree.Ledger.{no_calls}
use recommender.Stone.LockFree.FreeList.Calls.{ledger, AllAccord}
use recommender.Stone.LockFree.FreeList.Interleaving.{IsFree, tick}
use recommender.Stone.LockFree.FreeList.Runs.{
  fresh, start, IsAllowed, Outcome, history, applied, create-Performs,
}
use recommender.Stone.LockFree.FreeList.Sizes.{AreBelow, get_size-length}

abbrev links : ℕ → ℕ
links x = 7

abbrev both : List Event
both = Event.advance 0 ∷ Event.advance 1 ∷ []

-- Two threads push at the same time, and one exchange fails; then one of them pops.
abbrev schedule : List Event
schedule =
    Event.call_push 0 64
    ∷ Event.call_push 1 128
    ∷ (both
        ++ (both
            ++ (both
                ++ (both
                    ++ (both
                        ++ (both
                            ++ (both
                                ++ (Event.call_pop 0 ∷ (both ++ (both ++ (both ++ both)))))))))))

history-schedule : ◌≡◌ {A = List ℕ} (applied [] (history 8 (fresh links) schedule)) (64 ∷ [])
unfolding history act step call create get_pointer get_tag make_tagged link_of object_of
history-schedule = refl

first-IsFree : IsFree (fresh links) [] 64
unfolding create
first-IsFree = record { out = (tt, (omega arith, omega arith)); unowned = λ u. none-ne-some _ }

second-IsFree : IsFree (act 8 (fresh links) (Event.call_push 0 64)) [] 128
unfolding act call create
second-IsFree = record {
  out = (tt, (omega arith, omega arith));
  unowned = λ u. elim (Bool-cases (0 == u)) [
    | inl e ↦ rw e (λ q. absurd (omega (arith, some-injective _ _ q)))
    | inr e ↦ rw e (none-ne-some _)
  ];
}

schedule-IsAllowed : IsAllowed 8 (fresh links) start [] schedule
unfolding act step call create get_pointer get_tag make_tagged link_of object_of tick
schedule-IsAllowed = (
  λ e. first-IsFree,
  (
    λ e. second-IsFree,
    (
      tt,
      (
        tt,
        (
          tt,
          (
            tt,
            (
              tt,
              (
                tt,
                (
                  tt,
                  (
                    tt,
                    (
                      tt,
                      (
                        tt,
                        (
                          tt,
                          (
                            tt,
                            (tt, (tt, (tt, (tt, (tt, (tt, (omega arith, (tt, (tt, (tt, tt)))))))))),
                          ),
                        ),
                      ),
                    ),
                  ),
                ),
              ),
            ),
          ),
        ),
      ),
    ),
  ),
)

create-Performs_example :
    Outcome 8 [] (history 8 (fresh links) schedule) (run 8 (fresh links) schedule)
    × AllAccord (run 8 (fresh links) schedule) (ledger 8 (fresh links) no_calls schedule)
create-Performs_example = create-Performs 8 links schedule schedule-IsAllowed

schedule-AreBelow : AreBelow 2 schedule
schedule-AreBelow = omega arith

all_outside : (t : ℕ) → t < 2 → is_outside ((run 8 (fresh links) schedule).thread t) ≡ true
unfolding run act step call create get_pointer get_tag make_tagged link_of object_of
all_outside zero lt = refl
all_outside (suc zero) lt = refl
all_outside (suc (suc t)) lt = absurd (omega arith)

get_size-length_example :
    let s = (run 8 (fresh links) schedule).list in
    let c = applied [] (history 8 (fresh links) schedule) in
    (get_size s ≡ length c) × (is_empty s ≡ (length c == 0))
get_size-length_example =
    get_size-length 8 links 2 schedule schedule-IsAllowed schedule-AreBelow all_outside
      (rw history-schedule (omega arith))
