-- ===== src/Stone/LockFree/Queue/Examples.antt =====
-- The lock-free queue with two threads.
use recommender.Prelude.{
  ℕ, suc, zero, ◌+◌, ◌^◌, ◌%◌, ◌≡◌, refl, inl, arith, Bool, true, false, ◌&&◌, not, some, List, [],
  ◌∷◌, ◌++◌, ◌==◌, if◌then◌else◌, ltb, ltb→lt,
}
use recommender.Stone.IntrusiveList.Sequence.{Absent}
use recommender.Stone.LockFree.{make_tagged, get_tag, get_pointer, get_next_tag, get_prev_tag}
use recommender.Stone.LockFree.Queue.{LockFreeQueue, Pc, Event, act, System, construct, run, step}
use recommender.Stone.LockFree.Queue.Alone.{alone, push-returns}
use recommender.Stone.LockFree.Ledger.{no_calls}
use recommender.Stone.LockFree.Queue.Calls.{AllAccord, ledger}
use recommender.Stone.LockFree.Queue.Fresh.{fresh, IsBlank, run-Outcome}
use recommender.Stone.LockFree.Queue.Linear.{Operation, history}
use recommender.Stone.LockFree.Queue.Progress.{IsUnlinked, is_searching, pop-waiting}
use recommender.Stone.LockFree.Queue.Runs.{Outcome, IsNew}

-- Memory whose `mPrev` fields hold one word.
abbrev memory : ℕ → LockFreeQueue ℕ
memory w = record {
  prev = λ a. w;
  next = λ a. 5;
  next_free_node = λ a. 6;
  value = λ a. if a == 992 then 77 else 9;
  size = 4;
  head = 3;
  tail = 2;
  free_node_head = 1;
}

memory-IsBlank : IsBlank (memory 0)
unfolding get_tag
memory-IsBlank a i pos lt e = ground (arith, e)

both : (b c : Bool) → (b && c) ≡ true → (b ≡ true) × (c ≡ true)
both true c h = (refl, h)
both false c h = cc h

not-true : (b : Bool) → not b ≡ true → b ≡ false
not-true true h = cc h
not-true false h = refl

abbrev absent : ℕ → List ℕ → Bool
absent a [] = true
absent a (x ∷ xs) = not (a == x) && absent a xs

absent-Absent : (a : ℕ) (xs : List ℕ) → absent a xs ≡ true → Absent a xs
absent-Absent a [] h = tt
absent-Absent a (x ∷ xs) h =
    let (e, h') = both (not (a == x)) (absent a xs) h in
    (not-true (a == x) e, absent-Absent a xs h')

abbrev is_new : List ℕ → List (Event ℕ) → Bool
is_new used [] = true
is_new used (Event.advance t a ∷ es) =
    not (a == 0) && (ltb a (2 ^ 47) && (absent a used && is_new (a ∷ used) es))
is_new used (Event.call_push t v ∷ es) = is_new used es
is_new used (Event.call_pop t ∷ es) = is_new used es

is_new-IsNew : (used : List ℕ) (es : List (Event ℕ)) → is_new used es ≡ true → IsNew used es
is_new-IsNew used [] h = tt
is_new-IsNew used (Event.advance t a ∷ es) h =
    let (e, h1) =
      both (not (a == 0)) (ltb a (2 ^ 47) && (absent a used && is_new (a ∷ used) es)) h in
    let (lt, h2) = both (ltb a (2 ^ 47)) (absent a used && is_new (a ∷ used) es) h1 in
    let (out, rest) = both (absent a used) (is_new (a ∷ used) es) h2 in
    (
      (not-true (a == 0) e, inl (ltb→lt a (2 ^ 47) lt)),
      absent-Absent a used out,
      is_new-IsNew (a ∷ used) es rest,
    )
is_new-IsNew used (Event.call_push t v ∷ es) h = is_new-IsNew used es h
is_new-IsNew used (Event.call_pop t ∷ es) h = is_new-IsNew used es h

-- Steps of one thread, with addresses from `a` on.
abbrev steps : ℕ → ℕ → ℕ → List (Event ℕ)
steps t a zero = []
steps t a (suc n) = Event.advance t a ∷ steps t (a + 16) n

-- A thread pushes two elements, and another pops one of them while it is at the second.
abbrev schedule : List (Event ℕ)
schedule =
    Event.call_push 0 7
    ∷ (steps 0 1024 7
        ++ (Event.call_push 0 8 ∷ (steps 0 2048 5 ++ (Event.call_pop 1 ∷ steps 1 4096 12))))

schedule-news : is_new (64 ∷ []) schedule ≡ true
schedule-news = refl

run-Outcome_example :
    Outcome []
      (history 0 (fresh (construct 0 (memory 0) 64)) schedule)
      (run 0 (fresh (construct 0 (memory 0) 64)) schedule)
    × AllAccord
        (run 0 (fresh (construct 0 (memory 0) 64)) schedule)
        (ledger 0 (fresh (construct 0 (memory 0) 64)) no_calls schedule)
run-Outcome_example =
    run-Outcome 0 (memory 0) 64 schedule memory-IsBlank (refl, inl (omega arith))
      (is_new-IsNew (64 ∷ []) schedule schedule-news) (omega arith)

history-schedule :
    history 0 (fresh (construct 0 (memory 0) 64)) schedule
    ≡ Operation.enqueue 7 ∷ Operation.enqueue 8 ∷ Operation.dequeue 7 ∷ []
unfolding history act step construct get_pointer get_tag get_next_tag get_prev_tag make_tagged
history-schedule = refl

-- A thread stops before it writes the `mPrev` of the node that was the last, which `new` left with the
-- tag that `Pop` looks for: `Pop` returns what stands at the address in it.
abbrev stopped : List (Event ℕ)
stopped =
    Event.call_push 0 7
    ∷ (steps 0 1024 7
        ++ (Event.call_push 1 8
            ∷ (steps 1 2048 5
                ++ (Event.call_pop 0 ∷ (steps 0 4096 12 ++ (Event.call_pop 0 ∷ steps 0 8192 12))))))

run-stopped :
    (run 0 (fresh (construct 0 (memory (make_tagged 992 1)) 64)) stopped).thread 0
    ≡ Pc.popped (some 77)
unfolding run act step construct get_pointer get_tag get_next_tag get_prev_tag make_tagged
run-stopped = refl

-- Two elements go through the queue, so that its node is one that was free; then a thread stops in
-- `Push` before it writes the `mPrev` of that node, and another calls `Pop`.
abbrev recycled : List (Event ℕ)
recycled =
    Event.call_push 0 5
    ∷ (steps 0 1024 7
        ++ (Event.call_pop 0
            ∷ (steps 0 2048 12
                ++ (Event.call_push 0 6
                    ∷ (steps 0 4096 9
                        ++ (Event.call_pop 0
                            ∷ (steps 0 8192 12
                                ++ (Event.call_push 1 7
                                    ∷ (steps 1 16384 7 ++ (Event.call_pop 0 ∷ []))))))))))

abbrev stalled : System ℕ
stalled = run 0 (fresh (construct 0 (memory 0xdead000000000000) 64)) recycled

stalled-IsUnlinked : IsUnlinked stalled.queue
unfolding run act step construct get_pointer get_tag get_next_tag get_prev_tag make_tagged
stalled-IsUnlinked = record { filled = refl; invalid = refl }

stalled-pop_head : stalled.thread 0 ≡ Pc.pop_head
unfolding run act step construct get_pointer get_tag get_next_tag get_prev_tag make_tagged
stalled-pop_head = refl

pop-waiting_example :
    ((run 0 stalled (steps 0 32768 6)).queue ≡ stalled.queue)
    × (is_searching ((run 0 stalled (steps 0 32768 6)).thread 0) ≡ true)
pop-waiting_example =
    pop-waiting 0 (steps 0 32768 6) stalled 0 (refl, (refl, (refl, (refl, (refl, (refl, tt))))))
      stalled-IsUnlinked stalled-pop_head

-- While that thread stands still, a third one calls `Push`.
abbrev pushing : System ℕ
pushing = act 0 stalled (Event.call_push 2 9)

pushing-acquire_head : pushing.thread 2 ≡ Pc.acquire_head 9
unfolding run act step construct get_pointer get_tag get_next_tag get_prev_tag make_tagged
pushing-acquire_head = refl

abbrev addresses : List ℕ
addresses = 32 ∷ 48 ∷ 80 ∷ 96 ∷ 112 ∷ 128 ∷ 144 ∷ 160 ∷ 176 ∷ []

push-returns_example :
    (run 0 pushing (alone 0 2 addresses)).thread 2 ≡ Pc.pushed ((pushing.queue.size + 1) % 2 ^ 64)
push-returns_example = push-returns 0 pushing 2 9 addresses pushing-acquire_head (omega arith)
