-- ===== src/Stone/LockFree/Queue/Fresh.antt =====
-- The lock-free queue from its construction on.
use mathlib.Core.Option.{none-ne-some}
use recommender.Prelude.{
  ℕ, zero, suc, ◌<◌, ◌≡◌, false, ◌==◌, ◌≢◌, refl, ◌∙◌, sym, arith, List, [], ◌∷◌, length,
}
use recommender.Stone.LockFree.{make_tagged, get_pointer, get_tag}
use recommender.Stone.LockFree.Queue.{
  LockFreeQueue, Pc, System, Event, run, construct, null_pointer,
}
use recommender.Stone.LockFree.Ledger.{no_calls}
use recommender.Stone.LockFree.Queue.Calls.{AllAccord, ledger, run-AllAccord}
use recommender.Stone.LockFree.Queue.Invariant.{Ghost, IsLink, IsSound}
use recommender.Stone.LockFree.Queue.Linear.{history}
use recommender.Stone.LockFree.Queue.Positions.{max_position, seq, IsAddress, rank}
use recommender.Stone.LockFree.Queue.Runs.{Outcome, run-Performs, IsNew}
use recommender.Stone.LockFree.Queue.Writes.{put-IsLink}
use recommender.Stone.LockFree.Tags.{get_tag-make_tagged}

-- The queue before any call, with any number of threads.
abbrev pub fresh : {A : Type 0} → LockFreeQueue A → System A
fresh s = record { queue = s; thread = λ t. Pc.idle }

-- No `mPrev` in memory that was not written has the tag of a position but the first.
abbrev pub IsBlank : {A : Type 0} → LockFreeQueue A → Type 0
IsBlank junk = (a i : ℕ) → 0 < i → i < max_position → get_tag (junk.prev a) ≢ seq i

-- One node, whose element is gone.
abbrev one_node : ℕ → Ghost
one_node a = record { at = λ i. a; first = 0; last = 0; free = [] }

null-pointer : get_pointer null_pointer ≡ 0
unfolding get_pointer
null-pointer = refl

null-rank : rank (get_tag null_pointer) ≡ 0
unfolding get_tag
null-rank = refl

last_tag-IsLink : (g : Ghost) (a : ℕ) → IsLink g a (make_tagged a 0xFFFF)
last_tag-IsLink g a i le lt z e =
    absurd (ground (arith, lt, sym e ∙ get_tag-make_tagged a 0xFFFF (omega arith)))

-- A node other than the first one, as `new` gives it.
junk-IsLink :
    {A : Type 0} (junk : LockFreeQueue A) (first a : ℕ)
    → IsBlank junk
    → (first == a) ≡ false
    → IsLink (one_node first) a (junk.prev a)
junk-IsLink junk first a blank_prev ne zero le lt z e = absurd (ground (arith, ne, z refl))
junk-IsLink junk first a blank_prev ne (suc i) le lt z e =
    absurd (blank_prev a (suc i) (omega arith) lt e)

module _ {A : Type 0} (blank : A) where
  construct-IsSound :
      (junk : LockFreeQueue A) (first : ℕ)
      → IsBlank junk
      → IsAddress first
      → IsSound (construct blank junk first) (one_node first) (first ∷ [])
  unfolding construct
  construct-IsSound junk first blank_prev address = record {
    free_chain = null-pointer;
    free_addresses = tt;
    head_word = refl;
    tail_word = refl;
    ordered = omega arith;
    few = omega arith;
    addresses = λ i le. address;
    linked = λ i le lt. absurd (omega (arith, lt));
    links =
        put-IsLink (one_node first) junk.prev first (make_tagged first 0xFFFF)
          (λ a ne. junk-IsLink junk first a blank_prev ne) (last_tag-IsLink (one_node first) first);
    distinct = λ i j le lt le'. absurd (omega (arith, lt, le'));
    apart = λ i le le'. tt;
    in_use = λ a h. (tt, λ i le le'. h.0);
  }

  construct-rank :
      (junk : LockFreeQueue A) (first : ℕ)
      → rank (get_tag (construct blank junk first).free_node_head) ≡ 0
  unfolding construct
  construct-rank junk first = null-rank

  -- A queue that is constructed and then called by any number of threads, whose steps come in any
  -- order, is first in, first out: its contents are at each time what a sequence of operations makes of
  -- the empty queue, each at one step of its call. `Push` puts its element at the end, `Pop` takes the
  -- first element off or finds the queue empty. Of these operations a call of `Push` that has returned
  -- did one, which put its element in; a call of `Pop` that has returned an element took off that one
  -- and no other, and one that has returned none took nothing off and found the queue empty. This holds
  -- if `new` gives addresses, and none twice; if no `mPrev` in the memory that it gives has, before it
  -- is written, the tag of a position but the first, which `new` does not promise but memory of zeros
  -- fulfils; and if the steps are fewer than would bring a tag of 16 bits round.
  pub run-Outcome :
      (junk : LockFreeQueue A) (first : ℕ) (es : List (Event A))
      → IsBlank junk
      → IsAddress first
      → IsNew (first ∷ []) es
      → length es < max_position
      → let m = fresh (construct blank junk first) in
        Outcome [] (history blank m es) (run blank m es)
        × AllAccord (run blank m es) (ledger blank m no_calls es)
  run-Outcome junk first es blank_prev address news short = (
    run-Performs blank es (fresh (construct blank junk first)) (one_node first) (first ∷ [])
        record {
          sound = construct-IsSound junk first blank_prev address;
          knows = λ t. tt;
          owned = λ t k e. absurd (none-ne-some k e);
          foreign = λ t u ne k e. absurd (none-ne-some k e);
        }
        record {
          free_room = omega (arith, construct-rank junk first, short);
          last_room = omega (arith, short);
        }
        news,
    run-AllAccord blank es (fresh (construct blank junk first)) no_calls (λ t. tt),
  )
