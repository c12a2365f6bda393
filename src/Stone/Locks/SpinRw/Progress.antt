-- ===== src/Stone/Locks/SpinRw/Progress.antt =====
-- `SpinRWLock`: the threads can always go on so that one that waits gets the lock.
use recommender.Prelude.{
  ==→≡, ℕ, zero, suc, ◌^◌, ◌≤◌, ◌<◌, ◌≡◌, refl, ◌∙◌, sym, ap, inl, inr, arith, Bool, true, false,
  List, [], ◌∷◌, ◌++◌, ◌==◌, ==-refl, total-zero, Bool-cases,
}
use recommender.Stone.Locks.SpinRw.{
  Pc, outside, refused, read_sub, read_add, reading, write_sub, write_add, writing, System, Event,
  create, step, unlock, act, run,
}
use recommender.Stone.Locks.SpinRw.Exclusion.{
  AreBelow, thread_of, run-IsExclusive, create-IsExclusive,
}
use recommender.Stone.Locks.SpinRw.Quota.{charge, max_threads}

-- What a thread that is about to try gets: the lock to read or to write.
abbrev pub granted : Pc → Pc
granted (read_sub l) = reading
granted (write_sub l) = writing
granted pc = pc

abbrev pub is_trying : Pc → Bool
is_trying (read_sub l) = true
is_trying (write_sub l) = true
is_trying _ = false

-- What a thread does to give back what it took.
abbrev settle : Pc → ℕ → Event
settle (read_add l) k = Event.advance k
settle (write_add l) k = Event.advance k
settle _ k = Event.release k

thread_of-settle : (pc : Pc) (k : ℕ) → thread_of (settle pc k) ≡ k
thread_of-settle pc k = ground arith

act-settle :
    (m : System) (k : ℕ) (pc : Pc)
    → m.thread k ≡ pc
    → (charge ((act m (settle pc k)).thread k) ≡ 0)
      × (is_trying pc ≡ true → (act m (settle pc k)).thread k ≡ pc)
      × ((j : ℕ) → (k == j) ≡ false → (act m (settle pc k)).thread j ≡ m.thread j)
unfolding act step unlock
act-settle m k (read_add true) at = (rw (==-refl k, at), λ f. cc, λ j ne. rw ne)
act-settle m k (read_add false) at = (rw (==-refl k, at), λ f. cc, λ j ne. rw ne)
act-settle m k (write_add true) at = (rw (==-refl k, at), λ f. cc, λ j ne. rw ne)
act-settle m k (write_add false) at = (rw (==-refl k, at), λ f. cc, λ j ne. rw ne)
act-settle m k (read_sub l) at = (rw (==-refl k, at), λ f. rw (==-refl k, at), λ j ne. rw ne)
act-settle m k (write_sub l) at = (rw (==-refl k, at), λ f. rw (==-refl k, at), λ j ne. rw ne)
act-settle m k outside at = (rw (==-refl k, at), λ f. rw (==-refl k, at), λ j ne. rw ne)
act-settle m k refused at = (rw (==-refl k, at), λ f. rw (==-refl k, at), λ j ne. rw ne)
act-settle m k reading at = (rw (==-refl k, at), λ f. cc, λ j ne. rw ne)
act-settle m k writing at = (rw (==-refl k, at), λ f. cc, λ j ne. rw ne)

-- The first `k` threads give back what they took.
unfoldable settle_all : ℕ → System → List Event
settle_all zero m = []
settle_all (suc k) m = settle (m.thread k) k ∷ settle_all k (act m (settle (m.thread k) k))

settle_all-AreBelow : (n k : ℕ) (m : System) → k ≤ n → AreBelow n (settle_all k m)
unfolding settle_all
settle_all-AreBelow n zero m le = tt
settle_all-AreBelow n (suc k) m le =
    (omega (arith, thread_of-settle (m.thread k) k), settle_all-AreBelow n k _ (omega arith))

run-settle_all :
    (n k t : ℕ) (pc : Pc) (m : System)
    → ((j : ℕ) → k ≤ j → j < n → charge (m.thread j) ≡ 0)
    → m.thread t ≡ pc
    → is_trying pc ≡ true
    → ((j : ℕ) → j < n → charge ((run m (settle_all k m)).thread j) ≡ 0)
      × ((run m (settle_all k m)).thread t ≡ pc)
unfolding settle_all run
run-settle_all n zero t pc m settled at trying = (λ j lt. settled j (omega arith) lt, at)
run-settle_all n (suc k) t pc m settled at trying =
    let (gone, kept, others) = act-settle m k (m.thread k) refl in
    run-settle_all n k t pc (act m (settle (m.thread k) k))
      (λ j le lt. elim (Bool-cases (k == j)) [
        | inl e ↦
            ap (λ x. charge ((act m (settle (m.thread k) k)).thread x)) (sym (==→≡ k j e)) ∙ gone
        | inr e ↦ ap charge (others j e) ∙ settled j (ground arith) lt
      ])
      (elim (Bool-cases (k == t)) [
        | inl e ↦
            let same = ap m.thread (==→≡ k t e) in
            ap (λ x. (act m (settle (m.thread k) k)).thread x) (sym (==→≡ k t e))
            ∙ kept (ap is_trying (same ∙ at) ∙ trying)
            ∙ same
            ∙ at
        | inr e ↦ others t e ∙ at
      ])
      trying

run-append : (es fs : List Event) (m : System) → run m (es ++ fs) ≡ run (run m es) fs
unfolding run
run-append [] fs m = refl
run-append (e ∷ es) fs m = run-append es fs (act m e)

AreBelow-append :
    (n : ℕ) (es fs : List Event) → AreBelow n es → AreBelow n fs → AreBelow n (es ++ fs)
AreBelow-append n [] fs h h' = h'
AreBelow-append n (e ∷ es) fs h h' = (h.0, AreBelow-append n es fs (h.1) h')

-- A thread that tries while the quota is whole gets the lock.
grant :
    (m : System) (t : ℕ) (pc : Pc)
    → m.quota ≡ 2 ^ 24
    → m.thread t ≡ pc
    → is_trying pc ≡ true
    → (run m (Event.advance t ∷ [])).thread t ≡ granted pc
unfolding run act step
grant m t (read_sub l) whole at trying = rw (==-refl t, at, whole)
grant m t (write_sub l) whole at trying = rw (==-refl t, at, whole)
grant m t pc whole at trying = cc

-- From every state that at most 129 threads can reach, the lock is not stuck: where a thread is about to
-- try, there are further events of these threads after which it holds the lock, to write if it
-- tries to write and to read if it tries to read.
pub progress :
    (n : ℕ) (es : List Event) (t : ℕ)
    → n ≤ max_threads
    → AreBelow n es
    → t < n
    → is_trying ((run create es).thread t) ≡ true
    → (fs : List Event) × AreBelow n fs
      × ((run create (es ++ fs)).thread t ≡ granted ((run create es).thread t))
progress n es t few among lt trying =
    let m = run create es in
    let back = settle_all n m in
    let below = settle_all-AreBelow n n m (omega arith) in
    let (settled, at) =
      run-settle_all n n t (m.thread t) m (λ j le lt'. absurd (omega arith)) refl trying in
    let i =
      run-IsExclusive back n m few below
        (run-IsExclusive es n create few among (create-IsExclusive n)) in
    let whole : (run m back).quota ≡ 2 ^ 24 =
      omega (arith, i.balance, i.fits, total-zero charge n (run m back).thread settled) in
    (
      back ++ (Event.advance t ∷ []),
      AreBelow-append n back _ below (lt, tt),
      rw
          (
            run-append es (back ++ (Event.advance t ∷ [])) create,
            run-append back (Event.advance t ∷ []) m,
          )
          (grant (run m back) t (m.thread t) whole at trying),
    )
