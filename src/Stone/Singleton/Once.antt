-- ===== src/Stone/Singleton/Once.antt =====
-- The singleton while the program runs: threads that race for it make one object.
use recommender.Prelude.{
  ℕ, ◌≡◌, refl, ◌∙◌, sym, ap, arith, true, false, Option, none, some, inl, inr, List, [], ◌∷◌, ◌==◌,
  ==→≡, ==-refl, at_put, Bool-cases,
}
use mathlib.Core.Path.{subst}
use mathlib.Core.Option.{some-injective}
use recommender.Stone.Singleton.{
  MutexOps, Singleton, Pc, step, System, Event, act, run, is_outside, create,
}
use recommender.Stone.Singleton.Steps.{
  IsMutex, is_inside, is_publishing, Knows, Steps, quiet-Steps, IsRunning,
}
use recommender.Stone.Singleton.Race.{step-Steps, IsReady}

outside-quiet : (q : Pc) → is_inside q ≡ false → is_publishing q ≡ false
outside-quiet (Pc.publishing p) e = cc e
outside-quiet q e = refl

module _ {M : Type 0} where
  module _ (holder : M → Option ℕ) where
    pub record IsOnce (m : System M) : Type 0 where
      pub inside : (t : ℕ) → is_inside (m.thread t) ≡ true → holder m.shared.mutex ≡ some t
      pub knows : (t : ℕ) → Knows m.shared (m.thread t)
      pub made : (m.shared.instance_ == 0) ≡ false → m.shared.objects ≡ (m.shared.instance_ ∷ [])
      pub settled :
          ((t : ℕ) → is_publishing (m.thread t) ≡ false)
          → m.shared.instance_ ≡ 0
          → m.shared.objects ≡ []

  module _ (holder : M → Option ℕ) where
    create-IsOnce : (initial : M) → IsOnce holder (create initial)
    unfolding create
    create-IsOnce initial = record {
      inside = λ t x. cc x;
      knows = λ t. tt;
      made = λ x. cc x;
      settled = λ quiet z. refl;
    }

    -- No other thread has the mutex.
    alone :
        (m : System M) (t u : ℕ)
        → IsOnce holder m
        → (t == u) ≡ false
        → is_inside (m.thread t) ≡ true
        → is_inside (m.thread u) ≡ false
    alone m t u h ne in_ = elim (Bool-cases (is_inside (m.thread u))) [
      | inr e ↦ e
      | inl e ↦
          absurd (ground (arith, ne, some-injective t u (sym (h.inside t in_) ∙ h.inside u e)))
    ]

  module _ (ops : MutexOps M) (holder : M → Option ℕ) (law : IsMutex ops holder) where
    ready :
        (m : System M) (t : ℕ) → IsOnce holder m → IsReady ops holder law m.shared t (m.thread t)
    ready m t h = record {
      knows = h.knows t;
      inside = h.inside t;
      made = h.made;
      empty = λ in_ quiet. h.settled (λ u. elim (Bool-cases (t == u)) [
        | inl e ↦ rw (← ==→≡ t u e) quiet
        | inr e ↦ outside-quiet (m.thread u) (alone holder m t u h e in_)
      ]);
    }

    moved-IsOnce :
        (m : System M) (t : ℕ) (r : Singleton M × Pc)
        → IsOnce holder m
        → Steps holder m.shared t (m.thread t) r
        → IsOnce holder (record { shared = r.0; thread = at_put m.thread t r.1 })
    moved-IsOnce m t r h w = record {
      inside = λ u. elim (Bool-cases (t == u)) [
        | inl e ↦ rw e (λ in_. w.own in_ ∙ ap some (==→≡ t u e))
        | inr e ↦ rw e (λ in_. w.held u e (h.inside u in_))
      ];
      knows = λ u. elim (Bool-cases (t == u)) [
        | inl e ↦ rw e w.knows
        | inr e ↦ rw e (w.others (m.thread u) (alone holder m t u h e) (h.knows u))
      ];
      made = w.made;
      settled = λ quiet.
          w.settled
            (λ no z.
              h.settled
                (λ u. elim (Bool-cases (t == u)) [
                  | inl e ↦ rw (← ==→≡ t u e) no
                  | inr e ↦ still u e (quiet u)
                ])
                z)
            (mine (quiet t));
    }
      where
        still :
            (u : ℕ)
            → (t == u) ≡ false
            → is_publishing (at_put m.thread t r.1 u) ≡ false
            → is_publishing (m.thread u) ≡ false
        still u e q =
            let same : at_put m.thread t r.1 u ≡ m.thread u = rw e refl in
            ap is_publishing (sym same) ∙ q

        mine : is_publishing (at_put m.thread t r.1 t) ≡ false → is_publishing r.1 ≡ false
        mine q =
            let same : at_put m.thread t r.1 t ≡ r.1 = rw (==-refl t) refl in
            ap is_publishing (sym same) ∙ q

    call-IsOnce :
        (m : System M) (t : ℕ) → IsOnce holder m → IsOnce holder (act ops m (Event.call_instance t))
    unfolding act
    call-IsOnce m t h = elim (Bool-cases (is_outside (m.thread t))) [
      | inl e ↦ rw e (
          moved-IsOnce m t (m.shared, Pc.first_test) h
            (quiet-Steps holder m.shared m.shared t (m.thread t) Pc.first_test refl refl
              (calm (m.thread t) e) h.made tt (λ x. cc x) (λ u ne x. x)))
      | inr e ↦ rw e h
    ]
      where
        calm : (q : Pc) → is_outside q ≡ true → is_publishing q ≡ false
        calm (Pc.publishing p) e = cc e
        calm q e = refl

    advance-IsOnce :
        (m : System M) (t new : ℕ)
        → IsOnce holder m
        → (new == 0) ≡ false
        → IsOnce holder (act ops m (Event.advance t new))
    unfolding act
    advance-IsOnce m t new h ne =
        moved-IsOnce m t (step ops m.shared t (m.thread t) new) h
          (step-Steps ops holder law m.shared t (m.thread t) new (ready m t h) ne)

    run-IsOnce :
        (es : List Event) (m : System M)
        → IsOnce holder m
        → IsRunning es
        → IsOnce holder (run ops m es)
    unfolding run
    run-IsOnce [] m h w = h
    run-IsOnce (Event.call_instance t ∷ es) m h w =
        run-IsOnce es (act ops m (Event.call_instance t)) (call-IsOnce m t h) w
    run-IsOnce (Event.call_destroy t ∷ es) m h w = absurd w
    run-IsOnce (Event.advance t new ∷ es) m h (ne, w) =
        run-IsOnce es (act ops m (Event.advance t new)) (advance-IsOnce m t new h ne) w

  -- However many threads call `Instance`, in any order of their steps, before the program ends: each
  -- call that returns gives the same object, which is not null, and which is the only object that was
  -- constructed. The mutex is as POSIX describes it, free at the start, and `new` returns no null
  -- pointer.
  pub returned-once :
      (ops : MutexOps M) (holder : M → Option ℕ)
      → IsMutex ops holder
      → (initial : M) (es : List Event) (t p : ℕ) → holder initial ≡ none
      → IsRunning es
      → (run ops (create initial) es).thread t ≡ Pc.returned p
      → ((p == 0) ≡ false) × ((run ops (create initial) es).shared.objects ≡ (p ∷ []))
  returned-once ops holder law initial es t p free w e =
      let h = run-IsOnce ops holder law es (create initial) (create-IsOnce holder initial) w in
      let ((ne, one), same) = subst (Knows (run ops (create initial) es).shared) e (h.knows t) in
      (rw same ne, one ∙ ap (λ x. x ∷ []) (sym same))
