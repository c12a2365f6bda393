-- ===== src/Stone/Singleton/Race.antt =====
-- The steps of the singleton, one by one.
use recommender.Prelude.{
  ℕ, ◌+◌, ◌≡◌, refl, ◌∙◌, sym, ap, arith, true, false, Option, some, inl, inr, [], ◌∷◌, ◌==◌, ==→≡,
  Bool-cases, Option-cases,
}
use mathlib.Core.Option.{some-injective, none-ne-some}
use recommender.Stone.Singleton.{
  MutexOps, Singleton, Pc, step, check_pthread_error, scoped_lock, scoped_unlock,
}
use recommender.Stone.Singleton.Steps.{
  IsMutex, is_inside, is_publishing, Knows, Knows-none, Steps, quiet-Steps, branch-Steps,
}

module _ {M : Type 0} where
  module _ (ops : MutexOps M) (holder : M → Option ℕ) (law : IsMutex ops holder) where
    -- What is needed before a step of the thread `t`.
    pub record IsReady (s : Singleton M) (t : ℕ) (pc : Pc) : Type 0 where
      pub knows : Knows s pc
      pub inside : is_inside pc ≡ true → holder s.mutex ≡ some t
      pub made : (s.instance_ == 0) ≡ false → s.objects ≡ (s.instance_ ∷ [])
      pub empty : is_inside pc ≡ true → is_publishing pc ≡ false → s.instance_ ≡ 0 → s.objects ≡ []

    lock-Steps :
        (s : Singleton M) (t new : ℕ)
        → IsReady s t Pc.locking
        → Steps holder s t Pc.locking (step ops s t Pc.locking new)
    unfolding step scoped_lock check_pthread_error
    lock-Steps s t new i = elim (Option-cases (ops.lock s.mutex t)) [
      | inl e ↦
          rw (step, scoped_lock, e)
            (quiet-Steps holder s s t Pc.locking Pc.locking refl refl refl i.made tt (λ h. cc h)
              (λ u ne h. h))
      | inr ((status, m), e) ↦
          let (zero, free, mine) = law.lock_lem s.mutex m t status e in
          rw (step, scoped_lock, e, check_pthread_error, zero)
            (quiet-Steps holder s (record s { mutex = m }) t Pc.locking Pc.second_test refl refl
              refl i.made tt (λ h. mine) (λ u ne h. absurd (none-ne-some u (sym free ∙ h))))
    ]

    unlock-Steps :
        (s : Singleton M) (t new : ℕ)
        → IsReady s t Pc.unlocking
        → Steps holder s t Pc.unlocking (step ops s t Pc.unlocking new)
    unfolding step scoped_unlock check_pthread_error
    unlock-Steps s t new i =
        let mine : holder s.mutex ≡ some t = i.inside refl in
        let (zero, free) = law.unlock_lem s.mutex t mine in
        rw zero (
          quiet-Steps holder s (record s { mutex = (ops.unlock s.mutex t).1 }) t Pc.unlocking
            Pc.reading refl refl refl i.made i.knows (λ h. cc h)
            (λ u ne h. absurd (other t u ne (some-injective t u (sym mine ∙ h)))))
      where
        other : (a b : ℕ) → (a == b) ≡ false → a ≡ b → ⊥
        other a b ne e = ground (arith, ne, e)

    pub step-Steps :
        (s : Singleton M) (t : ℕ) (pc : Pc) (new : ℕ)
        → IsReady s t pc
        → (new == 0) ≡ false
        → Steps holder s t pc (step ops s t pc new)
    unfolding step
    step-Steps s t Pc.first_test new i ne = elim (Bool-cases (s.instance_ == 0)) [
      | inl e ↦ rw e (
          quiet-Steps holder s s t Pc.first_test Pc.locking refl refl refl i.made tt (λ h. cc h)
            (λ u ne' h. h))
      | inr e ↦ rw e (
          quiet-Steps holder s s t Pc.first_test Pc.reading refl refl refl i.made (e, i.made e)
            (λ h. cc h) (λ u ne' h. h))
    ]
    step-Steps s t Pc.locking new i ne = lock-Steps s t new i
    step-Steps s t Pc.second_test new i ne = elim (Bool-cases (s.instance_ == 0)) [
      | inl e ↦ rw e (
          quiet-Steps holder s s t Pc.second_test Pc.test_destroyed refl refl refl i.made
            (==→≡ _ _ e, i.empty refl refl (==→≡ _ _ e)) (λ h. i.inside refl) (λ u ne' h. h))
      | inr e ↦ rw e (
          quiet-Steps holder s s t Pc.second_test Pc.unlocking refl refl refl i.made (e, i.made e)
            (λ h. i.inside refl) (λ u ne' h. h))
    ]
    step-Steps s t Pc.test_destroyed new i ne =
        branch-Steps holder s t Pc.test_destroyed s.destroyed (s, Pc.clear_destroyed)
          (s, Pc.constructing)
          (quiet-Steps holder s s t Pc.test_destroyed Pc.clear_destroyed refl refl refl i.made
            i.knows (λ h. i.inside refl) (λ u ne' h. h))
          (quiet-Steps holder s s t Pc.test_destroyed Pc.constructing refl refl refl i.made i.knows
            (λ h. i.inside refl) (λ u ne' h. h))
    step-Steps s t Pc.clear_destroyed new i ne =
        quiet-Steps holder s (record s { destroyed = false }) t Pc.clear_destroyed Pc.constructing
          refl refl refl i.made i.knows (λ h. i.inside refl) (λ u ne' h. h)
    step-Steps s t Pc.constructing new i ne =
        let (z, none_yet) = i.knows in
        record {
          knows = (z, ap (λ l. new ∷ l) none_yet, ne);
          own = λ h. i.inside refl;
          held = λ u ne' h. h;
          others =
              λ q out kn. Knows-none s (record s { objects = new ∷ s.objects }) q z (out refl) kn;
          made = λ h. absurd (ground (arith, h, z));
          settled = λ was no. cc no;
        }
    step-Steps s t (Pc.publishing p) new i ne =
        let (z, one, nz) = i.knows in
        record {
          knows = (nz, one);
          own = λ h. i.inside refl;
          held = λ u ne' h. h;
          others = λ q out kn. Knows-none s (record s { instance_ = p }) q z (out refl) kn;
          made = λ h. one;
          settled = λ was no e. absurd (ground (arith, nz, e));
        }
    step-Steps s t Pc.registering new i ne =
        quiet-Steps holder s (record s { registered = s.registered + 1 }) t Pc.registering
          Pc.unlocking refl refl refl i.made i.knows (λ h. i.inside refl) (λ u ne' h. h)
    step-Steps s t Pc.unlocking new i ne = unlock-Steps s t new i
    step-Steps s t Pc.reading new i ne =
        quiet-Steps holder s s t Pc.reading (Pc.returned s.instance_) refl refl refl i.made
          (i.knows, refl) (λ h. cc h) (λ u ne' h. h)
    step-Steps s t Pc.idle new i ne =
        quiet-Steps holder s s t Pc.idle Pc.idle refl refl refl i.made tt (λ h. cc h) (λ u ne' h. h)
    step-Steps s t (Pc.returned p) new i ne =
        quiet-Steps holder s s t (Pc.returned p) (Pc.returned p) refl refl refl i.made i.knows
          (λ h. cc h) (λ u ne' h. h)
    step-Steps s t pc new i ne = absurd i.knows
