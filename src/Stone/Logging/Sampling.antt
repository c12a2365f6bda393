-- ===== src/Stone/Logging/Sampling.antt =====
-- apsara/stone/logging/logging.h: a sequence of passes over one place that logs a sample, between which
-- its switches are changed.
use Prim.Native.String.{String}
use recommender.Prelude.{
  ℕ, ◌+◌, ◌^◌, ◌≤◌, ◌<◌, ◌≡◌, refl, ◌∙◌, ◌⊎◌, inl, inr, arith, Bool, true, false, List, [], ◌∷◌,
  ◌++◌, some, ltb, ◌==◌, lt→ltb, if◌then◌else◌, length, Bool-cases,
}
use recommender.Run.{Run, ok, ◌>>=◌}
use recommender.Stone.Logging.{
  LogLevel, LogInfo, enable, enable_stack_trace, set_level, reset, touch, Place, View, Message,
  log_enabled, message, Site, next_of, log_counted, log_x_sampled,
}

-- A pass over the macro, or a change through `GetAllLogInfo`.
pub data Action (F : Type 0) : Type 0 where
  pass : View → Bool → String → (ℕ → List F) → Action F
  switch : Bool → Action F
  switch_trace : Bool → Action F
  relevel : LogLevel → Action F
  restore : Action F

module _ {F : Type 0} (place : Place) (init_next : ℕ) (next_func : ℕ → ℕ → Run ℕ) where
  unfoldable pub act : Action F → Site → Run (Site × List (Message F))
  act (pass logger on trace fields) s =
      log_x_sampled place init_next next_func logger on trace fields s
  act (switch b) s = ok (record s { s_info = enable s.s_info b }, [])
  act (switch_trace b) s = ok (record s { s_info = enable_stack_trace s.s_info b }, [])
  act (relevel l) s = ok (record s { s_info = set_level s.s_info l }, [])
  act restore s = ok (record s { s_info = reset s.s_info }, [])

  -- The messages of all passes.
  unfoldable pub acts : List (Action F) → Site → Run (List (Message F))
  acts [] s = ok []
  acts (a ∷ as') s = do (s', ms) ← act a s; rest ← acts as' s'; ok (ms ++ rest)

-- The enabled passes are numbered from one, and those whose number passes the test give a message.
module _ {F : Type 0} (place : Place) (test : ℕ → Bool) where
  unfoldable pub sample : List (Action F) → LogInfo → List (Message F)
  sample [] i = []
  sample (pass logger on trace fields ∷ as') i =
      let n : ℕ = i.counter + 1 in
      let i' : LogInfo = record i { counter = n } in
      let rest = sample as' i' in
      let skipped = sample as' i in
      if log_enabled logger i on
      then if test n then message place logger i' trace (fields n) ∷ rest else rest
      else skipped
  sample (switch b ∷ as') i = sample as' (enable i b)
  sample (switch_trace b ∷ as') i = sample as' (enable_stack_trace i b)
  sample (relevel l ∷ as') i = sample as' (set_level i l)
  sample (restore ∷ as') i = sample as' (reset i)

-- From the count `c` on, the test agrees with a comparison with `next` until that number is reached,
-- or for ever if it has been passed.
abbrev pub Due : (ℕ → Bool) → ℕ → ℕ → Type 0
Due test c next = (k : ℕ) → c < k → (k ≤ next) ⊎ (next ≤ c) → test k ≡ (k == next)

Due-next : (test : ℕ → Bool) (c next : ℕ) → Due test c next → test (c + 1) ≡ ((c + 1) == next)
Due-next test c next due =
    due (c + 1) (omega arith)
      (elim (Bool-cases (ltb c next)) [ inl lt ↦ inl (ground arith) | inr ge ↦ inr (ground arith) ])

Due-skip :
    (test : ℕ → Bool) (c next : ℕ)
    → Due test c next
    → ((c + 1) == next) ≡ false
    → Due test (c + 1) next
Due-skip test c next due ne k lt (inl le) = due k (omega arith) (inl le)
Due-skip test c next due ne k lt (inr ge) = due k (omega arith) (inr (ground arith))

-- What a next function owes to a test, for numbers up to a bound.
abbrev pub Follows : (ℕ → Bool) → (ℕ → Run ℕ) → ℕ → Type 0
Follows test next_func bound =
    (n : ℕ) → n ≤ bound → test n ≡ true → (n' : ℕ) × (next_func n ≡ ok n') × Due test n n'

module _ {F : Type 0} (place : Place) (init_next : ℕ) (next_func : ℕ → ℕ → Run ℕ) where
  module _ (test : ℕ → Bool) (bound : ℕ) (small : bound < 2 ^ 63) where
    -- One enabled pass, on the record that it leaves behind.
    log_counted-sample :
        Follows test (next_func init_next) bound
        → (logger : View) (trace : String) (fields : ℕ → List F) (s : Site)
        → s.s_info.counter + 1 ≤ bound
        → Due test s.s_info.counter (next_of init_next s.s_next)
        → let i : LogInfo = record s.s_info { counter = s.s_info.counter + 1 } in
          (n : ℕ) × (log_counted place init_next next_func logger trace fields s
            ≡ ok (
              record { s_info = i; s_next = some n },
              if test i.counter then message place logger i trace (fields i.counter) ∷ [] else [],
            ))
          × Due test i.counter n
    unfolding log_counted touch
    log_counted-sample follows logger trace fields s le due =
        let c = s.s_info.counter in
        let next = next_of init_next s.s_next in
        let here = Due-next test c next due in
        let fits : ltb (c + 1) (2 ^ 63) ≡ true = lt→ltb _ _ (omega arith) in
        elim (Bool-cases ((c + 1) == next)) [
          | inl hit ↦
              let (n, e, due') = follows (c + 1) le (here ∙ hit) in
              (n, rw (fits, hit, here ∙ hit, e) refl, due')
          | inr miss ↦ (next, rw (fits, miss, here ∙ miss) refl, Due-skip test c next due miss)
        ]

    -- With enough room in the counter, the messages are those of the passes whose number passes the
    -- test.
    pub acts-sample :
        Follows test (next_func init_next) bound
        → (as' : List (Action F)) (s : Site) → s.s_info.counter + length as' ≤ bound
        → Due test s.s_info.counter (next_of init_next s.s_next)
        → acts place init_next next_func as' s ≡ ok (sample place test as' s.s_info)
    unfolding acts act sample enable enable_stack_trace set_level reset log_x_sampled
    acts-sample follows [] s le due = refl
    acts-sample follows (switch b ∷ as') s le due =
        rw (acts-sample follows as' (record s { s_info = enable s.s_info b }) (omega arith) due)
          refl
    acts-sample follows (switch_trace b ∷ as') s le due =
        rw
          (acts-sample follows as' (record s { s_info = enable_stack_trace s.s_info b })
            (omega arith) due)
          refl
    acts-sample follows (relevel l ∷ as') s le due =
        rw (acts-sample follows as' (record s { s_info = set_level s.s_info l }) (omega arith) due)
          refl
    acts-sample follows (restore ∷ as') s le due =
        rw (acts-sample follows as' (record s { s_info = reset s.s_info }) (omega arith) due) refl
    acts-sample follows (pass logger on trace fields ∷ as') s le due =
        let c = s.s_info.counter in
        let i : LogInfo = record s.s_info { counter = c + 1 } in
        elim (Bool-cases (log_enabled logger s.s_info on)) [
          | inl open' ↦
              let (n, e, due') =
                log_counted-sample follows logger trace fields s (omega arith) due in
              let site : Site = record { s_info = i; s_next = some n } in
              let rest = acts-sample follows as' site (omega arith) due' in
              elim (Bool-cases (test (c + 1))) [
                | inl y ↦ rw (open', e, y, rest) refl
                | inr y ↦ rw (open', e, y, rest) refl
              ]
          | inr shut ↦ rw (shut, acts-sample follows as' s (omega arith) due) refl
        ]
