-- ===== src/Stone/ScopedPtr/Examples.antt =====
-- A scoped pointer and a scoped array on heaps that are empty at first.
use recommender.Prelude.{ℕ, ◌<◌, ◌≡◌, refl, arith, false, List, [], ◌∷◌, none}
use recommender.Run.{ok}
use recommender.Stone.ScopedPtr.Ownership.{Use, Owner, IsOwner, lifetime, mentions}
use recommender.Stone.ScopedPtr.Arrays.{
  UseArray, ArrayOwner, lifetime_array, is_some, lifetimes-live,
}

abbrev new_owner : Owner
new_owner = record { heap = λ p. false; fresh = 1; m_ptr = 0; taken = [] }

new_owner-IsOwner : IsOwner new_owner
new_owner-IsOwner = record {
  below = omega arith;
  lives = λ p pos. ground arith;
  only = λ pos. refl;
  unborn = λ p le. refl;
}

abbrev uses : List Use
uses = Use.reset_new ∷ Use.reset_new ∷ Use.take_back ∷ Use.reset_new ∷ Use.reset_null ∷ []

abbrev new_array_owner : ArrayOwner ℕ
new_array_owner = record { arrays = λ p. none; next = 1; held = 0; taken_back = [] }

abbrev array_uses : List (UseArray ℕ)
array_uses =
    UseArray.reset_new (4 ∷ 5 ∷ [])
    ∷ UseArray.take_back
    ∷ UseArray.assign_new (6 ∷ [])
    ∷ UseArray.reset_null
    ∷ []

lifetimes-live_example :
    ((o : Owner) × (lifetime new_owner uses ≡ ok o)
      × ((p : ℕ) → 0 < p → o.heap p ≡ mentions o.taken p))
    × ((a : ArrayOwner ℕ) × (lifetime_array new_array_owner array_uses ≡ ok a)
        × ((p : ℕ) → 0 < p → is_some (a.arrays p) ≡ mentions a.taken_back p))
lifetimes-live_example =
    lifetimes-live uses new_owner array_uses new_array_owner new_owner-IsOwner new_owner-IsOwner
