-- ===== src/Stone/LockFree/FreeList/Refinement.antt =====
-- The steps of the free list, one by one: what each keeps, and what it does.
use mathlib.Core.Option.{none-ne-some}
use recommender.Prelude.{
  ℕ, ◌+◌, ◌^◌, ◌<◌, ◌≡◌, refl, inl, inr, arith, true, none, some, List, [], ◌∷◌, ◌==◌, ==-refl,
  ==→≡, Bool-cases,
}
use recommender.Stone.LockFree.{get_pointer}
use recommender.Stone.LockFree.FreeList.{FreeList, Pc, link_of, object_of, step}
use recommender.Stone.LockFree.FreeList.Invariant.{Chain}
use recommender.Stone.LockFree.FreeList.Moves.{
  IsSound, Moves, still-Moves, put-Moves, push-Moves, pop-Moves,
}

-- The exchanges after a step, and how many there were when the thread last read the head in `Pop`.
abbrev pub counted : Pc → Pc → ℕ → ℕ
counted (Pc.push_exchange x h) Pc.push_size count = count + 1
counted (Pc.pop_exchange h k) (Pc.pop_size x) count = count + 1
counted _ _ count = count

abbrev pub read_at : Pc → ℕ → ℕ → ℕ
read_at Pc.pop_head count n = count
read_at _ count n = n

-- Fewer than 2 ^ 16 exchanges since the thread read the head that it wants to replace in `Pop`.
abbrev pub IsTimely : ℕ → ℕ → Pc → Type 0
IsTimely count n (Pc.pop_exchange h k) = count < n + 2 ^ 16
IsTimely count n _ = Unit {0}

object_of-link_of : (offset x : ℕ) → x < 2 ^ 64 → object_of offset (link_of offset x) ≡ x
unfolding object_of link_of
object_of-link_of offset x h = omega arith

get_pointer-bound : (p : ℕ) → get_pointer p < 2 ^ 64
unfolding get_pointer
get_pointer-bound p = ground arith

null_held :
    (offset : ℕ) (m : ℕ → ℕ) (p : ℕ) (xs : List ℕ) → Chain offset m p xs → (p == 0) ≡ true → xs ≡ []
null_held offset m p [] c h = refl
null_held offset m p (x ∷ xs) c h = absurd (omega (arith, ==→≡ _ _ h, c.0, c.1))

module _ (offset : ℕ) where
  pub step-Moves :
      (s : FreeList) (count n : ℕ) (pc : Pc) (held : List ℕ)
      → IsSound offset s count n pc held
      → IsTimely count n pc
      → let r = step offset s pc in
        Moves offset s count pc held r (counted pc r.1 count) (read_at pc count n)
  unfolding step
  step-Moves s count n Pc.idle held i few =
      still-Moves offset s s.size count n n _ _ held i tt (λ x e. e) refl
  step-Moves s count n Pc.pushed held i few =
      still-Moves offset s s.size count n n _ _ held i tt (λ x e. e) refl
  step-Moves s count n (Pc.popped none) held i few =
      still-Moves offset s s.size count n n _ _ held i tt (λ x e. e) refl
  step-Moves s count n (Pc.popped (some y)) held i few =
      still-Moves offset s s.size count n n _ _ held i tt (λ x e. e) refl
  step-Moves s count n (Pc.push_head x) held i few =
      still-Moves offset s s.size count n n _ _ held i tt (λ x e. e) refl
  step-Moves s count n (Pc.push_next x h) held i few =
      put-Moves offset s _ count n _ (Pc.push_exchange x h) x held i refl refl
        (rw (==-refl x) (object_of-link_of offset (get_pointer h) (get_pointer-bound h))) refl
  step-Moves s count n (Pc.push_exchange x h) held i few = elim (Bool-cases (s.head == h)) [
    | inl e ↦ rw e (push-Moves offset s count n x h held i (==→≡ _ _ e))
    | inr e ↦ rw e (
        still-Moves offset s s.size count n n (Pc.push_exchange x h) (Pc.push_head x) held i tt
          (λ x e. e) refl)
  ]
  step-Moves s count n Pc.push_size held i few =
      still-Moves offset s _ count n n _ _ held i tt (λ x e. e) refl
  step-Moves s count n Pc.pop_head held i few = elim (Bool-cases (get_pointer s.head == 0)) [
    | inl e ↦ rw e (
        still-Moves offset s s.size count n count Pc.pop_head (Pc.popped none) held i tt (λ x e. e)
          (refl, null_held offset s.next _ held i.chain e))
    | inr e ↦ rw e (
        still-Moves offset s s.size count n count Pc.pop_head (Pc.pop_next s.head) held i
          record { not_null = e; tag_lem = i.tag_lem; past = omega arith; now = λ q. refl }
          (λ x e. e) refl)
  ]
  step-Moves s count n (Pc.pop_next h) held i few =
      still-Moves offset s s.size count n n _ _ held i (i.knows, λ q. refl) (λ x e. e) refl
  step-Moves s count n (Pc.pop_exchange h k) held i few = elim (Bool-cases (s.head == h)) [
    | inl e ↦ rw e (pop-Moves offset s count n h k held i (==→≡ _ _ e) few)
    | inr e ↦ rw e (
        still-Moves offset s s.size count n n (Pc.pop_exchange h k) Pc.pop_head held i tt (λ x e. e)
          refl)
  ]
  step-Moves s count n (Pc.pop_size x) held i few =
      still-Moves offset s _ count n n _ _ held i tt (λ y e. absurd (none-ne-some _ e)) refl
