-- ===== src/Stone/RefCounted/Counts.antt =====
-- The reference counts over sequences of calls.
use recommender.Prelude.{
  ℕ, zero, suc, ◌+◌, ◌-◌, ◌^◌, ◌%◌, ◌<◌, ◌≡◌, refl, ap, ◌⊎◌, inl, inr, arith, true, none, some,
  ne→==,
}
use recommender.Run.{Run, ok, fault, ◌>>=◌}
use recommender.Stone.RefCounted.{RefCounted, create, add_ref, release, release_unsafe, has_one_ref}

-- `AddRef` `k` times.
unfoldable pub add_refs : ℕ → RefCounted → Run RefCounted
add_refs zero o = ok o
add_refs (suc k) o = do o' ← add_ref o; add_refs k o'

-- `Release` `k` times.
unfoldable pub releases : ℕ → RefCounted → Run RefCounted
releases zero o = ok o
releases (suc k) o = do (o', n) ← release o; releases k o'

add_refs-from : (k n m : ℕ) → m ≡ n + k → m < 2 ^ 64 → add_refs k (some n) ≡ ok (some m)
unfolding add_refs add_ref
add_refs-from zero n m e h = ap (λ (j : ℕ). ok (some j)) (omega arith)
add_refs-from (suc k) n m e h =
    let same : (n + 1) % 2 ^ 64 ≡ n + 1 = omega arith in
    rw same (add_refs-from k (n + 1) m (omega arith) h)

releases-from : (k n m : ℕ) → n ≡ m + k → 0 < m → n < 2 ^ 64 → releases k (some n) ≡ ok (some m)
unfolding releases release
releases-from zero n m e h b = ap (λ (j : ℕ). ok (some j)) (omega arith)
releases-from (suc k) n m e h b =
    let same : (n + (2 ^ 64 - 1)) % 2 ^ 64 ≡ n - 1 = omega arith in
    rw (same, ne→== (n - 1) 0 (omega arith))
      (releases-from k (n - 1) m (omega arith) h (omega arith))

releases-all : (k n : ℕ) → n ≡ suc k → n < 2 ^ 64 → releases (suc k) (some n) ≡ ok none
unfolding releases release
releases-all zero n e b = rw e refl
releases-all (suc k) n e b =
    let same : (n + (2 ^ 64 - 1)) % 2 ^ 64 ≡ n - 1 = omega arith in
    rw (same, ne→== (n - 1) 0 (omega arith)) (releases-all k (n - 1) (omega arith) (omega arith))

-- An object that was referred to `k + 1` times, fewer than 2 ^ 64, is still there after `k` calls of
-- `Release`, with one reference, and is deleted by the call after that.
pub releases-add_refs :
    (k : ℕ)
    → suc k < 2 ^ 64
    → (o : RefCounted) × (add_refs (suc k) create ≡ ok o)
      × ((releases k o >>= has_one_ref) ≡ ok true)
      × (releases (suc k) o ≡ ok none)
unfolding has_one_ref
releases-add_refs k h = (
  some (suc k),
  add_refs-from (suc k) 0 (suc k) (omega arith) h,
  rw (releases-from k (suc k) 1 (omega arith) (omega arith) h),
  releases-all k (suc k) refl h,
)

-- `RefCountedUnsafe::Release` returns the count that `RefCounted::Release` returns while another
-- reference is left; on the last one it reads the object that it just deleted.
pub release_unsafe-release :
    (n : ℕ)
    → 0 < n
    → n < 2 ^ 64
    → ((1 < n) × (release_unsafe (some n) ≡ release (some n)))
      ⊎ ((n ≡ 1) × (release_unsafe (some n) ≡ fault))
unfolding release_unsafe release
release_unsafe-release zero pos b = absurd (omega arith)
release_unsafe-release (suc zero) pos b = inr (refl, refl)
release_unsafe-release (suc (suc n)) pos b =
    inl (omega arith, rw (ne→== ((suc (suc n) + (2 ^ 64 - 1)) % 2 ^ 64) 0 (omega arith)))
