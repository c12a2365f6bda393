-- ===== src/Stone/LockFree/Tags.antt =====
-- The tags of 16 bits, which pass over the invalid tag.
use recommender.Prelude.{ℕ, ◌^◌, ◌<◌, ◌≡◌, ◌≢◌, arith, ◌==◌, if◌then◌else◌}
use recommender.Stone.LockFree.{
  make_tagged, get_tag, get_next_tag, get_prev_tag, invalid_tag, succ16, pred16,
}

pub get_tag-make_tagged : (a t : ℕ) → t < 2 ^ 16 → get_tag (make_tagged a t) ≡ t
unfolding get_tag make_tagged
get_tag-make_tagged a t h = omega arith

pub get_tag-bound : (p : ℕ) → get_tag p < 2 ^ 16
unfolding get_tag
get_tag-bound p = omega arith

abbrev next_of : ℕ → ℕ
next_of t = if succ16 t == invalid_tag then succ16 (succ16 t) else succ16 t

abbrev prev_of : ℕ → ℕ
prev_of t = if pred16 t == invalid_tag then pred16 (pred16 t) else pred16 t

next_of-valid :
    (t : ℕ)
    → t < 2 ^ 16
    → t ≢ invalid_tag
    → (next_of t < 2 ^ 16) × (next_of t ≢ invalid_tag) × (prev_of (next_of t) ≡ t)
next_of-valid t h ne = ground arith

next_of-other : (t : ℕ) → t < 2 ^ 16 → next_of t ≢ t
next_of-other t h = ground arith

-- From a tag that is valid, `GetNextTag` gives another valid tag of 16 bits, and `GetPrevTag` on a
-- pointer with that tag gives the first one back.
pub get_prev_tag-get_next_tag :
    (pointer address : ℕ)
    → get_tag pointer ≢ invalid_tag
    → (get_next_tag pointer < 2 ^ 16)
      × (get_next_tag pointer ≢ invalid_tag)
      × (get_next_tag pointer ≢ get_tag pointer)
      × (get_prev_tag (make_tagged address (get_next_tag pointer)) ≡ get_tag pointer)
unfolding get_next_tag get_prev_tag
get_prev_tag-get_next_tag pointer address ne =
    let bound : get_tag pointer < 2 ^ 16 = get_tag-bound pointer in
    let (small, valid, back) = next_of-valid (get_tag pointer) bound ne in
    (
      small,
      valid,
      next_of-other (get_tag pointer) bound,
      rw (get_tag-make_tagged address (next_of (get_tag pointer)) small) back,
    )
