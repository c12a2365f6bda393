-- ===== src/Stone/LockFree/Queue/Positions.antt =====
-- The tags of the lock-free queue as positions: each exchange goes to the next tag of 16 bits.
use recommender.Prelude.{ℕ, ◌+◌, ◌^◌, ◌<◌, ◌≡◌, ◌≢◌, arith, false, if◌then◌else◌, ltb, ◌==◌}
use recommender.Stone.LockFree.{
  make_tagged, get_pointer, get_tag, get_next_tag, get_prev_tag, invalid_tag,
}
use recommender.Stone.LockFree.Tags.{get_tag-make_tagged, get_tag-bound}
use recommender.Stone.LockFree.Words.{IsCanonical, make_tagged-parts}

-- Positions below this one have tags that differ, and that are not the last tag.
abbrev pub max_position : ℕ
max_position = 0xFFFE

-- The tag of a position.
abbrev pub seq : ℕ → ℕ
seq i = if ltb i invalid_tag then i else i + 1

abbrev pub IsAddress : ℕ → Type 0
IsAddress a = ((a == 0) ≡ false) × IsCanonical a

seq-bound : (i : ℕ) → i < 0xFFFF → seq i < 2 ^ 16
seq-bound i h = ground arith

pub seq-injective : (i j : ℕ) → seq i ≡ seq j → i ≡ j
seq-injective i j e = ground arith

pub seq-valid : (i : ℕ) → seq i ≢ invalid_tag
seq-valid i = ground arith

pub get_tag-seq : (a i : ℕ) → i < 0xFFFF → get_tag (make_tagged a (seq i)) ≡ seq i
get_tag-seq a i h = get_tag-make_tagged a (seq i) (seq-bound i h)

pub get_pointer-seq :
    (a i : ℕ) → IsCanonical a → i < 0xFFFF → get_pointer (make_tagged a (seq i)) ≡ a
get_pointer-seq a i c h = (make_tagged-parts a (seq i) c (seq-bound i h)).0

pub get_next_tag-seq :
    (a i : ℕ) → i < max_position → get_next_tag (make_tagged a (seq i)) ≡ seq (i + 1)
unfolding get_next_tag
get_next_tag-seq a i h = rw (get_tag-seq a i (omega arith)) (ground arith)

pub get_prev_tag-seq :
    (a i : ℕ) → i < max_position → get_prev_tag (make_tagged a (seq (i + 1))) ≡ seq i
unfolding get_prev_tag
get_prev_tag-seq a i h = rw (get_tag-seq a (i + 1) (omega arith)) (ground arith)

-- How far a tag is from the last one, in exchanges.
abbrev pub rank : ℕ → ℕ
rank t = if ltb t invalid_tag then t + 1 else if t == 0xFFFF then 0 else t

pub get_next_tag-rank :
    (p : ℕ) → rank (get_tag p) < max_position → rank (get_next_tag p) ≡ rank (get_tag p) + 1
unfolding get_next_tag
get_next_tag-rank p h = ground (arith, get_tag-bound p)
