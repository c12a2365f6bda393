-- ===== src/Stone/LockFree/Words.antt =====
-- The parts of the words that the lock-free containers exchange.
use recommender.Prelude.{
  ℕ, ◌+◌, ◌-◌, ◌*◌, ◌/◌, ◌%◌, ◌^◌, ◌<◌, ◌≤◌, ◌≡◌, ◌⊎◌, inl, inr, arith, eq→==, ne→==,
}
use recommender.Stone.LockFree.{make_pointer, tag_of, index_of, make_tagged, get_pointer, get_tag}

-- `Index` and `Tag` read back what `MakePointer` put together, for an index and a tag of 32 bits.
pub make_pointer-parts :
    (index tag : ℕ)
    → index < 2 ^ 32
    → tag < 2 ^ 32
    → (index_of (make_pointer index tag) ≡ index) × (tag_of (make_pointer index tag) ≡ tag)
unfolding make_pointer index_of tag_of
make_pointer-parts index tag hi ht = (omega (arith), omega arith)

-- An address as the processor allows it: its 17 upper bits are the same.
abbrev pub IsCanonical : ℕ → Type 0
IsCanonical a = (a < 2 ^ 47) ⊎ ((2 ^ 64 - 2 ^ 47 ≤ a) × (a < 2 ^ 64))

-- `GetPointer` and `GetTag` read back what `MakePointer` put together, for a canonical address and a
-- tag of 16 bits.
pub make_tagged-parts :
    (address tag : ℕ)
    → IsCanonical address
    → tag < 2 ^ 16
    → (get_pointer (make_tagged address tag) ≡ address) × (get_tag (make_tagged address tag) ≡ tag)
unfolding make_tagged get_pointer get_tag
make_tagged-parts a t (inl h) ht =
    (rw (ne→== ((a % 2 ^ 48 + t * 2 ^ 48) / 2 ^ 47 % 2) 1 (omega arith)) (omega arith), omega arith)
make_tagged-parts a t (inr (lo, hi)) ht =
    (rw (eq→== ((a % 2 ^ 48 + t * 2 ^ 48) / 2 ^ 47 % 2) 1 (omega arith)) (omega arith), omega arith)
