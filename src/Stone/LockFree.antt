-- ===== src/Stone/LockFree.antt =====
-- apsara/stone/threading/lockfree/lockfree_detail.h: the words of 64 bits that the lock-free
-- containers exchange, an index with a tag of 32 bits, or an address with a tag of 16 bits. The union
-- is read on a little-endian machine, so that its tag is the upper 16 bits.
mod Examples
pub mod FreeList
pub mod Ledger
pub mod Queue
pub mod Stack
pub mod Tags
pub mod Words
use recommender.Prelude.{ℕ, ◌+◌, ◌-◌, ◌*◌, ◌/◌, ◌%◌, ◌^◌, Bool, ◌==◌, if◌then◌else◌}

abbrev pub lock_free_null_pointer : ℕ
lock_free_null_pointer = 0xFFFFFFFF

-- `MakePointer(index, tag)`
unfoldable pub make_pointer : ℕ → ℕ → ℕ
make_pointer index tag = (index * 2 ^ 32 % 2 ^ 64 + tag) % 2 ^ 64

unfoldable pub tag_of : ℕ → ℕ
tag_of point = point % 2 ^ 32

unfoldable pub index_of : ℕ → ℕ
index_of point = point / 2 ^ 32 % 2 ^ 32

abbrev pub invalid_tag : ℕ
invalid_tag = 0xdead

-- `pointer.mTag = tag`
abbrev pub set_tag : ℕ → ℕ → ℕ
set_tag value tag = value % 2 ^ 48 + tag * 2 ^ 48

-- `MakePointer(address, tag)`
unfoldable pub make_tagged : ℕ → ℕ → ℕ
make_tagged address tag = set_tag address tag

-- `pointer & kX64AddressSignBit`
abbrev pub sign_bit : ℕ → Bool
sign_bit pointer = pointer / 2 ^ 47 % 2 == 1

unfoldable pub get_pointer : ℕ → ℕ
get_pointer pointer = set_tag pointer (if sign_bit pointer then 0xFFFF else 0)

unfoldable pub get_tag : ℕ → ℕ
get_tag pointer = pointer / 2 ^ 48 % 2 ^ 16

-- `uint16_t` `++` and `--`.
abbrev pub succ16 : ℕ → ℕ
succ16 t = (t + 1) % 2 ^ 16

abbrev pub pred16 : ℕ → ℕ
pred16 t = (t + (2 ^ 16 - 1)) % 2 ^ 16

unfoldable pub get_next_tag : ℕ → ℕ
get_next_tag pointer =
    let tag = succ16 (get_tag pointer) in if tag == invalid_tag then succ16 tag else tag

unfoldable pub get_prev_tag : ℕ → ℕ
get_prev_tag pointer =
    let tag = pred16 (get_tag pointer) in if tag == invalid_tag then pred16 tag else tag
