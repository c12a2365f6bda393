-- ===== src/Stone/RefCounted.antt =====
-- apsara/stone/memory/ref_counted.h: `RefCounted` and `RefCountedUnsafe`. An object is its count, or
-- `none` once it is deleted; a use of a deleted object is a fault. Each atomic access is one step, so
-- that calls of different threads come in some order.
pub mod Counts
mod Examples
use recommender.Prelude.{
  ℕ, zero, suc, ◌+◌, ◌-◌, ◌^◌, ◌%◌, Bool, Option, none, some, ◌==◌, if◌then◌else◌,
}
use recommender.Run.{Run, ok, fault, ◌>>=◌}

abbrev pub RefCounted : Type 0
RefCounted = Option ℕ

abbrev pub create : RefCounted
create = some 0

unfoldable pub add_ref : RefCounted → Run RefCounted
add_ref none = fault
add_ref (some n) = ok (some ((n + 1) % 2 ^ 64))

-- `RefCounted::Release`, which returns the count that it kept in a local variable.
unfoldable pub release : RefCounted → Run (RefCounted × ℕ)
release none = fault
release (some n) =
    let ref_cnt = (n + (2 ^ 64 - 1)) % 2 ^ 64 in
    ok (if ref_cnt == 0 then none else some ref_cnt, ref_cnt)

-- `mRefCnt`
abbrev pub ref_cnt_of : RefCounted → Run ℕ
ref_cnt_of none = fault
ref_cnt_of (some n) = ok n

-- `RefCountedUnsafe::Release`, which reads the count from the object again.
unfoldable pub release_unsafe : RefCounted → Run (RefCounted × ℕ)
release_unsafe none = fault
release_unsafe (some n) = do
  let ref_cnt = (n + (2 ^ 64 - 1)) % 2 ^ 64
  let object : RefCounted = if ref_cnt == 0 then none else some ref_cnt
  result ← ref_cnt_of object
  ok (object, result)

unfoldable pub has_one_ref : RefCounted → Run Bool
has_one_ref none = fault
has_one_ref (some n) = ok (n == 1)
