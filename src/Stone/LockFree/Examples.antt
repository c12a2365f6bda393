-- ===== src/Stone/LockFree/Examples.antt =====
-- The words and tags at concrete numbers.
use recommender.Prelude.{ℕ, ◌≢◌, arith}
use recommender.Stone.LockFree.{make_tagged, get_tag, invalid_tag}

-- The tag before the invalid one.
abbrev before : ℕ
before = make_tagged 64 0xdeac

before-valid : get_tag before ≢ invalid_tag
unfolding get_tag make_tagged
before-valid = omega arith
