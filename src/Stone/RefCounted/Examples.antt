-- ===== src/Stone/RefCounted/Examples.antt =====
-- The reference counts at concrete numbers.
use recommender.Prelude.{◌≡◌, arith, true, none}
use recommender.Run.{ok, ◌>>=◌}
use recommender.Stone.RefCounted.{RefCounted, create, has_one_ref}
use recommender.Stone.RefCounted.Counts.{add_refs, releases, releases-add_refs}

releases-add_refs_example :
    (o : RefCounted) × (add_refs 3 create ≡ ok o)
    × ((releases 2 o >>= has_one_ref) ≡ ok true)
    × (releases 3 o ≡ ok none)
releases-add_refs_example = releases-add_refs 2 (omega arith)
