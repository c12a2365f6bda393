-- ===== src/Stone/IntrusiveList/Examples.antt =====
-- The theorems of the two lists at small memories.
use recommender.Prelude.{◌≡◌, refl, arith, true, [], ◌∷◌, ◌==◌, if◌then◌else◌}
use recommender.Run.{ok}
use recommender.Stone.IntrusiveList.{Links, IntrusiveList, create, clear}
use recommender.Stone.IntrusiveList.Circle.{IsCircle}
use recommender.Stone.IntrusiveList.Doubly.{Nodes, IntrusiveDList, insert, unlink, erase}
use recommender.Stone.IntrusiveList.Erase.{erase-Erases, Erases}
use recommender.Stone.IntrusiveList.Operations.{insert-IsCircle, unlink-Takes, Takes}
use recommender.Stone.IntrusiveList.Sequence.{IsList, clear-all}

-- The nodes 3, 5 and 7.
abbrev links : Links
links q = if q == 3 then 5 else if q == 5 then 7 else 0

abbrev list : IntrusiveList
list = record { head = 3; tail = 7; count = 3 }

list-IsList : IsList links list (3 ∷ 5 ∷ 7 ∷ [])
list-IsList = record {
  chain = (refl, refl, (refl, (refl, tt)), (refl, refl, (refl, tt), (refl, refl, tt, refl)));
  last = refl;
  counted = refl;
}

clear-all_example : (m : Links) × (clear 4 links list ≡ ok (3 ∷ 5 ∷ 7 ∷ [], m, create))
clear-all_example = clear-all 4 links list (3 ∷ 5 ∷ 7 ∷ []) list-IsList (omega arith)

-- The nodes 3, 5 and 7 on the root 1; node 9 is unlinked.
abbrev nodes : Nodes
nodes = record {
  prev = λ q.
      if q == 1 then 7 else if q == 3 then 1 else if q == 5 then 3 else if q == 7 then 5 else q;
  next = λ q.
      if q == 1 then 3 else if q == 3 then 5 else if q == 5 then 7 else if q == 7 then 1 else q;
}

abbrev ring : IntrusiveDList
ring = record { root = 1; count = 3 }

ring-IsCircle : IsCircle nodes ring (3 ∷ 5 ∷ 7 ∷ [])
ring-IsCircle = record {
  circle = (refl, refl, (refl, refl, (refl, refl, (refl, refl))));
  distinct = ((refl, (refl, (refl, tt))), ((refl, (refl, tt)), ((refl, tt), (tt, tt))));
  counted = refl;
}

insert-IsCircle_example :
    (m : Nodes) × (l : IntrusiveDList) × (insert nodes ring 5 9 ≡ ok (m, l, 9))
    × (l.root ≡ 1)
    × IsCircle m l (3 ∷ 9 ∷ 5 ∷ 7 ∷ [])
insert-IsCircle_example =
    insert-IsCircle nodes ring 9 (3 ∷ []) (5 ∷ 7 ∷ []) ring-IsCircle
      (refl, (refl, (refl, (refl, tt)))) (omega arith)

unlink-Takes_example : Takes ring 5 (3 ∷ 7 ∷ []) (unlink nodes ring 5)
unlink-Takes_example = unlink-Takes nodes ring 5 (3 ∷ []) (7 ∷ []) ring-IsCircle

erase-Erases_example : Erases ring 7 (3 ∷ 7 ∷ []) (erase true nodes ring 5)
erase-Erases_example = erase-Erases true nodes ring 5 (3 ∷ []) (7 ∷ []) ring-IsCircle
