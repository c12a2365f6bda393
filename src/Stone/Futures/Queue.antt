-- ===== src/Stone/Futures/Queue.antt =====
-- `FutureGroup::FutureList` as a queue.
use recommender.Prelude.{
  ℕ, ◌≡◌, refl, ◌∙◌, arith, false, List, [], ◌∷◌, ◌++◌, ◌==◌, ==-refl, if◌then◌else◌, if_same,
}
use recommender.Run.{Run, ok, ◌>>=◌}
use recommender.Stone.Futures.{FutureList, empty, clear, link_back, push_back, remove_front}
use recommender.Stone.IntrusiveList.Circle.{
  Linked, Distinct, Inserted, Linked-Inserted, Linked-frame, Linked-prev, AllNodes-Absent, ==-flip,
}
use recommender.Stone.IntrusiveList.Doubly.{Nodes}
use recommender.Stone.IntrusiveList.Operations.{Distinct-insert, ++-[]}
use recommender.Stone.IntrusiveList.Sequence.{Absent, last_or}

-- The futures `xs`, which are distinct, stand between the two ends, linked both ways.
pub record IsQueue (m : Nodes) (l : FutureList) (xs : List ℕ) : Type 0 where
  pub linked : Linked m l.head xs l.tail
  pub distinct : Distinct (l.tail ∷ (l.head ∷ xs))

pub clear-IsQueue :
    (m : Nodes) (l : FutureList) → (l.tail == l.head) ≡ false → IsQueue (clear m l) l []
unfolding clear
clear-IsQueue m l ne = record {
  linked = (ground (arith, ne), rw (==-refl l.tail));
  distinct = ((ne, tt), (tt, tt));
}

link_back-Inserted :
    (m : Nodes) (l : FutureList) (p future : ℕ)
    → m.prev l.tail ≡ p
    → Inserted m (link_back m l future) p l.tail future
unfolding link_back
link_back-Inserted m l p future e = record {
  next_lem = λ x. rw (if_same (future == l.tail), e);
  prev_lem = λ x. rw e;
}

pub link_back-IsQueue :
    (m : Nodes) (l : FutureList) (future : ℕ) (xs : List ℕ)
    → IsQueue m l xs
    → Absent future (l.tail ∷ (l.head ∷ xs))
    → IsQueue (link_back m l future) l (xs ++ (future ∷ []))
link_back-IsQueue m l future xs h out =
    let d = h.distinct in
    let linked' : Linked m l.head (xs ++ []) l.tail = rw (++-[] xs) h.linked in
    record {
      linked =
          Linked-Inserted m _ future l.head l.tail xs []
            (link_back-Inserted m l (last_or l.head xs) future
              (Linked-prev m l.head l.tail xs [] linked'))
            linked' (rw (++-[] xs) (d.1)) (rw (++-[] xs) (d.0.1)) (rw (++-[] xs) (out.1)) (out.0);
      distinct =
          (Distinct-insert future (l.tail ∷ (l.head ∷ xs)) [] (rw (++-[] xs) d)
            (rw (++-[] xs) out));
    }

-- What the removal of the first future, with `n` behind it, makes of the pointers.
record RemovedFront (m m' : Nodes) (head n future : ℕ) : Type 0 where
  next_lem : (q : ℕ) → m'.next q ≡ (if future == q then 0 else if head == q then n else m.next q)
  prev_lem : (q : ℕ) → m'.prev q ≡ (if future == q then 0 else if n == q then head else m.prev q)

remove_front-RemovedFront :
    (m : Nodes) (l : FutureList) (n future : ℕ)
    → m.next l.head ≡ future
    → m.next future ≡ n
    → (future == l.tail) ≡ false
    → (l.head == future) ≡ false
    → ((remove_front m l).1 ≡ future) × RemovedFront m ((remove_front m l).0) l.head n future
unfolding remove_front empty
remove_front-RemovedFront m l n future e f ne ne' =
    rw (e, ne, ne', f) (refl, record { next_lem = λ q. refl; prev_lem = λ q. refl })

pub remove_front-IsQueue :
    (m : Nodes) (l : FutureList) (x : ℕ) (xs : List ℕ)
    → IsQueue m l (x ∷ xs)
    → ((remove_front m l).1 ≡ x) × IsQueue ((remove_front m l).0) l xs
remove_front-IsQueue m l x [] h =
    let (e, f, c) = h.linked in
    let d = h.distinct in
    let (e', r) =
      remove_front-RemovedFront m l l.tail x e (c.0) (==-flip l.tail x (d.0.1.0)) (d.1.0.0) in
    (
      e',
      record {
        linked = (
          r.next_lem l.head ∙ ground (arith, d.1.0.0),
          r.prev_lem l.tail ∙ ground (arith, d.0.1.0),
        );
        distinct = ((d.0.0, tt), (tt, tt));
      },
    )
remove_front-IsQueue m l x (v ∷ vs) h =
    let (e, f, c) = h.linked in
    let d = h.distinct in
    let (e', r) =
      remove_front-RemovedFront m l v x e (c.0) (==-flip l.tail x (d.0.1.0)) (d.1.0.0) in
    (
      e',
      record {
        linked = (
          r.next_lem l.head ∙ ground (arith, d.1.0.0),
          r.prev_lem v ∙ ground (arith, d.1.1.0.0),
          Linked-frame m _ v l.tail vs (c.2)
              (AllNodes-Absent _ x l.head (v ∷ vs) (λ q e1 e2. r.next_lem q ∙ rw (e1, e2)) (d.1.1.0)
                (d.1.0.1))
              (AllNodes-Absent _ x v vs (λ q e1 e2. r.prev_lem q ∙ rw (e1, e2)) (d.1.1.0.1)
                (d.1.1.1.0))
              (r.prev_lem l.tail ∙ ground (arith, d.0.1.0, d.0.1.1.0)),
        );
        distinct = ((d.0.0, d.0.1.1), (d.1.0.1, d.1.1.1));
      },
    )

pub remove_front-empty : (m : Nodes) (l : FutureList) → IsQueue m l [] → remove_front m l ≡ (m, 0)
unfolding remove_front empty
remove_front-empty m l h = rw (h.linked.0, ==-refl l.tail) refl

-- The calls on a list.
pub data Call : Type 0 where
  push_back_call : ℕ → Call
  remove_front_call : Call

-- The memory afterwards, and the futures that the calls return.
unfoldable pub serve : Nodes → FutureList → List Call → Run (Nodes × List ℕ)
serve m l [] = ok (m, [])
serve m l (Call.push_back_call f ∷ cs) = do m' ← push_back m l f; serve m' l cs
serve m l (Call.remove_front_call ∷ cs) = do
  (m', fs) ← serve ((remove_front m l).0) l cs
  ok (m', (remove_front m l).1 ∷ fs)

-- What a queue of numbers answers, and holds afterwards.
abbrev pub answers : List ℕ → List Call → List ℕ × List ℕ
answers xs [] = (xs, [])
answers xs (Call.push_back_call f ∷ cs) = answers (xs ++ (f ∷ [])) cs
answers [] (Call.remove_front_call ∷ cs) = let (ys, fs) = answers [] cs in (ys, 0 ∷ fs)
answers (x ∷ xs) (Call.remove_front_call ∷ cs) = let (ys, fs) = answers xs cs in (ys, x ∷ fs)

-- No future is added that is null or in the list already.
abbrev pub IsProper : FutureList → List ℕ → List Call → Type 0
IsProper l xs [] = Unit {0}
IsProper l xs (Call.push_back_call f ∷ cs) =
    ((f == 0) ≡ false) × Absent f (l.tail ∷ (l.head ∷ xs)) × IsProper l (xs ++ (f ∷ [])) cs
IsProper l [] (Call.remove_front_call ∷ cs) = IsProper l [] cs
IsProper l (x ∷ xs) (Call.remove_front_call ∷ cs) = IsProper l xs cs

-- However `PushBack` and `RemoveFront` are called on a list, as long as no future is added that is null
-- or in it already, they answer as a queue does: the futures come out in the order in which they were
-- added, and null where there is none; and the list holds what is left in the queue.
pub serve-answers :
    (cs : List Call) (m : Nodes) (l : FutureList) (xs : List ℕ)
    → IsQueue m l xs
    → IsProper l xs cs
    → (m' : Nodes) × (serve m l cs ≡ ok (m', (answers xs cs).1)) × IsQueue m' l ((answers xs cs).0)
unfolding serve push_back
serve-answers [] m l xs h ok' = (m, refl, h)
serve-answers (Call.push_back_call f ∷ cs) m l xs h (there, out, ok') =
    let (m', e, q) =
      serve-answers cs (link_back m l f) l (xs ++ (f ∷ [])) (link_back-IsQueue m l f xs h out)
        ok' in
    (m', rw there e, q)
serve-answers (Call.remove_front_call ∷ cs) m l [] h ok' =
    let (m', e, q) = serve-answers cs m l [] h ok' in (m', rw (remove_front-empty m l h, e) refl, q)
serve-answers (Call.remove_front_call ∷ cs) m l (x ∷ xs) h ok' =
    let (e, q) = remove_front-IsQueue m l x xs h in
    let (m', e', q') = serve-answers cs ((remove_front m l).0) l xs q ok' in
    (m', rw (e', e) refl, q')
