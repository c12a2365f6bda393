-- ===== src/Stone/ScopedPtr/Ownership.antt =====
-- What a scoped pointer owns.
use recommender.Prelude.{
  ==→≡, ℕ, zero, suc, ◌<◌, ◌≤◌, ◌≡◌, refl, ◌∙◌, sym, ap, inl, inr, arith, Bool, true, false, not,
  ◌||◌, List, [], ◌∷◌, ◌==◌, ==-refl, ne→==, pos→ne, if◌then◌else◌, Bool-cases,
}
use recommender.Run.{Run, ok, ◌>>=◌}
use recommender.Stone.ScopedPtr.{Heap, mark, destroy, ScopedPtr, close, swap, reset, release}

-- What its owner does with a scoped pointer: it resets it to a new object or to null, or takes the
-- object back.
pub data Use : Type 0 where
  reset_new : Use
  reset_null : Use
  take_back : Use

-- The heap with the address of the next object, the scoped pointer, and the objects taken back.
pub record Owner : Type 0 where
  pub heap : Heap
  pub fresh : ℕ
  pub m_ptr : ScopedPtr
  pub taken : List ℕ

unfoldable pub use_ptr : Owner → Use → Run Owner
use_ptr o Use.reset_new = do
  (h, p) ← reset (mark o.heap o.fresh true) o.m_ptr o.fresh
  ok (record o { heap = h; fresh = suc o.fresh; m_ptr = p })
use_ptr o Use.reset_null = do (h, p) ← reset o.heap o.m_ptr 0; ok (record o { heap = h; m_ptr = p })
use_ptr o Use.take_back =
    let (old, p) = release o.m_ptr in ok (record o { m_ptr = p; taken = old ∷ o.taken })

-- The uses, and then the destructor.
unfoldable pub lifetime : Owner → List Use → Run Owner
lifetime o [] = do h ← close o.heap o.m_ptr; ok (record o { heap = h; m_ptr = 0 })
lifetime o (u ∷ us) = do o' ← use_ptr o u; lifetime o' us

abbrev pub mentions : List ℕ → ℕ → Bool
mentions [] p = false
mentions (x ∷ xs) p = if x == p then true else mentions xs p

-- An object lives exactly if it is owned or was taken back.
pub record IsOwner (o : Owner) : Type 0 where
  pub below : o.m_ptr < o.fresh
  pub lives : (p : ℕ) → 0 < p → o.heap p ≡ (if o.m_ptr == p then true else mentions o.taken p)
  pub only : 0 < o.m_ptr → mentions o.taken o.m_ptr ≡ false
  pub unborn : (p : ℕ) → o.fresh ≤ p → mentions o.taken p ≡ false

pos→ne' : (p : ℕ) → 0 < p → (0 == p) ≡ false
pos→ne' p h = ground arith

destroy-ok :
    (h : Heap) (p : ℕ)
    → (0 < p → h p ≡ true)
    → (h' : Heap) × (destroy h p ≡ ok h')
      × ((q : ℕ) → 0 < q → h' q ≡ (if p == q then false else h q))
unfolding destroy
destroy-ok h zero live = (h, refl, λ q pos. ground arith)
destroy-ok h (suc p) live =
    (mark h (suc p) false, rw (pos→ne (suc p) (omega arith), live (omega arith)), λ q pos. refl)

reset-ok :
    (h : Heap) (m_ptr ptr : ℕ)
    → (0 < m_ptr → h m_ptr ≡ true)
    → (ptr == 0 || not (ptr == m_ptr)) ≡ true
    → (h' : Heap) × (reset h m_ptr ptr ≡ ok (h', ptr))
      × ((q : ℕ) → 0 < q → h' q ≡ (if m_ptr == q then false else h q))
unfolding reset close swap
reset-ok h m_ptr ptr live other = let (h', e, f) = destroy-ok h m_ptr live in (h', rw (other, e), f)

owned : (o : Owner) → IsOwner o → 0 < o.m_ptr → o.heap o.m_ptr ≡ true
owned o i pos = i.lives o.m_ptr pos ∙ rw (==-refl o.m_ptr)

or_true : (b : Bool) → (b || true) ≡ true
or_true true = refl
or_true false = refl

-- Without the object that the pointer owns, the objects live that were taken back.
gone :
    (o : Owner)
    → IsOwner o
    → (p : ℕ) → 0 < p
    → (if o.m_ptr == p then false else o.heap p) ≡ mentions o.taken p
gone o i p pos = elim (Bool-cases (o.m_ptr == p)) [
  | inl e ↦
      let same : o.m_ptr ≡ p = ==→≡ _ _ e in
      rw e (sym (i.only (omega arith)) ∙ ap (mentions o.taken) same)
  | inr e ↦ rw e (i.lives p pos ∙ rw e)
]

use_ptr-IsOwner :
    (o : Owner) (u : Use) → IsOwner o → (o' : Owner) × (use_ptr o u ≡ ok o') × IsOwner o'
unfolding use_ptr release
use_ptr-IsOwner o Use.reset_new i =
    let apart : (o.fresh == o.m_ptr) ≡ false = ne→== _ _ (omega (arith, i.below)) in
    let (h', e, f) =
      reset-ok (mark o.heap o.fresh true) o.m_ptr o.fresh (λ pos. rw apart (owned o i pos))
        (rw apart (or_true (o.fresh == 0))) in
    (
      record o { heap = h'; fresh = suc o.fresh; m_ptr = o.fresh },
      rw e,
      record {
        below = omega arith;
        lives = λ p pos. f p pos ∙ elim (Bool-cases (o.fresh == p)) [
          | inl b ↦ rw (b, ne→== o.m_ptr p (omega (arith, ==→≡ _ _ b, i.below)))
          | inr b ↦ rw b (gone o i p pos)
        ];
        only = λ pos. i.unborn o.fresh (omega arith);
        unborn = λ p le. i.unborn p (omega arith);
      },
    )
use_ptr-IsOwner o Use.reset_null i =
    let (h', e, f) = reset-ok o.heap o.m_ptr 0 (owned o i) refl in
    (
      record o { heap = h'; m_ptr = 0 },
      rw e,
      record {
        below = omega (arith, i.below);
        lives = λ p pos. f p pos ∙ gone o i p pos ∙ rw (pos→ne' p pos);
        only = λ pos. absurd (omega arith);
        unborn = i.unborn;
      },
    )
use_ptr-IsOwner o Use.take_back i = (
  record o { m_ptr = 0; taken = o.m_ptr ∷ o.taken },
  refl,
  record {
    below = omega (arith, i.below);
    lives = λ p pos. i.lives p pos ∙ rw (pos→ne' p pos);
    only = λ pos. absurd (omega arith);
    unborn = λ p le. rw (ne→== o.m_ptr p (omega (arith, i.below))) (i.unborn p le);
  },
)

-- A scoped pointer that is reset to new objects or to null and released, any number of times, and then
-- destroyed, deletes no object twice: at the end exactly the objects live that were taken back from it.
pub lifetime-lives :
    (us : List Use) (o : Owner)
    → IsOwner o
    → (o' : Owner) × (lifetime o us ≡ ok o') × ((p : ℕ) → 0 < p → o'.heap p ≡ mentions o'.taken p)
unfolding lifetime close
lifetime-lives [] o i =
    let (h', e, f) = destroy-ok o.heap o.m_ptr (owned o i) in
    (record o { heap = h'; m_ptr = 0 }, rw e, λ p pos. f p pos ∙ gone o i p pos)
lifetime-lives (u ∷ us) o i =
    let (o', e, i') = use_ptr-IsOwner o u i in
    let (o'', e', f) = lifetime-lives us o' i' in (o'', rw e e', f)
