-- ===== src/Stone/Locks/Scoped.antt =====
-- apsara/stone/threading/sync/lock.h: objects that lock in their constructor and unlock in their
-- destructor, over any kind of lock. A thread that waits is `running`, an abort is `aborted`.

mod Examples
pub mod Mutexes
pub mod ReadWrite
use mathlib.Core.Path.{subst}
use recommender.Prelude.{
  at_put, ℕ, ◌≡◌, refl, Bool, true, false, ◌==◌, Bool-cases, inl, inr, ==→≡, ==-refl,
}
use recommender.Run.{Run, ok, ◌>>=◌}

-- The constructors and the destructors of the scoped objects of the kinds `G`, on a lock of type `L`, by
-- a thread.
pub record Scope (G L : Type 0) : Type 0 where
  pub enter : G → L → ℕ → Run L
  pub leave : G → L → ℕ → Run L

-- Code with scoped objects: nothing, one part after the other, or a part with an object on a lock.
pub data Block (G : Type 0) : Type 0 where
  skip : Block G
  seq : Block G → Block G → Block G
  scoped : G → ℕ → Block G → Block G

module _ {G L : Type 0} (scope : Scope G L) (t : ℕ) where
  -- The locks after the thread `t` has run a block.
  unfoldable pub run_block : Block G → (ℕ → L) → Run (ℕ → L)
  run_block Block.skip ls = ok ls
  run_block (Block.seq a b) ls = do ls' ← run_block a ls; run_block b ls'
  run_block (Block.scoped g i b) ls = do
    l ← scope.enter g (ls i) t
    ls' ← run_block b (at_put ls i l)
    l' ← scope.leave g (ls' i) t
    ok (at_put ls' i l')

-- What the locks of a kind promise to one thread: in a status in which an object of the kind `g` is
-- allowed, its constructor returns, and its destructor returns to the status.
pub record Contract (G L T : Type 0) (scope : Scope G L) (t : ℕ) : Type 1 where
  pub Is : T → L → Type 0
  pub Allows : G → T → Type 0
  pub during : G → T → T
  pub enter_lem :
      (g : G) (s : T) (l : L)
      → Allows g s
      → Is s l
      → (l' : L) × (scope.enter g l t ≡ ok l') × Is (during g s) l'
  pub leave_lem :
      (g : G) (s : T) (l : L)
      → Allows g s
      → Is (during g s) l
      → (l' : L) × (scope.leave g l t ≡ ok l') × Is s l'

at_put_self : {T : Type 0} (h : ℕ → T) (i : ℕ) (s : T) → at_put h i s i ≡ s
at_put_self h i s = rw (==-refl i) refl

module _ {G L T : Type 0} (scope : Scope G L) (t : ℕ) (c : Contract G L T scope t) where
  -- Each object of a block is allowed where it stands, from the statuses `h` on.
  abbrev pub Fits : Block G → (ℕ → T) → Type 0
  Fits Block.skip h = Unit {0}
  Fits (Block.seq a b) h = Fits a h × Fits b h
  Fits (Block.scoped g i b) h = c.Allows g (h i) × Fits b (at_put h i (c.during g (h i)))

  -- The locks `ls` have the statuses `h`.
  abbrev pub Agrees : (ℕ → T) → (ℕ → L) → Type 0
  Agrees h ls = (i : ℕ) → c.Is (h i) (ls i)

  Agrees-put :
      (h : ℕ → T) (ls : ℕ → L) (i : ℕ) (s : T) (l : L)
      → c.Is s l
      → Agrees h ls
      → Agrees (at_put h i s) (at_put ls i l)
  Agrees-put h ls i s l is all j = elim (Bool-cases (i == j)) [
    | inl e ↦ rw e is
    | inr e ↦ rw e (all j)
  ]

  Agrees-back :
      (h : ℕ → T) (ls : ℕ → L) (i : ℕ) (s : T) (l : L)
      → c.Is (h i) l
      → Agrees (at_put h i s) ls
      → Agrees h (at_put ls i l)
  Agrees-back h ls i s l is all j = elim (Bool-cases (i == j)) [
    | inl e ↦ rw e (rw (← ==→≡ i j e) is)
    | inr e ↦ rw e (let at = all j in rw e at at)
  ]

  -- A block whose objects are allowed returns, and leaves each lock in the status in which it was.
  pub run_block-Agrees :
      (b : Block G) (h : ℕ → T) (ls : ℕ → L)
      → Fits b h
      → Agrees h ls
      → (ls' : ℕ → L) × (run_block scope t b ls ≡ ok ls') × Agrees h ls'
  unfolding run_block
  run_block-Agrees Block.skip h ls fits all = (ls, refl, all)
  run_block-Agrees (Block.seq a b) h ls fits all =
      let (ls', e, all') = run_block-Agrees a h ls (fits.0) all in
      let (ls'', e', all'') = run_block-Agrees b h ls' (fits.1) all' in (ls'', rw e e', all'')
  run_block-Agrees (Block.scoped g i b) h ls fits all =
      let (l, e, is) = c.enter_lem g (h i) (ls i) (fits.0) (all i) in
      let h' = at_put h i (c.during g (h i)) in
      let (ls', e', all') =
        run_block-Agrees b h' (at_put ls i l) (fits.1) (Agrees-put h ls i _ l is all) in
      let held : c.Is (c.during g (h i)) (ls' i) =
        subst (λ s. c.Is s (ls' i)) (at_put_self h i (c.during g (h i))) (all' i) in
      let (l', e'', is') = c.leave_lem g (h i) (ls' i) (fits.0) held in
      (at_put ls' i l', rw (e, e', e'') refl, Agrees-back h ls' i _ l' is' all')
