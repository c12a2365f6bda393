-- ===== src/Stone/ScopedPtr/Arrays.antt =====
-- apsara/stone/memory/scoped_ptr.h: `scoped_array`, on a heap of arrays with their elements. An array
-- is its address, and 0 is the null pointer.
use recommender.Prelude.{
  ℕ, suc, ◌<◌, ◌≡◌, refl, ◌∙◌, sym, ap, inl, inr, Bool, true, false, not, ◌||◌, List, [], ◌∷◌, map,
  Option, none, some, ◌==◌, if◌then◌else◌, Bool-cases, get_elem?,
}
use recommender.Run.{Run, ok, overrun, fault, aborted, running, ◌>>=◌, ◌>>◌, assert}
use recommender.Stone.ScopedPtr.{Heap, mark, destroy, close, swap, reset, release}
use recommender.Stone.ScopedPtr.Ownership.{
  Use, Owner, IsOwner, use_ptr, lifetime, mentions, lifetime-lives,
}

abbrev pub is_some : {A : Type 0} → Option A → Bool
is_some none = false
is_some (some a) = true

-- What is forgotten of a result can be forgotten before the rest of the code runs.
bind-forget :
    {X Y P Q : Type 0} (r : Run X) (r' : Run Y) (g : X → Y) (f : X → Run P) (g' : P → Q)
    (k : Y → Run Q)
    → (r >>= λ x. ok (g x)) ≡ r'
    → ((x : X) → (f x >>= λ p. ok (g' p)) ≡ k (g x))
    → ((r >>= f) >>= λ p. ok (g' p)) ≡ (r' >>= k)
bind-forget (ok x) r' g f g' k e same = rw (← e) (same x)
bind-forget overrun r' g f g' k e same = rw (← e) refl
bind-forget aborted r' g f g' k e same = rw (← e) refl
bind-forget fault r' g f g' k e same = rw (← e) refl
bind-forget running r' g f g' k e same = rw (← e) refl

ok-of :
    {X Y : Type 0} (r : Run X) (g : X → Y) (y : Y)
    → (r >>= λ x. ok (g x)) ≡ ok y
    → (x : X) × (r ≡ ok x) × (g x ≡ y)
ok-of (ok x) g y e = (x, refl, cc e)
ok-of overrun g y e = cc e
ok-of aborted g y e = cc e
ok-of fault g y e = cc e
ok-of running g y e = cc e

module _ {A : Type 0} where
  abbrev pub put : (ℕ → Option (List A)) → ℕ → Option (List A) → ℕ → Option (List A)
  put h p a q = if p == q then a else h q

  -- `delete[] p` or `free(p)`.
  unfoldable pub destroy_array : (ℕ → Option (List A)) → ℕ → Run (ℕ → Option (List A))
  destroy_array h p = if p == 0 then ok h else if is_some (h p) then ok (put h p none) else fault

  unfoldable pub close_array : (ℕ → Option (List A)) → ℕ → Run (ℕ → Option (List A))
  close_array h m_ptr = destroy_array h m_ptr

  -- `operator[](i)`, where `i` is not negative.
  unfoldable pub element : (ℕ → Option (List A)) → ℕ → ℕ → Run A
  element h m_ptr i = do
    assert (not (m_ptr == 0))
    elim (h m_ptr) [
      | none ↦ fault
      | some xs ↦ elim (get_elem? xs i) [ none ↦ fault | some x ↦ ok x ]
    ]

unfoldable pub swap_array : ℕ × ℕ → ℕ × ℕ
swap_array (other, this) = (this, other)

unfoldable pub release_array : ℕ → ℕ × ℕ
release_array m_ptr = (m_ptr, 0)

unfoldable pub is_set_array : ℕ → Bool
is_set_array m_ptr = not (m_ptr == 0)

module _ {A : Type 0} where
  -- `reset(ptr)`: a temporary takes the old pointer, and its destructor deletes the array.
  unfoldable pub reset_array : (ℕ → Option (List A)) → ℕ → ℕ → Run ((ℕ → Option (List A)) × ℕ)
  reset_array h m_ptr ptr = do
    assert (ptr == 0 || not (ptr == m_ptr))
    let (temporary, this) = swap_array (ptr, m_ptr)
    h' ← close_array h temporary
    ok (h', this)

  -- `operator=(ptr)`
  unfoldable pub assign_array : (ℕ → Option (List A)) → ℕ → ℕ → Run ((ℕ → Option (List A)) × ℕ)
  assign_array h m_ptr ptr = reset_array h m_ptr ptr

-- What its owner does with a scoped array: it resets or assigns it to a new array or to null, or takes
-- the array back.
pub data UseArray (A : Type 0) : Type 0 where
  reset_new : List A → UseArray A
  assign_new : List A → UseArray A
  reset_null : UseArray A
  take_back : UseArray A

-- The heap with the address of the next array, the scoped array, and the arrays taken back.
pub record ArrayOwner (A : Type 0) : Type 0 where
  pub arrays : ℕ → Option (List A)
  pub next : ℕ
  pub held : ℕ
  pub taken_back : List ℕ

module _ {A : Type 0} where
  unfoldable pub use_array : ArrayOwner A → UseArray A → Run (ArrayOwner A)
  use_array o (UseArray.reset_new xs) = do
    (h, p) ← reset_array (put o.arrays o.next (some xs)) o.held o.next
    ok (record o { arrays = h; next = suc o.next; held = p })
  use_array o (UseArray.assign_new xs) = do
    (h, p) ← assign_array (put o.arrays o.next (some xs)) o.held o.next
    ok (record o { arrays = h; next = suc o.next; held = p })
  use_array o UseArray.reset_null = do
    (h, p) ← reset_array o.arrays o.held 0
    ok (record o { arrays = h; held = p })
  use_array o UseArray.take_back =
      let (old, p) = release_array o.held in
      ok (record o { held = p; taken_back = old ∷ o.taken_back })

  -- The uses, and then the destructor.
  unfoldable pub lifetime_array : ArrayOwner A → List (UseArray A) → Run (ArrayOwner A)
  lifetime_array o [] = do h ← close_array o.arrays o.held; ok (record o { arrays = h; held = 0 })
  lifetime_array o (u ∷ us) = do o' ← use_array o u; lifetime_array o' us

  -- The elements forgotten: a scoped array is a scoped pointer.
  abbrev pub forget : (ℕ → Option (List A)) → Heap
  forget h q = is_some (h q)

  abbrev pub forget_use : UseArray A → Use
  forget_use (UseArray.reset_new xs) = Use.reset_new
  forget_use (UseArray.assign_new xs) = Use.reset_new
  forget_use UseArray.reset_null = Use.reset_null
  forget_use UseArray.take_back = Use.take_back

  abbrev pub forget_owner : ArrayOwner A → Owner
  forget_owner o = record {
    heap = forget o.arrays;
    fresh = o.next;
    m_ptr = o.held;
    taken = o.taken_back;
  }

  forget-put_at :
      (h : ℕ → Option (List A)) (p : ℕ) (a : Option (List A)) (q : ℕ)
      → forget (put h p a) q ≡ mark (forget h) p (is_some a) q
  forget-put_at h p a q = elim (Bool-cases (p == q)) [ inl e ↦ rw e refl | inr e ↦ rw e refl ]

  forget-put :
      (h : ℕ → Option (List A)) (p : ℕ) (a : Option (List A))
      → forget (put h p a) ≡ mark (forget h) p (is_some a)
  forget-put h p a = λ i q. forget-put_at h p a q i

  destroy_array-destroy :
      (h : ℕ → Option (List A)) (p : ℕ)
      → (destroy_array h p >>= λ h'. ok (forget h')) ≡ destroy (forget h) p
  unfolding destroy_array destroy
  destroy_array-destroy h p = elim (Bool-cases (p == 0)) [
    | inl e ↦ rw e refl
    | inr e ↦ elim (Bool-cases (is_some (h p))) [
      | inl l ↦ rw (e, l) (ap ok (forget-put h p none))
      | inr l ↦ rw (e, l) refl
    ]
  ]

  close_array-close :
      (h : ℕ → Option (List A)) (p : ℕ)
      → (close_array h p >>= λ h'. ok (forget h')) ≡ close (forget h) p
  unfolding close_array close
  close_array-close h p = destroy_array-destroy h p

  reset_array-reset :
      (h : ℕ → Option (List A)) (m_ptr ptr : ℕ)
      → (reset_array h m_ptr ptr >>= λ r. ok (forget (r.0), r.1)) ≡ reset (forget h) m_ptr ptr
  unfolding reset_array reset swap_array swap
  reset_array-reset h m_ptr ptr = elim (Bool-cases (ptr == 0 || not (ptr == m_ptr))) [
    | inl e ↦ rw e (
        bind-forget (close_array h m_ptr) _ forget (λ h'. ok (h', ptr)) (λ x. (forget (x.0), x.1)) _
          (close_array-close h m_ptr) (λ x. refl))
    | inr e ↦ rw e refl
  ]

  -- A new array is a new object.
  reset_new-forget :
      (o : ArrayOwner A) (xs : List A)
      → (reset_array (put o.arrays o.next (some xs)) o.held o.next >>= λ x. ok (forget (x.0), x.1))
        ≡ reset (mark (forget o.arrays) o.next true) o.held o.next
  reset_new-forget o xs =
      reset_array-reset (put o.arrays o.next (some xs)) o.held o.next
      ∙ ap (λ h. reset h o.held o.next) (forget-put o.arrays o.next (some xs))

  use_array-use_ptr :
      (o : ArrayOwner A) (u : UseArray A)
      → (use_array o u >>= λ o'. ok (forget_owner o')) ≡ use_ptr (forget_owner o) (forget_use u)
  unfolding use_array use_ptr assign_array release_array release
  use_array-use_ptr o (UseArray.reset_new xs) =
      bind-forget _ _ (λ x. (forget (x.0), x.1)) _ forget_owner _ (reset_new-forget o xs)
        (λ x. refl)
  use_array-use_ptr o (UseArray.assign_new xs) =
      bind-forget _ _ (λ x. (forget (x.0), x.1)) _ forget_owner _ (reset_new-forget o xs)
        (λ x. refl)
  use_array-use_ptr o UseArray.reset_null =
      bind-forget _ _ (λ x. (forget (x.0), x.1)) _ forget_owner _
        (reset_array-reset o.arrays o.held 0) (λ x. refl)
  use_array-use_ptr o UseArray.take_back = refl

  -- A scoped array is used as a scoped pointer is.
  lifetime_array-lifetime :
      (us : List (UseArray A)) (o : ArrayOwner A)
      → (lifetime_array o us >>= λ o'. ok (forget_owner o'))
        ≡ lifetime (forget_owner o) (map forget_use us)
  unfolding lifetime_array lifetime
  lifetime_array-lifetime [] o =
      bind-forget _ _ forget _ forget_owner _ (close_array-close o.arrays o.held) (λ x. refl)
  lifetime_array-lifetime (u ∷ us) o =
      bind-forget _ _ forget_owner _ forget_owner _ (use_array-use_ptr o u)
        (λ x. lifetime_array-lifetime us x)

  -- A `scoped_ptr` and a `scoped_array` that are set any number of times, each time to a new object or
  -- array or to null, and released any number of times, and that are then destroyed, delete no object
  -- and no array twice: at the end exactly those live that were taken back by a release.
  pub lifetimes-live :
      (us : List Use) (o : Owner) (vs : List (UseArray A)) (a : ArrayOwner A)
      → IsOwner o
      → IsOwner (forget_owner a)
      → ((o' : Owner) × (lifetime o us ≡ ok o')
          × ((p : ℕ) → 0 < p → o'.heap p ≡ mentions o'.taken p))
        × ((a' : ArrayOwner A) × (lifetime_array a vs ≡ ok a')
            × ((p : ℕ) → 0 < p → is_some (a'.arrays p) ≡ mentions a'.taken_back p))
  lifetimes-live us o vs a i j =
      let (o', e, f) = lifetime-lives (map forget_use vs) (forget_owner a) j in
      let (a', e', same) = ok-of _ forget_owner o' (lifetime_array-lifetime vs a ∙ e) in
      (
        lifetime-lives us o i,
        (
          a',
          e',
          λ p pos.
              ap (λ (w : Owner). w.heap p) same
              ∙ f p pos
              ∙ ap (λ (w : Owner). mentions w.taken p) (sym same),
        ),
      )
