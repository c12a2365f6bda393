-- ===== src/Stone/LockFree/Queue/Steps.antt =====
-- The steps of the lock-free queue that depend on what the thread knows: what they keep.
use recommender.Prelude.{
  ℕ, ◌+◌, ◌-◌, ◌<◌, ◌≡◌, refl, ◌∙◌, sym, ap, inl, inr, arith, Option, some, none, List, ◌==◌,
  at_put, ==→≡, Bool-cases, if◌then◌else◌,
}
use mathlib.Core.Option.{none-ne-some}
use mathlib.Core.Path.{subst}
use recommender.Stone.LockFree.{make_tagged, get_pointer, get_tag, invalid_tag}
use recommender.Stone.LockFree.Queue.{LockFreeQueue, Pc, tagged_on}
use recommender.Stone.LockFree.Queue.Head.{pop-Moves, head-first}
use recommender.Stone.LockFree.Queue.Tail.{push-Moves}
use recommender.Stone.LockFree.Queue.FreeList.{acquire-Moves, release-Moves}
use recommender.Stone.LockFree.Queue.Invariant.{Ghost, IsLink}
use recommender.Stone.LockFree.Queue.Moves.{Moves, span}
use recommender.Stone.LockFree.Queue.Positions.{max_position, seq, seq-injective, rank, get_tag-seq}
use recommender.Stone.LockFree.Queue.Writes.{IsReady, still-Moves, link-Moves, good-IsLink}

pub no_owner : {o : Option ℕ} (k : ℕ) → none ≡ some k → o ≡ some k
no_owner k e = absurd (none-ne-some k e)

module _ {A : Type 0} where
  -- No tag comes round in the next step.
  pub record HasRoom (s : LockFreeQueue A) (g : Ghost) (n : ℕ) : Type 0 where
    pub free_room : rank (get_tag s.free_node_head) + n < max_position
    pub last_room : g.last + n < max_position

  pub acquired-Moves :
      (s : LockFreeQueue A) (v : A) (h n : ℕ) (g : Ghost) (used : List ℕ)
      → IsReady s (Pc.acquire_exchange v h n) g used
      → HasRoom s g 1
      → s.free_node_head ≡ h
      → Moves s
          (Pc.acquire_exchange v h n)
          g
          used
          used
          (record s { free_node_head = tagged_on n h }, Pc.push_value v (get_pointer h))
  acquired-Moves s v h n g used i room e =
      let (le, ne, known) = i.knows in
      subst
        (λ w.
          Moves s (Pc.acquire_exchange v w n) g used used
            (record s { free_node_head = tagged_on n w }, Pc.push_value v (get_pointer w)))
        e
        (acquire-Moves s v n g used i.sound (rw e ne)
          (known e ∙ ap (λ w. s.next_free_node (get_pointer w)) (sym e))
          (omega (arith, room.free_room)))

  pub pushed-Moves :
      (s : LockFreeQueue A) (v : A) (k t : ℕ) (g : Ghost) (used : List ℕ)
      → IsReady s (Pc.push_exchange v k t) g used
      → HasRoom s g 1
      → s.tail ≡ t
      → Moves s
          (Pc.push_exchange v k t)
          g
          used
          used
          (record s { tail = tagged_on k t }, Pc.push_prev k t)
  pushed-Moves s v k t g used i room e =
      let (val, link) = i.knows in
      subst
        (λ w.
          Moves s (Pc.push_exchange v k w) g used used
            (record s { tail = tagged_on k w }, Pc.push_prev k w))
        e
        (push-Moves s k v g used i.sound (i.owned k refl) val
          (link ∙ ap (λ w. tagged_on (get_pointer w) w) (sym e)) room.last_room)

  pub linked-Moves :
      (s : LockFreeQueue A) (k t : ℕ) (g : Ghost) (used : List ℕ)
      → IsReady s (Pc.push_prev k t) g used
      → Moves s (Pc.push_prev k t) g used used (
        record s { prev = at_put s.prev (get_pointer t) (make_tagged k (get_tag t)) },
        Pc.push_size,
      )
  linked-Moves s k t g used i =
      let (j, e, e', lt) = i.knows in
      link-Moves s (Pc.push_prev k t) Pc.push_size g used i (get_pointer t)
        (make_tagged k (get_tag t))
        (subst (IsLink g (get_pointer t))
          (ap (λ a. make_tagged a (seq j)) (sym e')
            ∙ ap (make_tagged k) (
                sym (get_tag-seq (g.at j) j (omega (arith, lt, i.sound.few))) ∙ ap get_tag (sym e)))
          (good-IsLink g j lt (omega (arith, lt, i.sound.few))
            (i.sound.addresses (j + 1) (omega (arith, lt)))))
        tt no_owner refl

  pub taken-Moves :
      (s : LockFreeQueue A) (h p : ℕ) (v : A) (g : Ghost) (used : List ℕ)
      → IsReady s (Pc.pop_exchange h p v) g used
      → s.head ≡ h
      → Moves s
          (Pc.pop_exchange h p v)
          g
          used
          used
          (record s { head = tagged_on (get_pointer p) h }, Pc.release_value (get_pointer h) v)
  taken-Moves s h p v g used i e =
      let (j, was, link, tag, val) = i.knows in
      let now : g.first ≡ j = head-first s g used h j i.sound was e in
      let (lt, to) =
        link g.first (omega arith) (omega (arith, i.sound.ordered, i.sound.few))
          (λ z. ap g.at (sym now ∙ z)) (tag ∙ ap seq (sym now)) in
      subst
        (λ w.
          Moves s (Pc.pop_exchange w p v) g used used
            (record s { head = tagged_on (get_pointer p) w }, Pc.release_value (get_pointer w) v))
        e (pop-Moves s p v g used i.sound lt to (val now))

  pub released-Moves :
      (s : LockFreeQueue A) (k f : ℕ) (v : A) (g : Ghost) (used : List ℕ)
      → IsReady s (Pc.release_exchange k v f) g used
      → HasRoom s g 1
      → s.free_node_head ≡ f
      → Moves s
          (Pc.release_exchange k v f)
          g
          used
          used
          (record s { free_node_head = tagged_on k f }, Pc.pop_size v)
  released-Moves s k f v g used i room e =
      subst
        (λ w.
          Moves s (Pc.release_exchange k v w) g used used
            (record s { free_node_head = tagged_on k w }, Pc.pop_size v))
        e
        (release-Moves s k v g used i.sound (i.owned k refl) (i.knows ∙ ap get_pointer (sym e))
          (omega (arith, room.free_room)))

  -- `Pop` reads the same word from both ends only where they have the same position.
  pub tail-Moves :
      (s : LockFreeQueue A) (h : ℕ) (g : Ghost) (used : List ℕ)
      → IsReady s (Pc.pop_tail h) g used
      → Moves s (Pc.pop_tail h) g used used (s, Pc.pop_prev h s.tail)
  tail-Moves s h g used i =
      let (j, (e, le, lt)) = i.knows in
      still-Moves s (Pc.pop_tail h) (Pc.pop_prev h s.tail) g used i
        (
          j,
          (e, le, lt),
          (g.last, i.sound.tail_word, omega (arith, le, i.sound.ordered), omega arith),
        )
        no_owner
        (
          refl,
          λ same.
              let here : g.last ≡ j = seq-injective g.last j (
                sym (get_tag-seq (g.at g.last) g.last (omega (arith, i.sound.few)))
                ∙ ap get_tag (sym i.sound.tail_word ∙ same ∙ e)
                ∙ get_tag-seq (g.at j) j (omega (arith, lt))) in
              let none_left : g.last - g.first ≡ 0 = omega (arith, here, le, i.sound.ordered) in
              ap (span (λ l. s.value (g.at l)) (g.first + 1)) none_left,
        )

  pub check-Moves :
      (s : LockFreeQueue A) (h t p : ℕ) (g : Ghost) (used : List ℕ)
      → IsReady s (Pc.pop_check h t p) g used
      → s.head ≡ h
      → Moves s (Pc.pop_check h t p) g used used (
          if t == h
          then (s, Pc.popped none)
          else if get_tag p == invalid_tag
          then (s, Pc.pop_head)
          else if get_tag p == get_tag h
          then (s, Pc.pop_value h p)
          else (s, Pc.fix_head h t))
  check-Moves s h t p g used i now =
      let (j, was, link, at) = i.knows in
      let (e, le, lt) = was in
      elim (Bool-cases (t == h)) [
        | inl e1 ↦ rw e1 (still-Moves s _ (Pc.popped none) g used i tt no_owner refl)
        | inr e1 ↦ rw e1 (elim (Bool-cases (get_tag p == invalid_tag)) [
          | inl e2 ↦ rw e2 (still-Moves s _ Pc.pop_head g used i tt no_owner refl)
          | inr e2 ↦ rw e2 (elim (Bool-cases (get_tag p == get_tag h)) [
            | inl e3 ↦ rw e3 (
                still-Moves s _ (Pc.pop_value h p) g used i
                  (
                    j,
                    was,
                    link,
                    ==→≡ _ _ e3 ∙ ap get_tag e ∙ get_tag-seq (g.at j) j (omega (arith, lt)),
                  )
                  no_owner refl)
            | inr e3 ↦
                rw e3
                  (still-Moves s _ (Pc.fix_head h t) g used i (j, was, λ first. at) no_owner refl)
          ])
        ])
      ]
