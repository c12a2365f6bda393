-- ===== src/Stone/Raft/Entries.antt =====
-- apsara/stone/consensus/raft/entry.h: sequences of `EntryEx::AppendLog`.
use mathlib.Core.List.{append_assoc, append-nil}
use recommender.Prelude.{
  ℕ, ◌+◌, ◌≤◌, ◌≡◌, refl, ◌∙◌, ap, arith, Bool, true, false, List, [], ◌∷◌, ◌++◌, map, ltb, ltb→lt,
  ◌<◌, length, length-map, Bool-cases, inl, inr,
}
use recommender.Stone.Raft.{
  Messages, EntryEx, create, get_size, append_log, append_logs, byte_size_limit_per_entry,
}

map-snoc :
    {A B : Type 0} (f : A → B) (xs : List A) (x : A)
    → map f xs ++ (f x ∷ []) ≡ map f (xs ++ (x ∷ []))
map-snoc f [] x = refl
map-snoc f (y ∷ xs) x = ap (λ l. f y ∷ l) (map-snoc f xs x)

-- The data of an entry: a repeated field of protobuf, to which `add_data` appends.
pub record EntryLaws (M D E : Type 0) (ms : Messages M D E) : Type 0 where
  pub entry_data : E → List D
  pub new_entry_lem : entry_data ms.new_entry ≡ []
  pub add_data_lem : (n : E) (d : D) → entry_data (ms.add_data n d) ≡ entry_data n ++ (d ∷ [])
  pub set_type_lem : (n : E) → entry_data (ms.set_type_data n) ≡ entry_data n

module _ {M D E C : Type 0} (ms : Messages M D E) where
  abbrev pub total_size : List (M × C) → ℕ
  total_size [] = 0
  total_size (p ∷ ps) = ms.byte_size (p.0) + total_size ps

  -- The pairs that were answered with true.
  abbrev pub answered : List (M × C) → List Bool → List (M × C)
  answered [] bs = []
  answered (p ∷ ps) [] = []
  answered (p ∷ ps) (true ∷ bs) = p ∷ answered ps bs
  answered (p ∷ ps) (false ∷ bs) = answered ps bs

  -- From `n` bytes on, a message is answered with true just if it fits.
  abbrev pub IsGreedy : ℕ → List (M × C) → List Bool → Type 0
  IsGreedy n [] bs = bs ≡ []
  IsGreedy n (p ∷ ps) [] = ⊥
  IsGreedy n (p ∷ ps) (true ∷ bs) =
      (n + ms.byte_size (p.0) ≤ byte_size_limit_per_entry) × IsGreedy (n + ms.byte_size (p.0)) ps bs
  IsGreedy n (p ∷ ps) (false ∷ bs) =
      (byte_size_limit_per_entry < n + ms.byte_size (p.0)) × IsGreedy n ps bs

  -- What an entry holds after the pairs `qs`.
  pub record Holds (laws : EntryLaws M D E ms) (e : EntryEx E C) (qs : List (M × C)) : Type 0 where
    pub data_lem : laws.entry_data e.m_entry ≡ map (λ q. ms.serialize (q.0)) qs
    pub callbacks_lem : e.m_callbacks ≡ map (λ q. q.1) qs
    pub size_lem : e.m_byte_size ≡ total_size qs
    pub bound : e.m_byte_size ≤ byte_size_limit_per_entry

  total_size-snoc :
      (qs : List (M × C)) (p : M × C)
      → total_size qs + ms.byte_size (p.0) ≡ total_size (qs ++ (p ∷ []))
  total_size-snoc [] p = omega arith
  total_size-snoc (q ∷ qs) p = omega (arith, total_size-snoc qs p)

  append_log-Holds :
      (laws : EntryLaws M D E ms) (e : EntryEx E C) (m : M) (c : C) (qs : List (M × C))
      → Holds laws e qs
      → (append_log ms e m c).1 ≡ true
      → Holds laws (append_log ms e m c).0 (qs ++ ((m, c) ∷ []))
  unfolding append_log
  append_log-Holds laws e m c qs h yes_lem =
      elim (Bool-cases (ltb byte_size_limit_per_entry (e.m_byte_size + ms.byte_size m))) [
        | inl big ↦ cc (rw big at yes_lem)
        | inr fits ↦ rw fits record {
          data_lem =
              laws.set_type_lem _
              ∙ laws.add_data_lem e.m_entry (ms.serialize m)
              ∙ ap (λ l. l ++ (ms.serialize m ∷ [])) h.data_lem
              ∙ map-snoc (λ (q : M × C). ms.serialize (q.0)) qs (m, c);
          callbacks_lem =
              ap (λ l. l ++ (c ∷ [])) h.callbacks_lem ∙ map-snoc (λ (q : M × C). q.1) qs (m, c);
          size_lem = omega (arith, h.size_lem, total_size-snoc qs (m, c));
          bound = ground arith;
        }
      ]

  append_log-refused :
      (e : EntryEx E C) (m : M) (c : C)
      → (append_log ms e m c).1 ≡ false
      → (append_log ms e m c).0 ≡ e
  unfolding append_log
  append_log-refused e m c no_lem =
      elim (Bool-cases (ltb byte_size_limit_per_entry (e.m_byte_size + ms.byte_size m))) [
        | inl big ↦ rw big refl
        | inr fits ↦ cc (rw fits at no_lem)
      ]

  append_logs-Holds :
      (laws : EntryLaws M D E ms) (ps : List (M × C)) (e : EntryEx E C) (qs : List (M × C))
      → Holds laws e qs
      → let (e', bs) = append_logs ms e ps in Holds laws e' (qs ++ answered ps bs)
  unfolding append_logs
  append_logs-Holds laws [] e qs h = rw (append-nil qs) h
  append_logs-Holds laws ((m, c) ∷ ps) e qs h = elim (Bool-cases (append_log ms e m c).1) [
    | inl y ↦ rw y (
        let rest =
          append_logs-Holds laws ps (append_log ms e m c).0 (qs ++ ((m, c) ∷ []))
            (append_log-Holds laws e m c qs h y) in
        rw
          (← append_assoc qs ((m, c) ∷ [])
            (answered ps (append_logs ms (append_log ms e m c).0 ps).1))
          rest)
    | inr n ↦ rw (n, append_log-refused e m c n) (append_logs-Holds laws ps e qs h)
  ]

  append_logs-IsGreedy :
      (ps : List (M × C)) (e : EntryEx E C) → IsGreedy e.m_byte_size ps (append_logs ms e ps).1
  unfolding append_logs append_log
  append_logs-IsGreedy [] e = refl
  append_logs-IsGreedy ((m, c) ∷ ps) e =
      elim (Bool-cases (ltb byte_size_limit_per_entry (e.m_byte_size + ms.byte_size m))) [
        | inl big ↦ rw big (ltb→lt _ _ big, append_logs-IsGreedy ps e)
        | inr fits ↦ rw fits (
          ground arith,
          append_logs-IsGreedy ps record {
            m_entry = ms.set_type_data (ms.add_data e.m_entry (ms.serialize m));
            m_byte_size = e.m_byte_size + ms.byte_size m;
            m_callbacks = e.m_callbacks ++ (c ∷ []);
          },
        )
      ]

  -- An entry to which messages are appended one after the other holds at the end those that were
  -- accepted, in order, each serialized and with its callback. A message is accepted just if the sum of
  -- the sizes stays at most 16 MiB with it. `Size` is the number of the accepted messages and `ByteSize`
  -- the sum of their sizes.
  pub append_logs-accepted :
      (laws : EntryLaws M D E ms) (ps : List (M × C))
      → let (e, bs) = append_logs ms (create ms) ps in
        IsGreedy 0 ps bs × Holds laws e (answered ps bs) × (get_size e ≡ length (answered ps bs))
  unfolding create get_size
  append_logs-accepted laws ps =
      let h = append_logs-Holds laws ps (create ms) [] record {
        data_lem = laws.new_entry_lem;
        callbacks_lem = refl;
        size_lem = refl;
        bound = omega arith;
      } in
      (
        append_logs-IsGreedy ps (create ms),
        h,
        ap length h.callbacks_lem
            ∙ length-map (answered ps (append_logs ms (create ms) ps).1) (λ (q : M × C). q.1),
      )
