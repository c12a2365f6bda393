-- ===== src/Stone/Raft/Examples.antt =====
-- An entry to which three messages are appended, the second of them too large, and three ids.
use recommender.Prelude.{◌↔◌, true, false, not, ◌&&◌}
use recommender.Stone.Raft.{LogId, less, equal, less_equal}
use recommender.Stone.Raft.Order.{IsBefore, less-order}
use recommender.Prelude.{ℕ, ◌≡◌, refl, List, [], ◌∷◌, ◌++◌, length}
use recommender.Stone.Raft.{Messages, create, get_size, append_logs}
use recommender.Stone.Raft.Entries.{EntryLaws, IsGreedy, Holds, answered, append_logs-accepted}

abbrev pairs : LogId (ℕ × ℕ)
pairs = record { term = λ i. i.0; seq_id = λ i. i.1 }

abbrev a : ℕ × ℕ
a = (2, 9)

abbrev b : ℕ × ℕ
b = (3, 1)

abbrev c : ℕ × ℕ
c = (3, 4)

less-order_example :
    ((less pairs a b ≡ true) ↔ IsBefore pairs a b)
    × (less pairs a b ≡ true → less pairs b c ≡ true → less pairs a c ≡ true)
    × ((equal pairs a b ≡ true) ↔ ((a.0 ≡ b.0) × (a.1 ≡ b.1)))
    × (equal pairs a b ≡ (not (less pairs a b) && not (less pairs b a)))
    × ((less pairs a b && less pairs b a) ≡ false)
    × (less_equal pairs a b ≡ not (less pairs b a))
less-order_example = less-order pairs a b c

-- A message is its size, and an entry the list of its data.
abbrev sizes : Messages ℕ ℕ (List ℕ)
sizes = record {
  byte_size = λ m. m;
  serialize = λ m. m;
  new_entry = [];
  add_data = λ n d. n ++ (d ∷ []);
  set_type_data = λ n. n;
}

abbrev sizes_laws : EntryLaws ℕ ℕ (List ℕ) sizes
sizes_laws = record {
  entry_data = λ n. n;
  new_entry_lem = refl;
  add_data_lem = λ n d. refl;
  set_type_lem = λ n. refl;
}

abbrev calls : List (ℕ × ℕ)
calls = (5, 100) ∷ (16777216, 101) ∷ (16777211, 102) ∷ []

append_logs-accepted_example :
    let (e, bs) = append_logs sizes (create sizes) calls in
    IsGreedy sizes 0 calls bs
    × Holds sizes sizes_laws e (answered sizes calls bs)
    × (get_size e ≡ length (answered sizes calls bs))
append_logs-accepted_example = append_logs-accepted sizes sizes_laws calls
