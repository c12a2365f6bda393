-- ===== src/Stone/Raft.antt =====
-- apsara/stone/consensus/raft/log_id.h: the order of `LogId`, and entry.h: `EntryEx`, which collects the
-- messages of one entry up to a limit of bytes. What protobuf generates is a parameter.
pub mod Entries
mod Examples
pub mod Order
use recommender.Prelude.{
  ℕ, ◌+◌, ◌*◌, ◌&&◌, ◌||◌, Bool, true, false, List, [], ◌∷◌, ◌++◌, Option, ltb, ◌==◌, if◌then◌else◌,
  length, get_elem?,
}

-- The class `LogId`, generated by protobuf: two of its fields.
pub record LogId (I : Type 0) : Type 0 where
  pub term : I → ℕ
  pub seq_id : I → ℕ

module _ {I : Type 0} (ids : LogId I) where
  unfoldable pub less : I → I → Bool
  less left right =
      ltb (ids.term left) (ids.term right)
      || (ids.term left == ids.term right && ltb (ids.seq_id left) (ids.seq_id right))

  unfoldable pub equal : I → I → Bool
  equal left right = ids.term left == ids.term right && ids.seq_id left == ids.seq_id right

  unfoldable pub less_equal : I → I → Bool
  unfolding less equal
  less_equal left right = less left right || equal left right

abbrev pub byte_size_limit_per_entry : ℕ
byte_size_limit_per_entry = 16 * 1024 * 1024

-- The generated classes: `ByteSize` and `SerializeToString` of a message, the constructor of `Entry`,
-- and on its `log_data` the calls `add_data` and `set_type` with `raft::DATA`.
pub record Messages (M D E : Type 0) : Type 0 where
  pub byte_size : M → ℕ
  pub serialize : M → D
  pub new_entry : E
  pub add_data : E → D → E
  pub set_type_data : E → E

-- The callbacks are of type `C`.
pub record EntryEx (E C : Type 0) : Type 0 where
  pub m_entry : E
  pub m_byte_size : ℕ
  pub m_callbacks : List C

module _ {E C : Type 0} where
  -- `Size`
  unfoldable pub get_size : EntryEx E C → ℕ
  get_size e = length e.m_callbacks

  -- `GetCallback`, where the index is in range.
  unfoldable pub get_callback : EntryEx E C → ℕ → Option C
  get_callback e index = get_elem? e.m_callbacks index

module _ {M D E C : Type 0} (ms : Messages M D E) where
  unfoldable pub create : EntryEx E C
  create = record { m_entry = ms.new_entry; m_byte_size = 0; m_callbacks = [] }

  -- `AppendLog`, and whether the status is `Status::OK()`, and not `kOutOfResource`.
  unfoldable pub append_log : EntryEx E C → M → C → EntryEx E C × Bool
  append_log e message done =
      if ltb byte_size_limit_per_entry (e.m_byte_size + ms.byte_size message) then (e, false) else (
        record {
          m_entry = ms.set_type_data (ms.add_data e.m_entry (ms.serialize message));
          m_byte_size = e.m_byte_size + ms.byte_size message;
          m_callbacks = e.m_callbacks ++ (done ∷ []);
        },
        true,
      )

  -- A call of `AppendLog` for each pair of a message and a callback, and the answers.
  unfoldable pub append_logs : EntryEx E C → List (M × C) → EntryEx E C × List Bool
  append_logs e [] = (e, [])
  append_logs e ((m, c) ∷ ps) =
      let (e', b) = append_log e m c in let (e'', bs) = append_logs e' ps in (e'', b ∷ bs)
