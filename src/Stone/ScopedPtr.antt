-- ===== src/Stone/ScopedPtr.antt =====
-- apsara/stone/memory/scoped_ptr.h: `scoped_ptr`. The heap says which objects live; an object is its
-- address and 0 is the null pointer. To delete an object that does not live is a fault, to delete null does nothing.
mod Examples
pub mod Arrays
pub mod Ownership
use recommender.Prelude.{
  ℕ, zero, suc, ◌+◌, Bool, true, false, not, ◌||◌, List, [], ◌∷◌, ◌==◌, if◌then◌else◌,
}
use recommender.Run.{Run, ok, fault, ◌>>=◌, ◌>>◌, assert}

abbrev pub Heap : Type 0
Heap = ℕ → Bool

abbrev pub mark : Heap → ℕ → Bool → Heap
mark h p b q = if p == q then b else h q

-- `delete p`, `delete[] p` or `free(p)`.
unfoldable pub destroy : Heap → ℕ → Run Heap
destroy h p = if p == 0 then ok h else if h p then ok (mark h p false) else fault

-- A `scoped_ptr` is the pointer that it holds.
abbrev pub ScopedPtr : Type 0
ScopedPtr = ℕ

-- `scoped_ptr(ptr)` and `~scoped_ptr()`.
abbrev pub create : ℕ → ScopedPtr
create ptr = ptr

unfoldable pub close : Heap → ScopedPtr → Run Heap
close h m_ptr = destroy h m_ptr

unfoldable pub swap : ScopedPtr × ScopedPtr → ScopedPtr × ScopedPtr
swap (other, this) = (this, other)

-- `reset(ptr)`: a temporary takes the old pointer, and its destructor deletes it.
unfoldable pub reset : Heap → ScopedPtr → ℕ → Run (Heap × ScopedPtr)
reset h m_ptr ptr = do
  assert (ptr == 0 || not (ptr == m_ptr))
  let (temporary, this) = swap (create ptr, m_ptr)
  h' ← close h temporary
  ok (h', this)

-- `operator=(ptr)`
unfoldable pub assign : Heap → ScopedPtr → ℕ → Run (Heap × ScopedPtr)
assign h m_ptr ptr = reset h m_ptr ptr

-- `release()`: the old pointer and what the `scoped_ptr` holds now.
unfoldable pub release : ScopedPtr → ℕ × ScopedPtr
release m_ptr = (m_ptr, 0)

-- `operator*` and `operator->`.
unfoldable pub deref : ScopedPtr → Run ℕ
deref m_ptr = if m_ptr == 0 then fault else ok m_ptr

unfoldable pub is_set : ScopedPtr → Bool
is_set m_ptr = not (m_ptr == 0)
