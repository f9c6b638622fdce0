-- ===== src/PoolAllocator/FreeList.antt =====
-- The free list as a sequence of indices, and the invariant of an allocator.
use mathlib.Core.Bool.{true, false}
use disastr_os_message_queue.Base.{
  ℕ, ◌+◌, ◌*◌, ◌<◌, ◌≡◌, ◌≢◌, some, List, [], ◌∷◌, arith, length, get_elem?, set, has, ℤ, pos,
  get_elem?-set_ne, Bool-cases, inl, inr, ◌==◌, eq_of_==, ◌∙◌,
}
use disastr_os_message_queue.PoolAllocator.{PoolAllocator, Ptr, null_idx, detached_idx}

-- From the index `first` the entries lead through the distinct indices of the list to the null index.
pub data Chain (entries : List ℤ) : ℤ → List ℕ → Type 0 where
  nil : {first : ℤ} → first ≡ null_idx → Chain entries first []
  cons :
      {first next : ℤ} {i : ℕ} {is : List ℕ}
      → first ≡ pos i
      → get_elem? entries i ≡ some next
      → has i is ≡ false
      → Chain entries next is
      → Chain entries first (i ∷ is)

-- The allocator `a` has exactly the blocks `free` on its free list, in this order. Each other block
-- is marked as detached. The block addresses fit the `int` that offsets are computed in.
pub record IsPool (a : PoolAllocator) (free : List ℕ) : Type 0 where
  pub chain : Chain a.free_list a.first_idx free
  pub entries : length a.free_list ≡ a.size_max
  pub counted : a.size ≡ pos (length free)
  pub lent :
      (i : ℕ) → i < a.size_max → has i free ≡ false → get_elem? a.free_list i ≡ some detached_idx
  pub item_pos : 0 < a.item_size
  pub buffer_pos : 0 < a.buffer
  pub fits : a.size_max * a.item_size < 0x8000_0000

abbrev pub block : PoolAllocator → ℕ → Ptr
block a i = a.buffer + i * a.item_size

-- A write to an entry that the chain does not pass leaves the chain as it is.
pub Chain-set :
    {entries : List ℤ} {first : ℤ} {is : List ℕ} (i : ℕ) (v : ℤ)
    → Chain entries first is
    → has i is ≡ false
    → Chain (set entries i v) first is
Chain-set i v (nil e) out = nil e
Chain-set {entries} i v (cons {i = j} e at apart rest) out =
    cons e (get_elem?-set_ne entries i j v (ground arith) ∙ at) apart
      (Chain-set i v rest (ground arith))

-- A chain starts at an index or at the null index.
Chain-first :
    {entries : List ℤ} {first : ℤ} {is : List ℕ} → Chain entries first is → first ≢ detached_idx
Chain-first (nil e) = ground arith
Chain-first (cons e at apart rest) = ground arith

-- So no entry on the chain is the mark of a lent block.
pub Chain-entry :
    {entries : List ℤ} {first : ℤ} {is : List ℕ} (i : ℕ)
    → Chain entries first is
    → has i is ≡ true
    → (v : ℤ) × (get_elem? entries i ≡ some v) × (v ≢ detached_idx)
Chain-entry i (nil e) h = absurd (ground arith)
Chain-entry i (cons {next} {i = j} e at apart rest) h = elim (Bool-cases (i == j)) [
  | inl same ↦ (next, rw (eq_of_== i j same) at, Chain-first rest)
  | inr other ↦ Chain-entry i rest (ground arith)
]
