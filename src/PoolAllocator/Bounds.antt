-- ===== src/PoolAllocator/Bounds.antt =====
-- Where the blocks that an allocator lends lie.
use native.Mathlib.Nat.{mul-le-mul_right}
use disastr_os_message_queue.Base.{
  ℕ, suc, ◌+◌, ◌*◌, ◌≤◌, ◌<◌, ◌≡◌, ◌⊎◌, false, some, List, arith, ◌==◌, inl, inr, ◌∙◌, sym, ltb,
  Bool-cases, eq_of_==, ap,
}
use disastr_os_message_queue.PoolAllocator.{Ptr, null, PoolAllocator, get_block}
use disastr_os_message_queue.PoolAllocator.FreeList.{IsPool, block}
use disastr_os_message_queue.PoolAllocator.Lent.{IsLent, Takes-of}

-- The bytes of the item at `p` lie in the array.
abbrev pub IsWithin : PoolAllocator → Ptr → Type 0
IsWithin a p = (a.buffer ≤ p) × (p + a.item_size ≤ a.buffer + a.size_max * a.item_size)

-- The items at `p` and `q` have no byte in common.
abbrev pub IsApart : PoolAllocator → (p q : Ptr) → Type 0
IsApart a p q = (p + a.item_size ≤ q) ⊎ (q + a.item_size ≤ p)

block_mono :
    (a : PoolAllocator) (i j : ℕ) → i < j → block a i + a.item_size ≤ a.buffer + j * a.item_size
block_mono a i j below =
    let rows : suc i * a.item_size ≤ j * a.item_size = mul-le-mul_right a.item_size (omega arith) in
    omega (arith, rows)

-- In an allocator in order, the block that a request gets lies in the array, and shares no byte with any
-- block that is lent.
pub get_block-IsApart :
    (a : PoolAllocator) (free : List ℕ) (p : Ptr) (b : PoolAllocator)
    → IsPool a free
    → get_block a ≡ some (p, b)
    → (p == null) ≡ false
    → IsWithin a p × ((x : Ptr) → IsLent a x → IsApart a p x)
get_block-IsApart a free p b h got given =
    let t = Takes-of a free p b h got given in
    let (i, below, at) = t.block in
    let edge = block_mono a i a.size_max below in
    (
      (omega (arith, at), omega (arith, at, edge)),
      λ x lent.
          let (j, inside, there, e) = lent in
          let other = t.fresh x lent in
          elim (Bool-cases (ltb i j)) [
            | inl before ↦ inl (omega (arith, at, there, block_mono a i j (ground arith)))
            | inr behind ↦ elim (Bool-cases (i == j)) [
              | inl same ↦
                  absurd
                    (ground (arith, other, there ∙ ap (block a) (sym (eq_of_== i j same)) ∙ sym at))
              | inr apart ↦ inr (omega (arith, at, there, block_mono a j i (ground arith)))
            ]
          ],
    )
