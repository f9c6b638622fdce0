-- ===== src/PoolAllocator/Far.antt =====
-- Addresses that an allocator takes for none of its blocks.
use native.Mathlib.Nat.{mul-lt-mul_of_pos_right}
use disastr_os_message_queue.Base.{
  ℕ, ◌+◌, ◌-◌, ◌*◌, ◌≤◌, ◌≢◌, pos, negsuc, wrap32-negsuc, wrap32, wrap32-pos, sub_ℕ, ◌<◌, ◌≡◌, ◌⊎◌,
  ap, sym, ◌∙◌, some, List, arith, inl, inr,
}
use disastr_os_message_queue.PoolAllocator.{Ptr, PoolAllocator, PoolAllocatorResult, release_block}
use disastr_os_message_queue.PoolAllocator.FreeList.{IsPool}
use disastr_os_message_queue.PoolAllocator.Release.{release_block-Released, Released}
use disastr_os_message_queue.PoolAllocator.Lent.{IsBlock, SameArray}

-- The offset of the address is that of no block.
abbrev pub IsFar : PoolAllocator → Ptr → Type 0
IsFar a p = (i : ℕ) → i < a.size_max → wrap32 (sub_ℕ p a.buffer) ≢ pos (i * a.item_size)

pub IsFar-SameArray : {a b : PoolAllocator} (p : Ptr) → SameArray a b → IsFar a p → IsFar b p
IsFar-SameArray {a} {b} p s far i below =
    rw (s.buffer, s.item_size) (far i (rw (← s.size_max) below))

-- Its release is refused, and changes nothing.
pub release_block_far :
    (a : PoolAllocator) (free : List ℕ) (p : Ptr)
    → IsPool a free
    → IsFar a p
    → (result : PoolAllocatorResult) × (release_block a p ≡ some (a, result))
release_block_far a free p h far = let (r, ran, c) = release_block-Released a free p h in go r ran c
  where
    go :
        (r : PoolAllocator × PoolAllocatorResult)
        → release_block a p ≡ some r
        → Released a free (wrap32 (sub_ℕ p a.buffer)) r
        → (result : PoolAllocatorResult) × (release_block a p ≡ some (a, result))
    go r ran (inl (i, below, out, at, made, q)) = absurd (far i below at)
    go (b, result) ran (inr (same, failed)) =
        (result, ran ∙ ap (λ (x : PoolAllocator). some (x, result)) same)

pub block-not-IsFar :
    (a : PoolAllocator) (free : List ℕ) (p : Ptr) → IsPool a free → IsBlock a p → ¬ IsFar a p
block-not-IsFar a free p h (i, below, at) far =
    let small : i * a.item_size < 0x8000_0000 = grind (arith, h.fits) in
    let offset : sub_ℕ p a.buffer ≡ pos (i * a.item_size) = rw at (ground arith) in
    far i below (ap wrap32 offset ∙ wrap32-pos (i * a.item_size) small)

-- The blocks of one array are far from another array that lies apart from it, within 2 GiB.
pub block-IsFar :
    (a b : PoolAllocator) (p : Ptr)
    → IsBlock b p
    → ((a.buffer + a.size_max * a.item_size ≤ b.buffer)
        × (b.buffer + b.size_max * b.item_size ≤ a.buffer + 0x8000_0000))
      ⊎ ((b.buffer + b.size_max * b.item_size ≤ a.buffer)
          × (a.buffer + a.size_max * a.item_size ≤ b.buffer + 0x8000_0000))
    → 0 < a.item_size
    → 0 < b.item_size
    → IsFar a p
block-IsFar a b p (j, inside, at) (inl (after, near)) pa pb i below e =
    let before_end : i * a.item_size < a.size_max * a.item_size =
      mul-lt-mul_of_pos_right below pa in
    let in_block : j * b.item_size < b.size_max * b.item_size = mul-lt-mul_of_pos_right inside pb in
    let over : a.buffer + i * a.item_size < p = omega (arith, at, after, before_end) in
    let close : p - a.buffer < 0x8000_0000 = omega (arith, at, near, in_block) in
    let offset : sub_ℕ p a.buffer ≡ pos (p - a.buffer) = ground (arith, over) in
    let same : pos (p - a.buffer) ≡ pos (i * a.item_size) =
      sym (ap wrap32 offset ∙ wrap32-pos (p - a.buffer) close) ∙ e in
    ground (arith, same, over)
block-IsFar a b p (j, inside, at) (inr (before, near)) pa pb i below e =
    let in_block : j * b.item_size < b.size_max * b.item_size = mul-lt-mul_of_pos_right inside pb in
    let under : p < a.buffer = omega (arith, at, before, in_block) in
    let close : a.buffer - p - 1 < 0x8000_0000 = omega (arith, at, near) in
    let offset : sub_ℕ p a.buffer ≡ negsuc (a.buffer - p - 1) = ground (arith, under) in
    let same : negsuc (a.buffer - p - 1) ≡ pos (i * a.item_size) =
      sym (ap wrap32 offset ∙ wrap32-negsuc (a.buffer - p - 1) close) ∙ e in
    cc
