-- ===== src/PoolAllocator/Init.antt =====
-- PoolAllocator_init against the free list.
use disastr_os_message_queue.Base.{
  ℕ, zero, suc, ◌+◌, ◌*◌, ◌≤◌, ◌<◌, ◌≡◌, refl, some, [], ◌∷◌, List, arith, length, get_elem?, has,
  pos, false, true, wrap32-pos, ap, sym,
}
use disastr_os_message_queue.PoolAllocator.{
  PoolAllocator, Ptr, null_idx, init, initialised, links_from,
}
use disastr_os_message_queue.PoolAllocator.FreeList.{Chain, IsPool, nil, cons}

-- The indices `i`, `i + 1`, … in order.
abbrev pub indices : (i left : ℕ) → List ℕ
indices i zero = []
indices i (suc left) = i ∷ indices (suc i) left

length-indices : (i left : ℕ) → length (indices i left) ≡ left
length-indices i zero = refl
length-indices i (suc left) = omega (arith, length-indices (suc i) left)

has-indices_below : (i j left : ℕ) → j < i → has j (indices i left) ≡ false
has-indices_below i j zero h = refl
has-indices_below i j (suc left) h = ground (arith, has-indices_below (suc i) j left)

has-indices : (i j left : ℕ) → i ≤ j → j < i + left → has j (indices i left) ≡ true
has-indices i j zero h k = absurd (omega arith)
has-indices i j (suc left) h k = ground (arith, has-indices (suc i) j left)

length-links_from : (i left : ℕ) → length (links_from i left) ≡ left
unfolding links_from
length-links_from i zero = refl
length-links_from i (suc zero) = refl
length-links_from i (suc (suc left)) = omega (arith, length-links_from (suc i) (suc left))

links_from_entry :
    (i left k : ℕ) → suc k < left → get_elem? (links_from i left) k ≡ some (pos (suc (i + k)))
unfolding links_from
links_from_entry i zero k h = absurd (omega arith)
links_from_entry i (suc zero) k h = absurd (omega arith)
links_from_entry i (suc (suc left)) zero h = ground arith
links_from_entry i (suc (suc left)) (suc k) h =
    ground (arith, links_from_entry (suc i) (suc left) k)

links_from_last : (i k : ℕ) → get_elem? (links_from i (suc k)) k ≡ some null_idx
unfolding links_from
links_from_last i zero = refl
links_from_last i (suc k) = links_from_last (suc i) k

-- From index `k` the links of `n` entries lead through all that follow.
links_from-Chain :
    (n k left : ℕ) → k + suc left ≡ n → Chain (links_from 0 n) (pos k) (indices k (suc left))
links_from-Chain n k zero e =
    cons refl (let whole : suc k ≡ n = omega arith in rw (← whole) (links_from_last 0 k)) refl
      (nil refl)
links_from-Chain n k (suc left) e =
    cons refl (links_from_entry 0 n k (omega arith))
      (has-indices_below (suc k) k (suc left) (omega arith))
      (let next : 0 + k ≡ k = omega arith in
        rw next (links_from-Chain n (suc k) left (omega arith)))

pub initialised-IsPool :
    (item_size n : ℕ) (memory_block : Ptr)
    → 0 < item_size
    → 0 < memory_block
    → suc n * item_size < 0x8000_0000
    → IsPool (initialised item_size (suc n) memory_block) (indices 0 (suc n))
unfolding initialised
initialised-IsPool item_size n memory_block hi hb hs = record {
  chain = links_from-Chain (suc n) 0 n (omega arith);
  entries = length-links_from 0 (suc n);
  counted = ap (λ k. pos (suc k)) (sym (length-indices 1 n));
  lent = λ i below out. absurd (ground (arith, has-indices 0 i (suc n)));
  item_pos = hi;
  buffer_pos = hb;
  fits = hs;
}

-- With a positive block size and number of blocks, in a buffer that is large enough and smaller
-- than 2 GiB, an allocator is set up with all its blocks free, in order.
pub init-IsPool :
    (item_size n : ℕ) (memory_block : Ptr) (memory_size : ℕ)
    → 0 < item_size
    → 0 < memory_block
    → suc n * (item_size + 4) ≤ memory_size
    → memory_size < 0x8000_0000
    → (a : PoolAllocator) × (init item_size (suc n) memory_block memory_size ≡ some a)
      × IsPool a (indices 0 (suc n))
      × (a.size_max ≡ suc n)
unfolding init
init-IsPool item_size n memory_block memory_size hi hb hm hs =
    let small : suc n * (item_size + 4) < 0x8000_0000 = omega arith in
    (
      initialised item_size (suc n) memory_block,
      rw (wrap32-pos (suc n * (item_size + 4)) small) (ground arith),
      initialised-IsPool item_size n memory_block hi hb (omega arith),
      refl,
    )

-- Where the blocks lie, and what their size is.
pub init-placed :
    (item_size n : ℕ) (memory_block : Ptr) (memory_size : ℕ) (a : PoolAllocator)
    → init item_size n memory_block memory_size ≡ some a
    → (a.buffer ≡ memory_block) × (a.item_size ≡ item_size)
unfolding init initialised
init-placed item_size n memory_block memory_size a made = ground (arith, made)
