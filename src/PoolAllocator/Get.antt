-- ===== src/PoolAllocator/Get.antt =====
-- PoolAllocator_getBlock against the free list.
use disastr_os_message_queue.Base.{
  ℕ, ◌≡◌, refl, some, [], ◌∷◌, List, arith, get_elem?, set, has, pos, ℤ, negsuc, ◌+ℤ◌, length-set,
  get_elem?-set_self, get_elem?-set_ne, lt_of_get_elem?, Bool-cases, inl, inr, ◌==◌, eq_of_==,
  false, ◌∙◌,
}
use disastr_os_message_queue.PoolAllocator.{PoolAllocator, null, detached_idx, get_block}
use disastr_os_message_queue.PoolAllocator.FreeList.{Chain, IsPool, block, nil, cons, Chain-set}

-- The allocator after the first block of its free list was taken.
abbrev pub taken : PoolAllocator → ℕ → ℤ → PoolAllocator
taken a i next = record a {
  first_idx = next;
  size = a.size +ℤ negsuc 0;
  free_list = set a.free_list i detached_idx;
}

get_block-Chain :
    (a : PoolAllocator) {first : ℤ} {i : ℕ} {is : List ℕ}
    → Chain a.free_list first (i ∷ is)
    → a.first_idx ≡ first
    → (next : ℤ) × (get_block a ≡ some (block a i, taken a i next))
      × (Chain a.free_list next is)
      × (has i is ≡ false)
      × (get_elem? a.free_list i ≡ some next)
      × (first ≡ pos i)
unfolding get_block
get_block-Chain a (cons {next} {i} e at apart rest) same = (next, ground arith, rest, apart, at, e)

-- An allocator in order whose first free index is `i` hands out block `i`, marks its entry as
-- lent, and is left in order with the other free blocks.
pub get_block-taken :
    (a : PoolAllocator) (i : ℕ) (is : List ℕ)
    → IsPool a (i ∷ is)
    → (next : ℤ) × (get_block a ≡ some (block a i, taken a i next))
      × (get_elem? a.free_list i ≡ some next)
      × (a.first_idx ≡ pos i)
      × (has i is ≡ false)
      × IsPool (taken a i next) is
unfolding ◌+ℤ◌
get_block-taken a i is p =
    let (next, e, rest, apart, at, first) = get_block-Chain a p.chain refl in
    (
      next,
      e,
      at,
      first,
      apart,
      record {
        chain = Chain-set i detached_idx rest apart;
        entries = length-set a.free_list i detached_idx ∙ p.entries;
        counted = ground (arith, p.counted);
        lent = λ j below out. elim (Bool-cases (j == i)) [
          | inl same ↦ rw (eq_of_== j i same) (
              get_elem?-set_self a.free_list i detached_idx (lt_of_get_elem? a.free_list i next at))
          | inr other ↦
              get_elem?-set_ne a.free_list i j detached_idx (ground arith)
              ∙ p.lent j below (ground arith)
        ];
        item_pos = p.item_pos;
        buffer_pos = p.buffer_pos;
        fits = p.fits;
      },
    )

get_block-Chain_nil :
    (a : PoolAllocator) {first : ℤ}
    → Chain a.free_list first []
    → a.first_idx ≡ first
    → get_block a ≡ some (null, a)
unfolding get_block
get_block-Chain_nil a (nil e) same = ground arith

-- With no free block the allocator returns the null pointer and is unchanged.
pub get_block_empty : (a : PoolAllocator) → IsPool a [] → get_block a ≡ some (null, a)
get_block_empty a p = get_block-Chain_nil a p.chain refl
