-- ===== src/PoolAllocator.antt =====
-- src/pool_allocator.c and include/pool_allocator.h: blocks of one size in a static buffer, with the
-- free list threaded through an array of `int` behind the blocks.
-- An address is a number, and `null` is 0. The outer `none` of a result is an access outside the
-- `free_list` array, which the sources do not test for.
pub mod Bounds
pub mod Far
pub mod FreeList
pub mod Get
pub mod Init
pub mod Lent
pub mod Release
use disastr_os_message_queue.Base.{
  ℕ, zero, suc, ◌+◌, ◌-◌, ◌*◌, ◌/◌, ◌%◌, Bool, Option, none, some, List, [], ◌∷◌, ◌++◌, ltb, leb,
  ◌==◌, if◌then◌else◌, length, get_elem?, set, ℤ, pos, negsuc, ◌+ℤ◌, ◌==ℤ◌, ltb_ℤ, wrap32, sub_ℕ,
}

abbrev pub Ptr : Type 0
Ptr = ℕ

abbrev pub null : Ptr
null = 0

-- `NullIdx` and `DetachedIdx`, -1 and -2.
abbrev pub null_idx : ℤ
null_idx = negsuc 0

abbrev pub detached_idx : ℤ
detached_idx = negsuc 1

pub data PoolAllocatorResult : Type 0 where
  success not_enough_memory unaligned_free out_of_range double_free : PoolAllocatorResult

pub record PoolAllocator : Type 0 where
  pub buffer : Ptr
  pub free_list : List ℤ
  pub buffer_size : ℤ
  pub size : ℤ
  pub size_max : ℕ
  pub item_size : ℕ
  pub first_idx : ℤ

-- The entries that the loop of `PoolAllocator_init` and the line behind it write: from index `i`,
-- `left` entries, each with its successor, the last with the null index.
unfoldable pub links_from : (i left : ℕ) → List ℤ
links_from i zero = []
links_from i (suc zero) = null_idx ∷ []
links_from i (suc (suc left)) = pos (suc i) ∷ links_from (suc i) (suc left)

-- The fields as the assignments of `PoolAllocator_init` leave them.
unfoldable pub initialised : (item_size num_items : ℕ) → Ptr → PoolAllocator
unfolding links_from
initialised item_size num_items memory_block = record {
  buffer = memory_block;
  free_list = links_from 0 num_items;
  buffer_size = pos (item_size * num_items);
  size = pos num_items;
  size_max = num_items;
  item_size = item_size;
  first_idx = pos 0;
}

-- `PoolAllocator_init`, for a positive number of blocks. The new contents of `*a`, or `none` where
-- it returns `NotEnoughMemory`. The `int` that is compared holds the low bits of the product, which
-- is computed in `size_t`.
unfoldable pub init :
    (item_size num_items : ℕ) (memory_block : Ptr) (memory_size : ℕ) → Option PoolAllocator
unfolding initialised wrap32
init item_size num_items memory_block memory_size =
    let requested_size = wrap32 (pos (num_items * (item_size + 4))) in
    if ltb_ℤ (pos memory_size) requested_size
    then none
    else some (initialised item_size num_items memory_block)

-- The part of `PoolAllocator_getBlock` behind its test, at a first index `i`.
take_block : PoolAllocator → ℕ → Option (Ptr × PoolAllocator)
take_block a i = elim (get_elem? a.free_list i) [
  | none ↦ none
  | some next ↦ some (
    a.buffer + i * a.item_size,
    record a {
      first_idx = next;
      size = a.size +ℤ negsuc 0;
      free_list = set a.free_list i detached_idx;
    },
  )
]

-- `PoolAllocator_getBlock`
unfoldable pub get_block : PoolAllocator → Option (Ptr × PoolAllocator)
unfolding take_block ◌+ℤ◌
get_block a = elim a.first_idx [
  | pos i ↦ take_block a i
  | negsuc zero ↦ some (null, a)
  | negsuc (suc n) ↦ none
]

-- The rest of `PoolAllocator_releaseBlock`, at an index that passed the tests.
put_back : PoolAllocator → ℕ → ℤ → PoolAllocator × PoolAllocatorResult
put_back a i entry =
    if entry ==ℤ detached_idx
    then (
      record a {
        free_list = set a.free_list i a.first_idx;
        first_idx = pos i;
        size = a.size +ℤ pos 1;
      },
      success,
    )
    else (a, double_free)

-- The tests of the index: `idx<0 || idx>=a->size_max`.
release_index : PoolAllocator → ℕ → Option (PoolAllocator × PoolAllocatorResult)
unfolding put_back
release_index a i =
    if leb a.size_max i
    then some (a, out_of_range)
    else elim (get_elem? a.free_list i) [ none ↦ none | some entry ↦ some (put_back a i entry) ]

-- `PoolAllocator_releaseBlock`. The remainder of a negative offset has its sign, so it is zero
-- where that of the absolute value is, and the quotient of an aligned one is negative.
release_offset : PoolAllocator → ℤ → Option (PoolAllocator × PoolAllocatorResult)
unfolding release_index
release_offset a (pos offset) =
    if offset % a.item_size == 0
    then release_index a (offset / a.item_size)
    else some (a, unaligned_free)
release_offset a (negsuc n) =
    if suc n % a.item_size == 0 then some (a, out_of_range) else some (a, unaligned_free)

unfoldable pub release_block : PoolAllocator → Ptr → Option (PoolAllocator × PoolAllocatorResult)
unfolding release_offset wrap32 ◌+ℤ◌
release_block a block = release_offset a (wrap32 (sub_ℕ block a.buffer))
