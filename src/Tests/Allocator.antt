-- ===== src/Tests/Allocator.antt =====
-- The allocator and the scheduler tried.
use disastr_os_message_queue.Schedule.{scheduled}
use disastr_os_message_queue.Base.{detach}
use disastr_os_message_queue.Kernel.Order.{is_listed, is_orderly, waiters, timers_wait}
use disastr_os_message_queue.Base.{
  ◌≡◌, refl, false, some, [], ◌∷◌, ℤ, pos, get_elem?, has, wrap32, sub_ℕ,
}
use disastr_os_message_queue.PoolAllocator.{
  null, PoolAllocator, PoolAllocatorResult, success, unaligned_free, out_of_range, get_block,
  release_block, initialised, links_from,
}
use disastr_os_message_queue.PoolAllocator.FreeList.{IsPool, block}
use disastr_os_message_queue.PoolAllocator.Get.{taken, get_block-taken}
use disastr_os_message_queue.PoolAllocator.Release.{
  release_block-get_block, release_block-Released, Released,
}
use disastr_os_message_queue.Kernel.{Kernel, ok, update, ready, running}
use disastr_os_message_queue.Kernel.Returns.{Returns}
use disastr_os_message_queue.Kernel.Invariant.{IsKernel}
use disastr_os_message_queue.Timer.{timer_list_current, timer_list_remove_current, timer_item_free}
use disastr_os_message_queue.Schedule.{wake_elapsed, internal_schedule, switch, wake}
use disastr_os_message_queue.Schedule.Total.{wake_elapsed_total}
use disastr_os_message_queue.PoolAllocator.{Ptr}
use disastr_os_message_queue.PoolAllocator.Lent.{IsLent}
use disastr_os_message_queue.PoolAllocator.Bounds.{IsWithin, IsApart, get_block-IsApart}
use disastr_os_message_queue.Tests.Sample.{
  message_blocks, message_blocks_left, message_blocks-IsPool, message_blocks_left-IsPool, bare,
  bare-IsKernel,
}

get_block-taken_example :
    (next : ℤ) × (get_block message_blocks
      ≡ some (block message_blocks 0, taken message_blocks 0 next))
    × (get_elem? message_blocks.free_list 0 ≡ some next)
    × (message_blocks.first_idx ≡ pos 0)
    × (has 0 (1 ∷ 2 ∷ 3 ∷ []) ≡ false)
    × IsPool (taken message_blocks 0 next) (1 ∷ 2 ∷ 3 ∷ [])
get_block-taken_example = get_block-taken message_blocks 0 (1 ∷ 2 ∷ 3 ∷ []) message_blocks-IsPool

release_block-get_block_example :
    (b : PoolAllocator) × (get_block message_blocks ≡ some (block message_blocks 0, b))
    × (release_block b (block message_blocks 0) ≡ some (message_blocks, success))
release_block-get_block_example =
    release_block-get_block message_blocks 0 (1 ∷ 2 ∷ 3 ∷ []) message_blocks-IsPool

release_block-Released_example :
    (r : PoolAllocator × PoolAllocatorResult) × (release_block message_blocks_left 1003 ≡ some r)
    × Released message_blocks_left
        (1 ∷ 2 ∷ 3 ∷ [])
        (wrap32 (sub_ℕ 1003 message_blocks_left.buffer))
        r
release_block-Released_example =
    release_block-Released message_blocks_left (1 ∷ 2 ∷ 3 ∷ []) 1003 message_blocks_left-IsPool

-- The second block, when the first is lent.
get_block-IsApart_example :
    IsWithin message_blocks_left 1008
    × ((x : Ptr) → IsLent message_blocks_left x → IsApart message_blocks_left 1008 x)
unfolding get_block initialised links_from
get_block-IsApart_example =
    get_block-IsApart message_blocks_left (1 ∷ 2 ∷ 3 ∷ []) 1008
      (taken message_blocks_left 1 (pos 2)) message_blocks_left-IsPool refl refl

-- An address between two blocks, one below the buffer and one behind it.
unaligned_test : release_block message_blocks 1003 ≡ some (message_blocks, unaligned_free)
unfolding release_block wrap32 initialised
unaligned_test = refl

below_test : release_block message_blocks 992 ≡ some (message_blocks, out_of_range)
unfolding release_block wrap32 initialised
below_test = refl

behind_test : release_block message_blocks 1032 ≡ some (message_blocks, out_of_range)
unfolding release_block wrap32 initialised
behind_test = refl

-- Process 5 runs and 6 is ready; the timer at 3000 is due for process 8.
abbrev busy : Kernel
busy = record bare { ready_list = 6 ∷ []; waiting_list = 8 ∷ []; timer_list = 3000 ∷ [] }

busy-IsKernel : IsKernel busy
busy-IsKernel = bare-IsKernel

wake_elapsed_total_example :
    Returns (λ k'. IsKernel k' × (timer_list_current k' ≡ null)) (wake_elapsed 1 busy null)
wake_elapsed_total_example = wake_elapsed_total 1 busy null busy-IsKernel refl

-- The timer's process overtakes the one that was ready, and runs.
woken_test :
    internal_schedule busy
    ≡ ok (record busy {
      running = 8;
      ready_list = 6 ∷ 5 ∷ [];
      waiting_list = [];
      timer_list = [];
      pcbs =
          update
            (update
              (update busy.pcbs 8 (record (busy.pcbs 8) { status = ready; timer = null }))
              5
              (record (busy.pcbs 5) { status = ready }))
            8
            (record (busy.pcbs 8) { status = running; timer = null });
    })
unfolding scheduled is_listed is_orderly waiters timers_wait detach internal_schedule wake_elapsed
    wake timer_list_current timer_list_remove_current timer_item_free release_block wrap32 switch
    initialised
woken_test = refl
