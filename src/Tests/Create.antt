-- ===== src/Tests/Create.antt =====
-- Creates and destroys tried. Process 8 calls where a queue is created.
use disastr_os_message_queue.Base.{some}
use disastr_os_message_queue.PoolAllocator.{PoolAllocatorResult, release_block}
use disastr_os_message_queue.MessageQueue.Destroy.Loops.{release_all}
use disastr_os_message_queue.Base.{detach, ◌≡◌, refl, [], ◌∷◌, arith, pos, wrap32}
use disastr_os_message_queue.PoolAllocator.{PoolAllocator, get_block, initialised, links_from}
use disastr_os_message_queue.Kernel.{Kernel, MessageQueue, ok, fault, set_retvalue}
use disastr_os_message_queue.Kernel.Returns.{Returns}
use disastr_os_message_queue.Kernel.Invariant.{IsKernel, HasPool}
use disastr_os_message_queue.Constants.{dsos_emqinvalid}
use disastr_os_message_queue.MessageQueue.{resource_list_by_id}
use disastr_os_message_queue.MessageQueue.Create.{internal_mq_create}
use disastr_os_message_queue.MessageQueue.Create.Spec.{
  created, IsCapacity, internal_mq_create-created,
}
use disastr_os_message_queue.MessageQueue.Create.Shadow.{internal_mq_create_shadowed}
use disastr_os_message_queue.MessageQueue.Send.{internal_mq_send}
use disastr_os_message_queue.MessageQueue.Destroy.{internal_mq_destroy}
use disastr_os_message_queue.MessageQueue.Destroy.InUse.{internal_mq_destroy_in_use}
use disastr_os_message_queue.MessageQueue.Destroy.Spec.{destroyed, internal_mq_destroy-destroyed}
use disastr_os_message_queue.MessageQueue.Destroy.Total.{internal_mq_destroy_total}
use disastr_os_message_queue.Tests.Sample.{
  bare, kernel, kernel-IsKernel, kernel-Finds, resource, queue, queue_blocks_left,
  queue_blocks_left-IsPool, message_blocks_left, message_blocks_left-IsPool, three_bytes,
  full_queue-IsQueue,
}

-- Process 8 asks for a queue 7 of two messages.
abbrev asking : Kernel
asking = record bare { running = 8 }

two-IsCapacity : IsCapacity (pos 2) 2
two-IsCapacity = (refl, omega arith, omega arith)

internal_mq_create-created_example :
    internal_mq_create asking ≡ ok (created asking 2000 queue_blocks_left)
unfolding wrap32 get_block resource_list_by_id initialised links_from
internal_mq_create-created_example =
    internal_mq_create-created asking 2 2000 queue_blocks_left refl two-IsCapacity refl refl refl

-- A plain resource, at 3000, has the id 7. Then process 5 sends.
abbrev shadowed : Kernel
shadowed = record asking {
  resources_list = 3000 ∷ [];
  resources = λ p. resource (pos 7) (pos 0) [];
}

abbrev shadowed_later : Kernel
shadowed_later = record (created shadowed 2000 queue_blocks_left) { running = 5 }

internal_mq_create_shadowed_example :
    (internal_mq_create shadowed ≡ ok (created shadowed 2000 queue_blocks_left))
    × (internal_mq_send shadowed_later ≡ ok (set_retvalue shadowed_later 5 dsos_emqinvalid))
unfolding wrap32 get_block resource_list_by_id initialised links_from
internal_mq_create_shadowed_example =
    internal_mq_create_shadowed shadowed shadowed_later 2 3 3000 2000 queue_blocks_left refl
      two-IsCapacity refl refl refl refl refl refl refl refl refl refl
      (refl, omega arith, omega arith)

abbrev full : MessageQueue
full = queue (1000 ∷ 1008 ∷ []) [] (7 ∷ [])

abbrev crowded : Kernel
crowded = kernel (6 ∷ []) message_blocks_left three_bytes full

internal_mq_destroy-destroyed_example :
    (p1 : PoolAllocator) × (p2 : PoolAllocator) × HasPool p1
    × HasPool p2
    × (release_all (1000 ∷ 1008 ∷ []) message_blocks_left ≡ some p1)
    × (result : PoolAllocatorResult) × (release_block queue_blocks_left 2000 ≡ some (p2, result))
    × (internal_mq_destroy crowded ≡ ok (destroyed crowded 2000 full p1 p2))
internal_mq_destroy-destroyed_example =
    internal_mq_destroy-destroyed crowded 2000 full
      (kernel-Finds (6 ∷ []) message_blocks_left three_bytes full) refl
      (_, message_blocks_left-IsPool) (_, queue_blocks_left-IsPool) refl

-- Some process has a descriptor of the queue, at 3000.
abbrev opened : Kernel
opened = record crowded { resources = λ p. resource (pos 7) (pos 1) (3000 ∷ []) }

internal_mq_destroy_in_use_example : internal_mq_destroy opened ≡ fault
unfolding wrap32 resource_list_by_id
internal_mq_destroy_in_use_example =
    internal_mq_destroy_in_use opened 2000 full 3000 []
      (record { id_pos = refl; found = refl; exists = refl; typed = refl; queue = refl }) refl
      (_, message_blocks_left-IsPool) refl

internal_mq_destroy_total_example : Returns IsKernel (internal_mq_destroy crowded)
unfolding wrap32 resource_list_by_id detach
internal_mq_destroy_total_example =
    internal_mq_destroy_total crowded 2000
      (kernel-IsKernel (6 ∷ []) message_blocks_left full (_, message_blocks_left-IsPool)
        full_queue-IsQueue)
      refl refl refl
