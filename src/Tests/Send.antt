-- ===== src/Tests/Send.antt =====
-- Sends and receives tried: process 5 calls, on queue 7.
use disastr_os_message_queue.Base.{detach}
use disastr_os_message_queue.Kernel.Order.{is_listed, is_orderly, waiters, timers_wait}
use disastr_os_message_queue.Kernel.{can_access}
use disastr_os_message_queue.Base.{◌≡◌, refl, some, List, [], ◌∷◌, arith, pos, wrap32}
use disastr_os_message_queue.PoolAllocator.{Ptr, get_block, initialised, links_from}
use disastr_os_message_queue.PoolAllocator.Get.{taken}
use disastr_os_message_queue.Kernel.{Kernel, ok, update, set_retvalue, read_bytes}
use disastr_os_message_queue.Kernel.Returns.{Returns}
use disastr_os_message_queue.Constants.{dsos_emqfull}
use disastr_os_message_queue.Timer.{timer_list_current}
use disastr_os_message_queue.MessageQueue.Blocking.{blocked_in, dispatched}
use disastr_os_message_queue.MessageQueue.Fifo.{contents, internal_mq_send-contents}
use disastr_os_message_queue.MessageQueue.Send.{internal_mq_send}
use disastr_os_message_queue.MessageQueue.Send.Spec.{IsSize, internal_mq_send_enqueues}
use disastr_os_message_queue.MessageQueue.Send.Block.{
  internal_mq_send_alone, internal_mq_send_blocks,
}
use disastr_os_message_queue.MessageQueue.Send.Deliver.{delivered, internal_mq_send_delivers}
use disastr_os_message_queue.Tests.Sample.{
  kernel, kernel-Finds, queue, waiting_queue-IsQueue, message_blocks, message_blocks_left,
  message_blocks-IsPool, three_bytes,
}

three-IsSize : IsSize (pos 3) 3
three-IsSize = (refl, omega arith, omega arith)

-- One message is in the queue already.
abbrev half : Kernel
half = kernel (6 ∷ []) message_blocks_left three_bytes (queue (1000 ∷ []) [] [])

internal_mq_send_enqueues_example :
    internal_mq_send half
    ≡ ok (record half {
      message_pool = taken message_blocks_left 1 (pos 2);
      messages =
          update half.messages 1008
            (record { size = pos 3; payload = read_bytes half.memory 100 3; sender = 5 });
      queues = update half.queues 2000 (some (queue (1000 ∷ 1008 ∷ []) [] []));
      pcbs = update half.pcbs 5 (record (half.pcbs 5) { syscall_retvalue = pos 0 });
    })
unfolding can_access wrap32 get_block initialised links_from
internal_mq_send_enqueues_example =
    internal_mq_send_enqueues half 2000 (queue (1000 ∷ []) [] []) 3 1008
      (taken message_blocks_left 1 (pos 2))
      (kernel-Finds (6 ∷ []) message_blocks_left three_bytes (queue (1000 ∷ []) [] [])) three-IsSize
      refl refl refl refl refl

-- Process 7 waits for a message.
abbrev expected : Kernel
expected = kernel (6 ∷ []) message_blocks three_bytes (queue [] (7 ∷ []) [])

internal_mq_send_delivers_example :
    internal_mq_send expected ≡ ok (delivered expected 2000 (queue [] (7 ∷ []) []) 7 [] 1000 3)
unfolding can_access wrap32 initialised
internal_mq_send_delivers_example =
    internal_mq_send_delivers expected 2000 (queue [] (7 ∷ []) []) 3 0 (1 ∷ 2 ∷ 3 ∷ []) 7 []
      (kernel-Finds (6 ∷ []) message_blocks three_bytes (queue [] (7 ∷ []) [])) three-IsSize refl
      waiting_queue-IsQueue refl message_blocks-IsPool refl refl

-- The queue is full.
abbrev crowded : List Ptr → Kernel
crowded ready_list =
    kernel ready_list message_blocks_left three_bytes (queue (1000 ∷ 1008 ∷ []) [] (7 ∷ []))

internal_mq_send_alone_example :
    internal_mq_send (crowded []) ≡ ok (set_retvalue (crowded []) 5 dsos_emqfull)
unfolding is_listed is_orderly waiters timers_wait detach wrap32 timer_list_current
internal_mq_send_alone_example =
    internal_mq_send_alone (crowded []) 2000 (queue (1000 ∷ 1008 ∷ []) [] (7 ∷ [])) 3
      (kernel-Finds [] message_blocks_left three_bytes (queue (1000 ∷ 1008 ∷ []) [] (7 ∷ [])))
      three-IsSize refl refl refl refl refl refl refl refl

internal_mq_send_blocks_example :
    internal_mq_send (crowded (6 ∷ []))
    ≡ ok (
        dispatched
          (blocked_in (crowded (6 ∷ [])) 2000 (queue (1000 ∷ 1008 ∷ []) [] (7 ∷ 5 ∷ [])))
          6
          [])
unfolding is_listed is_orderly waiters timers_wait detach wrap32 timer_list_current
internal_mq_send_blocks_example =
    internal_mq_send_blocks (crowded (6 ∷ [])) 2000 (queue (1000 ∷ 1008 ∷ []) [] (7 ∷ [])) 3 6 []
      (kernel-Finds (6 ∷ []) message_blocks_left three_bytes (queue (1000 ∷ 1008 ∷ []) [] (7 ∷ [])))
      three-IsSize refl refl refl refl refl refl refl

internal_mq_send-contents_example :
    (contents half 2000 ≡ some ((1 ∷ 2 ∷ 3 ∷ []) ∷ []))
    × Returns
        (λ k'. contents k' 2000 ≡ some ((1 ∷ 2 ∷ 3 ∷ []) ∷ read_bytes half.memory 100 3 ∷ []))
        (internal_mq_send half)
unfolding can_access wrap32 get_block initialised links_from
internal_mq_send-contents_example =
    internal_mq_send-contents half 2000 (queue (1000 ∷ []) [] []) 3 1008
      (taken message_blocks_left 1 (pos 2))
      (kernel-Finds (6 ∷ []) message_blocks_left three_bytes (queue (1000 ∷ []) [] [])) three-IsSize
      refl refl refl refl refl refl
