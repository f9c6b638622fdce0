-- ===== src/Tests/Receive.antt =====
-- Receives tried, and a send with the receive that follows it.
use disastr_os_message_queue.Base.{detach}
use disastr_os_message_queue.Kernel.Order.{is_listed, is_orderly, waiters, timers_wait}
use disastr_os_message_queue.Kernel.{can_access}
use disastr_os_message_queue.Base.{List, ℕ, length, ◌≡◌, refl, some, [], ◌∷◌, arith, pos, wrap32}
use disastr_os_message_queue.PoolAllocator.{
  PoolAllocator, success, get_block, release_block, initialised, links_from,
}
use disastr_os_message_queue.PoolAllocator.Get.{taken}
use disastr_os_message_queue.PoolAllocator.Release.{returned}
use disastr_os_message_queue.Kernel.{Kernel, MessageQueue, ok, update, set_retvalue, read_bytes}
use disastr_os_message_queue.Kernel.Returns.{Returns}
use disastr_os_message_queue.Constants.{dsos_emqempty, dsos_ebuffer}
use disastr_os_message_queue.Timer.{timer_list_current}
use disastr_os_message_queue.MessageQueue.{resource_list_by_id}
use disastr_os_message_queue.MessageQueue.Request.{buffer_of}
use disastr_os_message_queue.MessageQueue.Blocking.{blocked_in, dispatched}
use disastr_os_message_queue.MessageQueue.Fifo.{contents, internal_mq_receive-contents}
use disastr_os_message_queue.MessageQueue.Send.{internal_mq_send}
use disastr_os_message_queue.MessageQueue.Send.Spec.{IsSize}
use disastr_os_message_queue.MessageQueue.Receive.{internal_mq_receive}
use disastr_os_message_queue.MessageQueue.Receive.Spec.{
  received, internal_mq_receive_takes, internal_mq_receive_drops,
}
use disastr_os_message_queue.MessageQueue.Receive.Complete.{
  completed, copied, internal_mq_receive_completes,
}
use disastr_os_message_queue.MessageQueue.Receive.Block.{
  internal_mq_receive_alone, internal_mq_receive_blocks,
}
use disastr_os_message_queue.MessageQueue.RoundTrip.{internal_mq_receive-internal_mq_send}
use disastr_os_message_queue.Tests.Sample.{
  kernel, kernel-Finds, queue, empty_queue-IsQueue, message_blocks, message_blocks_left,
  message_blocks-IsPool, three_bytes, five_bytes,
}

three_bytes-IsSize : IsSize (pos 3) 3
three_bytes-IsSize = (refl, omega arith, omega arith)

four_bytes-IsSize : IsSize (pos 4) 4
four_bytes-IsSize = (refl, omega arith, omega arith)

abbrev one : MessageQueue
one = queue (1000 ∷ []) [] []

abbrev full : MessageQueue
full = queue (1000 ∷ 1008 ∷ []) [] (7 ∷ [])

abbrev empty : MessageQueue
empty = queue [] [] []

abbrev blocks_back : PoolAllocator
blocks_back = returned message_blocks_left 0

internal_mq_receive_takes_example :
    internal_mq_receive (kernel [] message_blocks_left three_bytes one)
    ≡ ok (received (kernel [] message_blocks_left three_bytes one) 2000 one 1000 [] blocks_back)
unfolding can_access wrap32 release_block initialised links_from
internal_mq_receive_takes_example =
    internal_mq_receive_takes (kernel [] message_blocks_left three_bytes one) 2000 one 1000 []
      blocks_back success (kernel-Finds [] message_blocks_left three_bytes one) refl refl refl refl
      refl refl refl

-- The message has five bytes and the buffer three.
internal_mq_receive_drops_example :
    internal_mq_receive (kernel [] message_blocks_left five_bytes full)
    ≡ ok (record (set_retvalue (kernel [] message_blocks_left five_bytes full) 5 dsos_ebuffer) {
      message_pool = blocks_back;
      queues =
          update
            (kernel [] message_blocks_left five_bytes full).queues
            2000
            (some (queue (1008 ∷ []) [] (7 ∷ [])));
    })
unfolding wrap32 release_block initialised links_from
internal_mq_receive_drops_example =
    internal_mq_receive_drops (kernel [] message_blocks_left five_bytes full) 2000 full 1000
      (1008 ∷ []) blocks_back success (kernel-Finds [] message_blocks_left five_bytes full) refl
      refl refl refl refl

internal_mq_receive_completes_example :
    internal_mq_receive (kernel [] message_blocks_left three_bytes full)
    ≡ ok (
        set_retvalue
          (completed
            (copied (kernel [] message_blocks_left three_bytes full) 1000 blocks_back)
            2000
            (queue (1008 ∷ []) [] (7 ∷ []))
            7
            []
            1000
            (taken blocks_back 0 (pos 1))
            4)
          5
          (pos 3))
unfolding can_access wrap32 get_block release_block initialised links_from
internal_mq_receive_completes_example =
    internal_mq_receive_completes (kernel [] message_blocks_left three_bytes full) 2000 full 1000
      (1008 ∷ []) blocks_back success 7 [] 1000 (taken blocks_back 0 (pos 1)) 4
      (kernel-Finds [] message_blocks_left three_bytes full) refl refl refl refl refl refl refl
      four_bytes-IsSize refl refl refl

internal_mq_receive_alone_example :
    internal_mq_receive (kernel [] message_blocks three_bytes empty)
    ≡ ok (set_retvalue (kernel [] message_blocks three_bytes empty) 5 dsos_emqempty)
unfolding is_listed is_orderly waiters timers_wait detach wrap32 timer_list_current
internal_mq_receive_alone_example =
    internal_mq_receive_alone (kernel [] message_blocks three_bytes empty) 2000 empty
      (kernel-Finds [] message_blocks three_bytes empty) refl refl refl refl refl refl refl refl
      refl

internal_mq_receive_blocks_example :
    internal_mq_receive (kernel (6 ∷ []) message_blocks three_bytes empty)
    ≡ ok (
        dispatched
          (blocked_in
            (kernel (6 ∷ []) message_blocks three_bytes empty)
            2000
            (queue [] (5 ∷ []) []))
          6
          [])
unfolding is_listed is_orderly waiters timers_wait detach wrap32 timer_list_current
internal_mq_receive_blocks_example =
    internal_mq_receive_blocks (kernel (6 ∷ []) message_blocks three_bytes empty) 2000 empty 6 []
      (kernel-Finds (6 ∷ []) message_blocks three_bytes empty) refl refl refl refl refl refl refl
      refl

-- Process 5 sends and process 6 receives.
abbrev start : Kernel
start = kernel (6 ∷ []) message_blocks three_bytes empty

internal_mq_receive-internal_mq_send_example :
    (k1 : Kernel) × (k2 : Kernel) × (internal_mq_send start ≡ ok k1)
    × (internal_mq_receive (record k1 { running = 6 }) ≡ ok k2)
    × (read_bytes k2.memory (buffer_of (record k1 { running = 6 })) 3
        ≡ read_bytes start.memory 100 3)
    × ((k2.pcbs 6).syscall_retvalue ≡ pos 3)
    × (k2.message_pool ≡ message_blocks)
unfolding can_access wrap32 get_block resource_list_by_id initialised links_from
internal_mq_receive-internal_mq_send_example =
    internal_mq_receive-internal_mq_send start 2000 empty 3 0 (1 ∷ 2 ∷ 3 ∷ []) message_blocks_left 6
      (kernel-Finds (6 ∷ []) message_blocks three_bytes empty) three_bytes-IsSize refl
      empty_queue-IsQueue refl refl refl message_blocks-IsPool refl
      (record { id_pos = refl; found = refl; exists = refl; typed = refl; queue = refl }) refl refl

internal_mq_receive-contents_example :
    (bytes : List ℕ) × (others : List (List ℕ)) × (contents
        (kernel [] message_blocks_left three_bytes one)
        2000
      ≡ some (bytes ∷ others))
    × Returns
        (λ k'. (contents k' 2000 ≡ some others) × (read_bytes k'.memory 100 (length bytes) ≡ bytes))
        (internal_mq_receive (kernel [] message_blocks_left three_bytes one))
unfolding can_access wrap32 release_block initialised links_from
internal_mq_receive-contents_example =
    internal_mq_receive-contents (kernel [] message_blocks_left three_bytes one) 2000 one 1000 []
      blocks_back success (kernel-Finds [] message_blocks_left three_bytes one) refl refl refl refl
      refl refl refl
