-- ===== src/MessageQueue/Destroy/InUse.antt =====
-- The destroy of a queue that was opened as a resource.
use disastr_os_message_queue.Base.{◌≡◌, ◌∙◌, false, List, ◌∷◌}
use disastr_os_message_queue.PoolAllocator.{Ptr}
use disastr_os_message_queue.Kernel.{Kernel, MessageQueue, fault}
use disastr_os_message_queue.Kernel.Invariant.{HasPool}
use disastr_os_message_queue.MessageQueue.{is_closed, message_queue_free}
use disastr_os_message_queue.MessageQueue.Request.{Finds}
use disastr_os_message_queue.MessageQueue.Destroy.{destroy_queue, internal_mq_destroy}
use disastr_os_message_queue.MessageQueue.Destroy.Loops.{free_all_total, wake_both}
use disastr_os_message_queue.MessageQueue.Destroy.Spec.{
  closing, all_woken, closed, emptied, internal_mq_destroy-destroy_queue,
}

message_queue_free_in_use :
    (k : Kernel) (r : Ptr) (mq : MessageQueue) (d : Ptr) (ds : List Ptr)
    → (k.resources r).descriptors_ptrs ≡ d ∷ ds
    → message_queue_free k r (closed mq) ≡ fault
unfolding message_queue_free
message_queue_free_in_use k r mq d ds used = rw used

-- With the message allocator in order, a queue that the id finds and that is not closed, but that
-- some process opened as a resource, cannot be destroyed: the assertion of `MessageQueue_free` on
-- its descriptors fails, once everything else is done.
pub internal_mq_destroy_in_use :
    (k : Kernel) (r : Ptr) (mq : MessageQueue) (d : Ptr) (ds : List Ptr)
    → Finds k r mq
    → is_closed mq.status ≡ false
    → HasPool k.message_pool
    → (k.resources r).descriptors_ptrs ≡ d ∷ ds
    → internal_mq_destroy k ≡ fault
unfolding destroy_queue
internal_mq_destroy_in_use k r mq d ds f open_now mp used =
    let waked = wake_both mq.waiting_receivers mq.waiting_senders (closing k r mq) in
    let (p1, h1, given, freed) = free_all_total mq.messages (all_woken k r mq) mp in
    internal_mq_destroy-destroy_queue f open_now
    ∙ rw (waked, freed, message_queue_free_in_use (emptied k r mq p1) r mq d ds used)
