-- ===== src/MessageQueue/Destroy/Total.antt =====
-- internal_mq_destroy returns and keeps the invariant of the stores.
use disastr_os_message_queue.Base.{
  ◌≡◌, refl, ap, ◌∙◌, false, ◌||◌, not, some, [], pos, leb_ℤ, has, detach, ◌==◌, Bool-cases, inl,
  inr, sym,
}
use disastr_os_message_queue.PoolAllocator.{Ptr, null, PoolAllocator}
use disastr_os_message_queue.Kernel.{Kernel, MessageQueue}
use disastr_os_message_queue.Kernel.Returns.{Returns}
use disastr_os_message_queue.Kernel.Invariant.{
  IsKernel, HasPool, with_message_pool, with_queue_pool, with_destroyed,
}
use disastr_os_message_queue.MessageQueue.{is_closed, resource_list_by_id, is_message_queue}
use disastr_os_message_queue.MessageQueue.Invariant.{found_queue}
use disastr_os_message_queue.MessageQueue.Request.{queue_id_of}
use disastr_os_message_queue.MessageQueue.Destroy.{destroy_found, internal_mq_destroy}
use disastr_os_message_queue.MessageQueue.Destroy.Spec.{destroyed, destroy_queue-destroyed}

destroyed-IsKernel :
    (k : Kernel) (r : Ptr) (mq : MessageQueue) (p1 p2 : PoolAllocator)
    → IsKernel k
    → HasPool p1
    → HasPool p2
    → has r (detach r k.resources_list) ≡ false
    → IsKernel (destroyed k r mq p1 p2)
destroyed-IsKernel k r mq p1 p2 v h1 h2 once =
    with_destroyed (with_queue_pool (with_message_pool v p1 h1) p2 h2) r once

destroy_found_total :
    (k : Kernel) (r : Ptr) (mq : MessageQueue)
    → IsKernel k
    → k.queues r ≡ some mq
    → (k.resources r).descriptors_ptrs ≡ []
    → has r (detach r k.resources_list) ≡ false
    → Returns IsKernel (destroy_found k r (queue_id_of k))
unfolding destroy_found
destroy_found_total k r mq v found unused once =
    rw (found, destroy_found)
      (elim (Bool-cases (is_closed mq.status)) [
        | inl shut ↦ rw shut (_, refl, v)
        | inr open_now ↦
            let (p1, p2, h1, h2, given, result, back, ran) =
              destroy_queue-destroyed k r mq v.message_pool v.queue_pool unused in
            rw (open_now, ran) (_, refl, destroyed-IsKernel k r mq p1 p2 v h1 h2 once)
      ])

-- In a kernel whose stores are in order, and where no process has a descriptor of the resource that the
-- call names and this resource is linked at most once, a destroy returns, whatever its argument, and
-- leaves the stores in order.
pub internal_mq_destroy_total :
    (k : Kernel) (r : Ptr)
    → IsKernel k
    → resource_list_by_id k.resources k.resources_list (queue_id_of k) ≡ r
    → (k.resources r).descriptors_ptrs ≡ []
    → has r (detach r k.resources_list) ≡ false
    → Returns IsKernel (internal_mq_destroy k)
unfolding internal_mq_destroy
internal_mq_destroy_total k r v here unused once =
    elim (Bool-cases (leb_ℤ (queue_id_of k) (pos 0))) [
      | inl bad_id ↦ rw bad_id (_, refl, v)
      | inr good_id ↦
          rw (good_id, here)
            (elim (Bool-cases (r == null || not (is_message_queue k r))) [
              | inl missing ↦ rw missing (_, refl, v)
              | inr found ↦
                  let (mq, e) = found_queue k (queue_id_of k) v (rw here found) in
                  rw found (destroy_found_total k r mq v (ap k.queues (sym here) ∙ e) unused once)
            ])
    ]
