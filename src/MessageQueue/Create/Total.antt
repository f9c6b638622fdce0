-- ===== src/MessageQueue/Create/Total.antt =====
-- internal_mq_create always returns and keeps the invariant of the stores.
use disastr_os_message_queue.Base.{
  ℕ, refl, ◌&&◌, ◌||◌, not, arith, ℤ, pos, pos_part, leb_ℤ, ltb_ℤ, ◌==◌, Bool-cases, inl, inr,
}
use disastr_os_message_queue.Constants.{max_messages_per_queue}
use disastr_os_message_queue.PoolAllocator.{Ptr, null}
use disastr_os_message_queue.Kernel.{Kernel}
use disastr_os_message_queue.Kernel.Returns.{Returns}
use disastr_os_message_queue.Kernel.Invariant.{
  IsKernel, IsQueue, get_block_total, with_created, with_queue_pool,
}
use disastr_os_message_queue.MessageQueue.{empty_queue, resource_list_by_id, is_message_queue}
use disastr_os_message_queue.MessageQueue.Request.{queue_id_of}
use disastr_os_message_queue.MessageQueue.Create.{create_queue, internal_mq_create}
use disastr_os_message_queue.MessageQueue.Create.Spec.{
  capacity_of, IsCapacity, create_queue-created, new_resource,
}

empty_queue-IsQueue : (id size : ℤ) (n : ℕ) → IsCapacity size n → IsQueue (empty_queue id size)
empty_queue-IsQueue id size n c = record {
  capacity = n;
  has_capacity = c.0;
  capacity_pos = c.1;
  capacity_le = c.2;
  counted = refl;
  bounded = omega arith;
  nobody_waits = inl refl;
}

create_queue_total :
    (k : Kernel) (n : ℕ)
    → IsKernel k
    → IsCapacity (capacity_of k) n
    → Returns IsKernel (create_queue k (queue_id_of k) (capacity_of k))
unfolding create_queue
create_queue_total k n v c =
    let ((r, pool), got, p) = get_block_total k.queue_pool v.queue_pool in
    elim (Bool-cases (r == null)) [
      | inl none_left ↦ rw (got, none_left) (_, refl, with_queue_pool v pool p)
      | inr given ↦ (
        _,
        create_queue-created k r pool got given,
        with_created (with_queue_pool v pool p) r _ (new_resource (queue_id_of k))
            (empty_queue-IsQueue (queue_id_of k) (capacity_of k) n c),
      )
    ]

-- In a kernel whose stores are in order a create returns, whatever its arguments, and leaves them so.
pub internal_mq_create_total : (k : Kernel) → IsKernel k → Returns IsKernel (internal_mq_create k)
unfolding internal_mq_create
internal_mq_create_total k v =
    elim (Bool-cases (
      leb_ℤ (queue_id_of k) (pos 0)
      || leb_ℤ (capacity_of k) (pos 0)
      || ltb_ℤ (pos max_messages_per_queue) (capacity_of k))) [
        | inl illegal ↦ rw illegal (_, refl, v)
        | inr legal ↦
            rw legal (elim (Bool-cases (not (existing == null) && is_message_queue k existing)) [
              | inl taken ↦ rw taken (_, refl, v)
              | inr free ↦ rw free (
                  create_queue_total k (pos_part (capacity_of k)) v
                    (ground arith, ground arith, ground arith))
            ])
      ]
  where
    existing : Ptr
    existing = resource_list_by_id k.resources k.resources_list (queue_id_of k)
