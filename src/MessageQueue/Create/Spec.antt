-- ===== src/MessageQueue/Create/Spec.antt =====
-- What internal_mq_create does.
use disastr_os_message_queue.Base.{
  ℕ, ◌≡◌, false, ◌&&◌, ◌||◌, not, some, [], ◌∷◌, ◌++◌, arith, ◌≤◌, ◌<◌, ℤ, pos, leb_ℤ, ltb_ℤ,
  wrap32, ◌==◌,
}
use disastr_os_message_queue.Constants.{max_messages_per_queue}
use disastr_os_message_queue.PoolAllocator.{Ptr, null, PoolAllocator, get_block}
use disastr_os_message_queue.Kernel.{
  Kernel, Resource, resource_message_queue, mq_open, ok, set_retvalue, update,
}
use disastr_os_message_queue.MessageQueue.{resource_list_by_id, is_message_queue}
use disastr_os_message_queue.MessageQueue.Request.{queue_id_of}
use disastr_os_message_queue.MessageQueue.Create.{create_queue, internal_mq_create}

-- The second argument of the running process, the capacity that it asks for.
abbrev pub capacity_of : Kernel → ℤ
capacity_of k = wrap32 ((k.pcbs k.running).syscall_args 1)

-- A legal capacity.
abbrev pub IsCapacity : ℤ → ℕ → Type 0
IsCapacity size n = (size ≡ pos n) × (0 < n) × (n ≤ max_messages_per_queue)

abbrev pub new_resource : ℤ → Resource
new_resource id = record {
  id = id;
  type = resource_message_queue;
  ref_count = pos 0;
  descriptors_ptrs = [];
}

-- The kernel with a new queue at `r`.
abbrev pub created : Kernel → Ptr → PoolAllocator → Kernel
created k r pool = record (set_retvalue k k.running (queue_id_of k)) {
  queue_pool = pool;
  resources = update k.resources r (new_resource (queue_id_of k));
  queues = update k.queues r (
      some (record {
        messages = [];
        waiting_receivers = [];
        waiting_senders = [];
        max_messages = capacity_of k;
        current_messages = pos 0;
        queue_id = queue_id_of k;
        status = mq_open;
      }));
  resources_list = k.resources_list ++ r ∷ [];
}

pub create_queue-created :
    (k : Kernel) (r : Ptr) (pool : PoolAllocator)
    → get_block k.queue_pool ≡ some (r, pool)
    → (r == null) ≡ false
    → create_queue k (queue_id_of k) (capacity_of k) ≡ ok (created k r pool)
unfolding create_queue
create_queue-created k r pool got given = rw (got, given, given)

-- For a positive id that no message queue has, a legal capacity and a free block, a create links a
-- new queue behind the other resources: it is open, empty, without waiting processes, with this
-- capacity. The caller gets the id.
pub internal_mq_create-created :
    (k : Kernel) (n : ℕ) (r : Ptr) (pool : PoolAllocator)
    → leb_ℤ (queue_id_of k) (pos 0) ≡ false
    → IsCapacity (capacity_of k) n
    → (not (resource_list_by_id k.resources k.resources_list (queue_id_of k) == null)
        && is_message_queue k (resource_list_by_id k.resources k.resources_list (queue_id_of k)))
      ≡ false
    → get_block k.queue_pool ≡ some (r, pool)
    → (r == null) ≡ false
    → internal_mq_create k ≡ ok (created k r pool)
unfolding internal_mq_create
internal_mq_create-created k n r pool id_pos c unused got given =
    let checked : (leb_ℤ (queue_id_of k) (pos 0)
          || leb_ℤ (capacity_of k) (pos 0)
          || ltb_ℤ (pos max_messages_per_queue) (capacity_of k))
        ≡ false =
      ground arith in
    rw (checked, unused) (create_queue-created k r pool got given)
