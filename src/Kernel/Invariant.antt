-- ===== src/Kernel/Invariant.antt =====
-- The invariant of the kernel's stores: a process runs, and the allocators, the messages, the queues and the resources are in order.
use disastr_os_message_queue.Base.{
  ℕ, ◌≤◌, ◌<◌, ◌≡◌, ◌⊎◌, refl, true, Option, none, some, List, [], ◌∷◌, ◌++◌, arith, length, has,
  has-append, has-detach, detach, false, ℤ, pos, ◌==ℤ◌, ◌==◌, Bool-cases, inl, inr, eq_of_==,
  if◌then◌else◌, subst,
}
use disastr_os_message_queue.Constants.{message_max_size, max_messages_per_queue}
use disastr_os_message_queue.PoolAllocator.{
  Ptr, null, PoolAllocator, PoolAllocatorResult, get_block, release_block,
}
use disastr_os_message_queue.PoolAllocator.FreeList.{IsPool, block}
use disastr_os_message_queue.PoolAllocator.Get.{get_block-taken, get_block_empty, taken}
use disastr_os_message_queue.PoolAllocator.Release.{release_block-Released, Released}
use disastr_os_message_queue.Kernel.{
  Kernel, Message, MessageQueue, Resource, resource_message_queue, update,
}

abbrev pub HasPool : PoolAllocator → Type 0
HasPool a = (free : List ℕ) × IsPool a free

-- `size` is the length of the payload, which fits.
pub record IsMessage (m : Message) : Type 0 where
  pub sized : m.size ≡ pos (length m.payload)
  pub bounded : length m.payload ≤ message_max_size

-- The count is that of the list and within the capacity, the capacity is a legal one, and no
-- receiver waits while there is a message.
pub record IsQueue (mq : MessageQueue) : Type 0 where
  pub capacity : ℕ
  pub has_capacity : mq.max_messages ≡ pos capacity
  pub capacity_pos : 0 < capacity
  pub capacity_le : capacity ≤ max_messages_per_queue
  pub counted : mq.current_messages ≡ pos (length mq.messages)
  pub bounded : length mq.messages ≤ capacity
  pub nobody_waits : (mq.waiting_receivers ≡ []) ⊎ (mq.messages ≡ [])

-- In this order: the process that runs, the allocators of messages, of queues and of timers, the messages, the queues, the
-- resources, and the list of the linked resources.
pub record IsStores (run : Ptr) (mp qp tp : PoolAllocator) (ms : Ptr → Message)
    (qs : Ptr → Option MessageQueue) (rs : Ptr → Resource) (linked : List Ptr) : Type 0 where
  pub alive : (run == null) ≡ false
  pub message_pool : HasPool mp
  pub queue_pool : HasPool qp
  pub timer_pool : HasPool tp
  pub messages : (p : Ptr) → IsMessage (ms p)
  pub queues : (r : Ptr) (mq : MessageQueue) → qs r ≡ some mq → IsQueue mq
  -- a linked resource that claims to be a queue is one
  pub typed :
      (r : Ptr)
      → has r linked ≡ true
      → ((rs r).type ==ℤ resource_message_queue) ≡ true
      → (mq : MessageQueue) × (qs r ≡ some mq)

abbrev pub IsKernel : Kernel → Type 0
IsKernel k =
    IsStores k.running k.message_pool k.queue_pool k.timer_pool k.messages k.queues k.resources
      k.resources_list

-- The allocators fault nowhere, and stay allocators.
pub get_block_total :
    (a : PoolAllocator)
    → HasPool a
    → (r : Ptr × PoolAllocator) × (get_block a ≡ some r) × HasPool r.1
get_block_total a ([], p) = ((null, a), get_block_empty a p, ([], p))
get_block_total a (i ∷ is, p) =
    let (next, e, at, first, out, q) = get_block-taken a i is p in
    ((block a i, taken a i next), e, (is, q))

pub release_block_total :
    (a : PoolAllocator) (x : Ptr)
    → HasPool a
    → (r : PoolAllocator × PoolAllocatorResult) × (release_block a x ≡ some r) × HasPool r.0
release_block_total a x (free, p) =
    let (r, e, c) = release_block-Released a free x p in (r, e, pool c)
  where
    pool : {r : PoolAllocator × PoolAllocatorResult} {n : ℤ} → Released a free n r → HasPool r.0
    pool (inl (i, below, out, at, made, q)) = (i ∷ free, q)
    pool (inr (same, failed)) = (free, rw same p)

-- The invariant with one store replaced.
module _ {run : Ptr} {mp qp tp : PoolAllocator} {ms : Ptr → Message}
    {qs : Ptr → Option MessageQueue} {rs : Ptr → Resource} {linked : List Ptr}
    (v : IsStores run mp qp tp ms qs rs linked) where
  pub with_message_pool : (a : PoolAllocator) → HasPool a → IsStores run a qp tp ms qs rs linked
  with_message_pool a p = record {
    alive = v.alive;
    message_pool = p;
    queue_pool = v.queue_pool;
    timer_pool = v.timer_pool;
    messages = v.messages;
    queues = v.queues;
    typed = v.typed;
  }

  pub with_running : (p : Ptr) → (p == null) ≡ false → IsStores p mp qp tp ms qs rs linked
  with_running p alive = record {
    alive = alive;
    message_pool = v.message_pool;
    queue_pool = v.queue_pool;
    timer_pool = v.timer_pool;
    messages = v.messages;
    queues = v.queues;
    typed = v.typed;
  }

  pub with_timer_pool : (a : PoolAllocator) → HasPool a → IsStores run mp qp a ms qs rs linked
  with_timer_pool a p = record {
    alive = v.alive;
    message_pool = v.message_pool;
    queue_pool = v.queue_pool;
    timer_pool = p;
    messages = v.messages;
    queues = v.queues;
    typed = v.typed;
  }

  pub with_message :
      (p : Ptr) (m : Message) → IsMessage m → IsStores run mp qp tp (update ms p m) qs rs linked
  with_message p m is = record {
    alive = v.alive;
    message_pool = v.message_pool;
    queue_pool = v.queue_pool;
    timer_pool = v.timer_pool;
    messages = λ q. elim (Bool-cases (q == p)) [
      | inl same ↦ rw same is
      | inr other ↦ rw other (v.messages q)
    ];
    queues = v.queues;
    typed = v.typed;
  }

  pub with_queue :
      (r : Ptr) (mq : MessageQueue)
      → IsQueue mq
      → IsStores run mp qp tp ms (update qs r (some mq)) rs linked
  with_queue r mq is = record {
    alive = v.alive;
    message_pool = v.message_pool;
    queue_pool = v.queue_pool;
    timer_pool = v.timer_pool;
    messages = v.messages;
    queues = λ q mq' e. elim (Bool-cases (q == r)) [
      | inl same ↦ subst IsQueue (ground arith) is
      | inr other ↦ v.queues q mq' (ground arith)
    ];
    typed = λ q on claims. elim (Bool-cases (q == r)) [
      | inl same ↦ (mq, rw same refl)
      | inr other ↦ rw other (v.typed q on claims)
    ];
  }

  pub with_queue_pool : (a : PoolAllocator) → HasPool a → IsStores run mp a tp ms qs rs linked
  with_queue_pool a p = record {
    alive = v.alive;
    message_pool = v.message_pool;
    queue_pool = p;
    timer_pool = v.timer_pool;
    messages = v.messages;
    queues = v.queues;
    typed = v.typed;
  }

  -- A resource changed but for its type.
  pub with_resource :
      (r : Ptr) (res : Resource)
      → res.type ≡ (rs r).type
      → IsStores run mp qp tp ms qs (update rs r res) linked
  with_resource r res same_type = record {
    alive = v.alive;
    message_pool = v.message_pool;
    queue_pool = v.queue_pool;
    timer_pool = v.timer_pool;
    messages = v.messages;
    queues = v.queues;
    typed = λ q on claims. v.typed q on (ground (arith, eq_of_== q r));
  }

  -- A new resource at `r` that is no queue, linked at the end.
  pub with_plain :
      (r : Ptr) (res : Resource)
      → (res.type ==ℤ resource_message_queue) ≡ false
      → IsStores run mp qp tp ms qs (update rs r res) (linked ++ r ∷ [])
  with_plain r res plain = record {
    alive = v.alive;
    message_pool = v.message_pool;
    queue_pool = v.queue_pool;
    timer_pool = v.timer_pool;
    messages = v.messages;
    queues = v.queues;
    typed = λ q on claims. elim (Bool-cases (q == r)) [
      | inl same ↦ absurd (ground arith)
      | inr other ↦ v.typed q (ground (arith, has-append q linked (r ∷ []))) (ground arith)
    ];
  }

  -- Fewer resources linked.
  pub with_fewer :
      (fewer : List Ptr)
      → ((q : Ptr) → has q fewer ≡ true → has q linked ≡ true)
      → IsStores run mp qp tp ms qs rs fewer
  with_fewer fewer less = record {
    alive = v.alive;
    message_pool = v.message_pool;
    queue_pool = v.queue_pool;
    timer_pool = v.timer_pool;
    messages = v.messages;
    queues = v.queues;
    typed = λ q on. v.typed q (less q on);
  }

  -- A new queue at `r`, linked at the end.
  pub with_created :
      (r : Ptr) (mq : MessageQueue) (res : Resource)
      → IsQueue mq
      → IsStores run mp qp tp ms (update qs r (some mq)) (update rs r res) (linked ++ r ∷ [])
  with_created r mq res is = record {
    alive = v.alive;
    message_pool = v.message_pool;
    queue_pool = v.queue_pool;
    timer_pool = v.timer_pool;
    messages = v.messages;
    queues = (with_queue r mq is).queues;
    typed = λ q on claims. elim (Bool-cases (q == r)) [
      | inl same ↦ (mq, rw same refl)
      | inr other ↦
          rw other (v.typed q (ground (arith, has-append q linked (r ∷ []))) (ground arith))
    ];
  }

  -- The queue at `r`, which is linked once, taken away.
  pub with_destroyed :
      (r : Ptr)
      → has r (detach r linked) ≡ false
      → IsStores run mp qp tp ms (λ q. if q == r then none else qs q) rs (detach r linked)
  with_destroyed r once = record {
    alive = v.alive;
    message_pool = v.message_pool;
    queue_pool = v.queue_pool;
    timer_pool = v.timer_pool;
    messages = v.messages;
    queues = λ q mq e. v.queues q mq (ground arith);
    typed = λ q on claims. elim (Bool-cases (q == r)) [
      | inl same ↦ absurd (ground (arith, eq_of_== q r same))
      | inr other ↦ rw other (v.typed q (has-detach q r linked on) claims)
    ];
  }
