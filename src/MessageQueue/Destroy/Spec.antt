-- ===== src/MessageQueue/Destroy/Spec.antt =====
-- What internal_mq_destroy does.
use disastr_os_message_queue.Base.{
  ◌≡◌, ap, ◌∙◌, fun_ext, false, ◌||◌, Option, none, some, [], ◌++◌, ℤ, has, detach, ◌==◌,
  if◌then◌else◌, Bool-cases, inl, inr,
}
use disastr_os_message_queue.PoolAllocator.{Ptr, PoolAllocator, PoolAllocatorResult, release_block}
use disastr_os_message_queue.Kernel.{
  Kernel, MessageQueue, mq_closing, mq_closed, Pcb, ok, set_queue, set_retvalue, update,
}
use disastr_os_message_queue.Kernel.Invariant.{HasPool, release_block_total}
use disastr_os_message_queue.MessageQueue.{is_closed, message_queue_free}
use disastr_os_message_queue.MessageQueue.Request.{Finds, queue_id_of}
use disastr_os_message_queue.MessageQueue.Destroy.{
  destroy_queue, destroy_found, internal_mq_destroy,
}
use disastr_os_message_queue.MessageQueue.Destroy.Loops.{
  released, release_all, free_all_total, wake_both,
}

-- The processes once all that waited in `mq` are woken.
abbrev pub woken : Kernel → MessageQueue → Ptr → Pcb
woken k mq p =
    if has p mq.waiting_receivers || has p mq.waiting_senders then released (k.pcbs p) else k.pcbs p

-- The table of queues without the entry at `r`.
abbrev pub without : (Ptr → Option MessageQueue) → Ptr → Ptr → Option MessageQueue
without qs r q = if q == r then none else qs q

-- The stages of a destroy: the queue is closing, all that waited are woken, and the queue is closed,
-- empty and linked no more.
abbrev pub closing : Kernel → Ptr → MessageQueue → Kernel
closing k r mq = set_queue k r (record mq { status = mq_closing })

abbrev pub all_woken : Kernel → Ptr → MessageQueue → Kernel
all_woken k r mq = record (closing k r mq) {
  ready_list = (k.ready_list ++ mq.waiting_receivers) ++ mq.waiting_senders;
  pcbs = woken k mq;
}

abbrev pub closed : MessageQueue → MessageQueue
closed mq = record mq {
  status = mq_closed;
  waiting_receivers = [];
  waiting_senders = [];
  messages = [];
}

abbrev pub emptied : Kernel → Ptr → MessageQueue → (message_pool : PoolAllocator) → Kernel
emptied k r mq message_pool =
    record (set_queue (record (all_woken k r mq) { message_pool = message_pool }) r (closed mq)) {
      resources_list = detach r k.resources_list;
    }

-- The kernel without the queue `mq` at `r`.
abbrev pub destroyed :
    Kernel → Ptr → MessageQueue → (message_pool queue_pool : PoolAllocator) → Kernel
destroyed k r mq message_pool queue_pool =
    set_retvalue
      (record k {
        message_pool = message_pool;
        queue_pool = queue_pool;
        queues = without k.queues r;
        resources_list = detach r k.resources_list;
        ready_list = (k.ready_list ++ mq.waiting_receivers) ++ mq.waiting_senders;
        pcbs = woken k mq;
      })
      k.running (queue_id_of k)

-- A queue with nothing in it and no descriptor is freed.
message_queue_free_ok :
    (k : Kernel) (r : Ptr) (mq : MessageQueue) (pool : PoolAllocator) (result : PoolAllocatorResult)
    → (k.resources r).descriptors_ptrs ≡ []
    → release_block k.queue_pool r ≡ some (pool, result)
    → message_queue_free k r (closed mq)
      ≡ ok (record k { queue_pool = pool; queues = without k.queues r })
unfolding message_queue_free
message_queue_free_ok k r mq pool result unused e = rw (unused, e)

-- Replacing the entry at `r` twice and then taking it out takes it out.
gone :
    (qs : Ptr → Option MessageQueue) (r : Ptr) (a b : Option MessageQueue)
    → without (update (update qs r a) r b) r ≡ without qs r
gone qs r a b =
    fun_ext λ q. elim (Bool-cases (q == r)) [ inl same ↦ rw same | inr other ↦ rw other ]

pub destroy_queue-destroyed :
    (k : Kernel) (r : Ptr) (mq : MessageQueue)
    → HasPool k.message_pool
    → HasPool k.queue_pool
    → (k.resources r).descriptors_ptrs ≡ []
    → (p1 : PoolAllocator) × (p2 : PoolAllocator) × HasPool p1
      × HasPool p2
      × (release_all mq.messages k.message_pool ≡ some p1)
      × (result : PoolAllocatorResult) × (release_block k.queue_pool r ≡ some (p2, result))
      × (destroy_queue k r mq (queue_id_of k) ≡ ok (destroyed k r mq p1 p2))
unfolding destroy_queue
destroy_queue-destroyed k r mq mp qp unused =
    let waked = wake_both mq.waiting_receivers mq.waiting_senders (closing k r mq) in
    let (p1, h1, given, freed) = free_all_total mq.messages (all_woken k r mq) mp in
    let ((p2, result), released, h2) = release_block_total k.queue_pool r qp in
    (
      p1,
      p2,
      h1,
      h2,
      given,
      result,
      released,
      rw (waked, freed, message_queue_free_ok (emptied k r mq p1) r mq p2 result unused released)
          (ap
            (λ (qs : Ptr → Option MessageQueue).
              ok (record (destroyed k r mq p1 p2) { queues = qs }))
            (gone k.queues r _ _)),
    )

destroy_found-destroy_queue :
    (k : Kernel) (r : Ptr) (mq : MessageQueue) (id : ℤ)
    → k.queues r ≡ some mq
    → is_closed mq.status ≡ false
    → destroy_found k r id ≡ destroy_queue k r mq id
unfolding destroy_found
destroy_found-destroy_queue k r mq id found open_now = rw (found, destroy_found, open_now)

pub internal_mq_destroy-destroy_queue :
    {k : Kernel} {r : Ptr} {mq : MessageQueue}
    → Finds k r mq
    → is_closed mq.status ≡ false
    → internal_mq_destroy k ≡ destroy_queue k r mq (queue_id_of k)
unfolding internal_mq_destroy
internal_mq_destroy-destroy_queue {k} {r} {mq} f open_now =
    rw (f.id_pos, f.found, f.exists, f.typed)
      (destroy_found-destroy_queue k r mq (queue_id_of k) f.queue open_now)

-- With the allocators in order, a queue that the id finds, that is not closed and that no process
-- has a descriptor of is destroyed: the processes that waited in it become ready, the receivers
-- first and each group in its order, behind those that were ready, and their calls return
-- `DSOS_EMQNOTOPEN`; the blocks of its messages, one after another, and its own are given back to
-- their allocators, it is linked no more, and the caller gets the queue's id. No other process and no other queue changes.
pub internal_mq_destroy-destroyed :
    (k : Kernel) (r : Ptr) (mq : MessageQueue)
    → Finds k r mq
    → is_closed mq.status ≡ false
    → HasPool k.message_pool
    → HasPool k.queue_pool
    → (k.resources r).descriptors_ptrs ≡ []
    → (p1 : PoolAllocator) × (p2 : PoolAllocator) × HasPool p1
      × HasPool p2
      × (release_all mq.messages k.message_pool ≡ some p1)
      × (result : PoolAllocatorResult) × (release_block k.queue_pool r ≡ some (p2, result))
      × (internal_mq_destroy k ≡ ok (destroyed k r mq p1 p2))
internal_mq_destroy-destroyed k r mq f open_now mp qp unused =
    let (p1, p2, h1, h2, given, result, back, ran) = destroy_queue-destroyed k r mq mp qp unused in
    (p1, p2, h1, h2, given, result, back, internal_mq_destroy-destroy_queue f open_now ∙ ran)
