-- ===== src/MessageQueue.antt =====
-- src/disastrOS_message_queue.c: the queue objects, less the functions that print them.
pub mod Blocking
pub mod Create
pub mod Destroy
pub mod Fifo
pub mod Invariant
pub mod Links
pub mod Lookup
pub mod Receive
pub mod Request
pub mod RoundTrip
pub mod Send
use disastr_os_message_queue.Base.{
  ℕ, Bool, true, false, Option, none, some, List, [], ◌∷◌, ◌||◌, not, if◌then◌else◌, ◌==◌, ℤ, pos,
  negsuc, ◌==ℤ◌, ◌+ℤ◌,
}
use disastr_os_message_queue.PoolAllocator.{Ptr, null, get_block, release_block}
use disastr_os_message_queue.Kernel.{
  Kernel, Resource, MessageQueue, MqStatus, mq_open, mq_closed, resource_message_queue, Run, ok,
  fault, ◌>>=◌, from_pool, update, push_back,
}

-- A queue as `MessageQueue_alloc` sets it up.
abbrev pub empty_queue : ℤ → ℤ → MessageQueue
empty_queue queue_id size = record {
  messages = [];
  waiting_receivers = [];
  waiting_senders = [];
  max_messages = size;
  current_messages = pos 0;
  queue_id = queue_id;
  status = mq_open;
}

-- `MessageQueue_alloc`
unfoldable pub message_queue_alloc : Kernel → (queue_id size : ℤ) → Run (Ptr × Kernel)
message_queue_alloc k queue_id size = do
  (mq, pool) ← from_pool (get_block k.queue_pool)
  if mq == null
      then ok (null, record k { queue_pool = pool })
      else ok (
        mq,
        record k {
          queue_pool = pool;
          resources = update k.resources mq (record {
            id = queue_id;
            type = resource_message_queue;
            ref_count = pos 0;
            descriptors_ptrs = [];
          });
          queues = update k.queues mq (some (empty_queue queue_id size));
        },
      )

abbrev pub is_empty {ℓ} : {A : Type ℓ} → List A → Bool
is_empty [] = true
is_empty (x ∷ xs) = false

-- `MessageQueue_free` of a queue with these fields: its four assertions, and the release, whose
-- result is ignored. The block is then no queue any more.
unfoldable pub message_queue_free : Kernel → Ptr → MessageQueue → Run Kernel
message_queue_free k r mq =
    if not (is_empty mq.waiting_receivers)
      || not (is_empty mq.waiting_senders)
      || not (is_empty mq.messages)
      || not (is_empty (k.resources r).descriptors_ptrs)
    then fault
    else do
      (pool, _) ← from_pool (release_block k.queue_pool r)
      ok (record k { queue_pool = pool; queues = λ q. if q == r then none else k.queues q })

-- `List_insert(&mq->messages, mq->messages.last, msg); mq->current_messages++;`
abbrev pub enqueue : MessageQueue → Ptr → MessageQueue
enqueue mq msg = record mq {
  messages = push_back mq.messages msg;
  current_messages = mq.current_messages +ℤ pos 1;
}

-- `List_detach(&mq->messages, mq->messages.first); mq->current_messages--;`, with `rest` the list
-- behind the first message.
abbrev pub dequeue : MessageQueue → List Ptr → MessageQueue
dequeue mq rest = record mq { messages = rest; current_messages = mq.current_messages +ℤ negsuc 0 }

abbrev pub is_open : MqStatus → Bool
is_open mq_open = true
is_open _ = false

abbrev pub is_closed : MqStatus → Bool
is_closed mq_closed = true
is_closed _ = false

-- `ResourceList_byId`, from src/disastrOS_resource.c.
unfoldable pub resource_list_by_id : (Ptr → Resource) → List Ptr → ℤ → Ptr
resource_list_by_id resources [] id = null
resource_list_by_id resources (r ∷ rs) id =
    let rest = resource_list_by_id resources rs id in if (resources r).id ==ℤ id then r else rest

-- Whether the resource at this address claims to be a message queue.
abbrev pub is_message_queue : Kernel → Ptr → Bool
is_message_queue k r = (k.resources r).type ==ℤ resource_message_queue
