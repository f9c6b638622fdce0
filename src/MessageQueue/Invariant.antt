-- ===== src/MessageQueue/Invariant.antt =====
-- The invariant of one queue under the steps that the handlers make.
use disastr_os_message_queue.Base.{
  ◌<◌, ◌≡◌, refl, ap, false, List, [], ◌∷◌, arith, length, ℤ, pos, ◌+ℤ◌, leb_ℤ, inl, inr,
  length-append, detach, ◌==◌, ◌||◌, not, some,
}
use disastr_os_message_queue.PoolAllocator.{Ptr, null}
use disastr_os_message_queue.Kernel.{Kernel, MessageQueue}
use disastr_os_message_queue.MessageQueue.Lookup.{lookup-has}
use disastr_os_message_queue.Kernel.Invariant.{IsKernel, IsQueue}
use disastr_os_message_queue.MessageQueue.{enqueue, dequeue, resource_list_by_id, is_message_queue}

-- A queue that is not full has room for a message.
has_room :
    (mq : MessageQueue) (is : IsQueue mq)
    → leb_ℤ mq.max_messages mq.current_messages ≡ false
    → length mq.messages < is.capacity
has_room mq is h = ground (arith, is.has_capacity, is.counted)

pub enqueue-IsQueue :
    (mq : MessageQueue) (msg : Ptr)
    → IsQueue mq
    → mq.waiting_receivers ≡ []
    → leb_ℤ mq.max_messages mq.current_messages ≡ false
    → IsQueue (enqueue mq msg)
unfolding ◌+ℤ◌
enqueue-IsQueue mq msg is idle room = record {
  capacity = is.capacity;
  has_capacity = is.has_capacity;
  capacity_pos = is.capacity_pos;
  capacity_le = is.capacity_le;
  counted = ground (arith, is.counted, length-append mq.messages (msg ∷ []));
  bounded = ground (arith, has_room mq is room, length-append mq.messages (msg ∷ []));
  nobody_waits = inl idle;
}

pub dequeue-IsQueue :
    (mq : MessageQueue) (msg : Ptr) (rest : List Ptr)
    → IsQueue mq
    → mq.messages ≡ msg ∷ rest
    → IsQueue (dequeue mq rest)
unfolding ◌+ℤ◌
dequeue-IsQueue mq msg rest is e = record {
  capacity = is.capacity;
  has_capacity = is.has_capacity;
  capacity_pos = is.capacity_pos;
  capacity_le = is.capacity_le;
  counted = ground (arith, is.counted, ap length e);
  bounded = ground (arith, is.bounded, ap length e);
  nobody_waits = ground (arith, is.nobody_waits);
}

-- While a receiver waits the queue is empty, so a new message goes straight through.
pub empty_of_waiting :
    (mq : MessageQueue) (receiver : Ptr) (rest : List Ptr)
    → IsQueue mq
    → mq.waiting_receivers ≡ receiver ∷ rest
    → mq.messages ≡ []
empty_of_waiting mq receiver rest is e = ground (arith, is.nobody_waits)

-- Its message in and out leaves the queue with one receiver less.
pub straight_through :
    (mq : MessageQueue) (msg : Ptr) (rest : List Ptr)
    → mq.messages ≡ []
    → mq.current_messages ≡ pos (length mq.messages)
    → dequeue (record (enqueue mq msg) { waiting_receivers = rest }) []
      ≡ record mq { waiting_receivers = rest }
unfolding ◌+ℤ◌
straight_through mq msg rest empty counted = ground (arith, ap length empty)

-- A queue that is empty has room.
pub room_of_empty :
    (mq : MessageQueue)
    → IsQueue mq
    → mq.messages ≡ []
    → leb_ℤ mq.max_messages mq.current_messages ≡ false
room_of_empty mq is e = ground (arith, is.counted, is.has_capacity, is.capacity_pos, ap length e)

pub room_of_waiting :
    (mq : MessageQueue) (receiver : Ptr) (rest : List Ptr)
    → IsQueue mq
    → mq.waiting_receivers ≡ receiver ∷ rest
    → leb_ℤ mq.max_messages mq.current_messages ≡ false
room_of_waiting mq receiver rest is e = room_of_empty mq is (empty_of_waiting mq receiver rest is e)

pub deliver-IsQueue :
    (mq : MessageQueue) (msg : Ptr) (rest : List Ptr)
    → IsQueue mq
    → mq.messages ≡ []
    → IsQueue (dequeue (record (enqueue mq msg) { waiting_receivers = rest }) [])
unfolding ◌+ℤ◌
deliver-IsQueue mq msg rest is e = record {
  capacity = is.capacity;
  has_capacity = is.has_capacity;
  capacity_pos = is.capacity_pos;
  capacity_le = is.capacity_le;
  counted = ground (arith, is.counted, ap length e);
  bounded = ground arith;
  nobody_waits = inr refl;
}

-- A process may wait to receive on an empty queue, and to send on any.
pub wait_receive-IsQueue :
    (mq : MessageQueue) (receivers : List Ptr)
    → IsQueue mq
    → mq.messages ≡ []
    → IsQueue (record mq { waiting_receivers = receivers })
wait_receive-IsQueue mq receivers is e = record {
  capacity = is.capacity;
  has_capacity = is.has_capacity;
  capacity_pos = is.capacity_pos;
  capacity_le = is.capacity_le;
  counted = is.counted;
  bounded = is.bounded;
  nobody_waits = inr e;
}

pub wait_send-IsQueue :
    (mq : MessageQueue) (senders : List Ptr)
    → IsQueue mq
    → IsQueue (record mq { waiting_senders = senders })
wait_send-IsQueue mq senders is = record {
  capacity = is.capacity;
  has_capacity = is.has_capacity;
  capacity_pos = is.capacity_pos;
  capacity_le = is.capacity_le;
  counted = is.counted;
  bounded = is.bounded;
  nobody_waits = is.nobody_waits;
}

-- Nor does a process that stops waiting to receive change more than the list it waited in.
pub wait_receivers-IsQueue :
    (mq : MessageQueue) (caller : Ptr)
    → IsQueue mq
    → IsQueue (record mq { waiting_receivers = detach caller mq.waiting_receivers })
unfolding detach
wait_receivers-IsQueue mq caller is = record {
  capacity = is.capacity;
  has_capacity = is.has_capacity;
  capacity_pos = is.capacity_pos;
  capacity_le = is.capacity_le;
  counted = is.counted;
  bounded = is.bounded;
  nobody_waits = ground (arith, is.nobody_waits);
}

-- What the handlers find and take for a message queue is one.
pub found_queue :
    (k : Kernel) (id : ℤ)
    → IsKernel k
    → (resource_list_by_id k.resources k.resources_list id == null
        || not (is_message_queue k (resource_list_by_id k.resources k.resources_list id)))
      ≡ false
    → (mq : MessageQueue) × (k.queues (resource_list_by_id k.resources k.resources_list id)
        ≡ some mq)
found_queue k id v h =
    v.typed _ (lookup-has k.resources k.resources_list id (ground arith)) (ground arith)

-- While there is a message nobody waits to receive.
pub idle_of_messages :
    (mq : MessageQueue) (msg : Ptr) (rest : List Ptr)
    → IsQueue mq
    → mq.messages ≡ msg ∷ rest
    → mq.waiting_receivers ≡ []
idle_of_messages mq msg rest is e = ground (arith, is.nobody_waits)

-- Behind a message that was taken there is room.
pub room_after :
    (mq : MessageQueue) (msg : Ptr) (rest : List Ptr)
    → IsQueue mq
    → mq.messages ≡ msg ∷ rest
    → leb_ℤ (dequeue mq rest).max_messages (dequeue mq rest).current_messages ≡ false
unfolding ◌+ℤ◌
room_after mq msg rest is e = ground (arith, is.has_capacity, is.counted, is.bounded, ap length e)
