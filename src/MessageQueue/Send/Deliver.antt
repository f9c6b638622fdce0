-- ===== src/MessageQueue/Send/Deliver.antt =====
-- internal_mq_send while a process waits to receive.
use disastr_os_message_queue.Base.{
  ℕ, ◌≡◌, ap, ◌∙◌, true, false, some, List, [], ◌∷◌, arith, ℤ, pos, pos_part, ltb_ℤ, wrap32, ◌==◌,
  ==_refl, length,
}
use disastr_os_message_queue.PoolAllocator.{Ptr, null, PoolAllocator, success, release_block}
use disastr_os_message_queue.PoolAllocator.FreeList.{IsPool, block}
use disastr_os_message_queue.PoolAllocator.Release.{release_block-get_block}
use disastr_os_message_queue.Kernel.{
  Kernel, Message, MessageQueue, ok, set_status, set_retvalue, push_back, update, read_bytes,
  can_access, write_bytes, ready, to_ptr,
}
use disastr_os_message_queue.Kernel.Invariant.{IsQueue}
use disastr_os_message_queue.Message.{message_free, message_alloc}
use disastr_os_message_queue.Message.Alloc.{filled, allocated}
use disastr_os_message_queue.MessageQueue.{enqueue, dequeue}
use disastr_os_message_queue.MessageQueue.Invariant.{
  empty_of_waiting, room_of_waiting, straight_through,
}
use disastr_os_message_queue.MessageQueue.Request.{Finds, buffer_of, size_of}
use disastr_os_message_queue.MessageQueue.Send.{wake_receiver, send_message, internal_mq_send}
use disastr_os_message_queue.MessageQueue.Send.Spec.{
  IsSize, internal_mq_send-send_to, message_alloc-some, send_to_room, filled-messages,
  can_access-size,
}

send_message_waiting :
    (k : Kernel) (caller r : Ptr) (mq : MessageQueue) (buffer : Ptr) (size : ℤ) (msg : Ptr)
    (pool : PoolAllocator) (receiver : Ptr) (others : List Ptr)
    → message_alloc k size ≡ ok (msg, allocated k msg pool size)
    → (msg == null) ≡ false
    → can_access k.mapped buffer (pos_part size) ≡ true
    → mq.waiting_receivers ≡ receiver ∷ others
    → send_message k caller r mq buffer size
      ≡ wake_receiver
          (filled k msg pool size buffer)
          caller
          r
          (record (enqueue mq msg) { waiting_receivers = others })
          receiver
unfolding send_message
send_message_waiting k caller r mq buffer size msg pool receiver others e given inside waits =
    rw (e, given, inside) (simp waits)

-- The receiver's buffer and its size, as the handler reads them.
abbrev pub receiver_buffer : Kernel → Ptr → Ptr
receiver_buffer k p = to_ptr ((k.pcbs p).syscall_args 1)

abbrev pub receiver_buffer_size : Kernel → Ptr → ℤ
receiver_buffer_size k p = wrap32 ((k.pcbs p).syscall_args 2)

-- The kernel when the receiver `p` has got the message that the running process sent.
abbrev pub delivered : Kernel → Ptr → MessageQueue → Ptr → List Ptr → Ptr → ℕ → Kernel
delivered k r mq p others msg n =
    record (set_retvalue (set_status (set_retvalue k p (pos n)) p ready) k.running (pos 0)) {
      memory = write_bytes k.memory (receiver_buffer k p) (read_bytes k.memory (buffer_of k) n);
      messages = update k.messages msg (record {
        size = pos n;
        payload = read_bytes k.memory (buffer_of k) n;
        sender = k.running;
      });
      queues = update k.queues r (some (record mq { waiting_receivers = others }));
      ready_list = push_back k.ready_list p;
    }

-- The filled kernel with its message table in one step.
abbrev stored : Kernel → Ptr → PoolAllocator → ℕ → Kernel
stored k msg b n = record k {
  message_pool = b;
  messages =
      update k.messages msg (record {
        size = pos n;
        payload = read_bytes k.memory (buffer_of k) n;
        sender = k.running;
      });
}

wake_receiver-stored :
    (k : Kernel) (r : Ptr) (mq : MessageQueue) (n : ℕ) (msg : Ptr) (b : PoolAllocator) (p : Ptr)
    (others : List Ptr) (pool : PoolAllocator)
    → (msg == null) ≡ false
    → mq.messages ≡ []
    → release_block b msg ≡ some (pool, success)
    → ltb_ℤ (receiver_buffer_size k p) (pos n) ≡ false
    → can_access k.mapped (receiver_buffer k p) n ≡ true
    → wake_receiver
        (stored k msg b n)
        k.running
        r
        (record (enqueue mq msg) { waiting_receivers = others })
        p
      ≡ ok (record (delivered k r mq p others msg n) {
        message_pool = pool;
        queues =
            update k.queues r
              (some (dequeue (record (enqueue mq msg) { waiting_receivers = others }) []));
      })
unfolding wake_receiver message_free
wake_receiver-stored k r mq n msg b p others pool given empty released fits inside =
    simp (empty, ==_refl msg, fits, inside, given, released)

wake_receiver_delivers :
    (k : Kernel) (r : Ptr) (mq : MessageQueue) (n : ℕ) (msg : Ptr) (b : PoolAllocator) (p : Ptr)
    (others : List Ptr)
    → (msg == null) ≡ false
    → mq.messages ≡ []
    → mq.current_messages ≡ pos (length mq.messages)
    → release_block b msg ≡ some (k.message_pool, success)
    → ltb_ℤ (receiver_buffer_size k p) (pos n) ≡ false
    → can_access k.mapped (receiver_buffer k p) n ≡ true
    → wake_receiver
        (filled k msg b (pos n) (buffer_of k))
        k.running
        r
        (record (enqueue mq msg) { waiting_receivers = others })
        p
      ≡ ok (delivered k r mq p others msg n)
wake_receiver_delivers k r mq n msg b p others given empty counted released fits inside =
    ap
      (λ (ms : Ptr → Message).
        wake_receiver (record k { message_pool = b; messages = ms }) k.running r
          (record (enqueue mq msg) { waiting_receivers = others }) p)
      (filled-messages k msg b (pos n) (buffer_of k))
    ∙ wake_receiver-stored k r mq n msg b p others k.message_pool given empty released fits inside
    ∙ ap
        (λ (m : MessageQueue).
          ok (record (delivered k r mq p others msg n) { queues = update k.queues r (some m) }))
        (straight_through mq msg others empty counted)

-- On a well-formed queue that the id finds, where a process waits to receive whose buffer is
-- large enough, with a payload of 1 to 256 bytes, both buffers accessible, and a free block in an allocator in order, a
-- send copies the bytes of the caller's buffer into that of the first receiver, makes this ready
-- behind the other ready processes with the size as its return value, and returns 0 to the
-- caller. The queue stays empty and the message allocator is as it was.
pub internal_mq_send_delivers :
    (k : Kernel) (r : Ptr) (mq : MessageQueue) (n : ℕ) (i : ℕ) (is : List ℕ) (p : Ptr)
    (others : List Ptr)
    → Finds k r mq
    → IsSize (size_of k) n
    → can_access k.mapped (buffer_of k) n ≡ true
    → IsQueue mq
    → mq.waiting_receivers ≡ p ∷ others
    → IsPool k.message_pool (i ∷ is)
    → ltb_ℤ (receiver_buffer_size k p) (pos n) ≡ false
    → can_access k.mapped (receiver_buffer k p) n ≡ true
    → internal_mq_send k ≡ ok (delivered k r mq p others (block k.message_pool i) n)
internal_mq_send_delivers k r mq n i is p others f s inside q waits pool fits room =
    let (b, got, released) = release_block-get_block k.message_pool i is pool in
    let msg = block k.message_pool i in
    let given : (msg == null) ≡ false = ground (arith, pool.buffer_pos) in
    internal_mq_send-send_to n f s
    ∙ send_to_room k k.running r mq (buffer_of k) (size_of k) f.queue
        (room_of_waiting mq p others q waits)
    ∙ send_message_waiting k k.running r mq (buffer_of k) (size_of k) msg b p others
        (message_alloc-some k (size_of k) n msg b s got given) given
        (can_access-size k (size_of k) n (buffer_of k) s inside) waits
    ∙ ap
        (λ (z : ℤ).
          wake_receiver (filled k msg b z (buffer_of k)) k.running r
            (record (enqueue mq msg) { waiting_receivers = others }) p)
        s.0
    ∙ wake_receiver_delivers k r mq n msg b p others given (empty_of_waiting mq p others q waits)
        q.counted released fits room
