-- ===== src/MessageQueue/Receive/Complete.antt =====
-- internal_mq_receive while a process waits to send: the receiver completes its send.
use disastr_os_message_queue.Base.{
  ℕ, ◌≡◌, ap, ◌∙◌, true, false, ◌||◌, some, List, ◌∷◌, arith, ℤ, pos, pos_part, leb_ℤ, ltb_ℤ, ◌==◌,
  wrap32,
}
use disastr_os_message_queue.Constants.{message_max_size}
use disastr_os_message_queue.PoolAllocator.{
  Ptr, null, PoolAllocator, PoolAllocatorResult, get_block, release_block,
}
use disastr_os_message_queue.Kernel.{
  Kernel, Message, MessageQueue, ok, set_queue, set_status, set_retvalue, push_back, update,
  read_bytes, write_bytes, can_access, ready, to_ptr,
}
use disastr_os_message_queue.Message.Alloc.{filled}
use disastr_os_message_queue.MessageQueue.{enqueue, dequeue}
use disastr_os_message_queue.MessageQueue.Request.{Finds, buffer_of, size_of}
use disastr_os_message_queue.MessageQueue.Send.Spec.{
  IsSize, message_alloc-some, filled-messages, can_access-size,
}
use disastr_os_message_queue.MessageQueue.Receive.Spec.{
  internal_mq_receive-receive_from, receive_from-some, message_free-some,
}
use disastr_os_message_queue.MessageQueue.Receive.{
  complete_send, wake_sender, receive_message, internal_mq_receive,
}

-- The buffer and the size that a waiting sender passed.
abbrev pub sender_buffer : Kernel → Ptr → Ptr
sender_buffer k p = to_ptr ((k.pcbs p).syscall_args 1)

abbrev pub sender_size : Kernel → Ptr → ℤ
sender_size k p = wrap32 ((k.pcbs p).syscall_args 2)

-- The kernel when the sender `p` has its `m` bytes in the queue `mq`, as the message `msg`.
abbrev pub completed :
    Kernel → Ptr → MessageQueue → Ptr → List Ptr → Ptr → PoolAllocator → ℕ → Kernel
completed k r mq p others msg pool m = record (set_status (set_retvalue k p (pos 0)) p ready) {
  message_pool = pool;
  messages = update k.messages msg (record {
    size = pos m;
    payload = read_bytes k.memory (sender_buffer k p) m;
    sender = k.running;
  });
  queues = update k.queues r (some (enqueue (record mq { waiting_senders = others }) msg));
  ready_list = push_back k.ready_list p;
}

complete_send_stores :
    (k : Kernel) (r : Ptr) (mq : MessageQueue) (p : Ptr) (msg : Ptr) (pool : PoolAllocator) (m : ℕ)
    → IsSize (sender_size k p) m
    → can_access k.mapped (sender_buffer k p) m ≡ true
    → get_block k.message_pool ≡ some (msg, pool)
    → (msg == null) ≡ false
    → complete_send k r mq p
      ≡ ok (
          set_retvalue
            (set_queue (filled k msg pool (sender_size k p) (sender_buffer k p)) r (enqueue mq msg))
            p
            (pos 0))
unfolding complete_send
complete_send_stores k r mq p msg pool m s inside got given =
    let small : (leb_ℤ (sender_size k p) (pos 0) || ltb_ℤ (pos message_max_size) (sender_size k p))
        ≡ false =
      ground arith in
    rw (
      small,
      message_alloc-some k (sender_size k p) m msg pool s got given,
      given,
      can_access-size k (sender_size k p) m (sender_buffer k p) s inside,
    )

wake_sender_completes :
    (k : Kernel) (r : Ptr) (mq : MessageQueue) (p : Ptr) (others : List Ptr) (msg : Ptr)
    (pool : PoolAllocator) (m : ℕ)
    → mq.waiting_senders ≡ p ∷ others
    → IsSize (sender_size k p) m
    → can_access k.mapped (sender_buffer k p) m ≡ true
    → get_block k.message_pool ≡ some (msg, pool)
    → (msg == null) ≡ false
    → wake_sender k r mq ≡ ok (completed k r mq p others msg pool m)
unfolding wake_sender
wake_sender_completes k r mq p others msg pool m e s inside got given =
    let mq' = record mq { waiting_senders = others } in
    simp (e, wake_sender, complete_send_stores k r mq' p msg pool m s inside got given)
      (ap
        (λ (ms : Ptr → Message).
          ok (record (completed k r mq p others msg pool m) { messages = ms }))
        (filled-messages k msg pool (sender_size k p) (sender_buffer k p)
          ∙ ap
              (λ (z : ℤ). update k.messages msg (record {
                size = z;
                payload = read_bytes k.memory (sender_buffer k p) (pos_part z);
                sender = k.running;
              }))
              s.0))

-- The running process has got the bytes of the message `old`, and its block is given back.
abbrev pub copied : Kernel → Ptr → PoolAllocator → Kernel
copied k old pool = record k {
  memory = write_bytes k.memory (buffer_of k) (k.messages old).payload;
  message_pool = pool;
}

receive_message_completes :
    (k : Kernel) (r : Ptr) (mq : MessageQueue) (old : Ptr) (rest : List Ptr) (pool1 : PoolAllocator)
    (result : PoolAllocatorResult) (p : Ptr) (others : List Ptr) (msg : Ptr) (pool2 : PoolAllocator)
    (m : ℕ)
    → mq.messages ≡ old ∷ rest
    → mq.waiting_senders ≡ p ∷ others
    → ltb_ℤ (size_of k) (k.messages old).size ≡ false
    → can_access k.mapped (buffer_of k) (pos_part (k.messages old).size) ≡ true
    → (old == null) ≡ false
    → release_block k.message_pool old ≡ some (pool1, result)
    → IsSize (sender_size k p) m
    → can_access k.mapped (sender_buffer k p) m ≡ true
    → get_block pool1 ≡ some (msg, pool2)
    → (msg == null) ≡ false
    → receive_message k k.running r mq (buffer_of k) (size_of k)
      ≡ ok (
          set_retvalue
            (completed (copied k old pool1) r (dequeue mq rest) p others msg pool2 m)
            k.running
            (k.messages old).size)
unfolding receive_message
receive_message_completes k r mq old rest pool1 result p others msg pool2 m e waits fits inside
      given released n readable got given2 =
    simp (
      e,
      receive_message,
      fits,
      inside,
      message_free-some (record k { memory = (copied k old pool1).memory }) old pool1 result given
          released,
      wake_sender_completes (copied k old pool1) r (dequeue mq rest) p others msg pool2 m waits n
          readable got given2,
    )

-- On a queue that the id finds, with a message, a process that waits to send 1 to 256 bytes, a
-- buffer of positive size that the oldest message fits, both buffers accessible, and a free block once that of this
-- message is back: a receive copies the payload of the oldest message into the caller's buffer
-- and returns its size. Then it puts the bytes of the first sender's buffer behind the other
-- messages, and makes this sender ready, behind the other ready processes, with return value 0.
-- As the sender of this message the running process is noted, which is the receiver.
pub internal_mq_receive_completes :
    (k : Kernel) (r : Ptr) (mq : MessageQueue) (old : Ptr) (rest : List Ptr) (pool1 : PoolAllocator)
    (result : PoolAllocatorResult) (p : Ptr) (others : List Ptr) (msg : Ptr) (pool2 : PoolAllocator)
    (m : ℕ)
    → Finds k r mq
    → leb_ℤ (size_of k) (pos 0) ≡ false
    → mq.messages ≡ old ∷ rest
    → mq.waiting_senders ≡ p ∷ others
    → ltb_ℤ (size_of k) (k.messages old).size ≡ false
    → can_access k.mapped (buffer_of k) (pos_part (k.messages old).size) ≡ true
    → (old == null) ≡ false
    → release_block k.message_pool old ≡ some (pool1, result)
    → IsSize (sender_size k p) m
    → can_access k.mapped (sender_buffer k p) m ≡ true
    → get_block pool1 ≡ some (msg, pool2)
    → (msg == null) ≡ false
    → internal_mq_receive k
      ≡ ok (
          set_retvalue
            (completed (copied k old pool1) r (dequeue mq rest) p others msg pool2 m)
            k.running
            (k.messages old).size)
internal_mq_receive_completes k r mq old rest pool1 result p others msg pool2 m f s e waits fits
      inside given released n readable got given2 =
    internal_mq_receive-receive_from f s
    ∙ receive_from-some k k.running r mq (buffer_of k) (size_of k) old rest f.queue e
    ∙ receive_message_completes k r mq old rest pool1 result p others msg pool2 m e waits fits
        inside given released n readable got given2
