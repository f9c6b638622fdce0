-- ===== src/MessageQueue/Receive/Spec.antt =====
-- What internal_mq_receive does, branch by branch.
use disastr_os_message_queue.Base.{
  ℕ, ◌≡◌, ◌∙◌, true, false, some, List, [], ◌∷◌, ℤ, ◌+ℤ◌, pos, pos_part, negsuc, leb_ℤ, ltb_ℤ, ◌==◌,
}
use disastr_os_message_queue.Constants.{dsos_ebuffer}
use disastr_os_message_queue.PoolAllocator.{
  Ptr, null, PoolAllocator, PoolAllocatorResult, release_block,
}
use disastr_os_message_queue.Kernel.{
  Kernel, MessageQueue, ok, set_queue, set_retvalue, update, write_bytes, can_access,
}
use disastr_os_message_queue.Message.{message_free}
use disastr_os_message_queue.MessageQueue.{dequeue}
use disastr_os_message_queue.MessageQueue.Request.{Finds, buffer_of, size_of}
use disastr_os_message_queue.MessageQueue.Receive.Total.{wake_sender_none}
use disastr_os_message_queue.MessageQueue.Receive.{
  receive_message, receive_from, internal_mq_receive,
}

-- Past its checks a receive works on the queue that it found.
pub internal_mq_receive-receive_from :
    {k : Kernel} {r : Ptr} {mq : MessageQueue}
    → Finds k r mq
    → leb_ℤ (size_of k) (pos 0) ≡ false
    → internal_mq_receive k ≡ receive_from k k.running r (buffer_of k) (size_of k)
unfolding internal_mq_receive
internal_mq_receive-receive_from f s = rw (f.id_pos, s, f.found, f.exists, f.typed)

pub receive_from-some :
    (k : Kernel) (caller r : Ptr) (mq : MessageQueue) (buffer : Ptr) (size : ℤ) (msg : Ptr)
    (rest : List Ptr)
    → k.queues r ≡ some mq
    → mq.messages ≡ msg ∷ rest
    → receive_from k caller r buffer size ≡ receive_message k caller r mq buffer size
unfolding receive_from
receive_from-some k caller r mq buffer size msg rest found e = simp (found, receive_from, e)

pub message_free-some :
    (k : Kernel) (msg : Ptr) (pool : PoolAllocator) (result : PoolAllocatorResult)
    → (msg == null) ≡ false
    → release_block k.message_pool msg ≡ some (pool, result)
    → message_free k msg ≡ ok (record k { message_pool = pool })
unfolding message_free
message_free-some k msg pool result given released = rw (given, released)

-- The kernel when the running process has got the first message `msg` of the queue, with `rest` the
-- messages behind it and `pool` the allocator with the block given back.
abbrev pub received : Kernel → Ptr → MessageQueue → Ptr → List Ptr → PoolAllocator → Kernel
received k r mq msg rest pool = record (set_retvalue k k.running (k.messages msg).size) {
  memory = write_bytes k.memory (buffer_of k) (k.messages msg).payload;
  message_pool = pool;
  queues =
      update k.queues r
        (some (record mq { messages = rest; current_messages = mq.current_messages +ℤ negsuc 0 }));
}

receive_message_takes :
    (k : Kernel) (r : Ptr) (mq : MessageQueue) (msg : Ptr) (rest : List Ptr) (pool : PoolAllocator)
    (result : PoolAllocatorResult)
    → mq.messages ≡ msg ∷ rest
    → mq.waiting_senders ≡ []
    → ltb_ℤ (size_of k) (k.messages msg).size ≡ false
    → can_access k.mapped (buffer_of k) (pos_part (k.messages msg).size) ≡ true
    → (msg == null) ≡ false
    → release_block k.message_pool msg ≡ some (pool, result)
    → receive_message k k.running r mq (buffer_of k) (size_of k)
      ≡ ok (received k r mq msg rest pool)
unfolding receive_message
receive_message_takes k r mq msg rest pool result e idle fits inside given released =
    let freed = message_free-some (record k { memory = copied }) msg pool result given released in
    let taken = record k { memory = copied; message_pool = pool } in
    simp (e, receive_message, fits, inside, freed, wake_sender_none taken r (dequeue mq rest) idle)
  where
    copied : Ptr → ℕ
    copied = write_bytes k.memory (buffer_of k) (k.messages msg).payload

-- On a queue that the id finds, with a message, nobody waiting to send, and a buffer of positive
-- size that the oldest message fits and the caller may write, a receive copies the payload of this message into the
-- caller's buffer, takes it out of the queue, gives its block back, and returns its size to the
-- caller. Nothing else changes.
pub internal_mq_receive_takes :
    (k : Kernel) (r : Ptr) (mq : MessageQueue) (msg : Ptr) (rest : List Ptr) (pool : PoolAllocator)
    (result : PoolAllocatorResult)
    → Finds k r mq
    → leb_ℤ (size_of k) (pos 0) ≡ false
    → mq.messages ≡ msg ∷ rest
    → mq.waiting_senders ≡ []
    → ltb_ℤ (size_of k) (k.messages msg).size ≡ false
    → can_access k.mapped (buffer_of k) (pos_part (k.messages msg).size) ≡ true
    → (msg == null) ≡ false
    → release_block k.message_pool msg ≡ some (pool, result)
    → internal_mq_receive k ≡ ok (received k r mq msg rest pool)
internal_mq_receive_takes k r mq msg rest pool result f s e idle fits inside given released =
    internal_mq_receive-receive_from f s
    ∙ receive_from-some k k.running r mq (buffer_of k) (size_of k) msg rest f.queue e
    ∙ receive_message_takes k r mq msg rest pool result e idle fits inside given released

receive_message_drops :
    (k : Kernel) (r : Ptr) (mq : MessageQueue) (msg : Ptr) (rest : List Ptr) (pool : PoolAllocator)
    (result : PoolAllocatorResult)
    → mq.messages ≡ msg ∷ rest
    → ltb_ℤ (size_of k) (k.messages msg).size ≡ true
    → (msg == null) ≡ false
    → release_block k.message_pool msg ≡ some (pool, result)
    → receive_message k k.running r mq (buffer_of k) (size_of k)
      ≡ ok (
          set_retvalue
            (set_queue (record k { message_pool = pool }) r (dequeue mq rest))
            k.running
            dsos_ebuffer)
unfolding receive_message
receive_message_drops k r mq msg rest pool result e short given released = simp (
  e,
  receive_message,
  short,
  message_free-some (set_queue k r (dequeue mq rest)) msg pool result given released,
)

-- On a queue that the id finds, with a buffer of positive size that is too small for the oldest
-- message, a receive returns `DSOS_EBUFFER`, and the message is lost. The senders that wait are
-- left waiting, although the queue now has room.
pub internal_mq_receive_drops :
    (k : Kernel) (r : Ptr) (mq : MessageQueue) (msg : Ptr) (rest : List Ptr) (pool : PoolAllocator)
    (result : PoolAllocatorResult)
    → Finds k r mq
    → leb_ℤ (size_of k) (pos 0) ≡ false
    → mq.messages ≡ msg ∷ rest
    → ltb_ℤ (size_of k) (k.messages msg).size ≡ true
    → (msg == null) ≡ false
    → release_block k.message_pool msg ≡ some (pool, result)
    → internal_mq_receive k
      ≡ ok (record (set_retvalue k k.running dsos_ebuffer) {
        message_pool = pool;
        queues = update k.queues r (
            some
              (record mq { messages = rest; current_messages = mq.current_messages +ℤ negsuc 0 }));
      })
internal_mq_receive_drops k r mq msg rest pool result f s e short given released =
    internal_mq_receive-receive_from f s
    ∙ receive_from-some k k.running r mq (buffer_of k) (size_of k) msg rest f.queue e
    ∙ receive_message_drops k r mq msg rest pool result e short given released
