-- ===== src/MessageQueue/Send/Spec.antt =====
-- What internal_mq_send does on a queue with room.
use disastr_os_message_queue.Base.{
  ℕ, ◌≤◌, ◌<◌, ◌≡◌, ap, ◌∙◌, true, false, ◌||◌, some, [], ◌∷◌, ◌++◌, arith, ℤ, ◌+ℤ◌, pos, pos_part,
  leb_ℤ, ltb_ℤ, ◌==◌, ==_refl,
}
use disastr_os_message_queue.Constants.{message_max_size}
use disastr_os_message_queue.PoolAllocator.{Ptr, null, PoolAllocator, get_block}
use disastr_os_message_queue.Kernel.{
  Kernel, Message, MessageQueue, ok, set_queue, set_retvalue, update, read_bytes, can_access,
}
use disastr_os_message_queue.Kernel.Update.{update-update}
use disastr_os_message_queue.Message.{message_alloc}
use disastr_os_message_queue.Message.Alloc.{filled, allocated}
use disastr_os_message_queue.MessageQueue.{enqueue}
use disastr_os_message_queue.MessageQueue.Request.{Finds, buffer_of, size_of}
use disastr_os_message_queue.MessageQueue.Send.{send_message, send_to, internal_mq_send}

-- A payload size that a message can have.
abbrev pub IsSize : ℤ → ℕ → Type 0
IsSize size n = (size ≡ pos n) × (0 < n) × (n ≤ message_max_size)

-- Past its checks a send works on the queue that it found.
pub internal_mq_send-send_to :
    {k : Kernel} {r : Ptr} {mq : MessageQueue} (n : ℕ)
    → Finds k r mq
    → IsSize (size_of k) n
    → internal_mq_send k ≡ send_to k k.running r (buffer_of k) (size_of k)
unfolding internal_mq_send
internal_mq_send-send_to {k} {r} n f s =
    let small : (leb_ℤ (size_of k) (pos 0) || ltb_ℤ (pos message_max_size) (size_of k)) ≡ false =
      ground arith in
    rw (f.id_pos, small, f.found, f.exists, f.typed)

pub message_alloc-some :
    (k : Kernel) (size : ℤ) (n : ℕ) (msg : Ptr) (pool : PoolAllocator)
    → IsSize size n
    → get_block k.message_pool ≡ some (msg, pool)
    → (msg == null) ≡ false
    → message_alloc k size ≡ ok (msg, allocated k msg pool size)
unfolding message_alloc
message_alloc-some k size n msg pool s got given =
    let small : (leb_ℤ size (pos 0) || ltb_ℤ (pos message_max_size) size) ≡ false = ground arith in
    rw (small, got, given)

pub send_to_room :
    (k : Kernel) (caller r : Ptr) (mq : MessageQueue) (buffer : Ptr) (size : ℤ)
    → k.queues r ≡ some mq
    → leb_ℤ mq.max_messages mq.current_messages ≡ false
    → send_to k caller r buffer size ≡ send_message k caller r mq buffer size
unfolding send_to
send_to_room k caller r mq buffer size found room = rw (found, send_to, room)

send_message_idle :
    (k : Kernel) (caller r : Ptr) (mq : MessageQueue) (buffer : Ptr) (size : ℤ) (msg : Ptr)
    (pool : PoolAllocator)
    → message_alloc k size ≡ ok (msg, allocated k msg pool size)
    → (msg == null) ≡ false
    → can_access k.mapped buffer (pos_part size) ≡ true
    → mq.waiting_receivers ≡ []
    → send_message k caller r mq buffer size
      ≡ ok (
          set_retvalue
            (set_queue (filled k msg pool size buffer) r (enqueue mq msg))
            caller
            (pos 0))
unfolding send_message
send_message_idle k caller r mq buffer size msg pool e given inside idle =
    rw (e, given, inside) (simp idle)

-- The bytes of a payload of this size.
pub can_access-size :
    (k : Kernel) (size : ℤ) (n : ℕ) (buffer : Ptr)
    → IsSize size n
    → can_access k.mapped buffer n ≡ true
    → can_access k.mapped buffer (pos_part size) ≡ true
can_access-size k size n buffer s inside =
    ap (λ (z : ℤ). can_access k.mapped buffer (pos_part z)) s.0 ∙ inside

-- The message that was filled, in one step.
pub filled-messages :
    (k : Kernel) (msg : Ptr) (pool : PoolAllocator) (size : ℤ) (buffer : Ptr)
    → (filled k msg pool size buffer).messages
      ≡ update k.messages msg (record {
        size = size;
        payload = read_bytes k.memory buffer (pos_part size);
        sender = k.running;
      })
filled-messages k msg pool size buffer = rw (==_refl msg) (update-update k.messages msg _ _)

-- On a queue that the id finds, that is not full and where nobody waits to receive, with a
-- payload of 1 to 256 bytes, which the caller may read, and a free block, a send puts a message with the bytes of the
-- caller's buffer, sent by the caller, behind the others in the queue, and returns 0 to the
-- caller. Nothing else changes but the allocator.
pub internal_mq_send_enqueues :
    (k : Kernel) (r : Ptr) (mq : MessageQueue) (n : ℕ) (msg : Ptr) (pool : PoolAllocator)
    → Finds k r mq
    → IsSize (size_of k) n
    → can_access k.mapped (buffer_of k) n ≡ true
    → leb_ℤ mq.max_messages mq.current_messages ≡ false
    → mq.waiting_receivers ≡ []
    → get_block k.message_pool ≡ some (msg, pool)
    → (msg == null) ≡ false
    → internal_mq_send k
      ≡ ok (record k {
        message_pool = pool;
        messages = update k.messages msg (record {
          size = pos n;
          payload = read_bytes k.memory (buffer_of k) n;
          sender = k.running;
        });
        queues = update k.queues r (
            some (record mq {
              messages = mq.messages ++ msg ∷ [];
              current_messages = mq.current_messages +ℤ pos 1;
            }));
        pcbs = update k.pcbs k.running (record (k.pcbs k.running) { syscall_retvalue = pos 0 });
      })
internal_mq_send_enqueues k r mq n msg pool f s inside room idle got given =
    internal_mq_send-send_to n f s
    ∙ send_to_room k k.running r mq (buffer_of k) (size_of k) f.queue room
    ∙ send_message_idle k k.running r mq (buffer_of k) (size_of k) msg pool
        (message_alloc-some k (size_of k) n msg pool s got given) given
        (can_access-size k (size_of k) n (buffer_of k) s inside) idle
    ∙ ap
        (λ (ms : Ptr → Message).
          ok
            (record (set_retvalue (set_queue (record k { message_pool = pool }) r (enqueue mq msg))
              k.running (pos 0)) { messages = ms }))
        (filled-messages k msg pool (size_of k) (buffer_of k)
          ∙ ap
              (λ (z : ℤ). update k.messages msg (record {
                size = z;
                payload = read_bytes k.memory (buffer_of k) (pos_part z);
                sender = k.running;
              }))
              s.0)
