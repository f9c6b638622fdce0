-- ===== src/MessageQueue/RoundTrip.antt =====
-- A send and the receive that follows it.
use disastr_os_message_queue.Base.{
  ℕ, ◌≡◌, refl, sym, ap, ◌∙◌, true, false, some, List, [], ◌∷◌, ◌++◌, arith, ◌+ℤ◌, pos, ltb_ℤ, ◌==◌,
  ==_refl,
}
use disastr_os_message_queue.PoolAllocator.{
  Ptr, null, PoolAllocator, success, get_block, release_block,
}
use disastr_os_message_queue.PoolAllocator.FreeList.{IsPool, block}
use disastr_os_message_queue.PoolAllocator.Release.{release_block-get_block}
use disastr_os_message_queue.Kernel.{
  Kernel, MessageQueue, ok, set_retvalue, update, read_bytes, write_bytes, can_access,
}
use disastr_os_message_queue.Kernel.Invariant.{IsQueue}
use disastr_os_message_queue.Kernel.Memory.{read_bytes-write_bytes}
use disastr_os_message_queue.Message.Alloc.{length-read_bytes}
use disastr_os_message_queue.MessageQueue.Invariant.{room_of_empty}
use disastr_os_message_queue.MessageQueue.Request.{Finds, buffer_of, size_of}
use disastr_os_message_queue.MessageQueue.Send.{internal_mq_send}
use disastr_os_message_queue.MessageQueue.Send.Spec.{IsSize, internal_mq_send_enqueues}
use disastr_os_message_queue.MessageQueue.Receive.{internal_mq_receive}
use disastr_os_message_queue.MessageQueue.Receive.Spec.{internal_mq_receive_takes, received}

-- The kernel after a send put the message `msg` of `n` bytes into the empty queue `mq`.
abbrev pub sent : Kernel → Ptr → MessageQueue → Ptr → PoolAllocator → ℕ → Kernel
sent k r mq msg pool n = record (set_retvalue k k.running (pos 0)) {
  message_pool = pool;
  messages =
      update k.messages msg (record {
        size = pos n;
        payload = read_bytes k.memory (buffer_of k) n;
        sender = k.running;
      });
  queues =
      update k.queues r
        (some (record mq { messages = msg ∷ []; current_messages = mq.current_messages +ℤ pos 1 }));
}

-- The queue then.
abbrev pub holding : MessageQueue → Ptr → MessageQueue
holding mq msg = record mq { messages = msg ∷ []; current_messages = mq.current_messages +ℤ pos 1 }

send_to_empty :
    (k : Kernel) (r : Ptr) (mq : MessageQueue) (n : ℕ) (msg : Ptr) (pool : PoolAllocator)
    → Finds k r mq
    → IsSize (size_of k) n
    → can_access k.mapped (buffer_of k) n ≡ true
    → IsQueue mq
    → mq.messages ≡ []
    → mq.waiting_receivers ≡ []
    → get_block k.message_pool ≡ some (msg, pool)
    → (msg == null) ≡ false
    → internal_mq_send k ≡ ok (sent k r mq msg pool n)
send_to_empty k r mq n msg pool f s inside valid empty idle got given =
    internal_mq_send_enqueues k r mq n msg pool f s inside (room_of_empty mq valid empty) idle got
      given
    ∙ ap
        (λ (xs : List Ptr). ok (record (sent k r mq msg pool n) {
          queues = update k.queues r (
              some (record mq {
                messages = xs ++ msg ∷ [];
                current_messages = mq.current_messages +ℤ pos 1;
              }));
        }))
        empty

-- The first block of the free list comes back where it was.
back_again :
    (a b : PoolAllocator) (i : ℕ) (is : List ℕ)
    → IsPool a (i ∷ is)
    → get_block a ≡ some (block a i, b)
    → release_block b (block a i) ≡ some (a, success)
back_again a b i is p got =
    let (c, taken, released) = release_block-get_block a i is p in
    let same : c ≡ b = ground arith in rw (← same) released

-- Take a well-formed queue that the id finds, empty, where nobody waits, an allocator of messages
-- in order with a free block, and a payload of 1 to 256 bytes, which the caller may read. A send by the running process
-- succeeds, and a process `q` that then runs, finds the queue by its id and receives with an
-- accessible buffer that is large enough, gets the sender's bytes in its buffer and their number as its
-- return value. The block of the message is back in the allocator, which is as it was.
pub internal_mq_receive-internal_mq_send :
    (k : Kernel) (r : Ptr) (mq : MessageQueue) (n : ℕ) (i : ℕ) (is : List ℕ) (pool : PoolAllocator)
    (q : Ptr)
    → Finds k r mq
    → IsSize (size_of k) n
    → can_access k.mapped (buffer_of k) n ≡ true
    → IsQueue mq
    → mq.messages ≡ []
    → mq.waiting_receivers ≡ []
    → mq.waiting_senders ≡ []
    → IsPool k.message_pool (i ∷ is)
    → get_block k.message_pool ≡ some (block k.message_pool i, pool)
    → Finds
        (record (sent k r mq (block k.message_pool i) pool n) { running = q })
        r
        (holding mq (block k.message_pool i))
    → ltb_ℤ (size_of (record (sent k r mq (block k.message_pool i) pool n) { running = q })) (pos n)
      ≡ false
    → can_access k.mapped
        (buffer_of (record (sent k r mq (block k.message_pool i) pool n) { running = q }))
        n
      ≡ true
    → (k1 : Kernel) × (k2 : Kernel) × (internal_mq_send k ≡ ok k1)
      × (internal_mq_receive (record k1 { running = q }) ≡ ok k2)
      × (read_bytes k2.memory (buffer_of (record k1 { running = q })) n
          ≡ read_bytes k.memory (buffer_of k) n)
      × ((k2.pcbs q).syscall_retvalue ≡ pos n)
      × (k2.message_pool ≡ k.message_pool)
internal_mq_receive-internal_mq_send k r mq n i is pool q f s inside valid empty idle none_wait p
      got f1 fits writable =
    let msg = block k.message_pool i in
    let given : (msg == null) ≡ false = ground (arith, p.buffer_pos) in
    let k1 = record (sent k r mq msg pool n) { running = q } in
    let stored : (k1.messages msg).size ≡ pos n = rw (==_refl msg) in
    let k2 = received k1 r (holding mq msg) msg [] k.message_pool in
    (
      sent k r mq msg pool n,
      k2,
      send_to_empty k r mq n msg pool f s inside valid empty idle got given,
      internal_mq_receive_takes k1 r (holding mq msg) msg [] k.message_pool success f1
          (ground (arith, fits, s)) refl none_wait (rw stored fits) (rw stored writable) given
          (back_again k.message_pool pool i is p got),
      rw (==_refl msg) (
          ap
            (λ (m : ℕ).
              read_bytes (write_bytes k.memory (buffer_of k1) (read_bytes k.memory (buffer_of k) n))
                (buffer_of k1) m)
            (sym (length-read_bytes k.memory (buffer_of k) n))
          ∙ read_bytes-write_bytes k.memory (buffer_of k1) (read_bytes k.memory (buffer_of k) n)),
      rw (==_refl q) stored,
      refl,
    )
