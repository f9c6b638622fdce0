-- ===== src/MessageQueue/Fifo.antt =====
-- A message queue as what its users see: a sequence of payloads, first in, first out.
use disastr_os_message_queue.Base.{
  head_ne, has-rest, ℕ, ◌≡◌, refl, ap, ◌∙◌, true, false, none, some, Option, List, [], ◌∷◌, ◌++◌,
  pos, pos_part, ◌+ℤ◌, leb_ℤ, ltb_ℤ, ◌==◌, ==_refl, has, length,
}
use disastr_os_message_queue.PoolAllocator.{
  Ptr, null, PoolAllocator, PoolAllocatorResult, get_block, release_block,
}
use disastr_os_message_queue.Kernel.{Kernel, Message, MessageQueue, update, read_bytes, can_access}
use disastr_os_message_queue.Kernel.Returns.{Returns}
use disastr_os_message_queue.Kernel.Memory.{read_bytes-write_bytes}
use disastr_os_message_queue.Kernel.Update.{update-at}
use disastr_os_message_queue.MessageQueue.Request.{Finds, buffer_of, size_of}
use disastr_os_message_queue.MessageQueue.Send.{internal_mq_send}
use disastr_os_message_queue.MessageQueue.Send.Spec.{IsSize, internal_mq_send_enqueues}
use disastr_os_message_queue.MessageQueue.Receive.{internal_mq_receive}
use disastr_os_message_queue.MessageQueue.Receive.Spec.{received, internal_mq_receive_takes}

abbrev pub payloads : (Ptr → Message) → List Ptr → List (List ℕ)
payloads messages [] = []
payloads messages (m ∷ ms) = (messages m).payload ∷ payloads messages ms

-- The contents of the queue at `r`, the oldest payload first.
abbrev pub contents : Kernel → (r : Ptr) → Option (List (List ℕ))
contents k r = elim (k.queues r) [ none ↦ none | some mq ↦ some (payloads k.messages mq.messages) ]

-- A message in another block changes nothing.
payloads-update :
    (messages : Ptr → Message) (p : Ptr) (m : Message) (ms : List Ptr)
    → has p ms ≡ false
    → payloads (update messages p m) ms ≡ payloads messages ms
payloads-update messages p m [] out = refl
payloads-update messages p m (q ∷ ms) out =
    let other : (q == p) ≡ false = head_ne p q ms out in
    rw other (
      ap (λ (xs : List (List ℕ)). (messages q).payload ∷ xs)
        (payloads-update messages p m ms (has-rest p q ms out)))

payloads-append :
    (messages : Ptr → Message) (ms : List Ptr) (p : Ptr)
    → payloads messages (ms ++ p ∷ []) ≡ payloads messages ms ++ (messages p).payload ∷ []
payloads-append messages [] p = refl
payloads-append messages (q ∷ ms) p =
    ap (λ (xs : List (List ℕ)). (messages q).payload ∷ xs) (payloads-append messages ms p)

contents-found :
    (k : Kernel) (r : Ptr) (mq : MessageQueue)
    → k.queues r ≡ some mq
    → contents k r ≡ some (payloads k.messages mq.messages)
contents-found k r mq found = rw (found, contents)

-- The kernel after a send into a queue with room.
abbrev enqueued : Kernel → Ptr → MessageQueue → Ptr → PoolAllocator → ℕ → Kernel
enqueued k r mq msg pool n = record k {
  message_pool = pool;
  messages =
      update k.messages msg (record {
        size = pos n;
        payload = read_bytes k.memory (buffer_of k) n;
        sender = k.running;
      });
  queues = update k.queues r (
      some (record mq {
        messages = mq.messages ++ msg ∷ [];
        current_messages = mq.current_messages +ℤ pos 1;
      }));
  pcbs = update k.pcbs k.running (record (k.pcbs k.running) { syscall_retvalue = pos 0 });
}

contents-enqueued :
    (k : Kernel) (r : Ptr) (mq : MessageQueue) (msg : Ptr) (pool : PoolAllocator) (n : ℕ)
    → has msg mq.messages ≡ false
    → contents (enqueued k r mq msg pool n) r
      ≡ some (payloads k.messages mq.messages ++ read_bytes k.memory (buffer_of k) n ∷ [])
contents-enqueued k r mq msg pool n fresh =
    let ms = (enqueued k r mq msg pool n).messages in
    let bytes = read_bytes k.memory (buffer_of k) n in
    let new : (ms msg).payload ≡ bytes = rw (==_refl msg) in
    contents-found (enqueued k r mq msg pool n) r _ (update-at k.queues r _)
    ∙ ap some (
        payloads-append ms mq.messages msg
        ∙ ap (λ (b : List ℕ). payloads ms mq.messages ++ b ∷ []) new
        ∙ ap (λ (xs : List (List ℕ)). xs ++ bytes ∷ [])
            (payloads-update k.messages msg _ mq.messages fresh))

-- On a queue that the id finds, that is not full and where nobody waits to receive, with a payload of 1
-- to 256 bytes, which the caller may read, and a free block that is not in the queue, a send puts the caller's bytes behind the
-- contents of the queue.
pub internal_mq_send-contents :
    (k : Kernel) (r : Ptr) (mq : MessageQueue) (n : ℕ) (msg : Ptr) (pool : PoolAllocator)
    → Finds k r mq
    → IsSize (size_of k) n
    → can_access k.mapped (buffer_of k) n ≡ true
    → leb_ℤ mq.max_messages mq.current_messages ≡ false
    → mq.waiting_receivers ≡ []
    → get_block k.message_pool ≡ some (msg, pool)
    → (msg == null) ≡ false
    → has msg mq.messages ≡ false
    → (contents k r ≡ some (payloads k.messages mq.messages))
      × Returns
          (λ k'.
            contents k' r
            ≡ some (payloads k.messages mq.messages ++ read_bytes k.memory (buffer_of k) n ∷ []))
          (internal_mq_send k)
internal_mq_send-contents k r mq n msg pool f s inside room idle got given fresh = (
  contents-found k r mq f.queue,
  (
    enqueued k r mq msg pool n,
    internal_mq_send_enqueues k r mq n msg pool f s inside room idle got given,
    contents-enqueued k r mq msg pool n fresh,
  ),
)

-- On a queue that the id finds, with a message, nobody waiting to send, and a buffer of positive size that
-- the oldest message fits and the caller may write, a receive takes the first payload off the contents of the queue, and the
-- caller finds it in its buffer.
pub internal_mq_receive-contents :
    (k : Kernel) (r : Ptr) (mq : MessageQueue) (msg : Ptr) (rest : List Ptr) (pool : PoolAllocator)
    (result : PoolAllocatorResult)
    → Finds k r mq
    → leb_ℤ (size_of k) (pos 0) ≡ false
    → mq.messages ≡ msg ∷ rest
    → mq.waiting_senders ≡ []
    → ltb_ℤ (size_of k) (k.messages msg).size ≡ false
    → can_access k.mapped (buffer_of k) (pos_part (k.messages msg).size) ≡ true
    → (msg == null) ≡ false
    → release_block k.message_pool msg ≡ some (pool, result)
    → (bytes : List ℕ) × (others : List (List ℕ)) × (contents k r ≡ some (bytes ∷ others))
      × Returns
          (λ k'.
            (contents k' r ≡ some others)
            × (read_bytes k'.memory (buffer_of k) (length bytes) ≡ bytes))
          (internal_mq_receive k)
internal_mq_receive-contents k r mq msg rest pool result f s e idle fits inside given released = (
  (k.messages msg).payload,
  payloads k.messages rest,
  contents-found k r mq f.queue ∙ ap (λ (ms : List Ptr). some (payloads k.messages ms)) e,
  (
    received k r mq msg rest pool,
    internal_mq_receive_takes k r mq msg rest pool result f s e idle fits inside given released,
    (
      contents-found (received k r mq msg rest pool) r _ (update-at k.queues r _),
      read_bytes-write_bytes k.memory (buffer_of k) (k.messages msg).payload,
    ),
  ),
)
