-- ===== src/Print/Queues/Listed.antt =====
-- MessageQueue_printAll shows each queue once.
use disastr_os_message_queue.Base.{
  ℕ, ◌≡◌, true, List, [], ◌∷◌, ◌++◌, if◌then◌else◌, ◌==◌, none, some, has,
}
use disastr_os_message_queue.PoolAllocator.{Ptr}
use disastr_os_message_queue.Kernel.{Kernel, MessageQueue}
use disastr_os_message_queue.MessageQueue.{is_message_queue}
use disastr_os_message_queue.Print.{Output, text}
use disastr_os_message_queue.Print.Queues.{queue_line}

-- The queues among these resources, in their order.
abbrev pub queues_of : Kernel → List Ptr → List MessageQueue
queues_of k [] = []
queues_of k (r ∷ rs) =
    if is_message_queue k r
    then elim (k.queues r) [ none ↦ queues_of k rs | some mq ↦ mq ∷ queues_of k rs ]
    else queues_of k rs

abbrev pub queue_lines : List MessageQueue → Output
queue_lines [] = []
queue_lines (mq ∷ mqs) = queue_line mq ++ queue_lines mqs

-- What stands there instead where no queue was found.
abbrev pub no_queues : ℕ → Output
no_queues found = if found == 0 then text "No message queues present.\n" ∷ [] else []

abbrev AreTyped : Kernel → List Ptr → Type 0
AreTyped k rs =
    (r : Ptr)
    → has r rs ≡ true
    → is_message_queue k r ≡ true
    → (mq : MessageQueue) × (k.queues r ≡ some mq)
