-- ===== src/Print/Queues.antt =====
-- MessageQueue_printAll and MessageQueue_print_messages in src/disastrOS_message_queue.c.
pub mod Listed
use disastr_os_message_queue.Base.{
  ℕ, suc, List, [], ◌∷◌, ◌++◌, if◌then◌else◌, ◌==◌, ◌&&◌, ℤ, pos, negsuc, ◌==ℤ◌, leb_ℤ, none, some,
}
use disastr_os_message_queue.PoolAllocator.{Ptr}
use disastr_os_message_queue.Kernel.{
  Kernel, Run, ok, fault, ◌>>=◌, MqStatus, mq_invalid, mq_open, mq_closing, mq_closed, MessageQueue,
}
use disastr_os_message_queue.MessageQueue.{is_message_queue}
use disastr_os_message_queue.Print.{Output, text, number, pid_at}

-- The value of the enumeration.
abbrev status_number : MqStatus → ℤ
status_number mq_invalid = negsuc 0
status_number mq_open = pos 0
status_number mq_closing = pos 1
status_number mq_closed = pos 2

-- The cast to a queue: behind a plain resource there is none.
abbrev pub queue_at : Kernel → Ptr → Run MessageQueue
queue_at k r = elim (k.queues r) [ none ↦ fault | some mq ↦ ok mq ]

abbrev pub queue_line : MessageQueue → Output
queue_line mq =
    text "Queue ID: "
    ∷ number mq.queue_id
    ∷ text " | status: "
    ∷ number (status_number mq.status)
    ∷ text " | messages: "
    ∷ number mq.current_messages
    ∷ text "/"
    ∷ number mq.max_messages
    ∷ text "\n"
    ∷ []

-- The loop of `MessageQueue_printAll`, and the test of its counter.
unfoldable pub print_all_from : Kernel → List Ptr → (found : ℕ) → Run Output
print_all_from k [] found = ok (if found == 0 then text "No message queues present.\n" ∷ [] else [])
print_all_from k (r ∷ rs) found =
    let rest = print_all_from k rs (if is_message_queue k r then suc found else found) in
    let line = (do mq ← queue_at k r; lines ← rest; ok (queue_line mq ++ lines)) in
    if is_message_queue k r then line else rest

-- `MessageQueue_printAll`
unfoldable pub message_queue_print_all : Kernel → Run Output
unfolding print_all_from
message_queue_print_all k = do
  lines ← print_all_from k k.resources_list 0
  ok (text "=== Message Queues ===\n" ∷ lines ++ text "======================\n" ∷ [])

-- The inner loop of `MessageQueue_print_messages`
unfoldable pub message_items : Kernel → List Ptr → (index : ℕ) → Run Output
message_items k [] index = ok []
message_items k (msg ∷ msgs) index = do
  pid ← pid_at k (k.messages msg).sender
  rest ← message_items k msgs (suc index)
  ok (
      text "  ["
      ∷ number (pos index)
      ∷ text "] sender="
      ∷ number pid
      ∷ text " size="
      ∷ number (k.messages msg).size
      ∷ text "\n"
      ∷ rest)

-- What the outer loop prints for a queue. An empty queue ends the function.
unfoldable pub queue_messages : Kernel → MessageQueue → (rest : Run Output) → Run Output
unfolding message_items
queue_messages k mq rest =
    let title =
      text "Queue "
      ∷ number mq.queue_id
      ∷ text " messages ("
      ∷ number mq.current_messages
      ∷ text "/"
      ∷ number mq.max_messages
      ∷ text "):\n"
      ∷ [] in
    elim mq.messages [
      | [] ↦ ok (title ++ text "  [empty]\n" ∷ [])
      | msg ∷ msgs ↦ do
        items ← message_items k (msg ∷ msgs) 0
        lines ← rest
        ok (title ++ items ++ lines)
    ]

-- The outer loop
unfoldable pub print_messages_from : Kernel → (queue_id : ℤ) → List Ptr → Run Output
unfolding queue_messages
print_messages_from k queue_id [] = ok []
print_messages_from k queue_id (r ∷ rs) =
    let rest = print_messages_from k queue_id rs in
    let found = (do mq ← queue_at k r; queue_messages k mq rest) in
    if is_message_queue k r && ((k.resources r).id ==ℤ queue_id) then found else rest

-- `MessageQueue_print_messages`
unfoldable pub message_queue_print_messages : Kernel → (queue_id : ℤ) → Run Output
unfolding print_messages_from
message_queue_print_messages k queue_id =
    if leb_ℤ queue_id (pos 0)
    then ok (text "MessageQueue_print_messages: NULL queue\n" ∷ [])
    else print_messages_from k queue_id k.resources_list
