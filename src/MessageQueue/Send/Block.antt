-- ===== src/MessageQueue/Send/Block.antt =====
-- What internal_mq_send does on a full queue.
use disastr_os_message_queue.Base.{
  ℕ, ◌≡◌, ap, ◌∙◌, true, false, some, List, [], ◌∷◌, ℤ, leb_ℤ, ◌==◌, ==_refl, has, detach,
  detach-append, Option,
}
use disastr_os_message_queue.Constants.{dsos_emqfull}
use disastr_os_message_queue.PoolAllocator.{Ptr, null}
use disastr_os_message_queue.Kernel.{
  Kernel, MessageQueue, Pcb, ok, set_queue, set_status, set_retvalue, push_back, waiting, running,
  is_waiting,
}
use disastr_os_message_queue.Kernel.Update.{update-update, update-at, update_same}
use disastr_os_message_queue.Kernel.Order.{is_listed, is_orderly}
use disastr_os_message_queue.Schedule.{internal_schedule}
use disastr_os_message_queue.Timer.{timer_list_current}
use disastr_os_message_queue.MessageQueue.Blocking.{
  blocked_in, dispatched, schedule_alone, schedule_next, running_again,
}
use disastr_os_message_queue.MessageQueue.{is_open}
use disastr_os_message_queue.MessageQueue.Request.{Finds, buffer_of, size_of}
use disastr_os_message_queue.MessageQueue.Send.{send_full, send_to, resume_send, internal_mq_send}
use disastr_os_message_queue.MessageQueue.Send.Spec.{IsSize, internal_mq_send-send_to}

send_to_full :
    (k : Kernel) (r : Ptr) (mq : MessageQueue) (buffer : Ptr) (size : ℤ) {k2 : Kernel}
    → k.queues r ≡ some mq
    → leb_ℤ mq.max_messages mq.current_messages ≡ true
    → is_open mq.status ≡ true
    → is_listed k k.running ≡ false
    → internal_schedule
        (blocked_in k r (record mq { waiting_senders = push_back mq.waiting_senders k.running }))
      ≡ ok k2
    → send_to k k.running r buffer size ≡ resume_send k2 k.running r buffer size
unfolding send_to send_full
send_to_full k r mq buffer size found full open_now unlisted ran =
    rw (found, send_to, full, open_now, unlisted, ran)

resume_send_waiting :
    (k : Kernel) (caller r : Ptr) (mq : MessageQueue) (buffer : Ptr) (size : ℤ)
    → k.queues r ≡ some mq
    → (k.running == caller) ≡ true
    → is_waiting (k.pcbs caller).status ≡ true
    → resume_send k caller r buffer size
      ≡ ok (
          set_retvalue
            (set_status
              (set_queue k r (record mq { waiting_senders = detach caller mq.waiting_senders }))
              caller
              running)
            caller
            dsos_emqfull)
unfolding resume_send
resume_send_waiting k caller r mq buffer size found same waits =
    rw (found, resume_send, same, waits)

resume_send_alone :
    (k : Kernel) (r : Ptr) (mq : MessageQueue) (buffer : Ptr) (size : ℤ)
    → k.queues r ≡ some mq
    → has k.running mq.waiting_senders ≡ false
    → (k.pcbs k.running).status ≡ running
    → resume_send
        (blocked_in k r (record mq { waiting_senders = push_back mq.waiting_senders k.running }))
        k.running
        r
        buffer
        size
      ≡ ok (set_retvalue k k.running dsos_emqfull)
resume_send_alone k r mq buffer size found out runs =
    let queued = record mq { waiting_senders = push_back mq.waiting_senders k.running } in
    resume_send_waiting (blocked_in k r queued) k.running r queued buffer size
      (update-at k.queues r (some queued)) (==_refl k.running) (rw (==_refl k.running))
    ∙ ap
        (λ (xs : List Ptr). ok (
          set_retvalue
            (set_status (set_queue (blocked_in k r queued) r (record mq { waiting_senders = xs }))
              k.running running)
            k.running dsos_emqfull))
        (detach-append k.running mq.waiting_senders out)
    ∙ ap
        (λ (qs : Ptr → Option MessageQueue). ok (
          set_retvalue
            (set_status (record (set_status k k.running waiting) { queues = qs }) k.running running)
            k.running dsos_emqfull))
        (update-update k.queues r _ _ ∙ update_same k.queues r (some mq) found)
    ∙ ap (λ (ps : Ptr → Pcb). ok (set_retvalue (record k { pcbs = ps }) k.running dsos_emqfull))
        (running_again k.pcbs k.running runs)

resume_send_switched :
    (k : Kernel) (caller r : Ptr) (mq : MessageQueue) (buffer : Ptr) (size : ℤ)
    → k.queues r ≡ some mq
    → (k.running == caller) ≡ false
    → resume_send k caller r buffer size ≡ ok k
unfolding resume_send
resume_send_switched k caller r mq buffer size found other = rw (found, resume_send, other)

-- On a queue that the id finds, that is full and open, with a payload of 1 to 256 bytes, while no
-- timer is due and no process is ready, and the lists are in order, a send of a running process
-- that no list holds returns `DSOS_EMQFULL` to it, and nothing else changes.
pub internal_mq_send_alone :
    (k : Kernel) (r : Ptr) (mq : MessageQueue) (n : ℕ)
    → Finds k r mq
    → IsSize (size_of k) n
    → leb_ℤ mq.max_messages mq.current_messages ≡ true
    → is_open mq.status ≡ true
    → is_listed k k.running ≡ false
    → is_orderly
        (blocked_in k r (record mq { waiting_senders = push_back mq.waiting_senders k.running }))
      ≡ true
    → has k.running mq.waiting_senders ≡ false
    → (k.pcbs k.running).status ≡ running
    → timer_list_current k ≡ null
    → k.ready_list ≡ []
    → internal_mq_send k ≡ ok (set_retvalue k k.running dsos_emqfull)
internal_mq_send_alone k r mq n f s full open_now unlisted orderly out runs none_due alone =
    internal_mq_send-send_to n f s
    ∙ send_to_full k r mq (buffer_of k) (size_of k) f.queue full open_now unlisted
        (schedule_alone k r _ orderly none_due alone)
    ∙ resume_send_alone k r mq (buffer_of k) (size_of k) f.queue out runs

-- On a queue that the id finds, that is full and open, with a payload of 1 to 256 bytes, while no
-- timer is due, the lists are in order, no list holds the caller, and another process is the first
-- ready one, a send lets the caller wait behind the
-- other senders and that process runs. No message is stored.
pub internal_mq_send_blocks :
    (k : Kernel) (r : Ptr) (mq : MessageQueue) (n : ℕ) (next : Ptr) (rest : List Ptr)
    → Finds k r mq
    → IsSize (size_of k) n
    → leb_ℤ mq.max_messages mq.current_messages ≡ true
    → is_open mq.status ≡ true
    → is_listed k k.running ≡ false
    → is_orderly
        (blocked_in k r (record mq { waiting_senders = push_back mq.waiting_senders k.running }))
      ≡ true
    → timer_list_current k ≡ null
    → k.ready_list ≡ next ∷ rest
    → (next == k.running) ≡ false
    → internal_mq_send k
      ≡ ok (
          dispatched
            (blocked_in k r
              (record mq { waiting_senders = push_back mq.waiting_senders k.running }))
            next
            rest)
internal_mq_send_blocks k r mq n next rest f s full open_now unlisted orderly none_due ready other =
    internal_mq_send-send_to n f s
    ∙ send_to_full k r mq (buffer_of k) (size_of k) f.queue full open_now unlisted
        (schedule_next k r _ next rest orderly none_due ready)
    ∙ resume_send_switched (dispatched (blocked_in k r queued) next rest) k.running r queued
        (buffer_of k) (size_of k) (update-at k.queues r (some queued)) other
  where
    queued : MessageQueue
    queued = record mq { waiting_senders = push_back mq.waiting_senders k.running }
