-- ===== src/MessageQueue/Receive/Block.antt =====
-- internal_mq_receive on an empty queue.
use disastr_os_message_queue.Base.{
  ◌≡◌, ap, ◌∙◌, true, false, some, Option, List, [], ◌∷◌, ℤ, pos, leb_ℤ, ◌==◌, ==_refl, has, detach,
  detach-append,
}
use disastr_os_message_queue.Constants.{dsos_emqempty}
use disastr_os_message_queue.PoolAllocator.{Ptr, null}
use disastr_os_message_queue.Kernel.{
  Kernel, MessageQueue, Pcb, ok, set_queue, set_status, set_retvalue, push_back, waiting, running,
  is_waiting,
}
use disastr_os_message_queue.Kernel.Update.{update-update, update-at, update_same}
use disastr_os_message_queue.Kernel.Order.{is_listed, is_orderly}
use disastr_os_message_queue.Schedule.{internal_schedule}
use disastr_os_message_queue.Timer.{timer_list_current}
use disastr_os_message_queue.MessageQueue.{is_open}
use disastr_os_message_queue.MessageQueue.Blocking.{
  blocked_in, dispatched, schedule_alone, schedule_next, running_again,
}
use disastr_os_message_queue.MessageQueue.Request.{Finds, buffer_of, size_of}
use disastr_os_message_queue.MessageQueue.Receive.Spec.{internal_mq_receive-receive_from}
use disastr_os_message_queue.MessageQueue.Receive.{
  resume_receive, receive_empty, receive_from, internal_mq_receive,
}

-- The queue with one more receiver.
abbrev pub queued : Kernel → MessageQueue → MessageQueue
queued k mq = record mq { waiting_receivers = push_back mq.waiting_receivers k.running }

receive_from_empty :
    (k : Kernel) (caller r : Ptr) (mq : MessageQueue) (buffer : Ptr) (size : ℤ)
    → k.queues r ≡ some mq
    → mq.messages ≡ []
    → receive_from k caller r buffer size ≡ receive_empty k caller r mq buffer size
unfolding receive_from
receive_from_empty k caller r mq buffer size found e = simp (found, receive_from, e)

receive_empty_open :
    (k : Kernel) (r : Ptr) (mq : MessageQueue) (buffer : Ptr) (size : ℤ) {k2 : Kernel}
    → is_open mq.status ≡ true
    → is_listed k k.running ≡ false
    → internal_schedule (blocked_in k r (queued k mq)) ≡ ok k2
    → receive_empty k k.running r mq buffer size ≡ resume_receive k2 k.running r buffer size
unfolding receive_empty
receive_empty_open k r mq buffer size open_now unlisted ran = rw (open_now, unlisted, ran)

resume_receive_waiting :
    (k : Kernel) (caller r : Ptr) (mq : MessageQueue) (buffer : Ptr) (size : ℤ)
    → k.queues r ≡ some mq
    → (k.running == caller) ≡ true
    → is_waiting (k.pcbs caller).status ≡ true
    → resume_receive k caller r buffer size
      ≡ ok (
          set_retvalue
            (set_status
              (set_queue k r (record mq { waiting_receivers = detach caller mq.waiting_receivers }))
              caller
              running)
            caller
            dsos_emqempty)
unfolding resume_receive
resume_receive_waiting k caller r mq buffer size found same waits =
    rw (found, resume_receive, same, waits)

resume_receive_alone :
    (k : Kernel) (r : Ptr) (mq : MessageQueue) (buffer : Ptr) (size : ℤ)
    → k.queues r ≡ some mq
    → has k.running mq.waiting_receivers ≡ false
    → (k.pcbs k.running).status ≡ running
    → resume_receive (blocked_in k r (queued k mq)) k.running r buffer size
      ≡ ok (set_retvalue k k.running dsos_emqempty)
resume_receive_alone k r mq buffer size found out runs =
    resume_receive_waiting (blocked_in k r (queued k mq)) k.running r (queued k mq) buffer size
      (update-at k.queues r (some (queued k mq))) (==_refl k.running) (rw (==_refl k.running))
    ∙ ap
        (λ (xs : List Ptr). ok (
          set_retvalue
            (set_status
              (set_queue (blocked_in k r (queued k mq)) r (record mq { waiting_receivers = xs }))
              k.running running)
            k.running dsos_emqempty))
        (detach-append k.running mq.waiting_receivers out)
    ∙ ap
        (λ (qs : Ptr → Option MessageQueue). ok (
          set_retvalue
            (set_status (record (set_status k k.running waiting) { queues = qs }) k.running running)
            k.running dsos_emqempty))
        (update-update k.queues r _ _ ∙ update_same k.queues r (some mq) found)
    ∙ ap (λ (ps : Ptr → Pcb). ok (set_retvalue (record k { pcbs = ps }) k.running dsos_emqempty))
        (running_again k.pcbs k.running runs)

resume_receive_switched :
    (k : Kernel) (caller r : Ptr) (mq : MessageQueue) (buffer : Ptr) (size : ℤ)
    → k.queues r ≡ some mq
    → (k.running == caller) ≡ false
    → resume_receive k caller r buffer size ≡ ok k
unfolding resume_receive
resume_receive_switched k caller r mq buffer size found other = rw (found, resume_receive, other)

-- On a queue that the id finds, that is empty and open, with a buffer of positive size, while no
-- timer is due and no process is ready, and the lists are in order, a receive of a running process
-- that no list holds returns `DSOS_EMQEMPTY` to it, and nothing else changes.
pub internal_mq_receive_alone :
    (k : Kernel) (r : Ptr) (mq : MessageQueue)
    → Finds k r mq
    → leb_ℤ (size_of k) (pos 0) ≡ false
    → mq.messages ≡ []
    → is_open mq.status ≡ true
    → is_listed k k.running ≡ false
    → is_orderly (blocked_in k r (queued k mq)) ≡ true
    → has k.running mq.waiting_receivers ≡ false
    → (k.pcbs k.running).status ≡ running
    → timer_list_current k ≡ null
    → k.ready_list ≡ []
    → internal_mq_receive k ≡ ok (set_retvalue k k.running dsos_emqempty)
internal_mq_receive_alone k r mq f s empty open_now unlisted orderly out runs none_due alone =
    internal_mq_receive-receive_from f s
    ∙ receive_from_empty k k.running r mq (buffer_of k) (size_of k) f.queue empty
    ∙ receive_empty_open k r mq (buffer_of k) (size_of k) open_now unlisted
        (schedule_alone k r (queued k mq) orderly none_due alone)
    ∙ resume_receive_alone k r mq (buffer_of k) (size_of k) f.queue out runs

-- On a queue that the id finds, that is empty and open, with a buffer of positive size, while no
-- timer is due, the lists are in order, no list holds the caller, and another process is the first
-- ready one, a receive lets the caller wait behind
-- the other receivers and that process runs. Memory is unchanged.
pub internal_mq_receive_blocks :
    (k : Kernel) (r : Ptr) (mq : MessageQueue) (next : Ptr) (rest : List Ptr)
    → Finds k r mq
    → leb_ℤ (size_of k) (pos 0) ≡ false
    → mq.messages ≡ []
    → is_open mq.status ≡ true
    → is_listed k k.running ≡ false
    → is_orderly (blocked_in k r (queued k mq)) ≡ true
    → timer_list_current k ≡ null
    → k.ready_list ≡ next ∷ rest
    → (next == k.running) ≡ false
    → internal_mq_receive k ≡ ok (dispatched (blocked_in k r (queued k mq)) next rest)
internal_mq_receive_blocks k r mq next rest f s empty open_now unlisted orderly none_due ready
      other =
    internal_mq_receive-receive_from f s
    ∙ receive_from_empty k k.running r mq (buffer_of k) (size_of k) f.queue empty
    ∙ receive_empty_open k r mq (buffer_of k) (size_of k) open_now unlisted
        (schedule_next k r (queued k mq) next rest orderly none_due ready)
    ∙ resume_receive_switched (dispatched (blocked_in k r (queued k mq)) next rest) k.running r
        (queued k mq) (buffer_of k) (size_of k) (update-at k.queues r (some (queued k mq))) other
