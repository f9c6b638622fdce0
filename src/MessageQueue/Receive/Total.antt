-- ===== src/MessageQueue/Receive/Total.antt =====
-- internal_mq_receive neither faults nor hangs, and keeps the invariant of the stores.
use disastr_os_message_queue.Base.{
  ◌≡◌, refl, ap, ◌∙◌, false, ◌&&◌, ◌||◌, not, Option, some, List, [], ◌∷◌, arith, ℤ, pos, wrap32,
  leb_ℤ, ltb_ℤ, ◌==◌, Bool-cases, List-cases, inl, inr, ==_refl,
}
use disastr_os_message_queue.Constants.{message_max_size}
use disastr_os_message_queue.PoolAllocator.{Ptr, null}
use disastr_os_message_queue.Kernel.{
  Kernel, MessageQueue, ok, set_queue, is_waiting, push_back, set_status, waiting, to_ptr,
  write_bytes, segfault, tangled,
}
use disastr_os_message_queue.Kernel.Returns.{Settles, Settles-bind, stops_if, Settles-with}
use disastr_os_message_queue.Kernel.Invariant.{IsKernel, IsQueue, with_queue, with_message_pool}
use disastr_os_message_queue.Schedule.Frame.{internal_schedule-SameStores}
use disastr_os_message_queue.Schedule.Order.{internal_schedule-Settles}
use disastr_os_message_queue.Schedule.{internal_schedule}
use disastr_os_message_queue.Message.Alloc.{
  message_alloc-Allocates, message_free_total, fill-IsKernel,
}
use disastr_os_message_queue.MessageQueue.{dequeue, is_open, resource_list_by_id, is_message_queue}
use disastr_os_message_queue.MessageQueue.Invariant.{
  found_queue, enqueue-IsQueue, dequeue-IsQueue, wait_send-IsQueue, wait_receive-IsQueue,
  wait_receivers-IsQueue, room_after, idle_of_messages,
}
use disastr_os_message_queue.MessageQueue.Receive.{
  complete_send, wake_sender, receive_message, resume_receive, receive_empty, receive_from,
  internal_mq_receive,
}

complete_send_total :
    (k : Kernel) (r : Ptr) (mq : MessageQueue) (sender : Ptr)
    → IsKernel k
    → IsQueue mq
    → mq.waiting_receivers ≡ []
    → leb_ℤ mq.max_messages mq.current_messages ≡ false
    → Settles IsKernel (complete_send k r mq sender)
unfolding complete_send
complete_send_total k r mq sender v is idle room =
    elim (Bool-cases (leb_ℤ size (pos 0) || ltb_ℤ (pos message_max_size) size)) [
      | inl outside ↦ rw outside (inl (_, refl, with_queue v r mq is))
      | inr inside ↦ rw inside (elim (message_alloc-Allocates k size v.message_pool) [
        | inl (pool, p, e) ↦ rw e (inl (_, refl, with_queue (with_message_pool v pool p) r mq is))
        | inr (msg, pool, n, p, got, positive, small, e) ↦
            let w = fill-IsKernel k msg buffer pool size n v p positive small in
            rw (e, got)
              (stops_if _ segfault _ refl
                (inl (_, refl, with_queue w r _ (enqueue-IsQueue mq msg is idle room))))
      ])
    ]
  where
    size : ℤ
    size = wrap32 ((k.pcbs sender).syscall_args 2)

    buffer : Ptr
    buffer = to_ptr ((k.pcbs sender).syscall_args 1)

pub wake_sender_none :
    (k : Kernel) (r : Ptr) (mq : MessageQueue)
    → mq.waiting_senders ≡ []
    → wake_sender k r mq ≡ ok (set_queue k r mq)
unfolding wake_sender
wake_sender_none k r mq e = ground arith

wake_sender_total :
    (k : Kernel) (r : Ptr) (mq : MessageQueue)
    → IsKernel k
    → IsQueue mq
    → mq.waiting_receivers ≡ []
    → leb_ℤ mq.max_messages mq.current_messages ≡ false
    → Settles IsKernel (wake_sender k r mq)
unfolding wake_sender
wake_sender_total k r mq v is idle room = elim (List-cases mq.waiting_senders) [
  | inl e ↦ inl (set_queue k r mq, wake_sender_none k r mq e, with_queue v r mq is)
  | inr (sender, rest, e) ↦
      let taken = record mq { waiting_senders = rest } in
      rw e (
        Settles-bind (complete_send k r taken sender) _
          (complete_send_total k r taken sender v (wait_send-IsQueue mq rest is) idle room)
          λ k1 v1. inl (_, refl, v1))
]

receive_message_total :
    (k : Kernel) (caller r : Ptr) (mq : MessageQueue) (user_buffer : Ptr) (buffer_size : ℤ)
    (msg : Ptr) (rest : List Ptr)
    → IsKernel k
    → IsQueue mq
    → mq.messages ≡ msg ∷ rest
    → Settles IsKernel (receive_message k caller r mq user_buffer buffer_size)
unfolding receive_message
receive_message_total k caller r mq user_buffer buffer_size msg rest v is e =
    let taken = dequeue-IsQueue mq msg rest is e in
    rw e (elim (Bool-cases (ltb_ℤ buffer_size (k.messages msg).size)) [
      | inl short ↦
          let k1 = set_queue k r (dequeue mq rest) in
          let (pool, p, freed) = message_free_total k1 msg v.message_pool in
          rw (short, freed) (inl (_, refl, with_message_pool (with_queue v r _ taken) pool p))
      | inr fits ↦
          let k1 = record k {
            memory = write_bytes k.memory user_buffer (k.messages msg).payload;
          } in
          let (pool, p, freed) = message_free_total k1 msg v.message_pool in
          rw (fits, freed)
            (stops_if _ segfault _ refl (
              Settles-bind (wake_sender (record k1 { message_pool = pool }) r (dequeue mq rest)) _
                (wake_sender_total (record k1 { message_pool = pool }) r (dequeue mq rest)
                  (with_message_pool v pool p) taken (idle_of_messages mq msg rest is e)
                  (room_after mq msg rest is e))
                λ k2 v2. inl (_, refl, v2)))
    ])

resume_receive_total :
    (k : Kernel) (caller r : Ptr) (user_buffer : Ptr) (buffer_size : ℤ) (mq : MessageQueue)
    → IsKernel k
    → k.queues r ≡ some mq
    → Settles IsKernel (resume_receive k caller r user_buffer buffer_size)
unfolding resume_receive
resume_receive_total k caller r user_buffer buffer_size mq v found =
    let is = v.queues r mq found in
    rw (found, resume_receive)
      (elim (Bool-cases (k.running == caller && is_waiting (k.pcbs caller).status)) [
        | inl alone ↦
            rw alone (inl (_, refl, with_queue v r _ (wait_receivers-IsQueue mq caller is)))
        | inr other ↦ rw other (elim (Bool-cases (k.running == caller)) [
          | inr switched ↦ rw switched (inl (k, refl, v))
          | inl resumed ↦ rw resumed (elim (List-cases mq.messages) [
            | inl empty ↦ rw empty (inl (k, refl, v))
            | inr (msg, rest, e) ↦
                simp e (receive_message_total k caller r mq user_buffer buffer_size msg rest v is e)
          ])
        ])
      ])

receive_empty_total :
    (k : Kernel) (caller r : Ptr) (mq : MessageQueue) (user_buffer : Ptr) (buffer_size : ℤ)
    → IsKernel k
    → IsQueue mq
    → mq.messages ≡ []
    → Settles IsKernel (receive_empty k caller r mq user_buffer buffer_size)
unfolding receive_empty
receive_empty_total k caller r mq user_buffer buffer_size v is empty =
    elim (Bool-cases (not (is_open mq.status))) [
      | inl shut ↦ rw shut (inl (_, refl, v))
      | inr open_now ↦
          let blocked = record mq { waiting_receivers = push_back mq.waiting_receivers caller } in
          let k1 = set_queue (set_status k caller waiting) r blocked in
          let v1 : IsKernel k1 = with_queue v r blocked (wait_receive-IsQueue mq _ is empty) in
          rw open_now (
            stops_if _ tangled _ refl (
              Settles-bind (internal_schedule k1) _
                (Settles-with (internal_schedule k1) (λ k2 ran. ran)
                  (internal_schedule-Settles k1 v1))
                λ k2 (v2, ran).
                  resume_receive_total k2 caller r user_buffer buffer_size blocked v2 (
                    ap (λ (q : Ptr → Option MessageQueue). q r)
                      (internal_schedule-SameStores k1 ran).queues
                    ∙ rw (==_refl r))))
    ]

receive_from_total :
    (k : Kernel) (caller r : Ptr) (mq : MessageQueue) (user_buffer : Ptr) (buffer_size : ℤ)
    → IsKernel k
    → k.queues r ≡ some mq
    → Settles IsKernel (receive_from k caller r user_buffer buffer_size)
unfolding receive_from
receive_from_total k caller r mq user_buffer buffer_size v found =
    let is = v.queues r mq found in
    elim (List-cases mq.messages) [
      | inl empty ↦
          simp (found, receive_from, empty)
            (receive_empty_total k caller r mq user_buffer buffer_size v is empty)
      | inr (msg, rest, e) ↦
          simp (found, receive_from, e)
            (receive_message_total k caller r mq user_buffer buffer_size msg rest v is e)
    ]

-- In a kernel whose stores are in order a receive neither faults nor hangs, whatever its arguments,
-- and leaves them so unless it is stopped.
pub internal_mq_receive_total : (k : Kernel) → IsKernel k → Settles IsKernel (internal_mq_receive k)
unfolding internal_mq_receive
internal_mq_receive_total k v = elim (Bool-cases (leb_ℤ queue_id (pos 0))) [
  | inl bad_id ↦ rw bad_id (inl (_, refl, v))
  | inr good_id ↦ rw good_id (elim (Bool-cases (leb_ℤ buffer_size (pos 0))) [
    | inl bad_size ↦ rw bad_size (inl (_, refl, v))
    | inr good_size ↦
        rw good_size (elim (Bool-cases (res == null || not (is_message_queue k res))) [
          | inl missing ↦ rw missing (inl (_, refl, v))
          | inr found ↦
              let (mq, e) = found_queue k queue_id v found in
              rw found (receive_from_total k k.running res mq _ buffer_size v e)
        ])
  ])
]
  where
    queue_id : ℤ
    queue_id = wrap32 ((k.pcbs k.running).syscall_args 0)

    buffer_size : ℤ
    buffer_size = wrap32 ((k.pcbs k.running).syscall_args 2)

    res : Ptr
    res = resource_list_by_id k.resources k.resources_list queue_id
