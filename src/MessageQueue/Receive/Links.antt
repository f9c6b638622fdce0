-- ===== src/MessageQueue/Receive/Links.antt =====
-- internal_mq_receive leaves descriptors and resources alone.
use disastr_os_message_queue.Base.{
  refl, ◌∙◌, Bool-cases, List-cases, Option-cases, inl, inr, ◌==◌, [], ◌∷◌, List, ℤ, pos, leb_ℤ,
  ltb_ℤ, ◌||◌, ◌&&◌, not, wrap32,
}
use disastr_os_message_queue.Constants.{
  message_max_size, dsos_ebuffer, dsos_emqnotopen, dsos_emqempty, dsos_emqinvalid,
}
use disastr_os_message_queue.PoolAllocator.{Ptr, null}
use disastr_os_message_queue.Kernel.{
  Kernel, Run, MessageQueue, ok, running, waiting, set_status, set_queue, to_ptr, is_waiting,
  push_back, write_bytes, segfault, tangled,
}
use disastr_os_message_queue.Kernel.Links.{
  Links, links_of, links_of-update, Keeps, Keeps-bind, Keeps-then, Keeps-ok, Keeps-stops_if,
}
use disastr_os_message_queue.Schedule.{internal_schedule}
use disastr_os_message_queue.Schedule.Links.{internal_schedule-Keeps}
use disastr_os_message_queue.Message.{message_alloc, message_free}
use disastr_os_message_queue.MessageQueue.{dequeue, is_open, resource_list_by_id, is_message_queue}
use disastr_os_message_queue.MessageQueue.Receive.{
  complete_send, wake_sender, receive_message, resume_receive, receive_empty, receive_from,
  internal_mq_receive,
}
use disastr_os_message_queue.MessageQueue.Links.{
  retvalue-links_of, message_alloc-links_of, message_free-Keeps, ready-links_of,
}

complete_send-Keeps :
    (k : Kernel) (r : Ptr) (mq : MessageQueue) (sender : Ptr)
    → Keeps (links_of k) (complete_send k r mq sender)
unfolding complete_send
complete_send-Keeps k r mq sender =
    elim (Bool-cases (leb_ℤ size (pos 0) || ltb_ℤ (pos message_max_size) size)) [
      | inl outside ↦
          rw outside (Keeps-ok (retvalue-links_of (set_queue k r mq) sender dsos_ebuffer))
      | inr inside ↦ rw inside (
          Keeps-bind (message_alloc k size) _ λ (msg, k1) got.
            let same = message_alloc-links_of k size (msg, k1) got in
            elim (Bool-cases (msg == null)) [
              | inl none_left ↦
                  rw none_left (Keeps-ok (retvalue-links_of k1 sender dsos_ebuffer ∙ same))
              | inr given ↦ rw given (
                  Keeps-stops_if _ segfault _ refl
                    (Keeps-ok (retvalue-links_of k1 sender (pos 0) ∙ same)))
            ])
    ]
  where
    size : ℤ
    size = wrap32 ((k.pcbs sender).syscall_args 2)

wake_sender-Keeps :
    (k : Kernel) (r : Ptr) (mq : MessageQueue) → Keeps (links_of k) (wake_sender k r mq)
unfolding wake_sender
wake_sender-Keeps k r mq = elim (List-cases mq.waiting_senders) [
  | inl e ↦ rw e (Keeps-ok refl)
  | inr (sender, rest, e) ↦ rw e (
      Keeps-then (complete_send k r (record mq { waiting_senders = rest }) sender) _
        (complete_send-Keeps k r (record mq { waiting_senders = rest }) sender)
        (λ k1. Keeps-ok (ready-links_of k1 sender)))
]

receive_message-Keeps :
    (k : Kernel) (caller r : Ptr) (mq : MessageQueue) (user_buffer : Ptr) (buffer_size : ℤ)
    → Keeps (links_of k) (receive_message k caller r mq user_buffer buffer_size)
unfolding receive_message
receive_message-Keeps k caller r mq user_buffer buffer_size = elim (List-cases mq.messages) [
  | inl e ↦ rw e (λ k' f. cc)
  | inr (msg, rest, e) ↦ rw e (elim (Bool-cases (ltb_ℤ buffer_size (k.messages msg).size)) [
    | inl small ↦ rw small (
        Keeps-then (message_free (set_queue k r (dequeue mq rest)) msg) _
          (message_free-Keeps (set_queue k r (dequeue mq rest)) msg)
          (λ k1. Keeps-ok (retvalue-links_of k1 caller dsos_ebuffer)))
    | inr fits ↦
        let copied = record k {
          memory = write_bytes k.memory user_buffer (k.messages msg).payload;
        } in
        rw fits (
          Keeps-stops_if _ segfault _ refl (
            Keeps-then (message_free copied msg) _ (message_free-Keeps copied msg) (λ k1.
              Keeps-then (wake_sender k1 r (dequeue mq rest)) _
                (wake_sender-Keeps k1 r (dequeue mq rest))
                (λ k2. Keeps-ok (retvalue-links_of k2 caller (k.messages msg).size)))))
  ])
]

-- The test whether a queue is empty.
by_messages :
    {l : Links} (messages : List Ptr) (a b : Run Kernel)
    → Keeps l a
    → Keeps l b
    → Keeps l (elim messages [ [] ↦ a | _ ↦ b ])
by_messages [] a b h g = h
by_messages (msg ∷ rest) a b h g = g

resume_receive-Keeps :
    (k : Kernel) (caller r : Ptr) (user_buffer : Ptr) (buffer_size : ℤ)
    → Keeps (links_of k) (resume_receive k caller r user_buffer buffer_size)
unfolding resume_receive
resume_receive-Keeps k caller r user_buffer buffer_size = elim (Option-cases (k.queues r)) [
  | inl missing ↦ rw (missing, resume_receive) (λ k' f. cc)
  | inr (mq, found) ↦
      rw (found, resume_receive)
        (elim (Bool-cases (k.running == caller && is_waiting (k.pcbs caller).status)) [
          | inl alone ↦ rw alone (
              Keeps-ok (
                retvalue-links_of (set_status k caller running) caller dsos_emqempty
                ∙ links_of-update k caller (record (k.pcbs caller) { status = running }) refl))
          | inr on ↦ rw on (elim (Bool-cases (not (k.running == caller))) [
            | inl switched ↦ rw switched (Keeps-ok refl)
            | inr back ↦ rw back (
                by_messages mq.messages (ok k)
                  (receive_message k caller r mq user_buffer buffer_size) (Keeps-ok refl)
                  (receive_message-Keeps k caller r mq user_buffer buffer_size))
          ])
        ])
]

receive_empty-Keeps :
    (k : Kernel) (caller r : Ptr) (mq : MessageQueue) (user_buffer : Ptr) (buffer_size : ℤ)
    → Keeps (links_of k) (receive_empty k caller r mq user_buffer buffer_size)
unfolding receive_empty
receive_empty-Keeps k caller r mq user_buffer buffer_size =
    elim (Bool-cases (not (is_open mq.status))) [
      | inl shut ↦ rw shut (Keeps-ok (retvalue-links_of k caller dsos_emqnotopen))
      | inr open_still ↦
          let k1 =
            set_queue (set_status k caller waiting) r
              (record mq { waiting_receivers = push_back mq.waiting_receivers caller }) in
          rw open_still (
            Keeps-stops_if _ tangled _ refl (
              Keeps-then (internal_schedule k1)
                (λ k2. resume_receive k2 caller r user_buffer buffer_size)
                (λ k' f.
                  internal_schedule-Keeps k1 k' f
                  ∙ links_of-update k caller (record (k.pcbs caller) { status = waiting }) refl)
                (λ k2. resume_receive-Keeps k2 caller r user_buffer buffer_size)))
    ]

receive_from-Keeps :
    (k : Kernel) (caller r : Ptr) (user_buffer : Ptr) (buffer_size : ℤ)
    → Keeps (links_of k) (receive_from k caller r user_buffer buffer_size)
unfolding receive_from
receive_from-Keeps k caller r user_buffer buffer_size = elim (Option-cases (k.queues r)) [
  | inl missing ↦ rw (missing, receive_from) (λ k' f. cc)
  | inr (mq, found) ↦
      rw (found, receive_from)
        (by_messages mq.messages (receive_empty k caller r mq user_buffer buffer_size)
          (receive_message k caller r mq user_buffer buffer_size)
          (receive_empty-Keeps k caller r mq user_buffer buffer_size)
          (receive_message-Keeps k caller r mq user_buffer buffer_size))
]

pub internal_mq_receive-Keeps : (k : Kernel) → Keeps (links_of k) (internal_mq_receive k)
unfolding internal_mq_receive
internal_mq_receive-Keeps k = elim (Bool-cases (leb_ℤ queue_id (pos 0))) [
  | inl illegal ↦ rw illegal (Keeps-ok (retvalue-links_of k k.running dsos_emqinvalid))
  | inr legal ↦ rw legal (elim (Bool-cases (leb_ℤ size (pos 0))) [
    | inl outside ↦ rw outside (Keeps-ok (retvalue-links_of k k.running dsos_ebuffer))
    | inr inside ↦ rw inside (elim (Bool-cases (res == null || not (is_message_queue k res))) [
      | inl missing ↦ rw missing (Keeps-ok (retvalue-links_of k k.running dsos_emqinvalid))
      | inr found ↦
          rw found
            (receive_from-Keeps k k.running res (to_ptr ((k.pcbs k.running).syscall_args 1)) size)
    ])
  ])
]
  where
    queue_id : ℤ
    queue_id = wrap32 ((k.pcbs k.running).syscall_args 0)

    size : ℤ
    size = wrap32 ((k.pcbs k.running).syscall_args 2)

    res : Ptr
    res = resource_list_by_id k.resources k.resources_list queue_id
