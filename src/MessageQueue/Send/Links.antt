-- ===== src/MessageQueue/Send/Links.antt =====
-- internal_mq_send leaves descriptors and resources alone.
use disastr_os_message_queue.Base.{
  Bool, refl, ◌∙◌, Bool-cases, List-cases, Option-cases, inl, inr, ◌==◌, ℤ, pos, pos_part, leb_ℤ,
  ltb_ℤ, ◌||◌, ◌&&◌, not, wrap32,
}
use disastr_os_message_queue.Constants.{
  message_max_size, dsos_ebuffer, dsos_emqfull, dsos_emqnotopen, dsos_emqinvalid,
}
use disastr_os_message_queue.PoolAllocator.{Ptr, null}
use disastr_os_message_queue.Kernel.{
  Kernel, MessageQueue, running, ready, waiting, set_status, set_queue, to_ptr, is_waiting,
  read_bytes, push_back, tangled, can_access,
}
use disastr_os_message_queue.Kernel.Links.{
  links_of, links_of-update, Keeps, Keeps-bind, Keeps-then, Keeps-ok, Keeps-stops_if,
}
use disastr_os_message_queue.Schedule.{internal_schedule}
use disastr_os_message_queue.Schedule.Links.{internal_schedule-Keeps}
use disastr_os_message_queue.Message.{message_alloc, message_free, fill}
use disastr_os_message_queue.MessageQueue.{
  enqueue, dequeue, is_open, resource_list_by_id, is_message_queue,
}
use disastr_os_message_queue.MessageQueue.Send.{
  receive_payload, wake_receiver, send_message, resume_send, send_full, send_to, internal_mq_send,
}
use disastr_os_message_queue.MessageQueue.Links.{
  retvalue-links_of, message_alloc-links_of, message_free-Keeps, ready-links_of,
}

receive_payload-Keeps :
    (k : Kernel) (receiver msg : Ptr) → Keeps (links_of k) (receive_payload k receiver msg)
unfolding receive_payload
receive_payload-Keeps k receiver msg =
    elim (Bool-cases (ltb_ℤ (wrap32 ((k.pcbs receiver).syscall_args 2)) (k.messages msg).size)) [
      | inl small ↦ rw small (Keeps-ok (retvalue-links_of k receiver dsos_ebuffer))
      | inr fits ↦ rw fits (elim (Bool-cases inside) [
        | inl mapped ↦ rw mapped (Keeps-ok (retvalue-links_of k receiver (k.messages msg).size))
        | inr outside ↦ rw outside (λ k' f. cc)
      ])
    ]
  where
    inside : Bool
    inside =
        can_access k.mapped (to_ptr ((k.pcbs receiver).syscall_args 1))
          (pos_part (k.messages msg).size)

wake_receiver-Keeps :
    (k : Kernel) (caller r : Ptr) (mq : MessageQueue) (receiver : Ptr)
    → Keeps (links_of k) (wake_receiver k caller r mq receiver)
unfolding wake_receiver
wake_receiver-Keeps k caller r mq receiver = elim (List-cases mq.messages) [
  | inl e ↦ rw e (λ k' f. cc)
  | inr (msg, others, e) ↦ rw e (
      Keeps-then (receive_payload (set_queue k r (dequeue mq others)) receiver msg) _
        (receive_payload-Keeps (set_queue k r (dequeue mq others)) receiver msg)
        (λ k1. Keeps-then (message_free k1 msg) _ (message_free-Keeps k1 msg) (λ k2. Keeps-ok (
          retvalue-links_of (set_status k2 receiver ready) caller (pos 0)
          ∙ ready-links_of k2 receiver))))
]

send_message-Keeps :
    (k : Kernel) (caller r : Ptr) (mq : MessageQueue) (user_buffer : Ptr) (size : ℤ)
    → Keeps (links_of k) (send_message k caller r mq user_buffer size)
unfolding send_message
send_message-Keeps k caller r mq user_buffer size =
    Keeps-bind (message_alloc k size) _ λ (msg, k1) got.
      let same = message_alloc-links_of k size (msg, k1) got in
      elim (Bool-cases (msg == null)) [
        | inl none_left ↦ rw none_left (Keeps-ok (retvalue-links_of k1 caller dsos_ebuffer ∙ same))
        | inr given ↦ elim (Bool-cases (can_access k1.mapped user_buffer (pos_part size))) [
          | inr outside ↦ rw (given, outside) (λ k' f. cc)
          | inl inside ↦
              rw (given, inside)
                (elim (List-cases mq.waiting_receivers) [
                  | inl e ↦ rw e (Keeps-ok (retvalue-links_of k1 caller (pos 0) ∙ same))
                  | inr (receiver, rest, e) ↦ rw e (λ k' f.
                      wake_receiver-Keeps
                        (fill k1 msg (read_bytes k1.memory user_buffer (pos_part size))) caller r
                        (record (enqueue mq msg) { waiting_receivers = rest }) receiver k' f
                      ∙ same)
                ])
        ]
      ]

resume_send-Keeps :
    (k : Kernel) (caller r : Ptr) (user_buffer : Ptr) (size : ℤ)
    → Keeps (links_of k) (resume_send k caller r user_buffer size)
unfolding resume_send
resume_send-Keeps k caller r user_buffer size = elim (Option-cases (k.queues r)) [
  | inl missing ↦ rw (missing, resume_send) (λ k' f. cc)
  | inr (mq, found) ↦
      rw (found, resume_send)
        (elim (Bool-cases (k.running == caller && is_waiting (k.pcbs caller).status)) [
          | inl alone ↦ rw alone (
              Keeps-ok (
                retvalue-links_of (set_status k caller running) caller dsos_emqfull
                ∙ links_of-update k caller (record (k.pcbs caller) { status = running }) refl))
          | inr on ↦ rw on (elim (Bool-cases (not (k.running == caller))) [
            | inl switched ↦ rw switched (Keeps-ok refl)
            | inr back ↦ rw back (elim (Bool-cases (leb_ℤ mq.max_messages mq.current_messages)) [
              | inl full ↦ rw full (Keeps-ok refl)
              | inr room ↦ rw room (send_message-Keeps k caller r mq user_buffer size)
            ])
          ])
        ])
]

send_full-Keeps :
    (k : Kernel) (caller r : Ptr) (mq : MessageQueue) (user_buffer : Ptr) (size : ℤ)
    → Keeps (links_of k) (send_full k caller r mq user_buffer size)
unfolding send_full
send_full-Keeps k caller r mq user_buffer size = elim (Bool-cases (not (is_open mq.status))) [
  | inl shut ↦ rw shut (Keeps-ok (retvalue-links_of k caller dsos_emqnotopen))
  | inr open_still ↦
      let k1 =
        set_queue (set_status k caller waiting) r
          (record mq { waiting_senders = push_back mq.waiting_senders caller }) in
      rw open_still (
        Keeps-stops_if _ tangled _ refl (
          Keeps-then (internal_schedule k1) (λ k2. resume_send k2 caller r user_buffer size)
            (λ k' f.
              internal_schedule-Keeps k1 k' f
              ∙ links_of-update k caller (record (k.pcbs caller) { status = waiting }) refl)
            (λ k2. resume_send-Keeps k2 caller r user_buffer size)))
]

send_to-Keeps :
    (k : Kernel) (caller r : Ptr) (user_buffer : Ptr) (size : ℤ)
    → Keeps (links_of k) (send_to k caller r user_buffer size)
unfolding send_to
send_to-Keeps k caller r user_buffer size = elim (Option-cases (k.queues r)) [
  | inl missing ↦ rw (missing, send_to) (λ k' f. cc)
  | inr (mq, found) ↦
      rw (found, send_to)
        (elim (Bool-cases (leb_ℤ mq.max_messages mq.current_messages)) [
          | inl full ↦ rw full (send_full-Keeps k caller r mq user_buffer size)
          | inr room ↦ rw room (send_message-Keeps k caller r mq user_buffer size)
        ])
]

pub internal_mq_send-Keeps : (k : Kernel) → Keeps (links_of k) (internal_mq_send k)
unfolding internal_mq_send
internal_mq_send-Keeps k = elim (Bool-cases (leb_ℤ queue_id (pos 0))) [
  | inl illegal ↦ rw illegal (Keeps-ok (retvalue-links_of k k.running dsos_emqinvalid))
  | inr legal ↦
      rw legal (elim (Bool-cases (leb_ℤ size (pos 0) || ltb_ℤ (pos message_max_size) size)) [
        | inl outside ↦ rw outside (Keeps-ok (retvalue-links_of k k.running dsos_ebuffer))
        | inr inside ↦ rw inside (elim (Bool-cases (res == null || not (is_message_queue k res))) [
          | inl missing ↦ rw missing (Keeps-ok (retvalue-links_of k k.running dsos_emqinvalid))
          | inr found ↦
              rw found
                (send_to-Keeps k k.running res (to_ptr ((k.pcbs k.running).syscall_args 1)) size)
        ])
      ])
]
  where
    queue_id : ℤ
    queue_id = wrap32 ((k.pcbs k.running).syscall_args 0)

    size : ℤ
    size = wrap32 ((k.pcbs k.running).syscall_args 2)

    res : Ptr
    res = resource_list_by_id k.resources k.resources_list queue_id
