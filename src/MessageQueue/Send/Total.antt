-- ===== src/MessageQueue/Send/Total.antt =====
-- internal_mq_send neither faults nor hangs, and keeps the invariant of the stores.
use disastr_os_message_queue.Base.{
  ◌≡◌, refl, ap, ◌∙◌, false, ◌||◌, not, some, List, [], ◌∷◌, ℤ, pos, wrap32, leb_ℤ, ltb_ℤ, ◌==◌,
  Bool-cases, List-cases, inl, inr, detach, ◌&&◌, ==_refl, Option, Bool, pos_part,
}
use disastr_os_message_queue.Constants.{message_max_size}
use disastr_os_message_queue.PoolAllocator.{Ptr, null}
use disastr_os_message_queue.Kernel.{
  Kernel, MessageQueue, set_queue, is_waiting, push_back, set_status, waiting, can_access, to_ptr,
  tangled,
}
use disastr_os_message_queue.Kernel.Returns.{Settles, Settles-bind, stops_if, Settles-with}
use disastr_os_message_queue.Kernel.Invariant.{IsKernel, IsQueue, with_queue, with_message_pool}
use disastr_os_message_queue.Schedule.Frame.{internal_schedule-SameStores}
use disastr_os_message_queue.Schedule.Order.{internal_schedule-Settles}
use disastr_os_message_queue.Schedule.{internal_schedule}
use disastr_os_message_queue.Message.Alloc.{
  message_alloc-Allocates, message_free_total, fill-IsKernel, filled,
}
use disastr_os_message_queue.MessageQueue.{dequeue, is_open, resource_list_by_id, is_message_queue}
use disastr_os_message_queue.MessageQueue.Invariant.{
  found_queue, enqueue-IsQueue, deliver-IsQueue, empty_of_waiting, wait_send-IsQueue,
}
use disastr_os_message_queue.MessageQueue.Send.{
  receive_payload, wake_receiver, send_message, resume_send, send_full, send_to, internal_mq_send,
}

receive_payload-Settles :
    (k : Kernel) (receiver msg : Ptr)
    → IsKernel k
    → Settles IsKernel (receive_payload k receiver msg)
unfolding receive_payload
receive_payload-Settles k receiver msg v =
    elim (Bool-cases (ltb_ℤ (wrap32 ((k.pcbs receiver).syscall_args 2)) (k.messages msg).size)) [
      | inl short ↦ rw short (inl (_, refl, v))
      | inr fits ↦ rw fits (elim (Bool-cases inside) [
        | inl mapped ↦ rw mapped (inl (_, refl, v))
        | inr outside ↦ rw outside (inr refl)
      ])
    ]
  where
    inside : Bool
    inside =
        can_access k.mapped (to_ptr ((k.pcbs receiver).syscall_args 1))
          (pos_part (k.messages msg).size)

wake_receiver_total :
    (k : Kernel) (caller r : Ptr) (mq : MessageQueue) (receiver msg : Ptr) (others : List Ptr)
    → IsKernel k
    → mq.messages ≡ msg ∷ others
    → IsQueue (dequeue mq others)
    → Settles IsKernel (wake_receiver k caller r mq receiver)
unfolding wake_receiver
wake_receiver_total k caller r mq receiver msg others v e is =
    let k0 = set_queue k r (dequeue mq others) in
    rw e (
      Settles-bind (receive_payload k0 receiver msg) _
        (receive_payload-Settles k0 receiver msg (with_queue v r (dequeue mq others) is))
        λ k1 v1.
          let (pool, p, freed) = message_free_total k1 msg v1.message_pool in
          rw freed (inl (_, refl, with_message_pool v1 pool p)))

send_message_total :
    (k : Kernel) (caller r : Ptr) (mq : MessageQueue) (user_buffer : Ptr) (size : ℤ)
    → IsKernel k
    → IsQueue mq
    → leb_ℤ mq.max_messages mq.current_messages ≡ false
    → Settles IsKernel (send_message k caller r mq user_buffer size)
unfolding send_message
send_message_total k caller r mq user_buffer size v is room =
    elim (message_alloc-Allocates k size v.message_pool) [
      | inl (pool, p, e) ↦ rw e (inl (_, refl, with_message_pool v pool p))
      | inr (msg, pool, n, p, got, positive, small, e) ↦
          let w = fill-IsKernel k msg user_buffer pool size n v p positive small in
          elim (Bool-cases (can_access k.mapped user_buffer (pos_part size))) [
            | inr outside ↦ rw (e, got, outside) (inr refl)
            | inl inside ↦
                rw (e, got, inside)
                  (elim (List-cases mq.waiting_receivers) [
                    | inl idle ↦
                        rw idle
                          (inl (_, refl, with_queue w r _ (enqueue-IsQueue mq msg is idle room)))
                    | inr (receiver, rest, waits) ↦
                        let empty = empty_of_waiting mq receiver rest is waits in
                        rw waits (
                          wake_receiver_total (filled k msg pool size user_buffer) caller r _
                            receiver msg [] w (rw empty) (deliver-IsQueue mq msg rest is empty))
                  ])
          ]
    ]

resume_send_total :
    (k : Kernel) (caller r : Ptr) (user_buffer : Ptr) (size : ℤ) (mq : MessageQueue)
    → IsKernel k
    → k.queues r ≡ some mq
    → Settles IsKernel (resume_send k caller r user_buffer size)
unfolding resume_send
resume_send_total k caller r user_buffer size mq v found =
    let is = v.queues r mq found in
    rw (found, resume_send)
      (elim (Bool-cases (k.running == caller && is_waiting (k.pcbs caller).status)) [
        | inl alone ↦ rw alone (
            inl (
              _,
              refl,
              with_queue v r _ (wait_send-IsQueue mq (detach caller mq.waiting_senders) is),
            ))
        | inr other ↦ rw other (elim (Bool-cases (k.running == caller)) [
          | inr switched ↦ rw switched (inl (k, refl, v))
          | inl resumed ↦
              rw resumed (elim (Bool-cases (leb_ℤ mq.max_messages mq.current_messages)) [
                | inl full ↦ rw full (inl (k, refl, v))
                | inr room ↦ rw room (send_message_total k caller r mq user_buffer size v is room)
              ])
        ])
      ])

send_full_total :
    (k : Kernel) (caller r : Ptr) (mq : MessageQueue) (user_buffer : Ptr) (size : ℤ)
    → IsKernel k
    → IsQueue mq
    → Settles IsKernel (send_full k caller r mq user_buffer size)
unfolding send_full
send_full_total k caller r mq user_buffer size v is = elim (Bool-cases (not (is_open mq.status))) [
  | inl shut ↦ rw shut (inl (_, refl, v))
  | inr open_now ↦
      let blocked = record mq { waiting_senders = push_back mq.waiting_senders caller } in
      let k1 = set_queue (set_status k caller waiting) r blocked in
      let v1 : IsKernel k1 = with_queue v r blocked (wait_send-IsQueue mq _ is) in
      rw open_now (
        stops_if _ tangled _ refl (
          Settles-bind (internal_schedule k1) _
            (Settles-with (internal_schedule k1) (λ k2 ran. ran) (internal_schedule-Settles k1 v1))
            λ k2 (v2, ran). resume_send_total k2 caller r user_buffer size blocked v2 (
              ap (λ (q : Ptr → Option MessageQueue). q r)
                (internal_schedule-SameStores k1 ran).queues
              ∙ rw (==_refl r))))
]

send_to_total :
    (k : Kernel) (caller r : Ptr) (mq : MessageQueue) (user_buffer : Ptr) (size : ℤ)
    → IsKernel k
    → k.queues r ≡ some mq
    → Settles IsKernel (send_to k caller r user_buffer size)
unfolding send_to
send_to_total k caller r mq user_buffer size v found =
    let is = v.queues r mq found in
    rw (found, send_to)
      (elim (Bool-cases (leb_ℤ mq.max_messages mq.current_messages)) [
        | inl full ↦ rw full (send_full_total k caller r mq user_buffer size v is)
        | inr room ↦ rw room (send_message_total k caller r mq user_buffer size v is room)
      ])

-- In a kernel whose stores are in order a send neither faults nor hangs, whatever its arguments, and
-- leaves them so unless it is stopped.
pub internal_mq_send_total : (k : Kernel) → IsKernel k → Settles IsKernel (internal_mq_send k)
unfolding internal_mq_send
internal_mq_send_total k v = elim (Bool-cases (leb_ℤ queue_id (pos 0))) [
  | inl bad_id ↦ rw bad_id (inl (_, refl, v))
  | inr good_id ↦
      rw good_id (elim (Bool-cases (leb_ℤ size (pos 0) || ltb_ℤ (pos message_max_size) size)) [
        | inl bad_size ↦ rw bad_size (inl (_, refl, v))
        | inr good_size ↦
            rw good_size (elim (Bool-cases (res == null || not (is_message_queue k res))) [
              | inl missing ↦ rw missing (inl (_, refl, v))
              | inr found ↦
                  let (mq, e) = found_queue k queue_id v found in
                  rw found (send_to_total k k.running res mq _ size v e)
            ])
      ])
]
  where
    queue_id : ℤ
    queue_id = wrap32 ((k.pcbs k.running).syscall_args 0)

    size : ℤ
    size = wrap32 ((k.pcbs k.running).syscall_args 2)

    res : Ptr
    res = resource_list_by_id k.resources k.resources_list queue_id
