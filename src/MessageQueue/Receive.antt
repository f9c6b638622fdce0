-- ===== src/MessageQueue/Receive.antt =====
-- src/disastrOS_msgqueue_receive.c
pub mod Block
pub mod Complete
pub mod Links
pub mod Spec
pub mod Total
use disastr_os_message_queue.Base.{
  [], ◌∷◌, none, some, ◌&&◌, ◌||◌, not, if◌then◌else◌, ◌==◌, ℤ, pos, pos_part, wrap32, ltb_ℤ, leb_ℤ,
  detach,
}
use disastr_os_message_queue.Constants.{
  message_max_size, dsos_emqinvalid, dsos_ebuffer, dsos_emqnotopen, dsos_emqempty,
}
use disastr_os_message_queue.PoolAllocator.{Ptr, null}
use disastr_os_message_queue.Kernel.{
  Kernel, MessageQueue, waiting, running, ready, Run, ok, fault, segfault, tangled, ◌>>=◌,
  set_status, set_retvalue, can_access, set_queue, push_back, to_ptr, is_waiting, read_bytes,
  write_bytes,
}
use disastr_os_message_queue.Kernel.Order.{is_listed}
use disastr_os_message_queue.Schedule.{internal_schedule}
use disastr_os_message_queue.Message.{message_alloc, message_free, fill}
use disastr_os_message_queue.MessageQueue.{
  enqueue, dequeue, is_open, resource_list_by_id, is_message_queue,
}

-- `mq` is the queue without the sender: its message is built from the buffer and the size that the
-- sender passed, and put into the queue.
unfoldable pub complete_send : Kernel → (r : Ptr) → MessageQueue → (sender : Ptr) → Run Kernel
unfolding read_bytes can_access
complete_send k r mq sender =
    let sender_size = wrap32 ((k.pcbs sender).syscall_args 2) in
    let sender_buffer = to_ptr ((k.pcbs sender).syscall_args 1) in
    if leb_ℤ sender_size (pos 0) || ltb_ℤ (pos message_max_size) sender_size
    then ok (set_retvalue (set_queue k r mq) sender dsos_ebuffer)
    else do
      (msg, k) ← message_alloc k sender_size
      if msg == null
          then ok (set_retvalue (set_queue k r mq) sender dsos_ebuffer)
          else if not (can_access k.mapped sender_buffer (pos_part sender_size))
          then segfault
          else ok (
              set_retvalue
                (set_queue (fill k msg (read_bytes k.memory sender_buffer (pos_part sender_size))) r
                  (enqueue mq msg))
                sender (pos 0))

-- `if (mq->waiting_senders.first) …`, on the queue `mq`.
unfoldable pub wake_sender : Kernel → (r : Ptr) → MessageQueue → Run Kernel
unfolding complete_send
wake_sender k r mq = elim mq.waiting_senders [
  | [] ↦ ok (set_queue k r mq)
  | sender ∷ rest ↦ do
    k ← complete_send k r (record mq { waiting_senders = rest }) sender
    let k1 = set_status k sender ready
    ok (record k1 { ready_list = push_back k1.ready_list sender })
]

-- The part behind the test for an empty queue: from `List_detach` of the first message to the end.
unfoldable pub receive_message :
    Kernel → (caller r : Ptr) → MessageQueue → (user_buffer : Ptr) → (buffer_size : ℤ) → Run Kernel
unfolding write_bytes can_access
receive_message k caller r mq user_buffer buffer_size = elim mq.messages [
  | [] ↦ fault
  | msg ∷ rest ↦
      let received_size = (k.messages msg).size in
      if ltb_ℤ buffer_size received_size
      then (message_free (set_queue k r (dequeue mq rest)) msg >>= λ k'.
          ok (set_retvalue k' caller dsos_ebuffer))
      else if not (can_access k.mapped user_buffer (pos_part received_size))
      then segfault
      else do
        let copied = record k { memory = write_bytes k.memory user_buffer (k.messages msg).payload }
        k ← message_free copied msg
        k ← wake_sender k r (dequeue mq rest)
        ok (set_retvalue k caller received_size)
]

-- Behind `internal_schedule` in the branch of an empty queue: `k` is the state that it left.
unfoldable pub resume_receive :
    Kernel → (caller r : Ptr) → (user_buffer : Ptr) → (buffer_size : ℤ) → Run Kernel
unfolding receive_message detach
resume_receive k caller r user_buffer buffer_size = elim (k.queues r) [
  | none ↦ fault
  | some mq ↦
      if k.running == caller && is_waiting (k.pcbs caller).status
      then ok (
          set_retvalue
            (set_status
              (set_queue k r (record mq { waiting_receivers = detach caller mq.waiting_receivers }))
              caller running)
            caller dsos_emqempty)
      else if not (k.running == caller)
      then ok k
      else elim mq.messages [
        | [] ↦ ok k
        | _ ↦ receive_message k caller r mq user_buffer buffer_size
      ]
]

-- The branch of an empty queue.
unfoldable pub receive_empty :
    Kernel → (caller r : Ptr) → MessageQueue → (user_buffer : Ptr) → (buffer_size : ℤ) → Run Kernel
unfolding resume_receive is_listed
receive_empty k caller r mq user_buffer buffer_size =
    if not (is_open mq.status)
    then ok (set_retvalue k caller dsos_emqnotopen)
    else if is_listed k caller
    then tangled
    else do
      let k1 =
          set_queue (set_status k caller waiting) r
            (record mq { waiting_receivers = push_back mq.waiting_receivers caller })
      k2 ← internal_schedule k1
      resume_receive k2 caller r user_buffer buffer_size

-- The part behind the checks of the arguments, on the resource that was found. The cast to a
-- message queue is undefined where the resource is none.
unfoldable pub receive_from :
    Kernel → (caller r : Ptr) → (user_buffer : Ptr) → (buffer_size : ℤ) → Run Kernel
receive_from k caller r user_buffer buffer_size = elim (k.queues r) [
  | none ↦ fault
  | some mq ↦ elim mq.messages [
    | [] ↦ receive_empty k caller r mq user_buffer buffer_size
    | _ ↦ receive_message k caller r mq user_buffer buffer_size
  ]
]

-- `internal_mq_receive`
unfoldable pub internal_mq_receive : Kernel → Run Kernel
unfolding receive_from resource_list_by_id wrap32
internal_mq_receive k =
    let caller = k.running in
    let queue_id = wrap32 ((k.pcbs caller).syscall_args 0) in
    let user_buffer = to_ptr ((k.pcbs caller).syscall_args 1) in
    let buffer_size = wrap32 ((k.pcbs caller).syscall_args 2) in
    let res = resource_list_by_id k.resources k.resources_list queue_id in
    if leb_ℤ queue_id (pos 0)
    then ok (set_retvalue k caller dsos_emqinvalid)
    else if leb_ℤ buffer_size (pos 0)
    then ok (set_retvalue k caller dsos_ebuffer)
    else if res == null || not (is_message_queue k res)
    then ok (set_retvalue k caller dsos_emqinvalid)
    else receive_from k caller res user_buffer buffer_size
