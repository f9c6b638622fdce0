-- ===== src/MessageQueue/Send.antt =====
-- src/disastrOS_msgqueue_send.c
pub mod Block
pub mod Deliver
pub mod Links
pub mod Spec
pub mod Total
use disastr_os_message_queue.Base.{
  [], ◌∷◌, none, some, ◌&&◌, ◌||◌, not, if◌then◌else◌, ◌==◌, ℤ, pos, pos_part, wrap32, ltb_ℤ, leb_ℤ,
  detach,
}
use disastr_os_message_queue.Constants.{
  message_max_size, dsos_emqinvalid, dsos_ebuffer, dsos_emqnotopen, dsos_emqfull,
}
use disastr_os_message_queue.PoolAllocator.{Ptr, null}
use disastr_os_message_queue.Kernel.{
  Kernel, MessageQueue, waiting, running, ready, Run, ok, fault, segfault, tangled, ◌>>=◌,
  set_status, set_retvalue, can_access, set_queue, push_back, to_ptr, is_waiting, read_bytes,
  write_bytes,
}
use disastr_os_message_queue.Kernel.Order.{is_listed}
use disastr_os_message_queue.Schedule.{internal_schedule}
use disastr_os_message_queue.Message.{message_alloc, message_free, fill}
use disastr_os_message_queue.MessageQueue.{
  enqueue, dequeue, is_open, resource_list_by_id, is_message_queue,
}

-- What a waiting receiver gets: its return value, and the payload in its buffer if that is large
-- enough.
unfoldable pub receive_payload : Kernel → (receiver msg : Ptr) → Run Kernel
unfolding write_bytes can_access
receive_payload k receiver msg =
    let receiver_buffer = to_ptr ((k.pcbs receiver).syscall_args 1) in
    let receiver_buffer_size = wrap32 ((k.pcbs receiver).syscall_args 2) in
    if ltb_ℤ receiver_buffer_size (k.messages msg).size
    then ok (set_retvalue k receiver dsos_ebuffer)
    else if can_access k.mapped receiver_buffer (pos_part (k.messages msg).size)
    then ok (record (set_retvalue k receiver (k.messages msg).size) {
      memory = write_bytes k.memory receiver_buffer (k.messages msg).payload;
    })
    else segfault

-- The first waiting receiver takes the first message: `mq` holds the new message, and `rest` are
-- the receivers behind `receiver`.
unfoldable pub wake_receiver :
    Kernel → (caller r : Ptr) → MessageQueue → (receiver : Ptr) → Run Kernel
unfolding receive_payload
wake_receiver k caller r mq receiver = elim mq.messages [
  | [] ↦ fault
  | msg ∷ others ↦ do
    k ← receive_payload (set_queue k r (dequeue mq others)) receiver msg
    k ← message_free k msg
    let k1 = set_status k receiver ready
    ok (set_retvalue (record k1 { ready_list = push_back k1.ready_list receiver }) caller (pos 0))
]

-- The part behind the test for a full queue: from `Message_alloc` to the end.
unfoldable pub send_message :
    Kernel → (caller r : Ptr) → MessageQueue → (user_buffer : Ptr) → (size : ℤ) → Run Kernel
unfolding read_bytes can_access
send_message k caller r mq user_buffer size = do
  (msg, k) ← message_alloc k size
  if msg == null
      then ok (set_retvalue k caller dsos_ebuffer)
      else if not (can_access k.mapped user_buffer (pos_part size))
      then segfault
      else (let k1 = fill k msg (read_bytes k.memory user_buffer (pos_part size)) in
          let sent = enqueue mq msg in
          elim mq.waiting_receivers [
            | [] ↦ ok (set_retvalue (set_queue k1 r sent) caller (pos 0))
            | receiver ∷ rest ↦
                wake_receiver k1 caller r (record sent { waiting_receivers = rest }) receiver
          ])

-- Behind `internal_schedule` in the branch of a full queue: `k` is the state that it left.
unfoldable pub resume_send :
    Kernel → (caller r : Ptr) → (user_buffer : Ptr) → (size : ℤ) → Run Kernel
unfolding send_message detach
resume_send k caller r user_buffer size = elim (k.queues r) [
  | none ↦ fault
  | some mq ↦
      if k.running == caller && is_waiting (k.pcbs caller).status
      then ok (
          set_retvalue
            (set_status
              (set_queue k r (record mq { waiting_senders = detach caller mq.waiting_senders }))
              caller running)
            caller dsos_emqfull)
      else if not (k.running == caller)
      then ok k
      else if leb_ℤ mq.max_messages mq.current_messages
      then ok k
      else send_message k caller r mq user_buffer size
]

-- The branch of a full queue.
unfoldable pub send_full :
    Kernel → (caller r : Ptr) → MessageQueue → (user_buffer : Ptr) → (size : ℤ) → Run Kernel
unfolding resume_send is_listed
send_full k caller r mq user_buffer size =
    if not (is_open mq.status)
    then ok (set_retvalue k caller dsos_emqnotopen)
    else if is_listed k caller
    then tangled
    else do
      let k1 =
          set_queue (set_status k caller waiting) r
            (record mq { waiting_senders = push_back mq.waiting_senders caller })
      k2 ← internal_schedule k1
      resume_send k2 caller r user_buffer size

-- The part behind the checks of the arguments, on the resource that was found. The cast to a
-- message queue is undefined where the resource is none.
unfoldable pub send_to : Kernel → (caller r : Ptr) → (user_buffer : Ptr) → (size : ℤ) → Run Kernel
unfolding send_full send_message
send_to k caller r user_buffer size = elim (k.queues r) [
  | none ↦ fault
  | some mq ↦
      if leb_ℤ mq.max_messages mq.current_messages
      then send_full k caller r mq user_buffer size
      else send_message k caller r mq user_buffer size
]

-- `internal_mq_send`
unfoldable pub internal_mq_send : Kernel → Run Kernel
unfolding send_to resource_list_by_id wrap32
internal_mq_send k =
    let caller = k.running in
    let queue_id = wrap32 ((k.pcbs caller).syscall_args 0) in
    let user_buffer = to_ptr ((k.pcbs caller).syscall_args 1) in
    let size = wrap32 ((k.pcbs caller).syscall_args 2) in
    let res = resource_list_by_id k.resources k.resources_list queue_id in
    if leb_ℤ queue_id (pos 0)
    then ok (set_retvalue k caller dsos_emqinvalid)
    else if leb_ℤ size (pos 0) || ltb_ℤ (pos message_max_size) size
    then ok (set_retvalue k caller dsos_ebuffer)
    else if res == null || not (is_message_queue k res)
    then ok (set_retvalue k caller dsos_emqinvalid)
    else send_to k caller res user_buffer size
