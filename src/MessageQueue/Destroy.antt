-- ===== src/MessageQueue/Destroy.antt =====
-- src/disastrOS_msgqueue_destroy.c
pub mod InUse
pub mod Loops
pub mod Spec
pub mod Total
use disastr_os_message_queue.Base.{
  List, [], ◌∷◌, none, some, ◌||◌, not, if◌then◌else◌, ◌==◌, ℤ, pos, wrap32, leb_ℤ, detach,
}
use disastr_os_message_queue.Constants.{dsos_emqinvalid, dsos_emqclosed, dsos_emqnotopen}
use disastr_os_message_queue.PoolAllocator.{Ptr, null}
use disastr_os_message_queue.Kernel.{
  Kernel, MessageQueue, mq_closing, mq_closed, ready, Run, ok, fault, ◌>>=◌, update, set_retvalue,
  set_queue, push_back,
}
use disastr_os_message_queue.Message.{message_free}
use disastr_os_message_queue.MessageQueue.{
  is_closed, message_queue_free, resource_list_by_id, is_message_queue,
}

-- One round of the loops that wake the blocked processes.
abbrev pub wake_blocked : Kernel → Ptr → Kernel
wake_blocked k pcb = record k {
  pcbs =
      update k.pcbs pcb
        (record (k.pcbs pcb) { status = ready; syscall_retvalue = dsos_emqnotopen });
  ready_list = push_back k.ready_list pcb;
}

-- The two loops over the waiting processes: each round takes the first one off its list.
unfoldable pub wake_all : List Ptr → Kernel → Kernel
wake_all [] k = k
wake_all (pcb ∷ rest) k = wake_all rest (wake_blocked k pcb)

-- The loop over the messages that are left.
unfoldable pub free_all : List Ptr → Kernel → Run Kernel
free_all [] k = ok k
free_all (msg ∷ rest) k = message_free k msg >>= free_all rest

-- The part of `internal_mq_destroy` behind its checks.
unfoldable pub destroy_queue : Kernel → (r : Ptr) → MessageQueue → (queue_id : ℤ) → Run Kernel
unfolding wake_all free_all message_queue_free detach
destroy_queue k r mq queue_id = do
  let closing = set_queue k r (record mq { status = mq_closing })
  let woken = wake_all mq.waiting_senders (wake_all mq.waiting_receivers closing)
  k ← free_all mq.messages woken
  let closed = record mq {
    status = mq_closed;
    waiting_receivers = [];
    waiting_senders = [];
    messages = [];
  }
  k ←
      message_queue_free
        (record (set_queue k r closed) { resources_list = detach r k.resources_list }) r closed
  ok (set_retvalue k k.running queue_id)

-- The part behind the checks of the arguments, on the resource that was found. The cast to a
-- message queue is undefined where the resource is none.
unfoldable pub destroy_found : Kernel → (r : Ptr) → (queue_id : ℤ) → Run Kernel
destroy_found k r queue_id = elim (k.queues r) [
  | none ↦ fault
  | some mq ↦
      if is_closed mq.status
      then ok (set_retvalue k k.running dsos_emqclosed)
      else destroy_queue k r mq queue_id
]

-- `internal_mq_destroy`
unfoldable pub internal_mq_destroy : Kernel → Run Kernel
unfolding resource_list_by_id wrap32
internal_mq_destroy k =
    let queue_id = wrap32 ((k.pcbs k.running).syscall_args 0) in
    let r = resource_list_by_id k.resources k.resources_list queue_id in
    if leb_ℤ queue_id (pos 0)
    then ok (set_retvalue k k.running dsos_emqinvalid)
    else if r == null || not (is_message_queue k r)
    then ok (set_retvalue k k.running dsos_emqinvalid)
    else destroy_found k r queue_id
