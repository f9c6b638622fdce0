-- ===== src/MessageQueue/Request.antt =====
-- A system call on a message queue that exists.
use disastr_os_message_queue.Base.{◌≡◌, true, false, some, ℤ, pos, leb_ℤ, ◌==◌, wrap32}
use disastr_os_message_queue.PoolAllocator.{Ptr, null}
use disastr_os_message_queue.Kernel.{Kernel, MessageQueue, to_ptr}
use disastr_os_message_queue.MessageQueue.{resource_list_by_id, is_message_queue}

-- The arguments of the running process, as the handlers read them.
abbrev pub queue_id_of : Kernel → ℤ
queue_id_of k = wrap32 ((k.pcbs k.running).syscall_args 0)

abbrev pub buffer_of : Kernel → Ptr
buffer_of k = to_ptr ((k.pcbs k.running).syscall_args 1)

abbrev pub size_of : Kernel → ℤ
size_of k = wrap32 ((k.pcbs k.running).syscall_args 2)

-- The first argument of the running process is the id of the queue `mq` at `r`.
pub record Finds (k : Kernel) (r : Ptr) (mq : MessageQueue) : Type 0 where
  pub id_pos : leb_ℤ (queue_id_of k) (pos 0) ≡ false
  pub found : resource_list_by_id k.resources k.resources_list (queue_id_of k) ≡ r
  pub exists : (r == null) ≡ false
  pub typed : is_message_queue k r ≡ true
  pub queue : k.queues r ≡ some mq
