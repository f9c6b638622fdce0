-- ===== src/MessageQueue/Create.antt =====
-- src/disastrOS_msgqueue_create.c
pub mod Linked
pub mod Shadow
pub mod Spec
pub mod Total
use disastr_os_message_queue.Base.{
  ◌&&◌, ◌||◌, not, if◌then◌else◌, ◌==◌, ℤ, pos, wrap32, ltb_ℤ, leb_ℤ,
}
use disastr_os_message_queue.Constants.{
  max_messages_per_queue, dsos_emqinvalid, dsos_emqexists, dsos_emqcreate,
}
use disastr_os_message_queue.PoolAllocator.{null}
use disastr_os_message_queue.Kernel.{Kernel, Run, ok, ◌>>=◌, set_retvalue, push_back}
use disastr_os_message_queue.MessageQueue.{
  message_queue_alloc, resource_list_by_id, is_message_queue,
}

-- The part of `internal_mq_create` behind its checks.
unfoldable pub create_queue : Kernel → (queue_id size : ℤ) → Run Kernel
unfolding message_queue_alloc
create_queue k queue_id size = do
  (mq, k) ← message_queue_alloc k queue_id size
  if mq == null
      then ok (set_retvalue k k.running dsos_emqcreate)
      else ok (record (set_retvalue k k.running queue_id) {
        resources_list = push_back k.resources_list mq;
      })

-- `internal_mq_create`
unfoldable pub internal_mq_create : Kernel → Run Kernel
unfolding create_queue resource_list_by_id wrap32
internal_mq_create k =
    let queue_id = wrap32 ((k.pcbs k.running).syscall_args 0) in
    let size = wrap32 ((k.pcbs k.running).syscall_args 1) in
    let existing = resource_list_by_id k.resources k.resources_list queue_id in
    if leb_ℤ queue_id (pos 0) || leb_ℤ size (pos 0) || ltb_ℤ (pos max_messages_per_queue) size
    then ok (set_retvalue k k.running dsos_emqinvalid)
    else if not (existing == null) && is_message_queue k existing
    then ok (set_retvalue k k.running dsos_emqexists)
    else create_queue k queue_id size
