-- ===== src/Resource/Remove.antt =====
-- src/disastrOS_destroy_resource.c
pub mod Total
use disastr_os_message_queue.Base.{if◌then◌else◌, ◌==◌, pos, wrap32, ltb_ℤ, detach}
use disastr_os_message_queue.Constants.{dsos_eresourceclose, dsos_eresourceinuse}
use disastr_os_message_queue.PoolAllocator.{null}
use disastr_os_message_queue.Kernel.{Kernel, Run, ok, ◌>>=◌, set_retvalue}
use disastr_os_message_queue.MessageQueue.{resource_list_by_id}
use disastr_os_message_queue.Resource.{resource_free}

-- `internal_destroyResource`
unfoldable pub internal_destroy_resource : Kernel → Run Kernel
unfolding resource_free resource_list_by_id detach wrap32
internal_destroy_resource k =
    let id = wrap32 ((k.pcbs k.running).syscall_args 0) in
    let res = resource_list_by_id k.resources k.resources_list id in
    if res == null
    then ok (set_retvalue k k.running dsos_eresourceclose)
    else if ltb_ℤ (pos 0) (k.resources res).ref_count
    then ok (set_retvalue k k.running dsos_eresourceinuse)
    else do
      k ← resource_free (record k { resources_list = detach res k.resources_list }) res
      ok (set_retvalue k k.running (pos 0))
