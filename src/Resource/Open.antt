-- ===== src/Resource/Open.antt =====
-- src/disastrOS_open_resource.c
pub mod Linked
pub mod Spec
pub mod Total
use disastr_os_message_queue.Base.{
  Bool, ◌&&◌, ◌||◌, not, if◌then◌else◌, ◌==◌, ℤ, pos, wrap32, bits32, has_flag, ltb_ℤ, ◌+ℤ◌, ◌==ℤ◌,
}
use disastr_os_message_queue.Constants.{
  dsos_create, dsos_excl, dsos_eresourcecreate, dsos_eresourceopen, dsos_eresourcenoexcl,
  dsos_eresourcenofd,
}
use disastr_os_message_queue.PoolAllocator.{Ptr, null}
use disastr_os_message_queue.Kernel.{Kernel, Run, ok, ◌>>=◌, set_pcb, set_retvalue, push_back}
use disastr_os_message_queue.MessageQueue.{resource_list_by_id}
use disastr_os_message_queue.Resource.{
  resource_alloc, descriptor_alloc, descriptor_free, descriptor_ptr_alloc, link_descriptor,
}

-- From the allocation of the descriptor on: the caller gets a descriptor of the resource `res`.
unfoldable pub open_descriptor : Kernel → (res : Ptr) → Run Kernel
unfolding ◌+ℤ◌
open_descriptor k res = do
  (des, k) ← descriptor_alloc k (k.pcbs k.running).last_fd res k.running
  if des == null then ok (set_retvalue k k.running dsos_eresourcenofd) else do
    (desptr, k) ← descriptor_ptr_alloc k des
    if desptr == null
        then (descriptor_free k des >>= λ k'. ok (set_retvalue k' k'.running dsos_eresourcenofd))
        else (let k1 = link_descriptor k k.running res des desptr in
            let pcb = k1.pcbs k1.running in
            ok (
              set_pcb k1 k1.running (record pcb {
                last_fd = pcb.last_fd +ℤ pos 1;
                syscall_retvalue = (k1.descriptors des).fd;
              })))

-- The part behind the creation: the tests of the resource that was found or made.
unfoldable pub open_found : Kernel → (res : Ptr) → (type open_mode : ℤ) → Run Kernel
open_found k res type open_mode =
    if res == null || not ((k.resources res).type ==ℤ type)
    then ok (set_retvalue k k.running dsos_eresourceopen)
    else if has_flag dsos_excl (bits32 open_mode) && ltb_ℤ (pos 0) (k.resources res).ref_count
    then ok (set_retvalue k k.running dsos_eresourcenoexcl)
    else open_descriptor k res

-- The branch of the mode `DSOS_CREATE`, where `res` was found.
unfoldable pub open_created : Kernel → (res : Ptr) → (id type open_mode : ℤ) → Run Kernel
open_created k res id type open_mode =
    if not (res == null) then ok (set_retvalue k k.running dsos_eresourcecreate) else do
      (made, k) ← resource_alloc k id type
      if made == null
          then ok (set_retvalue k k.running dsos_eresourcecreate)
          else open_found (record k { resources_list = push_back k.resources_list made }) made type
              open_mode

-- `internal_openResource`
unfoldable pub internal_open_resource : Kernel → Run Kernel
unfolding resource_list_by_id wrap32
internal_open_resource k =
    let id = wrap32 ((k.pcbs k.running).syscall_args 0) in
    let type = wrap32 ((k.pcbs k.running).syscall_args 1) in
    let open_mode = wrap32 ((k.pcbs k.running).syscall_args 2) in
    let res = resource_list_by_id k.resources k.resources_list id in
    if has_flag dsos_create (bits32 open_mode)
    then open_created k res id type open_mode
    else open_found k res type open_mode
