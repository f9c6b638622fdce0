-- ===== src/Resource/Close.antt =====
-- src/disastrOS_close_resource.c
pub mod RoundTrip
pub mod Spec
use disastr_os_message_queue.Base.{if◌then◌else◌, ◌==◌, pos, negsuc, wrap32, ltb_ℤ, ◌+ℤ◌, detach}
use disastr_os_message_queue.Constants.{dsos_eresourceclose}
use disastr_os_message_queue.PoolAllocator.{Ptr, null}
use disastr_os_message_queue.Kernel.{Kernel, Run, ok, fault, ◌>>=◌, update, set_retvalue}
use disastr_os_message_queue.Resource.{descriptor_free, descriptor_ptr_free, descriptor_list_by_fd}

-- The descriptor `des` of process `pcb`, taken out of the process and of its resource.
abbrev pub unlink_descriptor : Kernel → (pcb des : Ptr) → Kernel
unlink_descriptor k pcb des =
    let d = k.descriptors des in
    record k {
      pcbs =
          update k.pcbs pcb
            (record (k.pcbs pcb) { descriptors = detach des (k.pcbs pcb).descriptors });
      resources = update k.resources d.resource (record (k.resources d.resource) {
        descriptors_ptrs = detach d.ptr (k.resources d.resource).descriptors_ptrs;
      });
    }

-- The part behind the test for a descriptor. A null entry is dereferenced.
unfoldable pub close_descriptor : Kernel → (des : Ptr) → Run Kernel
unfolding descriptor_free descriptor_ptr_free detach ◌+ℤ◌
close_descriptor k des =
    let res = (k.descriptors des).resource in
    let desptr = (k.descriptors des).ptr in
    if desptr == null then fault else do
      k ← descriptor_free (unlink_descriptor k k.running des) des
      k ← descriptor_ptr_free k desptr
      if ltb_ℤ (pos 0) (k.resources res).ref_count
          then ok (
              set_retvalue
                (record k {
                  resources = update k.resources res (record (k.resources res) {
                    ref_count = (k.resources res).ref_count +ℤ negsuc 0;
                  });
                })
                k.running (pos 0))
          else fault

-- `internal_closeResource`
unfoldable pub internal_close_resource : Kernel → Run Kernel
unfolding descriptor_list_by_fd close_descriptor wrap32
internal_close_resource k =
    let fd = wrap32 ((k.pcbs k.running).syscall_args 0) in
    let des = descriptor_list_by_fd k (k.pcbs k.running).descriptors fd in
    if des == null
    then ok (set_retvalue k k.running dsos_eresourceclose)
    else close_descriptor k des
