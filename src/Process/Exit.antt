-- ===== src/Process/Exit.antt =====
-- src/disastrOS_exit.c
pub mod Die
pub mod Spec
use disastr_os_message_queue.Base.{
  List, [], ◌∷◌, ◌&&◌, ◌||◌, not, if◌then◌else◌, ◌==◌, pos, negsuc, wrap32, ◌+ℤ◌, ◌==ℤ◌, detach,
  has,
}
use disastr_os_message_queue.Constants.{dsos_sigchld, dsos_sighup, dsos_call_wait}
use disastr_os_message_queue.PoolAllocator.{Ptr, null}
use disastr_os_message_queue.Kernel.{
  Kernel, running, zombie, Run, ok, fault, hang, segfault, tangled, can_write_int, ◌>>=◌, update,
  set_pcb, set_status, push_back, to_ptr, is_waiting, raise, write_int, run_first_ready,
}
use disastr_os_message_queue.Kernel.Order.{is_listed}
use disastr_os_message_queue.Timer.{timer_item_free}
use disastr_os_message_queue.MessageQueue.{is_empty}
use disastr_os_message_queue.Process.{pcb_free, pcb_ptr_by_pid}
use disastr_os_message_queue.Resource.{descriptor_free, descriptor_ptr_free, resource_free}
use disastr_os_message_queue.Resource.Close.{unlink_descriptor}

-- The loop over the children, where the caller is not the init process: each goes to the end of init's
-- list and gets a SIGHUP.
unfoldable pub reparent : Kernel → List Ptr → Kernel
reparent k [] = set_pcb k k.running (record (k.pcbs k.running) { children = [] })
reparent k (item ∷ rest) =
    let init = k.pcbs k.init_pcb in
    let k1 = set_pcb k k.init_pcb (record init { children = push_back init.children item }) in
    reparent (raise k1 dsos_sighup (k1.pcb_ptrs item)) rest

-- The loop over the timers, on the items that are left: those of process `pcb` go.
unfoldable pub release_timers : Kernel → (pcb : Ptr) → List Ptr → Run Kernel
unfolding timer_item_free detach
release_timers k pcb [] = ok k
release_timers k pcb (t ∷ ts) =
    let freed = timer_item_free (record k { timer_list = detach t k.timer_list }) t in
    let k1 = (if (k.timers t).pcb == pcb then freed else ok k) in
    k1 >>= λ k'. release_timers k' pcb ts

-- A resource that nobody has open any more goes.
unfoldable pub drop_resource : Kernel → (res : Ptr) → Run Kernel
unfolding resource_free detach
drop_resource k res =
    if (k.resources res).ref_count ==ℤ pos 0
    then resource_free (record k { resources_list = detach res k.resources_list }) res
    else ok k

-- One round of the loop over the descriptors. A null entry is dereferenced.
unfoldable pub release_descriptor : Kernel → (pcb des : Ptr) → Run Kernel
unfolding drop_resource descriptor_free descriptor_ptr_free ◌+ℤ◌
release_descriptor k pcb des =
    let res = (k.descriptors des).resource in
    let ptr = (k.descriptors des).ptr in
    let k1 = unlink_descriptor k pcb des in
    if ptr == null then fault else do
      k ←
          descriptor_ptr_free
            (record k1 {
              resources = update k1.resources res (record (k1.resources res) {
                ref_count = (k1.resources res).ref_count +ℤ negsuc 0;
              });
            })
            ptr
      k ← descriptor_free k des
      drop_resource k res

-- The loop, which takes the first descriptor off in each round.
unfoldable pub release_descriptors : Kernel → (pcb : Ptr) → List Ptr → Run Kernel
unfolding release_descriptor
release_descriptors k pcb [] = ok k
release_descriptors k pcb (d ∷ ds) =
    release_descriptor k pcb d >>= λ k'. release_descriptors k' pcb ds

-- The parent waits for this process: it is handed the result, and the process is gone. A null entry
-- in the parent's list is dereferenced.
unfoldable pub die : Kernel → Run Kernel
unfolding release_timers release_descriptors pcb_free pcb_ptr_by_pid detach
die k =
    let self = k.running in
    let parent = (k.pcbs self).parent in
    let k1 = set_status (record k { waiting_list = detach parent k.waiting_list }) parent running in
    let self_in_parent = pcb_ptr_by_pid k1 (k1.pcbs parent).children (k1.pcbs self).pid in
    let k2 = set_pcb k1 parent (record (k1.pcbs parent) {
      children = detach self_in_parent (k1.pcbs parent).children;
      syscall_retvalue = (k1.pcbs self).pid;
    }) in
    let result = to_ptr ((k2.pcbs parent).syscall_args 1) in
    let k3 = write_int k2 result (k2.pcbs self).return_value in
    if not (has parent k.waiting_list)
    then tangled
    else if self_in_parent == null
    then fault
    else if not (can_write_int k result)
    then segfault
    else do
      k ← release_timers k3 self k3.timer_list
      k ← release_descriptors k self (k.pcbs self).descriptors
      k ← pcb_free (record k { zombie_list = detach self k.zombie_list }) self
      ok (record k { running = parent })

-- The part behind the loop over the children. A null parent is dereferenced.
unfoldable pub become_zombie : Kernel → Run Kernel
unfolding die is_listed
become_zombie k =
    let self = k.running in
    let parent = (k.pcbs self).parent in
    let k1 =
      raise (record (set_status k self zombie) { zombie_list = push_back k.zombie_list self })
        dsos_sigchld parent in
    let p = k1.pcbs parent in
    if is_listed k self
    then tangled
    else if parent == null
    then fault
    else if is_waiting p.status
        && (p.syscall_num ==ℤ dsos_call_wait)
        && ((p.syscall_args 0 ==ℤ pos 0) || (p.syscall_args 0 ==ℤ (k1.pcbs self).pid))
    then die k1
    else run_first_ready k1

-- `internal_exit`. The init process, where it has children, moves them from its list to its list
-- without end.
unfoldable pub internal_exit : Kernel → Run Kernel
unfolding reparent become_zombie wrap32
internal_exit k =
    let self = k.running in
    let k1 =
      set_pcb k self
        (record (k.pcbs self) { return_value = wrap32 ((k.pcbs self).syscall_args 0) }) in
    if k.init_pcb == null
    then fault
    else if (k.init_pcb == self) && not (is_empty (k1.pcbs self).children)
    then hang
    else become_zombie (reparent k1 (k1.pcbs self).children)
