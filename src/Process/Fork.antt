-- ===== src/Process/Fork.antt =====
-- src/disastrOS_fork.c
use disastr_os_message_queue.Base.{List, [], ◌∷◌, if◌then◌else◌, ◌==◌, ◌+ℤ◌}
use disastr_os_message_queue.Constants.{dsos_espawn}
use disastr_os_message_queue.PoolAllocator.{Ptr, null}
use disastr_os_message_queue.Kernel.{
  Kernel, ready, Run, ok, fault, ◌>>=◌, set_pcb, set_retvalue, push_back,
}
use disastr_os_message_queue.Process.{pcb_alloc, pcb_ptr_alloc, adopt}
use disastr_os_message_queue.Resource.{descriptor_alloc, descriptor_ptr_alloc, link_descriptor}

-- One round of the loop over the descriptors: the child gets a copy of `parent_des`.
unfoldable pub copy_descriptor : Kernel → (child parent_des : Ptr) → Run Kernel
unfolding descriptor_alloc descriptor_ptr_alloc ◌+ℤ◌
copy_descriptor k child parent_des =
    let res = (k.descriptors parent_des).resource in
    do
      (child_des, k) ← descriptor_alloc k (k.descriptors parent_des).fd res child
      if child_des == null then fault else do
        (child_desptr, k) ← descriptor_ptr_alloc k child_des
        if child_desptr == null
            then fault
            else ok (link_descriptor k child res child_des child_desptr)

-- The loop.
unfoldable pub copy_descriptors : Kernel → (child : Ptr) → List Ptr → Run Kernel
unfolding copy_descriptor
copy_descriptors k child [] = ok k
copy_descriptors k child (d ∷ ds) = copy_descriptor k child d >>= λ k'. copy_descriptors k' child ds

-- `internal_fork`
unfoldable pub internal_fork : Kernel → Run Kernel
unfolding pcb_alloc pcb_ptr_alloc copy_descriptors
internal_fork k = do
  (new_pcb, k) ← pcb_alloc k
  if new_pcb == null then ok (set_retvalue k k.running dsos_espawn) else do
    let child = record (k.pcbs new_pcb) { status = ready; parent = k.running }
    (new_pcb_ptr, k) ← pcb_ptr_alloc (set_pcb k new_pcb child) new_pcb
    if new_pcb_ptr == null then fault else do
      let k1 = adopt k new_pcb new_pcb_ptr
      k ← copy_descriptors k1 new_pcb (k1.pcbs k1.running).descriptors
      let k2 = set_retvalue k k.running (k.pcbs new_pcb).pid
      ok (record k2 { ready_list = push_back k2.ready_list new_pcb })
