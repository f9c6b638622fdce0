-- ===== src/Process/Spawn.antt =====
-- src/disastrOS_spawn.c, less the context that the new process starts in.
pub mod Spec
use disastr_os_message_queue.Base.{[], ◌∷◌, if◌then◌else◌, ◌==◌, pos}
use disastr_os_message_queue.Constants.{dsos_espawn}
use disastr_os_message_queue.PoolAllocator.{null}
use disastr_os_message_queue.Kernel.{
  Kernel, ready, Run, ok, fault, ◌>>=◌, set_pcb, set_retvalue, push_back,
}
use disastr_os_message_queue.Process.{pcb_alloc, pcb_ptr_alloc, adopt}

-- `internal_spawn`
unfoldable pub internal_spawn : Kernel → Run Kernel
unfolding pcb_alloc pcb_ptr_alloc
internal_spawn k = do
  (new_pcb, k) ← pcb_alloc k
  if new_pcb == null then ok (set_retvalue k k.running dsos_espawn) else do
    let child = record (k.pcbs new_pcb) {
      status = ready;
      descriptors = [];
      last_fd = pos 0;
      timer = null;
      parent = k.running;
    }
    (new_pcb_ptr, k) ← pcb_ptr_alloc (set_pcb k new_pcb child) new_pcb
    if new_pcb_ptr == null
        then fault
        else (let k1 = adopt k new_pcb new_pcb_ptr in
            ok (
              set_retvalue (record k1 { ready_list = push_back k1.ready_list new_pcb }) k1.running
                (k1.pcbs new_pcb).pid))
