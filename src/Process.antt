-- ===== src/Process.antt =====
-- src/disastrOS_pcb.c: the PCBs and the pointers to them, less the functions that print them.
pub mod Fork
pub mod Spawn
pub mod Wait
pub mod Exit
pub mod Sleep
pub mod Shutdown
use disastr_os_message_queue.Base.{List, [], ◌∷◌, if◌then◌else◌, ◌==◌, ℤ, pos, ◌+ℤ◌, ◌==ℤ◌}
use disastr_os_message_queue.PoolAllocator.{Ptr, null, get_block, release_block}
use disastr_os_message_queue.Kernel.{
  Kernel, Pcb, invalid, Run, ok, ◌>>=◌, from_pool, update, set_pcb, push_back,
}

-- The fields as `PCB_alloc` sets them. Those of the last system call keep what the block held.
abbrev pub fresh_pcb : Kernel → Ptr → Pcb
fresh_pcb k pcb = record (k.pcbs pcb) {
  pid = k.last_pid;
  return_value = pos 0;
  status = invalid;
  last_fd = pos 0;
  signals = 0;
  signals_mask = 0xffff_ffff;
  descriptors = [];
  parent = null;
  timer = null;
  children = [];
}

-- `PCB_alloc`
unfoldable pub pcb_alloc : Kernel → Run (Ptr × Kernel)
pcb_alloc k = do
  (pcb, pool) ← from_pool (get_block k.pcb_pool)
  if pcb == null
      then ok (null, record k { pcb_pool = pool })
      else ok (
        pcb,
        record k {
          pcb_pool = pool;
          last_pid = k.last_pid +ℤ pos 1;
          pcbs = update k.pcbs pcb (fresh_pcb k pcb);
        },
      )

-- `PCB_free`. Its callers ignore the result.
unfoldable pub pcb_free : Kernel → Ptr → Run Kernel
pcb_free k pcb =
    if pcb == null
    then ok k
    else do (pool, _) ← from_pool (release_block k.pcb_pool pcb); ok (record k { pcb_pool = pool })

-- `PCBPtr_alloc`
unfoldable pub pcb_ptr_alloc : Kernel → Ptr → Run (Ptr × Kernel)
pcb_ptr_alloc k pcb = do
  (pcb_ptr, pool) ← from_pool (get_block k.pcb_ptr_pool)
  if pcb_ptr == null
      then ok (null, record k { pcb_ptr_pool = pool })
      else ok (pcb_ptr, record k { pcb_ptr_pool = pool; pcb_ptrs = update k.pcb_ptrs pcb_ptr pcb })

-- `PCBPtr_free`. Its callers ignore the result.
unfoldable pub pcb_ptr_free : Kernel → Ptr → Run Kernel
pcb_ptr_free k pcb_ptr = if pcb_ptr == null then ok k else do
  (pool, _) ← from_pool (release_block k.pcb_ptr_pool pcb_ptr)
  ok (record k { pcb_ptr_pool = pool })

-- `PCBPtr_byPID`
unfoldable pub pcb_ptr_by_pid : Kernel → List Ptr → (pid : ℤ) → Ptr
pcb_ptr_by_pid k [] pid = null
pcb_ptr_by_pid k (p ∷ ps) pid =
    let rest = pcb_ptr_by_pid k ps pid in if (k.pcbs (k.pcb_ptrs p)).pid ==ℤ pid then p else rest

-- The new process `child` of the process that runs, with `child_ptr` its entry among the children.
abbrev pub adopt : Kernel → (child child_ptr : Ptr) → Kernel
adopt k child child_ptr =
    set_pcb k k.running
      (record (k.pcbs k.running) { children = push_back (k.pcbs k.running).children child_ptr })
