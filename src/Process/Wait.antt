-- ===== src/Process/Wait.antt =====
-- src/disastrOS_wait.c
pub mod Blocked
pub mod Met
pub mod Spec
use disastr_os_message_queue.Base.{
  List, [], ◌∷◌, ◌&&◌, ◌||◌, not, if◌then◌else◌, ◌==◌, Bool, true, false, ℤ, pos, wrap32, ltb_ℤ,
  ◌==ℤ◌, detach, has,
}
use disastr_os_message_queue.Constants.{dsos_ewait}
use disastr_os_message_queue.PoolAllocator.{Ptr, null}
use disastr_os_message_queue.Kernel.{
  Kernel, ProcessStatus, zombie, waiting, Run, ok, segfault, tangled, ◌>>=◌, can_write_int, set_pcb,
  set_status, set_retvalue, push_back, to_ptr, write_int, run_first_ready,
}
use disastr_os_message_queue.Kernel.Order.{is_listed}
use disastr_os_message_queue.Process.{pcb_free, pcb_ptr_free}

abbrev pub is_zombie : ProcessStatus → Bool
is_zombie zombie = true
is_zombie _ = false

-- Whether the loop over the children stops at this process.
abbrev pub is_awaited : Kernel → (pid_to_wait : ℤ) → (pcb : Ptr) → Bool
is_awaited k pid_to_wait pcb =
    ((pid_to_wait ==ℤ pos 0) && is_zombie (k.pcbs pcb).status)
    || (not (pid_to_wait ==ℤ pos 0) && ((k.pcbs pcb).pid ==ℤ pid_to_wait))

-- The entry at which the loop stops: where none matches, the last one.
unfoldable pub awaited_ptr : Kernel → (pid_to_wait : ℤ) → (previous : Ptr) → List Ptr → Ptr
awaited_ptr k pid_to_wait previous [] = previous
awaited_ptr k pid_to_wait previous (p ∷ ps) =
    let rest = awaited_ptr k pid_to_wait p ps in
    if is_awaited k pid_to_wait (k.pcb_ptrs p) then p else rest

-- A child that has died: its entry and its PCB are freed, and its value is passed on to the
-- parent, to the address `result` if that is not null.
unfoldable pub reap : Kernel → (result awaited_pcb_ptr : Ptr) → Run Kernel
unfolding detach
reap k result awaited_pcb_ptr =
    let awaited_pcb = k.pcb_ptrs awaited_pcb_ptr in
    let parent = k.pcbs k.running in
    if not (has awaited_pcb k.zombie_list)
    then tangled
    else if not (can_write_int k result)
    then segfault
    else do
      k ←
          pcb_ptr_free
            (set_pcb k k.running
              (record parent { children = detach awaited_pcb_ptr parent.children }))
            awaited_pcb_ptr
      let k1 =
          set_retvalue (record k { zombie_list = detach awaited_pcb k.zombie_list }) k.running
            (k.pcbs awaited_pcb).pid
      let k2 = write_int k1 result (k1.pcbs awaited_pcb).return_value
      pcb_free k2 awaited_pcb

-- The part behind the tests: the caller sleeps and the first ready process runs.
unfoldable pub sleep_until_exit : Kernel → Run Kernel
unfolding is_listed
sleep_until_exit k =
    if is_listed k k.running
    then tangled
    else run_first_ready (record (set_status k k.running waiting) {
      waiting_list = push_back k.waiting_list k.running;
    })

-- `internal_wait`
unfoldable pub internal_wait : Kernel → Run Kernel
unfolding awaited_ptr wrap32 reap sleep_until_exit
internal_wait k =
    let pid_to_wait = wrap32 ((k.pcbs k.running).syscall_args 0) in
    let result = to_ptr ((k.pcbs k.running).syscall_args 1) in
    elim (k.pcbs k.running).children [
      | [] ↦ ok (set_retvalue k k.running dsos_ewait)
      | first ∷ others ↦
          let awaited_pcb_ptr = awaited_ptr k pid_to_wait null (first ∷ others) in
          let awaited_pcb = k.pcb_ptrs awaited_pcb_ptr in
          if ltb_ℤ (pos 0) pid_to_wait && awaited_pcb == null
          then ok (set_retvalue k k.running dsos_ewait)
          else if not (awaited_pcb == null) && is_zombie (k.pcbs awaited_pcb).status
          then reap k result awaited_pcb_ptr
          else sleep_until_exit k
    ]
