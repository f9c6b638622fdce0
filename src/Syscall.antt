-- ===== src/Syscall.antt =====
-- src/disastrOS.c: the vector of system calls and its dispatch. The save and the restore of the
-- processor's context belong to <ucontext.h>.
pub mod Calls
pub mod Events
pub mod Handlers
pub mod Start
pub mod Ticks
use disastr_os_message_queue.Base.{
  ℕ, zero, suc, Option, none, some, List, [], ◌∷◌, ◌||◌, if◌then◌else◌, ◌==◌, ℤ, pos, negsuc, ltb_ℤ,
  leb_ℤ, int_add, get_elem?, ltb,
}
use disastr_os_message_queue.Constants.{
  dsos_esyscall_not_implemented, dsos_esyscall_out_of_range, dsos_max_syscalls,
}
use disastr_os_message_queue.PoolAllocator.{null}
use disastr_os_message_queue.Kernel.{Kernel, Run, ok, fault, ◌>>=◌, set_pcb, set_retvalue}
use disastr_os_message_queue.Schedule.{internal_schedule, internal_preempt}
use disastr_os_message_queue.Process.Fork.{internal_fork}
use disastr_os_message_queue.Process.Spawn.{internal_spawn}
use disastr_os_message_queue.Process.Wait.{internal_wait}
use disastr_os_message_queue.Process.Exit.{internal_exit}
use disastr_os_message_queue.Process.Sleep.{internal_sleep}
use disastr_os_message_queue.Process.Shutdown.{internal_shutdown}
use disastr_os_message_queue.Resource.Open.{internal_open_resource}
use disastr_os_message_queue.Resource.Close.{internal_close_resource}
use disastr_os_message_queue.Resource.Remove.{internal_destroy_resource}
use disastr_os_message_queue.MessageQueue.Create.{internal_mq_create}
use disastr_os_message_queue.MessageQueue.Send.{internal_mq_send}
use disastr_os_message_queue.MessageQueue.Receive.{internal_mq_receive}
use disastr_os_message_queue.MessageQueue.Destroy.{internal_mq_destroy}

-- The handlers, by the numbers `DSOS_CALL_…`.
pub data Handler : Type 0 where
  preempt fork wait exit spawn sleep open_resource close_resource destroy_resource shutdown
        mq_create mq_send mq_receive mq_destroy :
      Handler

-- `syscall_vector`, as `disastrOS_start` fills it: the entries from 1 on. The others are null.
abbrev registered : List Handler
registered =
    preempt ∷ fork ∷ wait ∷ exit ∷ spawn ∷ sleep ∷ open_resource ∷ close_resource ∷ destroy_resource
    ∷ shutdown ∷ mq_create ∷ mq_send ∷ mq_receive ∷ mq_destroy ∷ []

abbrev pub syscall_vector : ℕ → Option Handler
syscall_vector zero = none
syscall_vector (suc n) = get_elem? registered n

-- `syscall_numarg`
abbrev pub syscall_numarg : Handler → ℕ
syscall_numarg preempt = 0
syscall_numarg fork = 0
syscall_numarg wait = 2
syscall_numarg exit = 1
syscall_numarg spawn = 2
syscall_numarg sleep = 1
syscall_numarg open_resource = 3
syscall_numarg close_resource = 1
syscall_numarg destroy_resource = 1
syscall_numarg shutdown = 0
syscall_numarg mq_create = 2
syscall_numarg mq_send = 3
syscall_numarg mq_receive = 3
syscall_numarg mq_destroy = 1

abbrev pub run_handler : Handler → Kernel → Run Kernel
run_handler preempt = internal_preempt
run_handler fork = internal_fork
run_handler wait = internal_wait
run_handler exit = internal_exit
run_handler spawn = internal_spawn
run_handler sleep = internal_sleep
run_handler open_resource = internal_open_resource
run_handler close_resource = internal_close_resource
run_handler destroy_resource = internal_destroy_resource
run_handler shutdown = internal_shutdown
run_handler mq_create = internal_mq_create
run_handler mq_send = internal_mq_send
run_handler mq_receive = internal_mq_receive
run_handler mq_destroy = internal_mq_destroy

-- `disastrOS_trap` behind its first line: the number is tested and the handler runs.
unfoldable pub dispatch : Kernel → (syscall_num : ℤ) → Run Kernel
dispatch k (negsuc n) = ok (set_retvalue k k.running dsos_esyscall_out_of_range)
dispatch k (pos n) =
    if leb_ℤ dsos_max_syscalls (pos n)
    then ok (set_retvalue k k.running dsos_esyscall_out_of_range)
    else elim (syscall_vector n) [
      | none ↦ ok (set_retvalue k k.running dsos_esyscall_not_implemented)
      | some h ↦ run_handler h k
    ]

-- `disastrOS_trap`, from the number in the PCB to the return to the process that runs then.
unfoldable pub disastr_os_trap : Kernel → Run Kernel
unfolding dispatch
disastr_os_trap k = dispatch k (k.pcbs k.running).syscall_num

-- The number of arguments that a call copies. An entry that `disastrOS_start` does not fill is 0.
abbrev pub num_args : ℕ → ℕ
num_args n = elim (syscall_vector n) [ none ↦ 0 | some h ↦ syscall_numarg h ]

-- The arguments in the PCB, once the first `n` are those of the call.
abbrev pub copy_args : (n : ℕ) (args old : ℕ → ℤ) → ℕ → ℤ
copy_args n args old i = if ltb i n then args i else old i

-- `disastrOS_syscall` up to the return from the trap, with its assertion. A number out of range
-- changes nothing: its error is returned to the caller directly.
unfoldable pub disastr_os_syscall : Kernel → (num : ℤ) → (args : ℕ → ℤ) → Run Kernel
disastr_os_syscall k (negsuc n) args = if k.running == null then fault else ok k
disastr_os_syscall k (pos n) args =
    let caller = k.pcbs k.running in
    if k.running == null
    then fault
    else if leb_ℤ dsos_max_syscalls (pos n)
    then ok k
    else disastr_os_trap (
        set_pcb k k.running (record caller {
          syscall_num = pos n;
          syscall_args = copy_args (num_args n) args caller.syscall_args;
        }))

-- `timerInterrupt`: one tick, and the scheduler.
unfoldable pub timer_interrupt : Kernel → Run Kernel
unfolding internal_schedule int_add
timer_interrupt k = internal_schedule (record k { time = int_add k.time (pos 1) })
