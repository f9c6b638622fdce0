-- ===== src/Syscall/Calls.antt =====
-- src/disastrOS.c: the functions by which a program makes its system calls, up to the return from the
-- trap. Each passes its arguments on; a pointer arrives as its address, and an `int` as what the
-- calling convention makes of it.
pub mod Reach
use disastr_os_message_queue.Base.{
  ℕ, zero, suc, ◌≡◌, refl, List, [], ◌∷◌, ◌==◌, ==_refl, ltb, if◌then◌else◌, ℤ, pos, negsuc,
}
use disastr_os_message_queue.Constants.{
  dsos_call_preempt, dsos_call_fork, dsos_call_wait, dsos_call_exit, dsos_call_spawn,
  dsos_call_sleep, dsos_call_open_resource, dsos_call_close_resource, dsos_call_destroy_resource,
  dsos_call_shutdown, dsos_call_mq_create, dsos_call_mq_send, dsos_call_mq_receive,
  dsos_call_mq_destroy,
}
use disastr_os_message_queue.PoolAllocator.{Ptr, null}
use disastr_os_message_queue.Kernel.{Kernel, Run, set_pcb}
use disastr_os_message_queue.Syscall.{
  Handler, preempt, fork, wait, exit, spawn, sleep, open_resource, close_resource, destroy_resource,
  shutdown, mq_create, mq_send, mq_receive, mq_destroy, run_handler, syscall_numarg,
  disastr_os_syscall, disastr_os_trap, copy_args,
}

-- The arguments behind the number, in the order of the call. No call reads one that is not passed.
abbrev pub passed : List ℤ → ℕ → ℤ
passed [] i = pos 0
passed (x ∷ xs) zero = x
passed (x ∷ xs) (suc i) = passed xs i

abbrev pub disastr_os_fork : Kernel → Run Kernel
disastr_os_fork k = disastr_os_syscall k dsos_call_fork (passed [])

abbrev pub disastr_os_preempt : Kernel → Run Kernel
disastr_os_preempt k = disastr_os_syscall k dsos_call_preempt (passed [])

abbrev pub disastr_os_spawn : (f args : Ptr) → Kernel → Run Kernel
disastr_os_spawn f args k = disastr_os_syscall k dsos_call_spawn (passed (pos f ∷ pos args ∷ []))

abbrev pub disastr_os_shutdown : Kernel → Run Kernel
disastr_os_shutdown k = disastr_os_syscall k dsos_call_shutdown (passed [])

-- `disastrOS_getpid`: no system call.
abbrev pub disastr_os_getpid : Kernel → ℤ
disastr_os_getpid k = if k.running == null then negsuc 0 else (k.pcbs k.running).pid

-- The calls that a program can make, with their arguments.
pub data Call : Type 0 where
  forks preempts shuts_down : Call
  waits : (pid : ℤ) (retval : Ptr) → Call
  exits sleeps closes destroys mq_destroys : ℤ → Call
  spawns : (f args : Ptr) → Call
  opens : (resource_id type mode : ℤ) → Call
  mq_creates : (mq_id size : ℤ) → Call
  mq_sends mq_receives : (mq_id : ℤ) (buffer : Ptr) (size : ℤ) → Call

-- `as_long` gives what `va_arg(ap, long int)` reads where a program passed an `int`: the C standard
-- leaves that open, and the calling convention decides.
module _ (as_long : ℤ → ℤ) where
  abbrev pub disastr_os_wait : (pid : ℤ) (retval : Ptr) → Kernel → Run Kernel
  disastr_os_wait pid retval k =
      disastr_os_syscall k dsos_call_wait (passed (as_long pid ∷ pos retval ∷ []))

  abbrev pub disastr_os_exit : (exitval : ℤ) → Kernel → Run Kernel
  disastr_os_exit exitval k = disastr_os_syscall k dsos_call_exit (passed (as_long exitval ∷ []))

  abbrev pub disastr_os_sleep : (sleep_time : ℤ) → Kernel → Run Kernel
  disastr_os_sleep sleep_time k =
      disastr_os_syscall k dsos_call_sleep (passed (as_long sleep_time ∷ []))

  abbrev pub disastr_os_open_resource : (resource_id type mode : ℤ) → Kernel → Run Kernel
  disastr_os_open_resource resource_id type mode k =
      disastr_os_syscall k dsos_call_open_resource
        (passed (as_long resource_id ∷ as_long type ∷ as_long mode ∷ []))

  abbrev pub disastr_os_close_resource : (fd : ℤ) → Kernel → Run Kernel
  disastr_os_close_resource fd k =
      disastr_os_syscall k dsos_call_close_resource (passed (as_long fd ∷ []))

  abbrev pub disastr_os_destroy_resource : (resource_id : ℤ) → Kernel → Run Kernel
  disastr_os_destroy_resource resource_id k =
      disastr_os_syscall k dsos_call_destroy_resource (passed (as_long resource_id ∷ []))

  abbrev pub disastr_os_mq_create : (mq_id size : ℤ) → Kernel → Run Kernel
  disastr_os_mq_create mq_id size k =
      disastr_os_syscall k dsos_call_mq_create (passed (as_long mq_id ∷ as_long size ∷ []))

  abbrev pub disastr_os_mq_send : (mq_id : ℤ) (msg : Ptr) (size : ℤ) → Kernel → Run Kernel
  disastr_os_mq_send mq_id msg size k =
      disastr_os_syscall k dsos_call_mq_send (passed (as_long mq_id ∷ pos msg ∷ as_long size ∷ []))

  abbrev pub disastr_os_mq_receive : (mq_id : ℤ) (msg_buffer : Ptr) (size : ℤ) → Kernel → Run Kernel
  disastr_os_mq_receive mq_id msg_buffer size k =
      disastr_os_syscall k dsos_call_mq_receive
        (passed (as_long mq_id ∷ pos msg_buffer ∷ as_long size ∷ []))

  abbrev pub disastr_os_mq_destroy : (mq_id : ℤ) → Kernel → Run Kernel
  disastr_os_mq_destroy mq_id k =
      disastr_os_syscall k dsos_call_mq_destroy (passed (as_long mq_id ∷ []))

  -- The function that makes a call.
  unfoldable pub make_call : Call → Kernel → Run Kernel
  unfolding disastr_os_syscall
  make_call forks = disastr_os_fork
  make_call preempts = disastr_os_preempt
  make_call shuts_down = disastr_os_shutdown
  make_call (waits pid retval) = disastr_os_wait pid retval
  make_call (exits exitval) = disastr_os_exit exitval
  make_call (sleeps sleep_time) = disastr_os_sleep sleep_time
  make_call (closes fd) = disastr_os_close_resource fd
  make_call (destroys resource_id) = disastr_os_destroy_resource resource_id
  make_call (mq_destroys mq_id) = disastr_os_mq_destroy mq_id
  make_call (spawns f args) = disastr_os_spawn f args
  make_call (opens resource_id type mode) = disastr_os_open_resource resource_id type mode
  make_call (mq_creates mq_id size) = disastr_os_mq_create mq_id size
  make_call (mq_sends mq_id buffer size) = disastr_os_mq_send mq_id buffer size
  make_call (mq_receives mq_id buffer size) = disastr_os_mq_receive mq_id buffer size

  -- What a call means, without numbers: its handler, and the values in the order of its arguments.
  abbrev pub meant : Call → Handler × List ℤ
  meant forks = (fork, [])
  meant preempts = (preempt, [])
  meant shuts_down = (shutdown, [])
  meant (waits pid retval) = (wait, as_long pid ∷ pos retval ∷ [])
  meant (exits exitval) = (exit, as_long exitval ∷ [])
  meant (sleeps sleep_time) = (sleep, as_long sleep_time ∷ [])
  meant (closes fd) = (close_resource, as_long fd ∷ [])
  meant (destroys resource_id) = (destroy_resource, as_long resource_id ∷ [])
  meant (mq_destroys mq_id) = (mq_destroy, as_long mq_id ∷ [])
  meant (spawns f args) = (spawn, pos f ∷ pos args ∷ [])
  meant (opens resource_id type mode) =
      (open_resource, as_long resource_id ∷ as_long type ∷ as_long mode ∷ [])
  meant (mq_creates mq_id size) = (mq_create, as_long mq_id ∷ as_long size ∷ [])
  meant (mq_sends mq_id buffer size) = (mq_send, as_long mq_id ∷ pos buffer ∷ as_long size ∷ [])
  meant (mq_receives mq_id buffer size) =
      (mq_receive, as_long mq_id ∷ pos buffer ∷ as_long size ∷ [])
