-- ===== src/Syscall/Handlers.antt =====
-- The handlers of system calls that keep the kernel in order, and the trap.
use disastr_os_message_queue.Base.{
  ℕ, ◌≡◌, refl, true, false, Bool, none, some, arith, ℤ, pos, negsuc, leb_ℤ, Bool-cases,
  Option-cases, inl, inr, wrap32,
}
use disastr_os_message_queue.Constants.{dsos_max_syscalls}
use disastr_os_message_queue.Kernel.{Kernel, Run}
use disastr_os_message_queue.Kernel.Returns.{Returns-and, Returns, Settles}
use disastr_os_message_queue.Kernel.Invariant.{IsKernel}
use disastr_os_message_queue.Schedule.{internal_preempt}
use disastr_os_message_queue.Schedule.Order.{internal_schedule-Settles}
use disastr_os_message_queue.Process.Sleep.{internal_sleep}
use disastr_os_message_queue.Process.Shutdown.{internal_shutdown}
use disastr_os_message_queue.MessageQueue.Create.Total.{internal_mq_create_total}
use disastr_os_message_queue.MessageQueue.Send.Total.{internal_mq_send_total}
use disastr_os_message_queue.MessageQueue.Receive.Total.{internal_mq_receive_total}
use disastr_os_message_queue.Syscall.{
  Handler, preempt, fork, wait, exit, spawn, sleep, open_resource, close_resource, destroy_resource,
  shutdown, mq_create, mq_send, mq_receive, mq_destroy, syscall_vector, run_handler, dispatch,
  disastr_os_trap,
}
use disastr_os_message_queue.Constants.{dsos_esyscall_out_of_range, dsos_esyscall_not_implemented}
use disastr_os_message_queue.Kernel.{set_retvalue}
use disastr_os_message_queue.Kernel.Links.{links_of, Keeps}
use disastr_os_message_queue.Schedule.Links.{internal_schedule-Keeps}
use disastr_os_message_queue.Process.Sleep.Links.{internal_sleep-Keeps}
use disastr_os_message_queue.Process.Sleep.Total.{internal_sleep_total}
use disastr_os_message_queue.MessageQueue.Create.Linked.{internal_mq_create-IsLinked}
use disastr_os_message_queue.MessageQueue.Send.{internal_mq_send}
use disastr_os_message_queue.MessageQueue.Receive.{internal_mq_receive}
use disastr_os_message_queue.MessageQueue.Create.{internal_mq_create}
use disastr_os_message_queue.MessageQueue.Send.Links.{internal_mq_send-Keeps}
use disastr_os_message_queue.MessageQueue.Receive.Links.{internal_mq_receive-Keeps}
use disastr_os_message_queue.Resource.Linked.{IsLinked, Keeps-IsLinked}
use disastr_os_message_queue.Resource.Open.Total.{
  IsBoth, refuse_total, is_plain_open, internal_open_resource_total,
}
use disastr_os_message_queue.Resource.Close.Spec.{internal_close_resource_total}
use disastr_os_message_queue.Resource.Remove.{internal_destroy_resource}
use disastr_os_message_queue.Resource.Remove.Total.{internal_destroy_resource_total}

-- A run that keeps the stores in order, unless it is stopped, and leaves the links alone.
pub kept_total :
    (k : Kernel) (r : Run Kernel)
    → IsLinked k
    → Keeps (links_of k) r
    → Settles IsKernel r
    → Settles IsBoth r
kept_total k r v keeps (inl (k', ran, w)) = inl (k', ran, (Keeps-IsLinked k keeps v k' ran, w))
kept_total k r v keeps (inr stopped) = inr stopped

first_of_both :
    {A : Type 0} {P Q : A → Type 0} (r : Run A) → Returns (λ a. P a × Q a) r → Returns P r
first_of_both r (a, ran, (p, q)) = (a, ran, p)

-- The calls that neither make nor end processes nor destroy queues, and do not open a resource that
-- claims to be a queue.
abbrev pub is_plain : Handler → (syscall_args : ℕ → ℤ) → Bool
is_plain preempt args = true
is_plain sleep args = true
is_plain shutdown args = true
is_plain mq_create args = true
is_plain mq_send args = true
is_plain mq_receive args = true
is_plain open_resource args = is_plain_open (wrap32 (args 1)) (wrap32 (args 2))
is_plain close_resource args = true
is_plain destroy_resource args = true
is_plain _ args = false

run_handler_total :
    (h : Handler) (k : Kernel)
    → is_plain h (k.pcbs k.running).syscall_args ≡ true
    → IsBoth k
    → Settles IsBoth (run_handler h k)
unfolding internal_preempt internal_shutdown
run_handler_total preempt k p (v, w) =
    kept_total k (internal_preempt k) v (internal_schedule-Keeps k) (internal_schedule-Settles k w)
run_handler_total sleep k p (v, w) =
    kept_total k (internal_sleep k) v (internal_sleep-Keeps k) (internal_sleep_total k w)
run_handler_total shutdown k p both = inl (_, refl, both)
run_handler_total mq_create k p (v, w) = inl (
    Returns-and (internal_mq_create k) (internal_mq_create-IsLinked k v)
      (internal_mq_create_total k w))
run_handler_total mq_send k p (v, w) =
    kept_total k (internal_mq_send k) v (internal_mq_send-Keeps k) (internal_mq_send_total k w)
run_handler_total mq_receive k p (v, w) =
    kept_total k (internal_mq_receive k) v (internal_mq_receive-Keeps k)
      (internal_mq_receive_total k w)
run_handler_total open_resource k p both = inl (internal_open_resource_total k p both)
run_handler_total close_resource k p (v, w) =
    let (k', ran, (v', w', what)) = internal_close_resource_total k v w in inl (k', ran, (v', w'))
run_handler_total destroy_resource k p both =
    inl (first_of_both (internal_destroy_resource k) (internal_destroy_resource_total k both))
run_handler_total fork k p both = absurd (ground arith)
run_handler_total wait k p both = absurd (ground arith)
run_handler_total exit k p both = absurd (ground arith)
run_handler_total spawn k p both = absurd (ground arith)
run_handler_total mq_destroy k p both = absurd (ground arith)

-- A number that is out of range, that has no handler, or whose handler is one of these.
abbrev pub is_plain_call : ℤ → (syscall_args : ℕ → ℤ) → Bool
is_plain_call (negsuc n) args = true
is_plain_call (pos n) args = elim (syscall_vector n) [ none ↦ true | some h ↦ is_plain h args ]

-- A dispatch neither faults nor hangs, and keeps the invariants unless it is stopped.
dispatch_total :
    (k : Kernel) (num : ℤ)
    → is_plain_call num (k.pcbs k.running).syscall_args ≡ true
    → IsBoth k
    → Settles IsBoth (dispatch k num)
unfolding dispatch
dispatch_total k (negsuc n) p both = inl (
  set_retvalue k k.running dsos_esyscall_out_of_range,
  refl,
  refuse_total k k.running dsos_esyscall_out_of_range both,
)
dispatch_total k (pos n) p both = elim (Bool-cases (leb_ℤ dsos_max_syscalls (pos n))) [
  | inl outside ↦ inl (
    set_retvalue k k.running dsos_esyscall_out_of_range,
    rw outside refl,
    refuse_total k k.running dsos_esyscall_out_of_range both,
  )
  | inr inside ↦ elim (Option-cases (syscall_vector n)) [
    | inl missing ↦ inl (
      set_retvalue k k.running dsos_esyscall_not_implemented,
      rw (inside, missing) refl,
      refuse_total k k.running dsos_esyscall_not_implemented both,
    )
    | inr (h, found) ↦ rw (inside, found) (run_handler_total h k (ground (arith, p)) both)
  ]
]

pub disastr_os_trap_total :
    (k : Kernel)
    → is_plain_call (k.pcbs k.running).syscall_num (k.pcbs k.running).syscall_args ≡ true
    → IsBoth k
    → Settles IsBoth (disastr_os_trap k)
unfolding disastr_os_trap
disastr_os_trap_total k p both = dispatch_total k (k.pcbs k.running).syscall_num p both
