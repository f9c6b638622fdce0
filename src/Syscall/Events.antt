-- ===== src/Syscall/Events.antt =====
-- Sequences of system calls and timer interrupts.
use disastr_os_message_queue.Base.{
  ℕ, ◌≡◌, refl, true, Bool, List, [], ◌∷◌, arith, ℤ, pos, negsuc, leb_ℤ, ==_refl, Bool-cases,
  Option-cases, inl, inr, ◌&&◌, int_add,
}
use disastr_os_message_queue.Constants.{dsos_max_syscalls}
use disastr_os_message_queue.PoolAllocator.{Ptr}
use disastr_os_message_queue.Kernel.{Kernel, Run, ok, ◌>>=◌}
use disastr_os_message_queue.Kernel.Returns.{Settles, Settles-bind}
use disastr_os_message_queue.Schedule.Order.{internal_schedule-Settles}
use disastr_os_message_queue.Syscall.{
  Handler, preempt, fork, wait, exit, spawn, sleep, open_resource, close_resource, destroy_resource,
  shutdown, mq_create, mq_send, mq_receive, mq_destroy, syscall_vector, disastr_os_syscall,
  timer_interrupt,
}
use disastr_os_message_queue.Base.{sym, ◌∙◌, subst, ap}
use disastr_os_message_queue.Kernel.{set_pcb}
use disastr_os_message_queue.Kernel.Links.{links_of-update}
use disastr_os_message_queue.Schedule.{internal_schedule}
use disastr_os_message_queue.Schedule.Links.{internal_schedule-Keeps}
use disastr_os_message_queue.Resource.Linked.{IsLinked, IsWired}
use disastr_os_message_queue.Resource.Open.Total.{IsBoth}
use disastr_os_message_queue.Syscall.{num_args, copy_args, syscall_numarg}
use disastr_os_message_queue.Syscall.Handlers.{
  is_plain, is_plain_call, kept_total, disastr_os_trap_total,
}

-- What happens to the kernel: the process that runs makes a call, a timer tick comes, or processes
-- write to memory.
pub data Event : Type 0 where
  call : (syscall_num : ℤ) → (syscall_args : ℕ → ℤ) → Event
  tick : Event
  compute : (memory : Ptr → ℕ) → Event

-- What the kernel does then.
unfoldable pub step : Event → Kernel → Run Kernel
unfolding disastr_os_syscall timer_interrupt
step (call num args) k = disastr_os_syscall k num args
step tick k = timer_interrupt k
step (compute memory) k = ok (record k { memory = memory })

unfoldable pub run_events : List Event → Kernel → Run Kernel
unfolding step
run_events [] k = ok k
run_events (e ∷ es) k = step e k >>= run_events es

abbrev pub are_plain : List Event → Bool
are_plain [] = true
are_plain (call num args ∷ es) = is_plain_call num args && are_plain es
are_plain (tick ∷ es) = are_plain es
are_plain (compute memory ∷ es) = are_plain es

-- The arguments that a handler does not take do not count.
is_plain-copy_args :
    (h : Handler) (args old : ℕ → ℤ)
    → is_plain h (copy_args (syscall_numarg h) args old) ≡ is_plain h args
is_plain-copy_args preempt args old = refl
is_plain-copy_args fork args old = refl
is_plain-copy_args wait args old = refl
is_plain-copy_args exit args old = refl
is_plain-copy_args spawn args old = refl
is_plain-copy_args sleep args old = refl
is_plain-copy_args open_resource args old = refl
is_plain-copy_args close_resource args old = refl
is_plain-copy_args destroy_resource args old = refl
is_plain-copy_args shutdown args old = refl
is_plain-copy_args mq_create args old = refl
is_plain-copy_args mq_send args old = refl
is_plain-copy_args mq_receive args old = refl
is_plain-copy_args mq_destroy args old = refl

is_plain_call-copy_args :
    (n : ℕ) (args old : ℕ → ℤ)
    → is_plain_call (pos n) (copy_args (num_args n) args old) ≡ is_plain_call (pos n) args
is_plain_call-copy_args n args old = elim (Option-cases (syscall_vector n)) [
  | inl missing ↦ rw (missing, is_plain_call)
  | inr (h, found) ↦
      let taken : num_args n ≡ syscall_numarg h = rw (found, num_args) refl in
      rw (found, is_plain_call)
        (ap (λ (m : ℕ). is_plain h (copy_args m args old)) taken ∙ is_plain-copy_args h args old)
]

disastr_os_syscall_total :
    (k : Kernel) (num : ℤ) (args : ℕ → ℤ)
    → is_plain_call num args ≡ true
    → IsBoth k
    → Settles IsBoth (disastr_os_syscall k num args)
unfolding disastr_os_syscall
disastr_os_syscall_total k (negsuc n) args p both = rw both.1.alive (inl (k, refl, both))
disastr_os_syscall_total k (pos n) args p both =
    elim (Bool-cases (leb_ℤ dsos_max_syscalls (pos n))) [
      | inl outside ↦ rw (both.1.alive, outside) (inl (k, refl, both))
      | inr inside ↦
          let caller = k.pcbs k.running in
          let pcb = record caller {
            syscall_num = pos n;
            syscall_args = copy_args (num_args n) args caller.syscall_args;
          } in
          let called = set_pcb k k.running pcb in
          let plain = is_plain_call-copy_args n args caller.syscall_args ∙ p in
          let linked : IsLinked called =
            subst IsWired (sym (links_of-update k k.running pcb refl)) both.0 in
          rw (both.1.alive, inside)
            (disastr_os_trap_total called (rw (==_refl k.running) plain) (linked, both.1))
    ]

step_total :
    (e : Event) (k : Kernel) → are_plain (e ∷ []) ≡ true → IsBoth k → Settles IsBoth (step e k)
unfolding step timer_interrupt
step_total (call num args) k p both = disastr_os_syscall_total k num args (ground (arith, p)) both
step_total tick k p (v, w) =
    let k1 = record k { time = int_add k.time (pos 1) } in
    kept_total k1 (internal_schedule k1) v (internal_schedule-Keeps k1)
      (internal_schedule-Settles k1 w)
step_total (compute memory) k p both = inl (record k { memory = memory }, refl, both)

are_plain-cons :
    (e : Event) (es : List Event)
    → are_plain (e ∷ es) ≡ true
    → (are_plain (e ∷ []) ≡ true) × (are_plain es ≡ true)
are_plain-cons (call num args) es p = (ground (arith, p), ground (arith, p))
are_plain-cons tick es p = (refl, p)
are_plain-cons (compute memory) es p = (refl, p)

-- From a kernel whose stores and links are in order and where a process runs, any sequence of timer
-- ticks, writes to memory and system calls that sleep, preempt, shut down, create a queue, send,
-- receive, open, close or destroy a resource, with any arguments except those of an open that creates
-- a resource with the type of queues, or whose number is none of the kernel's, does one of two
-- things. It runs to its end, apart from what it prints with no failed assertion and no access outside an allocator or through a
-- null pointer of the kernel, and leaves the stores and links in order. Or it is stopped at a copy from or
-- to an address that the program may not use, or at a process that would be in two lists.
pub run_events_total :
    (es : List Event) (k : Kernel)
    → are_plain es ≡ true
    → IsBoth k
    → Settles IsBoth (run_events es k)
unfolding run_events
run_events_total [] k p both = inl (k, refl, both)
run_events_total (e ∷ es) k p both =
    let (now, later) = are_plain-cons e es p in
    Settles-bind (step e k) (run_events es) (step_total e k now both)
      λ k1 both1. run_events_total es k1 later both1
