-- ===== src/Process/Wait/Met.antt =====
-- A process waits for its child, which then exits.
use disastr_os_message_queue.Base.{
  ◌≡◌, refl, ap, sym, ◌∙◌, true, false, ◌||◌, List, ◌∷◌, arith, ℕ, ℤ, pos, ◌==ℤ◌, ◌==◌, ==_refl,
  eq_of_==, Bool-cases, inl, inr, has, has-append, detach, detach-append, wrap32, [], ◌+◌,
}
use disastr_os_message_queue.Constants.{dsos_call_wait, dsos_call_exit}
use disastr_os_message_queue.PoolAllocator.{Ptr, null, PoolAllocator}
use disastr_os_message_queue.Kernel.{
  Kernel, Pcb, running, waiting, ok, update, push_back, write_int, can_write_int, is_waiting,
  is_running, to_ptr,
}
use disastr_os_message_queue.Kernel.Invariant.{HasPool}
use disastr_os_message_queue.Kernel.Update.{ap2}
use disastr_os_message_queue.Process.{pcb_ptr_by_pid}
use disastr_os_message_queue.Process.Wait.{is_zombie, awaited_ptr, internal_wait}
use disastr_os_message_queue.Process.Wait.Spec.{pid_of}
use disastr_os_message_queue.Process.Exit.{internal_exit}
use disastr_os_message_queue.Process.Exit.Die.{pcb_ptr_by_pid-same}
use disastr_os_message_queue.Process.Exit.Spec.{IsAwaited, IsBare, exited, internal_exit-exited}
use disastr_os_message_queue.Process.Wait.Blocked.{blocked, internal_wait-blocked}
use disastr_os_message_queue.Kernel.Order.{listed, is_listed, is_orderly}
use disastr_os_message_queue.Kernel.Order.Count.{
  once, count, count-append, count-listed, none_of_count, is_orderly-IsOrdered, running_unlisted,
}

-- The process that runs waits for its child `c`, or for any, whose entry is `q`. The child is alive, is
-- the next to run, and has no children, descriptors or timers. The lists are in order, and the value goes
-- to no address or to one that the program may use.
pub record Meets (k : Kernel) (c q : Ptr) (first : Ptr) (others rest : List Ptr) : Type 0 where
  pub started : (k.init_pcb == null) ≡ false
  pub apart : (c == k.running) ≡ false
  pub has_parent : (k.running == null) ≡ false
  pub calls : (k.pcbs k.running).syscall_num ≡ dsos_call_wait
  pub awaits :
      (((k.pcbs k.running).syscall_args 0 ==ℤ pos 0)
        || ((k.pcbs k.running).syscall_args 0 ==ℤ (k.pcbs c).pid))
      ≡ true
  pub children : (k.pcbs k.running).children ≡ first ∷ others
  pub entry : pcb_ptr_by_pid k (k.pcbs k.running).children (k.pcbs c).pid ≡ q
  pub entered : (q == null) ≡ false
  pub stops_at : (k.pcb_ptrs (awaited_ptr k (pid_of k) null (first ∷ others)) == null) ≡ false
  pub alive :
      is_zombie (k.pcbs (k.pcb_ptrs (awaited_ptr k (pid_of k) null (first ∷ others)))).status
      ≡ false
  pub queued : k.ready_list ≡ c ∷ rest
  pub parent : (k.pcbs c).parent ≡ k.running
  pub bare : IsBare k c
  pub awake : has k.running k.waiting_list ≡ false
  pub undead : has c k.zombie_list ≡ false
  pub runs : (k.pcbs k.running).status ≡ running
  pub orderly : is_orderly k ≡ true
  pub writable : can_write_int k (to_ptr ((k.pcbs k.running).syscall_args 1)) ≡ true

-- The child's PCB, and the kernel, once it has made its call with these arguments.
abbrev exit_pcb : Kernel → (c : Ptr) → (ℕ → ℤ) → Pcb
exit_pcb k c args = record (k.pcbs c) {
  status = running;
  syscall_num = dsos_call_exit;
  syscall_args = args;
}

abbrev pub called_exit : Kernel → (c : Ptr) → (rest : List Ptr) → (args : ℕ → ℤ) → Kernel
called_exit k c rest args = record (blocked k c rest) {
  pcbs =
      update (update k.pcbs k.running (record (k.pcbs k.running) { status = waiting })) c
        (exit_pcb k c args);
}

-- How a kernel differs from one where the process that runs began to wait, when it runs again.
pub record Met (k : Kernel) (c q : Ptr) (rest : List Ptr) (args : ℕ → ℤ) (k' : Kernel)
    : Type 0 where
  pub runs : k'.running ≡ k.running
  pub result : (k'.pcbs k.running).syscall_retvalue ≡ (k.pcbs c).pid
  pub status : (k'.pcbs k.running).status ≡ running
  pub children : (k'.pcbs k.running).children ≡ detach q (k.pcbs k.running).children
  pub memory :
      k'.memory
      ≡ (write_int k (to_ptr ((k.pcbs k.running).syscall_args 1)) (wrap32 (args 0))).memory
  pub waiting_list : k'.waiting_list ≡ k.waiting_list
  pub zombie_list : k'.zombie_list ≡ k.zombie_list
  pub ready_list : k'.ready_list ≡ rest
  pub pcb_ptr_pool : k'.pcb_ptr_pool ≡ k.pcb_ptr_pool

module _ (k : Kernel) (c q first : Ptr) (others rest : List Ptr) (args : ℕ → ℤ)
    (m : Meets k c q first others rest) where
  abbrev waiter : Ptr
  waiter = k.running

  abbrev caller : Pcb
  caller = exit_pcb k c args

  abbrev leaving : Kernel
  leaving = called_exit k c rest args

  leaving-child : leaving.pcbs c ≡ caller
  leaving-child = rw (==_refl c) refl

  leaving-waiter : leaving.pcbs waiter ≡ record (k.pcbs waiter) { status = waiting }
  leaving-waiter =
      let other : (waiter == c) ≡ false = ground (arith, m.apart, eq_of_== waiter c, ==_refl c) in
      rw (other, ==_refl waiter) refl

  leaving-parent : (leaving.pcbs c).parent ≡ waiter
  leaving-parent = ap (λ (x : Pcb). x.parent) leaving-child ∙ m.parent

  leaving-above : leaving.pcbs (leaving.pcbs c).parent ≡ record (k.pcbs waiter) { status = waiting }
  leaving-above = ap leaving.pcbs leaving-parent ∙ leaving-waiter

  leaving-pid : (p : Ptr) → (leaving.pcbs p).pid ≡ (k.pcbs p).pid
  leaving-pid p = elim (Bool-cases (p == c)) [
    | inl at_c ↦ rw at_c (ap (λ (x : Ptr). (k.pcbs x).pid) (sym (eq_of_== p c at_c)))
    | inr off_c ↦ elim (Bool-cases (p == waiter)) [
      | inl at_w ↦
          rw (off_c, at_w) (ap (λ (x : Ptr). (k.pcbs x).pid) (sym (eq_of_== p waiter at_w)))
      | inr off_w ↦ rw (off_c, off_w) refl
    ]
  ]

  -- The child was in the ready list, and nowhere else.
  queued-count : (p : Ptr) → count p k.ready_list ≡ once c p + count p rest
  queued-count p = ap (count p) m.queued

  once_self : once c c ≡ 1
  once_self = rw (==_refl c) refl

  child_alive : (c == null) ≡ false
  child_alive = elim (Bool-cases (c == null)) [
    | inl nobody ↦
        let o = is_orderly-IsOrdered k m.orderly in
        let here : count c (listed k) ≡ 0 =
          ap (λ (p : Ptr). count p (listed k)) (eq_of_== c null nobody) ∙ o.no_null in
        absurd (omega (arith, count-listed k c, queued-count c, once_self, here))
    | inr somebody ↦ somebody
  ]

  child_unlisted : is_listed leaving c ≡ false
  unfolding is_listed
  child_unlisted =
      let o = is_orderly-IsOrdered k m.orderly in
      let other : once waiter c ≡ 0 =
        let off : (waiter == c) ≡ false = ground (arith, m.apart, eq_of_== waiter c, ==_refl c) in
        rw off refl in
      none_of_count c (listed leaving) (
        omega (
          arith,
          count-listed k c,
          count-listed leaving c,
          queued-count c,
          once_self,
          count-append c k.waiting_list (waiter ∷ []),
          other,
          o.apart c,
        ))

  leaving-IsAwaited : IsAwaited leaving q
  leaving-IsAwaited = record {
    started = m.started;
    apart = ap (λ (p : Ptr). c == p) leaving-parent ∙ m.apart;
    has_parent = ap (λ (p : Ptr). p == null) leaving-parent ∙ m.has_parent;
    waits = ap (λ (x : Pcb). is_waiting x.status) leaving-above;
    called = ap (λ (x : Pcb). x.syscall_num) leaving-above ∙ m.calls;
    awaits =
        ap2 (λ (x y : Pcb). (x.syscall_args 0 ==ℤ pos 0) || (x.syscall_args 0 ==ℤ y.pid))
          leaving-above leaving-child
        ∙ m.awaits;
    entry =
        ap2 (λ (x y : Pcb). pcb_ptr_by_pid leaving x.children y.pid) leaving-above leaving-child
        ∙ pcb_ptr_by_pid-same k leaving (k.pcbs waiter).children (k.pcbs c).pid leaving-pid refl
        ∙ m.entry;
    exists = m.entered;
    alive = child_alive;
    unlisted = child_unlisted;
    in_waiting =
        ap (λ (p : Ptr). has p (push_back k.waiting_list waiter)) leaving-parent
        ∙ ground (arith, has-append waiter k.waiting_list (waiter ∷ []), ==_refl waiter);
    writable =
        ap (λ (x : Pcb). can_write_int k (to_ptr (x.syscall_args 1))) leaving-above ∙ m.writable;
  }

  leaving-IsBare : IsBare leaving c
  leaving-IsBare = record {
    children = ap (λ (x : Pcb). x.children) leaving-child ∙ m.bare.children;
    descriptors = ap (λ (x : Pcb). x.descriptors) leaving-child ∙ m.bare.descriptors;
    untimed = m.bare.untimed;
  }

  -- What the exit leaves.
  abbrev after : PoolAllocator → Kernel
  after pool = exited leaving q pool

  after-waiter :
      (pool : PoolAllocator) → (after pool).pcbs waiter ≡ (after pool).pcbs (leaving.pcbs c).parent
  after-waiter pool = ap (after pool).pcbs (sym leaving-parent)

  after-Met : (pool : PoolAllocator) → Met k c q rest args (after pool)
  after-Met pool = record {
    runs = leaving-parent;
    result =
        ap (λ (x : Pcb). x.syscall_retvalue) (after-waiter pool)
        ∙ rw (==_refl (leaving.pcbs c).parent) (leaving-pid c);
    status =
        ap (λ (x : Pcb). x.status) (after-waiter pool) ∙ rw (==_refl (leaving.pcbs c).parent) refl;
    children =
        ap (λ (x : Pcb). x.children) (after-waiter pool)
        ∙ rw (==_refl (leaving.pcbs c).parent)
            (ap (λ (x : Pcb). detach q x.children) leaving-above);
    memory =
        ap2
          (λ (x y : Pcb).
            (write_int k (to_ptr (x.syscall_args 1)) (wrap32 (y.syscall_args 0))).memory)
          leaving-above leaving-child;
    waiting_list =
        ap (λ (p : Ptr). detach p (push_back k.waiting_list waiter)) leaving-parent
        ∙ detach-append waiter k.waiting_list m.awake;
    zombie_list = detach-append c k.zombie_list m.undead;
    ready_list = refl;
    pcb_ptr_pool = refl;
  }

-- On lists in order, a process waits for its child, or for any, and asks for the value at no address or
-- at one that it may use, while the child, which is alive and has no children, descriptors or timers, is
-- the next to run. Then the wait blocks it and the child runs. When the child
-- exits, its parent runs again, with the child's pid as its result and the value stored where it
-- asked for it, and the child's entry out of its list. The lists of waiting and dead processes are as
-- they were before, and the ready list has lost the child. The entry's block is not given back.
pub internal_exit-internal_wait :
    (k : Kernel) (c q first : Ptr) (others rest : List Ptr) (args : ℕ → ℤ)
    → Meets k c q first others rest
    → HasPool k.pcb_pool
    → (internal_wait k ≡ ok (blocked k c rest))
      × (k' : Kernel) × (internal_exit (called_exit k c rest args) ≡ ok k')
      × Met k c q rest args k'
internal_exit-internal_wait k c q first others rest args m h =
    let (pool, h', ran) =
      internal_exit-exited (called_exit k c rest args) q
        (leaving-IsAwaited k c q first others rest args m)
        (leaving-IsBare k c q first others rest args m) h in
    (
      internal_wait-blocked k c rest first others m.children m.stops_at m.alive
          (running_unlisted k m.orderly (ap is_running m.runs)) m.queued,
      after k c q first others rest args m pool,
      ran,
      after-Met k c q first others rest args m pool,
    )
