-- ===== src/Process/Exit/Spec.antt =====
-- What internal_exit does where the parent waits.
use disastr_os_message_queue.Base.{
  ◌≡◌, refl, ap, sym, ◌∙◌, true, false, Bool, not, ◌&&◌, ◌||◌, [], arith, ℤ, pos, wrap32, ◌==ℤ◌,
  ◌==◌, ==_refl, eq_of_==, Bool-cases, inl, inr, has, detach, if◌then◌else◌,
}
use disastr_os_message_queue.Constants.{dsos_sigchld, dsos_call_wait}
use disastr_os_message_queue.PoolAllocator.{Ptr, null, PoolAllocator}
use disastr_os_message_queue.Kernel.{
  Kernel, Pcb, Run, running, zombie, ok, fault, hang, tangled, can_write_int, to_ptr, update,
  set_pcb, set_status, raise, push_back, write_int, is_waiting, run_first_ready,
}
use disastr_os_message_queue.Kernel.Invariant.{HasPool}
use disastr_os_message_queue.Kernel.Update.{update-update, ap2, ap3, ap4}
use disastr_os_message_queue.Kernel.Order.{is_listed}
use disastr_os_message_queue.Process.Wait.Spec.{Released}
use disastr_os_message_queue.MessageQueue.{is_empty}
use disastr_os_message_queue.Process.{pcb_ptr_by_pid}
use disastr_os_message_queue.Process.Exit.{reparent, die, become_zombie, internal_exit}
use disastr_os_message_queue.Process.Exit.Die.{
  IsUntimed, with_signal, raise-set_pcb, pcb_ptr_by_pid-same, parent_of, hand, handed, die-finish,
  finish-handed,
}

-- The process that runs, which is in no list, exits, and its parent waits for it in the list of those
-- that wait, with the entry `q` for it, and asks for the value at no address or at one that it may use.
pub record IsAwaited (k : Kernel) (q : Ptr) : Type 0 where
  pub started : (k.init_pcb == null) ≡ false
  pub apart : (k.running == (k.pcbs k.running).parent) ≡ false
  pub has_parent : ((k.pcbs k.running).parent == null) ≡ false
  pub waits : is_waiting (k.pcbs (k.pcbs k.running).parent).status ≡ true
  pub called : (k.pcbs (k.pcbs k.running).parent).syscall_num ≡ dsos_call_wait
  pub awaits :
      (((k.pcbs (k.pcbs k.running).parent).syscall_args 0 ==ℤ pos 0)
        || ((k.pcbs (k.pcbs k.running).parent).syscall_args 0 ==ℤ (k.pcbs k.running).pid))
      ≡ true
  pub entry :
      pcb_ptr_by_pid k (k.pcbs (k.pcbs k.running).parent).children (k.pcbs k.running).pid ≡ q
  pub exists : (q == null) ≡ false
  pub alive : (k.running == null) ≡ false
  pub unlisted : is_listed k k.running ≡ false
  pub in_waiting : has (k.pcbs k.running).parent k.waiting_list ≡ true
  pub writable : can_write_int k (to_ptr ((k.pcbs (k.pcbs k.running).parent).syscall_args 1)) ≡ true

-- It has no children, no descriptors and no timer.
pub record IsBare (k : Kernel) (p : Ptr) : Type 0 where
  pub children : (k.pcbs p).children ≡ []
  pub descriptors : (k.pcbs p).descriptors ≡ []
  pub untimed : IsUntimed k.timers p k.timer_list

module _ (k : Kernel) where
  -- The value that the process passes to its exit.
  abbrev exit_value : ℤ
  exit_value = wrap32 ((k.pcbs k.running).syscall_args 0)

  abbrev last_pcb : Pcb
  last_pcb = record (k.pcbs k.running) { return_value = exit_value; status = zombie; children = [] }

  abbrev told_pcb : Pcb
  told_pcb =
      let parent = k.pcbs (k.pcbs k.running).parent in
      record parent { signals = with_signal parent dsos_sigchld }

  -- The kernel where it is a zombie, and its parent has its signal.
  abbrev dead : Kernel
  dead = record k {
    zombie_list = push_back k.zombie_list k.running;
    pcbs = update (update k.pcbs k.running last_pcb) (k.pcbs k.running).parent told_pcb;
  }

  -- The kernel after the exit.
  abbrev pub exited : (q : Ptr) → (pcb_pool : PoolAllocator) → Kernel
  exited q pcb_pool =
      let parent = (k.pcbs k.running).parent in
      write_int
        (record k {
          waiting_list = detach parent k.waiting_list;
          zombie_list = detach k.running (push_back k.zombie_list k.running);
          pcb_pool = pcb_pool;
          running = parent;
          pcbs = update (update k.pcbs k.running last_pcb) parent (record told_pcb {
            status = running;
            children = detach q (k.pcbs parent).children;
            syscall_retvalue = (k.pcbs k.running).pid;
          });
        })
        (to_ptr ((k.pcbs parent).syscall_args 1)) exit_value

  -- Before that it has its value and no children.
  abbrev childless : Kernel
  childless = record k {
    pcbs =
        update k.pcbs k.running
          (record (k.pcbs k.running) { return_value = exit_value; children = [] });
  }

  -- The tests of the handler, on what they test.
  abbrev checked : (no_init first : Bool) → Kernel → Run Kernel
  checked no_init first k' = if no_init then fault else if first then hang else become_zombie k'

  abbrev valued : Kernel
  valued = set_pcb k k.running (record (k.pcbs k.running) { return_value = exit_value })

  valued-children : (k.pcbs k.running).children ≡ [] → (valued.pcbs k.running).children ≡ []
  valued-children e = rw (==_refl k.running) e

  internal_exit-checked :
      internal_exit k
      ≡ checked
          (k.init_pcb == null)
          ((k.init_pcb == k.running) && not (is_empty (valued.pcbs k.running).children))
          (reparent valued (valued.pcbs k.running).children)
  unfolding internal_exit
  internal_exit-checked = refl

  reparent-childless : reparent valued [] ≡ childless
  unfolding reparent
  reparent-childless =
      rw (==_refl k.running)
        (ap (λ (ps : Ptr → Pcb). record k { pcbs = ps }) (update-update k.pcbs k.running _ _))

  internal_exit-become_zombie :
      (q : Ptr) → IsAwaited k q → IsBare k k.running → internal_exit k ≡ become_zombie childless
  internal_exit-become_zombie q a b =
      let none = valued-children b.children in
      let kept : ((k.init_pcb == k.running) && not (is_empty (valued.pcbs k.running).children))
          ≡ false =
        rw none (ground arith) in
      internal_exit-checked
      ∙ ap3 checked a.started kept (ap (reparent valued) none ∙ reparent-childless)

  module _ (q : Ptr) (a : IsAwaited k q) where
    abbrev par : Ptr
    par = (k.pcbs k.running).parent

    dead_self : dead.pcbs k.running ≡ last_pcb
    dead_self = rw (a.apart, ==_refl k.running) refl

    dead_parent : dead.pcbs par ≡ told_pcb
    dead_parent = rw (==_refl par) refl

    dead-parent_of : parent_of dead ≡ par
    dead-parent_of = ap (λ (s : Pcb). s.parent) dead_self

    handed-exited : (pool : PoolAllocator) → handed dead q pool ≡ exited q pool
    handed-exited pool =
        ap3 (λ (s : Pcb) (p : Ptr) (w : Pcb). hand dead s p w q pool) dead_self dead-parent_of
          (ap dead.pcbs dead-parent_of ∙ dead_parent)
        ∙ ap (λ (ps : Ptr → Pcb). record (exited q pool) { pcbs = ps })
            (update-update (update k.pcbs k.running last_pcb) par _ _)

    -- The tests of the part behind the loop, and what is tested.
    abbrev answered : (in_list no_parent waits : Bool) → Kernel → Run Kernel
    answered in_list no_parent waits k' =
        if in_list
        then tangled
        else if no_parent
        then fault
        else if waits
        then die k'
        else run_first_ready k'

    abbrev waits_for : Pcb → (pid : ℤ) → Bool
    waits_for p pid =
        is_waiting p.status
        && (p.syscall_num ==ℤ dsos_call_wait)
        && ((p.syscall_args 0 ==ℤ pos 0) || (p.syscall_args 0 ==ℤ pid))

    abbrev buried : Kernel
    buried = record k {
      zombie_list = push_back k.zombie_list k.running;
      pcbs = update k.pcbs k.running last_pcb;
    }

    raised-dead : raise buried dsos_sigchld par ≡ dead
    raised-dead =
        let other : (par == k.running) ≡ false =
          ground (arith, a.apart, eq_of_== par k.running, ==_refl par) in
        let same : buried.pcbs par ≡ k.pcbs par = rw other refl in
        raise-set_pcb buried dsos_sigchld par
        ∙ ap (λ (p : Pcb). set_pcb buried par (record p { signals = with_signal p dsos_sigchld }))
            same

    abbrev childless_zombie : Kernel
    childless_zombie = record (set_status childless k.running zombie) {
      zombie_list = push_back k.zombie_list k.running;
    }

    childless_zombie-buried : childless_zombie ≡ buried
    childless_zombie-buried =
        rw (==_refl k.running) (
          ap (λ (ps : Ptr → Pcb). record buried { pcbs = ps }) (update-update k.pcbs k.running _ _))

    childless-parent : (childless.pcbs k.running).parent ≡ par
    childless-parent = rw (==_refl k.running) refl

    childless-is_listed : is_listed childless k.running ≡ is_listed k k.running
    unfolding is_listed
    childless-is_listed = refl

    become_zombie-answered :
        become_zombie childless
        ≡ answered
            (is_listed childless k.running)
            ((childless.pcbs k.running).parent == null)
            (waits_for
              ((raise childless_zombie dsos_sigchld (childless.pcbs k.running).parent).pcbs
                (childless.pcbs k.running).parent)
              ((raise childless_zombie dsos_sigchld (childless.pcbs k.running).parent).pcbs
                k.running).pid)
            (raise childless_zombie dsos_sigchld (childless.pcbs k.running).parent)
    unfolding become_zombie
    become_zombie-answered = refl

    raised : raise childless_zombie dsos_sigchld (childless.pcbs k.running).parent ≡ dead
    raised =
        ap2 (λ (z : Kernel) (p : Ptr). raise z dsos_sigchld p) childless_zombie-buried
          childless-parent
        ∙ raised-dead

    become_zombie-die : become_zombie childless ≡ die dead
    become_zombie-die =
        let awaited : waits_for (dead.pcbs par) (dead.pcbs k.running).pid ≡ true =
          ap2 (λ (p s : Pcb). waits_for p s.pid) dead_parent dead_self
          ∙ rw (a.waits, a.called) a.awaits in
        become_zombie-answered
        ∙ ap4 answered (childless-is_listed ∙ a.unlisted)
            (ap (λ (p : Ptr). p == null) childless-parent ∙ a.has_parent)
            (ap2 (λ (z : Kernel) (p : Ptr). waits_for (z.pcbs p) (z.pcbs k.running).pid) raised
                childless-parent
              ∙ awaited)
            raised

    dead-pid : (p : Ptr) → (dead.pcbs p).pid ≡ (k.pcbs p).pid
    dead-pid p = elim (Bool-cases (p == par)) [
      | inl at_par ↦ rw at_par (ap (λ (x : Ptr). (k.pcbs x).pid) (sym (eq_of_== p par at_par)))
      | inr off_par ↦ elim (Bool-cases (p == k.running)) [
        | inl at_self ↦
            rw (off_par, at_self)
              (ap (λ (x : Ptr). (k.pcbs x).pid) (sym (eq_of_== p k.running at_self)))
        | inr off_self ↦ rw (off_par, off_self) refl
      ]
    ]

    dead-entry :
        pcb_ptr_by_pid dead (dead.pcbs (parent_of dead)).children (dead.pcbs k.running).pid ≡ q
    dead-entry =
        ap2 (λ (w s : Pcb). pcb_ptr_by_pid dead w.children s.pid)
          (ap dead.pcbs dead-parent_of ∙ dead_parent) dead_self
        ∙ pcb_ptr_by_pid-same k dead (k.pcbs par).children (k.pcbs k.running).pid dead-pid refl
        ∙ a.entry

    dead-waits : has (parent_of dead) dead.waiting_list ≡ true
    dead-waits = ap (λ (p : Ptr). has p k.waiting_list) dead-parent_of ∙ a.in_waiting

    dead-writable : can_write_int dead (to_ptr ((dead.pcbs (parent_of dead)).syscall_args 1)) ≡ true
    dead-writable =
        ap (λ (w : Pcb). can_write_int k (to_ptr (w.syscall_args 1)))
          (ap dead.pcbs dead-parent_of ∙ dead_parent)
        ∙ a.writable

    die-exited :
        IsBare k k.running
        → HasPool k.pcb_pool
        → (pool : PoolAllocator) × Released k.pcb_pool k.running pool
          × (die dead ≡ ok (exited q pool))
    die-exited b h =
        let apart = ap (λ (p : Ptr). k.running == p) dead-parent_of ∙ a.apart in
        let closed = ap (λ (s : Pcb). s.descriptors) dead_self ∙ b.descriptors in
        let (pool, h', ran) = finish-handed dead q apart b.untimed closed a.alive h in
        (
          pool,
          h',
          die-finish dead q apart dead-entry a.exists dead-waits dead-writable
              ∙ ran
              ∙ ap ok (handed-exited pool),
        )

-- The process that runs, in no list and with no children, descriptors or timers of its own, exits, while
-- its parent waits in the waiting list for it or for any child and asks for the value at no address or at
-- one that it may use: it is gone, with its block given back, and the parent runs, out
-- of the waiting list, with the pid as its result, the value stored where it asked for it, a
-- SIGCHLD unless it masks it, and the child's entry out of its list. Nothing else changes: the block of
-- that entry, which `internal_wait` gives back, stays lent.
pub internal_exit-exited :
    (k : Kernel) (q : Ptr)
    → IsAwaited k q
    → IsBare k k.running
    → HasPool k.pcb_pool
    → (pool : PoolAllocator) × Released k.pcb_pool k.running pool
      × (internal_exit k ≡ ok (exited k q pool))
internal_exit-exited k q a b h =
    let (pool, h', ran) = die-exited k q a b h in
    (pool, h', internal_exit-become_zombie k q a b ∙ become_zombie-die k q a ∙ ran)
