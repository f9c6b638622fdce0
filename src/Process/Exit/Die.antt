-- ===== src/Process/Exit/Die.antt =====
-- The end of a process whose parent waits for it.
use disastr_os_message_queue.Base.{
  ◌≡◌, refl, ap, sym, ◌∙◌, true, false, List, [], ◌∷◌, arith, ℕ, ℤ, ◌==◌, ==_refl, eq_of_==,
  Bool-cases, inl, inr, detach, has, if◌then◌else◌, has_flag, with_flag,
}
use disastr_os_message_queue.PoolAllocator.{Ptr, null, PoolAllocator}
use disastr_os_message_queue.Kernel.{
  Kernel, Pcb, Run, TimerItem, running, ok, to_ptr, update, set_pcb, set_status, raise, write_int,
  can_write_int, ◌>>=◌,
}
use disastr_os_message_queue.Kernel.Invariant.{HasPool}
use disastr_os_message_queue.Kernel.Update.{update-update, update_same}
use disastr_os_message_queue.Process.{pcb_free, pcb_ptr_by_pid}
use disastr_os_message_queue.Process.Wait.Spec.{Released, pcb_free_total}
use disastr_os_message_queue.Process.Exit.{release_timers, release_descriptors, die}

-- The search by pid reads nothing but the pids.
pub pcb_ptr_by_pid-same :
    (k k' : Kernel) (ps : List Ptr) (pid : ℤ)
    → ((p : Ptr) → (k'.pcbs p).pid ≡ (k.pcbs p).pid)
    → k'.pcb_ptrs ≡ k.pcb_ptrs
    → pcb_ptr_by_pid k' ps pid ≡ pcb_ptr_by_pid k ps pid
unfolding pcb_ptr_by_pid
pcb_ptr_by_pid-same k k' [] pid pids entries = refl
pcb_ptr_by_pid-same k k' (p ∷ ps) pid pids entries =
    rw (entries, pids (k.pcb_ptrs p), pcb_ptr_by_pid-same k k' ps pid pids entries) refl

-- No timer of process `p` is in the list.
abbrev pub IsUntimed : (Ptr → TimerItem) → (p : Ptr) → List Ptr → Type 0
IsUntimed timers p ts = (t : Ptr) → has t ts ≡ true → ((timers t).pcb == p) ≡ false

release_timers_none :
    (k : Kernel) (p : Ptr) (ts : List Ptr) → IsUntimed k.timers p ts → release_timers k p ts ≡ ok k
unfolding release_timers
release_timers_none k p [] none = refl
release_timers_none k p (t ∷ ts) none =
    rw (none t (ground (arith, ==_refl t)))
      (release_timers_none k p ts (λ u on. none u (ground arith)))

-- The signals of a process that gets one more, unless it is masked.
abbrev pub with_signal : Pcb → ℕ → ℕ
with_signal pcb signal =
    if has_flag signal pcb.signals_mask then with_flag signal pcb.signals else pcb.signals

pub raise-set_pcb :
    (k : Kernel) (signal : ℕ) (p : Ptr)
    → raise k signal p ≡ set_pcb k p (record (k.pcbs p) { signals = with_signal (k.pcbs p) signal })
raise-set_pcb k signal p = elim (Bool-cases (has_flag signal (k.pcbs p).signals_mask)) [
  | inl open_to ↦ rw open_to refl
  | inr masked ↦
      rw masked (
        ap (λ (ps : Ptr → Pcb). record k { pcbs = ps })
          (sym (update_same k.pcbs p (k.pcbs p) refl)))
]

module _ (k : Kernel) where
  -- The parent of the process that runs, and this process's entry among its children.
  abbrev pub parent_of : Ptr
  parent_of = (k.pcbs k.running).parent

  -- The kernel once the process that runs is gone, its parent, which waited for it with the
  -- entry `q`, runs, and the result is where the parent asked for it.
  abbrev pub hand : (self : Pcb) (parent : Ptr) (waiter : Pcb) (q : Ptr) → PoolAllocator → Kernel
  hand self parent waiter q pcb_pool =
      write_int
        (record k {
          waiting_list = detach parent k.waiting_list;
          zombie_list = detach k.running k.zombie_list;
          pcb_pool = pcb_pool;
          running = parent;
          pcbs = update k.pcbs parent (record waiter {
            status = running;
            children = detach q waiter.children;
            syscall_retvalue = self.pid;
          });
        })
        (to_ptr (waiter.syscall_args 1)) self.return_value

  abbrev pub handed : (q : Ptr) → (pcb_pool : PoolAllocator) → Kernel
  handed q pcb_pool = hand (k.pcbs k.running) parent_of (k.pcbs parent_of) q pcb_pool

  woken : Kernel
  woken = set_status (record k { waiting_list = detach parent_of k.waiting_list }) parent_of running

  woken-pid : (p : Ptr) → (woken.pcbs p).pid ≡ (k.pcbs p).pid
  unfolding woken
  woken-pid p = elim (Bool-cases (p == parent_of)) [
    | inl same ↦ ground (arith, eq_of_== p parent_of same)
    | inr other ↦ rw other refl
  ]

  -- What is left to do once the parent has its result.
  abbrev pub finish : Kernel → Run Kernel
  finish k3 = do
    k3 ← release_timers k3 k.running k3.timer_list
    k3 ← release_descriptors k3 k.running (k3.pcbs k.running).descriptors
    k3 ← pcb_free (record k3 { zombie_list = detach k.running k3.zombie_list }) k.running
    ok (record k3 { running = parent_of })

  abbrev pub told : (q : Ptr) → Kernel
  told q = record (handed q k.pcb_pool) { zombie_list = k.zombie_list; running = k.running }

  pub die-finish :
      (q : Ptr)
      → (k.running == parent_of) ≡ false
      → pcb_ptr_by_pid k (k.pcbs parent_of).children (k.pcbs k.running).pid ≡ q
      → (q == null) ≡ false
      → has parent_of k.waiting_list ≡ true
      → can_write_int k (to_ptr ((k.pcbs parent_of).syscall_args 1)) ≡ true
      → die k ≡ finish (told q)
  unfolding die woken
  die-finish q apart entry exists waits writable =
      let found : pcb_ptr_by_pid woken (k.pcbs parent_of).children (k.pcbs k.running).pid ≡ q =
        pcb_ptr_by_pid-same k woken (k.pcbs parent_of).children (k.pcbs k.running).pid woken-pid
          refl
        ∙ entry in
      rw (==_refl parent_of, apart, found, waits, exists, writable)
        (ap (λ (ps : Ptr → Pcb). finish (record (told q) { pcbs = ps }))
          (update-update k.pcbs parent_of _ _))

  pub finish-handed :
      (q : Ptr)
      → (k.running == parent_of) ≡ false
      → IsUntimed k.timers k.running k.timer_list
      → (k.pcbs k.running).descriptors ≡ []
      → (k.running == null) ≡ false
      → HasPool k.pcb_pool
      → (pool : PoolAllocator) × Released k.pcb_pool k.running pool
        × (finish (told q) ≡ ok (handed q pool))
  unfolding release_descriptors
  finish-handed q apart untimed closed alive h =
      let gone = record (told q) { zombie_list = detach k.running k.zombie_list } in
      let (pool, h', freed) = pcb_free_total gone k.running alive h in
      (
        pool,
        h',
        rw (release_timers_none (told q) k.running k.timer_list untimed, apart, closed, freed) refl,
      )
