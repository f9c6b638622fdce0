-- ===== src/Process/Spawn/Spec.antt =====
-- What internal_spawn does.
use disastr_os_message_queue.Base.{
  ◌≡◌, ap, false, some, [], arith, pos, ◌+ℤ◌, ◌==◌, ==_refl, Bool-cases, inl, inr, fun_ext,
  eq_of_==,
}
use disastr_os_message_queue.PoolAllocator.{Ptr, null, PoolAllocator, get_block}
use disastr_os_message_queue.Kernel.{Kernel, Pcb, ready, ok, update, push_back}
use disastr_os_message_queue.Process.{pcb_alloc, pcb_ptr_alloc}
use disastr_os_message_queue.Process.Spawn.{internal_spawn}

-- The PCB of the new process, in a block that held `old`.
abbrev pub child_pcb : Kernel → Pcb → Pcb
child_pcb k old = record old {
  pid = k.last_pid;
  return_value = pos 0;
  status = ready;
  last_fd = pos 0;
  signals = 0;
  signals_mask = 0xffff_ffff;
  descriptors = [];
  parent = k.running;
  timer = null;
  children = [];
}

-- The kernel with the new process `c`, whose entry in its parent's list is `q`.
abbrev pub spawned : Kernel → (c q : Ptr) → (pcb_pool pcb_ptr_pool : PoolAllocator) → Kernel
spawned k c q pcb_pool pcb_ptr_pool = record k {
  pcb_pool = pcb_pool;
  pcb_ptr_pool = pcb_ptr_pool;
  pcb_ptrs = update k.pcb_ptrs q c;
  last_pid = k.last_pid +ℤ pos 1;
  ready_list = push_back k.ready_list c;
  pcbs = update (update k.pcbs c (child_pcb k (k.pcbs c))) k.running (record (k.pcbs k.running) {
    children = push_back (k.pcbs k.running).children q;
    syscall_retvalue = k.last_pid;
  });
}

-- With free blocks for it, of which that of the PCB is not the caller's, a spawn makes a new
-- process with the next pid, without children, descriptors, timer or signals. It is ready behind
-- the other ready processes and the last child of the caller, which goes on running and gets the
-- pid.
pub internal_spawn-spawned :
    (k : Kernel) (c q : Ptr) (pcb_pool pcb_ptr_pool : PoolAllocator)
    → get_block k.pcb_pool ≡ some (c, pcb_pool)
    → (c == null) ≡ false
    → (c == k.running) ≡ false
    → get_block k.pcb_ptr_pool ≡ some (q, pcb_ptr_pool)
    → (q == null) ≡ false
    → internal_spawn k ≡ ok (spawned k c q pcb_pool pcb_ptr_pool)
unfolding internal_spawn pcb_alloc pcb_ptr_alloc
internal_spawn-spawned k c q pcb_pool pcb_ptr_pool got given apart got2 given2 =
    let back : (k.running == c) ≡ false = ground (arith, eq_of_== k.running c) in
    rw (got, given, given, got2, given2, given2)
      (ap (λ (ps : Ptr → Pcb). ok (record (spawned k c q pcb_pool pcb_ptr_pool) { pcbs = ps }))
        (fun_ext λ p. elim (Bool-cases (p == k.running)) [
          | inl self ↦ rw (eq_of_== p k.running self, ==_refl k.running, back, ==_refl c, apart)
          | inr other ↦ elim (Bool-cases (p == c)) [
            | inl child ↦ rw (other, child, ==_refl c)
            | inr neither ↦ rw (other, neither)
          ]
        ]))
