-- ===== src/Tests/Exit.antt =====
-- Exits and waits tried.
use disastr_os_message_queue.Process.Wait.Spec.{Released}
use disastr_os_message_queue.Base.{detach}
use disastr_os_message_queue.Kernel.Order.{is_listed, is_orderly, waiters, timers_wait}
use disastr_os_message_queue.Kernel.{can_access}
use disastr_os_message_queue.Base.{◌≡◌, refl, wrap32, ◌∷◌, [], arith, pos, if◌then◌else◌, ◌==◌}
use disastr_os_message_queue.PoolAllocator.{PoolAllocator, null}
use disastr_os_message_queue.Kernel.{Kernel, ready, running, waiting, ok}
use disastr_os_message_queue.Process.{pcb_ptr_by_pid}
use disastr_os_message_queue.Process.Exit.{internal_exit}
use disastr_os_message_queue.Process.Wait.{awaited_ptr, internal_wait}
use disastr_os_message_queue.Process.Wait.Blocked.{blocked}
use disastr_os_message_queue.Process.Wait.Met.{Meets, Met, called_exit, internal_exit-internal_wait}
use disastr_os_message_queue.Process.Exit.Spec.{IsAwaited, IsBare, exited, internal_exit-exited}
use disastr_os_message_queue.Tests.Sample.{
  other_blocks, bare, other_blocks-IsPool, arguments, process,
}

-- Process 8 exits with 3, and its parent 5 waits for any child and wants the value at 300.
abbrev leaving : Kernel
leaving = record bare {
  running = 8;
  waiting_list = 5 ∷ [];
  pcb_ptrs = λ p. if p == 40 then 8 else null;
  pcbs = λ p.
      if p == 5
      then record (process waiting (arguments (pos 0) (pos 300) (pos 0))) {
        children = 40 ∷ [];
        syscall_num = pos 3;
      }
      else process running (arguments (pos 3) (pos 0) (pos 0));
}

leaving-IsAwaited : IsAwaited leaving 40
unfolding can_access is_listed is_orderly waiters timers_wait detach pcb_ptr_by_pid
leaving-IsAwaited = record {
  started = refl;
  apart = refl;
  has_parent = refl;
  waits = refl;
  called = refl;
  awaits = refl;
  entry = refl;
  exists = refl;
  alive = refl;
  unlisted = refl;
  in_waiting = refl;
  writable = refl;
}

leaving-IsBare : IsBare leaving 8
leaving-IsBare = record {
  children = refl;
  descriptors = refl;
  untimed = λ t on. absurd (ground arith);
}

internal_exit-exited_example :
    (pool : PoolAllocator) × Released other_blocks 8 pool
    × (internal_exit leaving ≡ ok (exited leaving 40 pool))
internal_exit-exited_example =
    internal_exit-exited leaving 40 leaving-IsAwaited leaving-IsBare (_, other_blocks-IsPool)

-- Process 5 waits for any child and wants the value at 300, and its child 8 is ready.
abbrev parting : Kernel
parting = record bare {
  ready_list = 8 ∷ [];
  pcb_ptrs = λ p. if p == 40 then 8 else null;
  pcbs = λ p.
      if p == 5
      then record (process running (arguments (pos 0) (pos 300) (pos 0))) {
        children = 40 ∷ [];
        syscall_num = pos 3;
      }
      else process ready (arguments (pos 0) (pos 0) (pos 0));
}

parting-Meets : Meets parting 8 40 40 [] []
unfolding can_access is_listed is_orderly waiters timers_wait detach pcb_ptr_by_pid awaited_ptr
    wrap32
parting-Meets = record {
  started = refl;
  apart = refl;
  has_parent = refl;
  calls = refl;
  awaits = refl;
  children = refl;
  entry = refl;
  entered = refl;
  stops_at = refl;
  alive = refl;
  queued = refl;
  parent = refl;
  bare = record { children = refl; descriptors = refl; untimed = λ t on. absurd (ground arith) };
  awake = refl;
  undead = refl;
  runs = refl;
  orderly = refl;
  writable = refl;
}

internal_exit-internal_wait_example :
    (internal_wait parting ≡ ok (blocked parting 8 []))
    × (k' : Kernel) × (internal_exit (called_exit parting 8 [] (arguments (pos 3) (pos 0) (pos 0)))
        ≡ ok k')
    × Met parting 8 40 [] (arguments (pos 3) (pos 0) (pos 0)) k'
internal_exit-internal_wait_example =
    internal_exit-internal_wait parting 8 40 40 [] [] (arguments (pos 3) (pos 0) (pos 0))
      parting-Meets (_, other_blocks-IsPool)
