-- ===== src/Tests/System.antt =====
-- Timers, processes and the dispatch of system calls tried.
use disastr_os_message_queue.Kernel.Returns.{Settles}
use disastr_os_message_queue.Base.{detach}
use disastr_os_message_queue.Kernel.Order.{is_listed, is_orderly, waiters, timers_wait}
use disastr_os_message_queue.Base.{wrap32, ◌≡◌, refl, true, false, List, [], ◌∷◌, arith, pos, ◌==◌}
use disastr_os_message_queue.PoolAllocator.{get_block, initialised, links_from}
use disastr_os_message_queue.PoolAllocator.Get.{taken}
use disastr_os_message_queue.Kernel.{Kernel, ok}
use disastr_os_message_queue.Kernel.Returns.{Returns}
use disastr_os_message_queue.Timer.{timer_list_add}
use disastr_os_message_queue.Timer.Sorted.{IsSorted, timed, timer_list_add-IsSorted}
use disastr_os_message_queue.Schedule.{internal_schedule}
use disastr_os_message_queue.Schedule.Pending.{pending}
use disastr_os_message_queue.Schedule.Timers.{internal_schedule-pending}
use disastr_os_message_queue.Syscall.Events.{Event, call, tick, run_events, run_events_total}
use disastr_os_message_queue.Syscall.Start.{Layout}
use disastr_os_message_queue.Resource.Open.Total.{IsBoth}
use disastr_os_message_queue.Tests.Opened.{bare-IsLinked}
use disastr_os_message_queue.Tests.Sample.{bare, bare-IsKernel, other_blocks, arguments}

-- The timer at 4000 is due at 10, that at 4016 at 20, and the time is 10.
abbrev timing : Kernel
timing = record bare {
  waiting_list = 7 ∷ 8 ∷ [];
  timer_list = 4000 ∷ 4016 ∷ [];
  timers = λ p. elim (p == 4000) [
    | true ↦ record { awakening_time = pos 10; pcb = 7 }
    | false ↦ record { awakening_time = pos 20; pcb = 8 }
  ];
}

-- A timer for 15 goes between them.
timer_list_add-IsSorted_example :
    (timer_list_add timing (pos 15) 6
      ≡ ok (3000, timed timing 3000 (taken other_blocks 0 (pos 1)) (pos 15) 6))
    × IsSorted
        (timed timing 3000 (taken other_blocks 0 (pos 1)) (pos 15) 6).timers
        (4000 ∷ 3000 ∷ 4016 ∷ [])
unfolding get_block initialised links_from
timer_list_add-IsSorted_example =
    timer_list_add-IsSorted timing (pos 15) 6 3000 (taken other_blocks 0 (pos 1)) (omega arith, _)
      (refl, (refl, _)) refl refl refl refl

internal_schedule-pending_example :
    Returns
      (λ k'. k'.timer_list ≡ pending timing.timers (pos 10) (4000 ∷ 4016 ∷ []))
      (internal_schedule timing)
unfolding is_listed is_orderly waiters timers_wait detach
internal_schedule-pending_example =
    internal_schedule-pending timing refl bare-IsKernel (omega arith, _) refl

-- Process 5 creates queue 7, sends three bytes to it, a tick comes, and it receives them. It opens a new
-- resource 9, closes and destroys it, and makes a call that is none.
abbrev session : List Event
session =
    call (pos 11) (arguments (pos 7) (pos 2) (pos 0))
    ∷ call (pos 12) (arguments (pos 7) (pos 100) (pos 3))
    ∷ tick
    ∷ call (pos 13) (arguments (pos 7) (pos 300) (pos 8))
    ∷ call (pos 7) (arguments (pos 9) (pos 0) (pos 1))
    ∷ call (pos 8) (arguments (pos 0) (pos 0) (pos 0))
    ∷ call (pos 9) (arguments (pos 9) (pos 0) (pos 0))
    ∷ call (pos 99) (arguments (pos 0) (pos 0) (pos 0))
    ∷ []

run_events_total_example : Settles IsBoth (run_events session bare)
unfolding wrap32
run_events_total_example = run_events_total session bare refl (bare-IsLinked, bare-IsKernel)

-- Sizes and addresses that the structs and buffers can have.
abbrev layout : Layout
layout = record {
  pcbs = record { size = 17600; address = 100000000 };
  pcb_ptrs = record { size = 24; address = 200000 };
  timers = record { size = 32; address = 300000 };
  resources = record { size = 56; address = 400000 };
  descriptors = record { size = 48; address = 1000000 };
  descriptor_ptrs = record { size = 24; address = 3000000 };
  messages = record { size = 40; address = 500000 };
  queues = record { size = 144; address = 700000 };
  mapped = λ p. true;
}
