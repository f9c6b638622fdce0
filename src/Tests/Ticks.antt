-- ===== src/Tests/Ticks.antt =====
-- Calls and timer interrupts tried.
use disastr_os_message_queue.Base.{detach}
use disastr_os_message_queue.Kernel.Order.{is_listed, is_orderly, waiters, timers_wait}
use disastr_os_message_queue.Base.{ℕ, ◌≡◌, refl, true, some, ◌∷◌, [], arith, pos, wrap32}
use disastr_os_message_queue.PoolAllocator.{PoolAllocator, get_block, initialised, links_from}
use disastr_os_message_queue.PoolAllocator.Get.{taken}
use disastr_os_message_queue.Kernel.{Kernel, running, ◌>>=◌}
use disastr_os_message_queue.Kernel.Returns.{Returns}
use disastr_os_message_queue.Process.Sleep.{internal_sleep}
use disastr_os_message_queue.Schedule.Awake.{is_awake}
use disastr_os_message_queue.Syscall.{syscall_vector, run_handler}
use disastr_os_message_queue.Syscall.Calls.{mq_sends, make_call, meant}
use disastr_os_message_queue.Syscall.Calls.Reach.{entered, make_call-run_handler}
use disastr_os_message_queue.Syscall.Ticks.{Ticking, ticks}
use disastr_os_message_queue.Syscall.Ticks.Sleep.{Sleeps, internal_sleep-is_awake}
use disastr_os_message_queue.Tests.Sample.{bare, bare-IsKernel, other_blocks, arguments, process}

make_call-run_handler_example :
    (num : ℕ) × (syscall_vector num ≡ some (meant (λ x. x) (mq_sends (pos 7) 100 (pos 3))).0)
    × (make_call (λ x. x) (mq_sends (pos 7) 100 (pos 3)) bare
        ≡ run_handler
            (meant (λ x. x) (mq_sends (pos 7) 100 (pos 3))).0
            (entered bare num (meant (λ x. x) (mq_sends (pos 7) 100 (pos 3))).1))
make_call-run_handler_example =
    make_call-run_handler (λ x. x) (mq_sends (pos 7) 100 (pos 3)) bare refl

-- Process 5 asks for two cycles, and 6 is ready.
abbrev tired : Kernel
tired = record bare {
  pcbs = λ p. process running (arguments (pos 2) (pos 0) (pos 0));
  ready_list = 6 ∷ [];
}

abbrev blocks_left : PoolAllocator
blocks_left = taken other_blocks 0 (pos 1)

tired-Ticking : Ticking tired 10
unfolding is_listed is_orderly waiters timers_wait detach
tired-Ticking = record {
  stores = bare-IsKernel;
  sorted = _;
  no_null = refl;
  time = refl;
  orderly = refl;
}

tired-Sleeps : Sleeps tired 2 3000 blocks_left
unfolding wrap32 get_block initialised links_from
tired-Sleeps = record {
  runs = refl;
  untimed = refl;
  asked = refl;
  got = refl;
  given = refl;
  fresh = refl;
  distinct = _;
}

internal_sleep-is_awake_example :
    Returns (λ k'. is_awake k' 5 ≡ true) (internal_sleep tired >>= ticks 2)
internal_sleep-is_awake_example =
    internal_sleep-is_awake tired 10 1 3000 blocks_left tired-Ticking tired-Sleeps (omega arith)
