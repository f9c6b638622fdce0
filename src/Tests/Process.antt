-- ===== src/Tests/Process.antt =====
-- Spawns, waits and opens tried.
use disastr_os_message_queue.Process.Wait.Spec.{Released}
use disastr_os_message_queue.Kernel.{can_access}
use disastr_os_message_queue.Base.{
  ◌≡◌, refl, true, false, [], ◌∷◌, ◌++◌, arith, ℤ, pos, ◌==◌, if◌then◌else◌, wrap32, ◌==ℤ◌, has,
  Bool-cases, inl, inr,
}
use disastr_os_message_queue.PoolAllocator.{Ptr, PoolAllocator, get_block, initialised, links_from}
use disastr_os_message_queue.PoolAllocator.Get.{taken}
use disastr_os_message_queue.Kernel.{Kernel, ok, fault, running, ready, zombie}
use disastr_os_message_queue.MessageQueue.{resource_list_by_id}
use disastr_os_message_queue.MessageQueue.Send.{internal_mq_send}
use disastr_os_message_queue.Process.Spawn.{internal_spawn}
use disastr_os_message_queue.Process.Spawn.Spec.{spawned, internal_spawn-spawned}
use disastr_os_message_queue.Process.Wait.{internal_wait, awaited_ptr}
use disastr_os_message_queue.Process.Wait.Spec.{
  reaped, pid_of, internal_wait-reaped, internal_wait_wrong_child,
}
use disastr_os_message_queue.Resource.Open.{internal_open_resource}
use disastr_os_message_queue.Resource.Open.Spec.{opened, internal_open_resource_confused}
use disastr_os_message_queue.Tests.Sample.{
  bare, other_blocks, other_blocks-IsPool, process, processes, arguments,
}

abbrev blocks_left : PoolAllocator
blocks_left = taken other_blocks 0 (pos 1)

internal_spawn-spawned_example :
    internal_spawn bare ≡ ok (spawned bare 3000 3000 blocks_left blocks_left)
unfolding get_block initialised links_from
internal_spawn-spawned_example =
    internal_spawn-spawned bare 3000 3000 blocks_left blocks_left refl refl refl refl refl

-- Process 5 waits for pid 7. Its children are 6, alive with pid 2, and 8, dead with the pid `pid`.
abbrev family : ℤ → Kernel
family pid = record bare {
  pcbs = λ p.
      if p == 5
      then record (process running (arguments (pos 7) (pos 100) (pos 0))) {
        children = 40 ∷ 41 ∷ [];
      }
      else if p == 6
      then record (process ready (arguments (pos 0) (pos 0) (pos 0))) { pid = pos 2 }
      else record (process zombie (arguments (pos 0) (pos 0) (pos 0))) { pid = pid };
  pcb_ptrs = λ p. if p == 40 then 6 else 8;
  zombie_list = 8 ∷ [];
}

internal_wait-reaped_example :
    (p1 : PoolAllocator) × (p2 : PoolAllocator) × Released other_blocks 8 p1
    × Released other_blocks 41 p2
    × (internal_wait (family (pos 7)) ≡ ok (reaped (family (pos 7)) 8 41 p1 p2))
unfolding can_access awaited_ptr wrap32
internal_wait-reaped_example =
    internal_wait-reaped (family (pos 7)) 8 41 40 (41 ∷ []) refl refl refl refl refl refl refl refl
      refl (_, other_blocks-IsPool) (_, other_blocks-IsPool)

nobody_has_pid :
    (p : Ptr)
    → has p ((40 ∷ []) ++ 41 ∷ []) ≡ true
    → (((family (pos 9)).pcbs ((family (pos 9)).pcb_ptrs p)).pid ==ℤ pid_of (family (pos 9)))
      ≡ false
unfolding wrap32
nobody_has_pid p h = elim (Bool-cases (p == 40)) [ inl first ↦ rw first | inr second ↦ rw second ]

internal_wait_wrong_child_example :
    (p1 : PoolAllocator) × (p2 : PoolAllocator) × Released other_blocks 8 p1
    × Released other_blocks 41 p2
    × (internal_wait (family (pos 9)) ≡ ok (reaped (family (pos 9)) 8 41 p1 p2))
unfolding can_access wrap32
internal_wait_wrong_child_example =
    internal_wait_wrong_child (family (pos 9)) 8 41 40 (41 ∷ []) (40 ∷ []) refl refl refl
      nobody_has_pid refl refl refl refl refl refl refl (_, other_blocks-IsPool)
      (_, other_blocks-IsPool)

-- Process 5 opens the resource 7 with the type of queues, and creates it.
abbrev opening : Kernel
opening = record bare { pcbs = λ p. process running (arguments (pos 7) (pos 1) (pos 1)) }

abbrev sending : Kernel
sending = record (opened opening 3000 3000 3000 blocks_left blocks_left blocks_left) {
  pcbs = processes;
}

internal_open_resource_confused_example :
    (internal_open_resource opening
      ≡ ok (opened opening 3000 3000 3000 blocks_left blocks_left blocks_left))
    × (internal_mq_send sending ≡ fault)
unfolding wrap32 get_block resource_list_by_id initialised links_from
internal_open_resource_confused_example =
    internal_open_resource_confused opening sending 3000 3000 3000 blocks_left blocks_left
      blocks_left 3 refl refl refl refl refl refl refl refl refl refl refl refl refl refl refl refl
      refl (refl, omega arith, omega arith)
