-- ===== src/Syscall/Start/Total.antt =====
-- disastrOS_start brings up a kernel in order.
use disastr_os_message_queue.Base.{ℕ, ◌+◌, ◌≡◌, true, some, pos, ◌+ℤ◌, []}
use disastr_os_message_queue.PoolAllocator.{Ptr, PoolAllocator, get_block}
use disastr_os_message_queue.PoolAllocator.FreeList.{IsPool}
use disastr_os_message_queue.PoolAllocator.Init.{indices}
use disastr_os_message_queue.Kernel.{Kernel, running, update, set_status}
use disastr_os_message_queue.Kernel.Order.{is_orderly}
use disastr_os_message_queue.Kernel.Returns.{Returns}
use disastr_os_message_queue.Process.{fresh_pcb}
use disastr_os_message_queue.Syscall.Start.{Buffer, Layout}

-- An allocator of `n` blocks, all of them free, in the buffer.
pub record IsPlaced (extra n : ℕ) (b : Buffer) (a : PoolAllocator) : Type 0 where
  pub pool : IsPool a (indices 0 n)
  pub max : a.size_max ≡ n
  pub at : a.buffer ≡ b.address
  pub item : a.item_size ≡ b.size + extra

-- The kernel that is started: each allocator is that of its buffer, all free but that the first
-- process has a block. It runs, it is the init process, and the lists are empty and in order.
pub record IsStarted (l : Layout) (k : Kernel) : Type 0 where
  pub pcb_pool :
      (a : PoolAllocator) × IsPlaced 0 1024 l.pcbs a × (get_block a ≡ some (k.running, k.pcb_pool))
  pub pcb_ptr_pool : IsPlaced 0 1024 l.pcb_ptrs k.pcb_ptr_pool
  pub timer_pool : IsPlaced 0 1024 l.timers k.timer_pool
  pub resource_pool : IsPlaced 0 1024 l.resources k.resource_pool
  pub descriptor_pool : IsPlaced 0 32768 l.descriptors k.descriptor_pool
  pub descriptor_ptr_pool : IsPlaced 0 32768 l.descriptor_ptrs k.descriptor_ptr_pool
  pub message_pool : IsPlaced 256 512 l.messages k.message_pool
  pub queue_pool : IsPlaced 0 32 l.queues k.queue_pool
  pub init_pcb : k.init_pcb ≡ k.running
  pub status : (k.pcbs k.running).status ≡ running
  pub childless : (k.pcbs k.running).children ≡ []
  pub mapped : k.mapped ≡ l.mapped
  pub resources_list : k.resources_list ≡ []
  pub timer_list : k.timer_list ≡ []
  pub orderly : is_orderly k ≡ true

-- The kernel when the first process runs.
abbrev started : Kernel → (p : Ptr) → PoolAllocator → Kernel
started k p pool =
    let k1 = record k {
      pcb_pool = pool;
      last_pid = k.last_pid +ℤ pos 1;
      pcbs = update k.pcbs p (fresh_pcb k p);
    } in
    record (set_status k1 p running) { running = p; init_pcb = p }
