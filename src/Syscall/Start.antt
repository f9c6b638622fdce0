-- ===== src/Syscall/Start.antt =====
-- disastrOS_start in src/disastrOS.c, with the _init functions of the components: the first state of the
-- kernel. The sizes of the structs are the compiler's, and the addresses of the static buffers
-- the linker's.
pub mod Total
use disastr_os_message_queue.Base.{
  ℕ, suc, ◌+◌, ◌*◌, ◌<◌, ◌≤◌, ◌⊎◌, inl, inr, ◌≡◌, Bool, refl, sym, subst, ◌∙◌, false, none, List,
  [], ◌∷◌, arith, pos, if◌then◌else◌, ◌==◌, ==_refl,
}
use disastr_os_message_queue.Constants.{
  max_num_processes, max_num_resources, max_num_descriptors_per_process, max_message_queues,
  max_messages_per_queue, message_max_size,
}
use disastr_os_message_queue.PoolAllocator.{Ptr, null, PoolAllocator, init}
use disastr_os_message_queue.PoolAllocator.FreeList.{IsPool, block}
use disastr_os_message_queue.PoolAllocator.Get.{get_block-taken}
use disastr_os_message_queue.PoolAllocator.Init.{init-IsPool, init-placed}
use disastr_os_message_queue.PoolAllocator.Lent.{IsBlock}
use disastr_os_message_queue.PoolAllocator.Far.{IsFar, block-IsFar}
use disastr_os_message_queue.Resource.Linked.{IsLinked, IsWired}
use disastr_os_message_queue.Kernel.Links.{links_of, links_of-update}
use disastr_os_message_queue.Resource.Created.{empty-IsWired}
use disastr_os_message_queue.Resource.Open.Total.{IsBoth}
use disastr_os_message_queue.Kernel.{
  Kernel, invalid, running, Run, ok, fault, ◌>>=◌, from_pool, set_status, set_pcb,
}
use disastr_os_message_queue.Kernel.Returns.{Returns}
use disastr_os_message_queue.Kernel.Invariant.{IsKernel, HasPool}
use disastr_os_message_queue.Process.{pcb_alloc, fresh_pcb}

-- An array of blocks: `sizeof` of its objects and where its buffer is.
pub record Buffer : Type 0 where
  pub size : ℕ
  pub address : Ptr

-- Also which addresses the program may use.
pub record Layout : Type 0 where
  pub pcbs : Buffer
  pub pcb_ptrs : Buffer
  pub timers : Buffer
  pub resources : Buffer
  pub descriptors : Buffer
  pub descriptor_ptrs : Buffer
  pub messages : Buffer
  pub queues : Buffer
  pub mapped : Ptr → Bool

-- The buffer has a null-free address, and with the array of the allocator it fits the `int` that its
-- size is passed in.
pub record IsBuffer (extra num : ℕ) (b : Buffer) : Type 0 where
  pub size_pos : 0 < b.size
  pub address_pos : 0 < b.address
  pub fits : num * (b.size + extra + 4) < 0x8000_0000

-- `PoolAllocator_init` on a buffer that was declared for `num` objects and their entries, with the
-- assertion on its result.
abbrev pub make_pool : (num extra : ℕ) → Buffer → Run PoolAllocator
make_pool num extra b = from_pool (init (b.size + extra) num b.address (num * (b.size + extra + 4)))

-- The globals, and the static buffers that hold zeros.
abbrev pub first_state :
    (mapped : Ptr → Bool)
    (pcb_pool pcb_ptr_pool timer_pool resource_pool descriptor_pool descriptor_ptr_pool message_pool
      queue_pool : PoolAllocator)
    → Kernel
first_state mapped pcb_pool pcb_ptr_pool timer_pool resource_pool descriptor_pool
      descriptor_ptr_pool message_pool queue_pool =
    record {
      memory = λ p. 0;
      mapped = mapped;
      running = null;
      init_pcb = null;
      shutdown_now = false;
      last_pid = pos 0;
      time = pos 0;
      ready_list = [];
      waiting_list = [];
      zombie_list = [];
      resources_list = [];
      timer_list = [];
      pcbs = λ p. record {
        pid = pos 0;
        return_value = pos 0;
        status = invalid;
        signals = 0;
        signals_mask = 0;
        parent = null;
        children = [];
        timer = null;
        last_fd = pos 0;
        descriptors = [];
        syscall_num = pos 0;
        syscall_args = λ i. pos 0;
        syscall_retvalue = pos 0;
      };
      timers = λ p. record { awakening_time = pos 0; pcb = null };
      resources =
          λ p. record { id = pos 0; type = pos 0; ref_count = pos 0; descriptors_ptrs = [] };
      descriptors = λ p. record { pcb = null; resource = null; fd = pos 0; ptr = null };
      descriptor_ptrs = λ p. null;
      pcb_ptrs = λ p. null;
      messages = λ p. record { size = pos 0; payload = []; sender = null };
      queues = λ p. none;
      pcb_pool = pcb_pool;
      pcb_ptr_pool = pcb_ptr_pool;
      timer_pool = timer_pool;
      resource_pool = resource_pool;
      descriptor_pool = descriptor_pool;
      descriptor_ptr_pool = descriptor_ptr_pool;
      message_pool = message_pool;
      queue_pool = queue_pool;
    }

-- From the allocation of the first process on. A null pointer is dereferenced.
unfoldable pub start_process : Kernel → Run Kernel
unfolding pcb_alloc
start_process k = do
  (pcb, k) ← pcb_alloc k
  if pcb == null
      then fault
      else ok (record (set_status k pcb running) { running = pcb; init_pcb = pcb })

-- `disastrOS_start`, up to the point where the first process runs.
unfoldable pub disastr_os_start : Layout → Run Kernel
unfolding init start_process
disastr_os_start l = do
  a ← make_pool max_num_processes 0 l.pcbs
  b ← make_pool max_num_processes 0 l.pcb_ptrs
  c ← make_pool max_num_processes 0 l.timers
  d ← make_pool max_num_resources 0 l.resources
  e ← make_pool (max_num_descriptors_per_process * max_num_processes) 0 l.descriptors
  f ← make_pool (max_num_descriptors_per_process * max_num_processes) 0 l.descriptor_ptrs
  g ← make_pool (max_messages_per_queue * max_message_queues) message_max_size l.messages
  h ← make_pool max_message_queues 0 l.queues
  start_process (first_state l.mapped a b c d e f g h)

-- One buffer ends where the other begins, or before.
abbrev pub AreApart : (n m : ℕ) → Buffer → Buffer → Type 0
AreApart n m a b =
    ((a.address + n * a.size ≤ b.address) × (b.address + m * b.size ≤ a.address + 0x8000_0000))
    ⊎ ((b.address + m * b.size ≤ a.address) × (a.address + n * a.size ≤ b.address + 0x8000_0000))

-- The buffers of a layout.
pub record IsLayout (l : Layout) : Type 0 where
  pub pcbs : IsBuffer 0 1024 l.pcbs
  pub pcb_ptrs : IsBuffer 0 1024 l.pcb_ptrs
  pub timers : IsBuffer 0 1024 l.timers
  pub resources : IsBuffer 0 1024 l.resources
  pub descriptors : IsBuffer 0 32768 l.descriptors
  pub descriptor_ptrs : IsBuffer 0 32768 l.descriptor_ptrs
  pub messages : IsBuffer 256 512 l.messages
  pub queues : IsBuffer 0 32 l.queues
  pub apart : AreApart 1024 32 l.resources l.queues
