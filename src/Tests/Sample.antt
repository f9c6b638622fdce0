-- ===== src/Tests/Sample.antt =====
-- A small kernel: process 5 runs, 6 is ready, 7 and 8 wait; queue 7 has its object at address 2000.
use disastr_os_message_queue.Base.{
  true, ℕ, zero, suc, ◌≡◌, refl, false, none, some, List, [], ◌∷◌, arith, ℤ, pos, ◌==◌,
  if◌then◌else◌, length, Bool-cases, inl, inr, subst, wrap32,
}
use disastr_os_message_queue.PoolAllocator.{Ptr, null, PoolAllocator, initialised, links_from}
use disastr_os_message_queue.PoolAllocator.FreeList.{IsPool}
use disastr_os_message_queue.PoolAllocator.Init.{initialised-IsPool}
use disastr_os_message_queue.PoolAllocator.Get.{taken, get_block-taken}
use disastr_os_message_queue.Kernel.{
  Kernel, Pcb, Resource, Message, MessageQueue, ProcessStatus, running, ready, waiting, mq_open,
  resource_message_queue,
}
use disastr_os_message_queue.MessageQueue.{resource_list_by_id}
use disastr_os_message_queue.MessageQueue.Request.{Finds}
use disastr_os_message_queue.Kernel.Invariant.{HasPool, IsMessage, IsQueue, IsKernel}

-- Four blocks for messages, at 1000, 1008, …, two for queues and two for anything else.
abbrev pub message_blocks : PoolAllocator
message_blocks = initialised 8 4 1000

abbrev pub queue_blocks : PoolAllocator
queue_blocks = initialised 64 2 2000

abbrev pub other_blocks : PoolAllocator
other_blocks = initialised 16 2 3000

-- The first block of each is taken.
abbrev pub message_blocks_left : PoolAllocator
message_blocks_left = taken message_blocks 0 (pos 1)

abbrev pub queue_blocks_left : PoolAllocator
queue_blocks_left = taken queue_blocks 0 (pos 1)

pub message_blocks-IsPool : IsPool message_blocks (0 ∷ 1 ∷ 2 ∷ 3 ∷ [])
message_blocks-IsPool = initialised-IsPool 8 3 1000 (omega arith) (omega arith) (omega arith)

pub queue_blocks-IsPool : IsPool queue_blocks (0 ∷ 1 ∷ [])
queue_blocks-IsPool = initialised-IsPool 64 1 2000 (omega arith) (omega arith) (omega arith)

pub other_blocks-IsPool : IsPool other_blocks (0 ∷ 1 ∷ [])
other_blocks-IsPool = initialised-IsPool 16 1 3000 (omega arith) (omega arith) (omega arith)

pub message_blocks_left-IsPool : IsPool message_blocks_left (1 ∷ 2 ∷ 3 ∷ [])
unfolding initialised links_from
message_blocks_left-IsPool =
    let (next, got, at, first, out, p) = get_block-taken message_blocks 0 _ message_blocks-IsPool in
    let same : next ≡ pos 1 = ground arith in
    subst (λ (v : ℤ). IsPool (taken message_blocks 0 v) (1 ∷ 2 ∷ 3 ∷ [])) same p

pub queue_blocks_left-IsPool : IsPool queue_blocks_left (1 ∷ [])
unfolding initialised links_from
queue_blocks_left-IsPool =
    let (next, got, at, first, out, p) = get_block-taken queue_blocks 0 _ queue_blocks-IsPool in
    let same : next ≡ pos 1 = ground arith in
    subst (λ (v : ℤ). IsPool (taken queue_blocks 0 v) (1 ∷ [])) same p

abbrev pub arguments : ℤ → ℤ → ℤ → ℕ → ℤ
arguments a b c zero = a
arguments a b c (suc zero) = b
arguments a b c (suc (suc n)) = c

abbrev pub process : ProcessStatus → (ℕ → ℤ) → Pcb
process status syscall_args = record {
  pid = pos 1;
  return_value = pos 0;
  status = status;
  signals = 0;
  signals_mask = 0;
  parent = 5;
  children = [];
  timer = null;
  last_fd = pos 0;
  descriptors = [];
  syscall_num = pos 0;
  syscall_args = syscall_args;
  syscall_retvalue = pos 0;
}

-- 5 passes the buffer at 100, of three bytes, and 6 and 7 that at 300, of four. 8 asks for a new
-- queue 7 of two messages.
abbrev pub processes : Ptr → Pcb
processes p =
    if p == 5
    then process running (arguments (pos 7) (pos 100) (pos 3))
    else if p == 6
    then process ready (arguments (pos 7) (pos 300) (pos 4))
    else if p == 7
    then process waiting (arguments (pos 7) (pos 300) (pos 4))
    else process waiting (arguments (pos 7) (pos 2) (pos 0))

abbrev pub message : ℤ → List ℕ → Message
message size payload = record { size = size; payload = payload; sender = 6 }

abbrev pub three_bytes : Message
three_bytes = message (pos 3) (1 ∷ 2 ∷ 3 ∷ [])

abbrev pub five_bytes : Message
five_bytes = message (pos 5) (1 ∷ 2 ∷ 3 ∷ 4 ∷ 5 ∷ [])

-- A queue for two messages.
abbrev pub queue : (messages waiting_receivers waiting_senders : List Ptr) → MessageQueue
queue messages waiting_receivers waiting_senders = record {
  messages = messages;
  waiting_receivers = waiting_receivers;
  waiting_senders = waiting_senders;
  max_messages = pos 2;
  current_messages = pos (length messages);
  queue_id = pos 7;
  status = mq_open;
}

abbrev pub resource : (id type : ℤ) → List Ptr → Resource
resource id type descriptors_ptrs = record {
  id = id;
  type = type;
  ref_count = pos 0;
  descriptors_ptrs = descriptors_ptrs;
}

-- Without any resource.
abbrev pub bare : Kernel
bare = record {
  memory = λ p. p;
  mapped = λ p. true;
  running = 5;
  init_pcb = 5;
  shutdown_now = false;
  last_pid = pos 4;
  time = pos 10;
  ready_list = [];
  waiting_list = [];
  zombie_list = [];
  resources_list = [];
  timer_list = [];
  pcbs = processes;
  timers = λ p. record { awakening_time = pos 10; pcb = 8 };
  resources = λ p. resource (pos 0) (pos 0) [];
  descriptors = λ p. record { pcb = null; resource = null; fd = pos 0; ptr = null };
  descriptor_ptrs = λ p. null;
  pcb_ptrs = λ p. null;
  messages = λ p. message (pos 0) [];
  queues = λ p. none;
  pcb_pool = other_blocks;
  pcb_ptr_pool = other_blocks;
  timer_pool = other_blocks;
  resource_pool = other_blocks;
  descriptor_pool = other_blocks;
  descriptor_ptr_pool = other_blocks;
  message_pool = message_blocks;
  queue_pool = queue_blocks;
}

-- With queue 7, and with `first` as the message at 1000.
abbrev pub kernel :
    (ready_list : List Ptr) → PoolAllocator → (first : Message) → MessageQueue → Kernel
kernel ready_list message_pool first mq = record bare {
  ready_list = ready_list;
  resources_list = 2000 ∷ [];
  resources = λ p. resource (pos 7) resource_message_queue [];
  messages = λ p. if p == 1000 then first else message (pos 0) [];
  queues = λ p. if p == 2000 then some mq else none;
  message_pool = message_pool;
  queue_pool = queue_blocks_left;
}

pub no_message-IsMessage : IsMessage (message (pos 0) [])
no_message-IsMessage = record { sized = refl; bounded = omega arith }

pub three_bytes-IsMessage : IsMessage three_bytes
three_bytes-IsMessage = record { sized = refl; bounded = omega arith }

pub bare-IsKernel : IsKernel bare
bare-IsKernel = record {
  alive = refl;
  message_pool = (_, message_blocks-IsPool);
  queue_pool = (_, queue_blocks-IsPool);
  timer_pool = (_, other_blocks-IsPool);
  messages = λ p. no_message-IsMessage;
  queues = λ r mq e. ground arith;
  typed = λ r on claims. ground arith;
}

pub kernel-IsKernel :
    (ready_list : List Ptr) (message_pool : PoolAllocator) (mq : MessageQueue)
    → HasPool message_pool
    → IsQueue mq
    → IsKernel (kernel ready_list message_pool three_bytes mq)
kernel-IsKernel ready_list message_pool mq p q = record {
  alive = refl;
  message_pool = p;
  queue_pool = (_, queue_blocks_left-IsPool);
  timer_pool = (_, other_blocks-IsPool);
  messages = λ p. elim (Bool-cases (p == 1000)) [
    | inl first ↦ rw first three_bytes-IsMessage
    | inr other ↦ rw other no_message-IsMessage
  ];
  queues = λ r mq' e. elim (Bool-cases (r == 2000)) [
    | inl here ↦ subst IsQueue (ground arith) q
    | inr other ↦ absurd (ground arith)
  ];
  typed = λ r on claims. elim (Bool-cases (r == 2000)) [
    | inl here ↦ (mq, rw here refl)
    | inr other ↦ absurd (ground arith)
  ];
}

-- The first argument of the running process finds queue 7.
pub kernel-Finds :
    (ready_list : List Ptr) (message_pool : PoolAllocator) (first : Message) (mq : MessageQueue)
    → Finds (kernel ready_list message_pool first mq) 2000 mq
unfolding resource_list_by_id wrap32
kernel-Finds ready_list message_pool first mq = record {
  id_pos = refl;
  found = refl;
  exists = refl;
  typed = refl;
  queue = refl;
}

pub empty_queue-IsQueue : IsQueue (queue [] [] [])
empty_queue-IsQueue = record {
  capacity = 2;
  has_capacity = refl;
  capacity_pos = omega arith;
  capacity_le = omega arith;
  counted = refl;
  bounded = omega arith;
  nobody_waits = inl refl;
}

pub waiting_queue-IsQueue : IsQueue (queue [] (7 ∷ []) [])
waiting_queue-IsQueue = record {
  capacity = 2;
  has_capacity = refl;
  capacity_pos = omega arith;
  capacity_le = omega arith;
  counted = refl;
  bounded = omega arith;
  nobody_waits = inr refl;
}

pub full_queue-IsQueue : IsQueue (queue (1000 ∷ 1008 ∷ []) [] (7 ∷ []))
full_queue-IsQueue = record {
  capacity = 2;
  has_capacity = refl;
  capacity_pos = omega arith;
  capacity_le = omega arith;
  counted = refl;
  bounded = omega arith;
  nobody_waits = inl refl;
}
