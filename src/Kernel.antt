-- ===== src/Kernel.antt =====
-- The state of the kernel: the globals of src/disastrOS.c with the objects that they reach, those of
-- include/disastrOS_pcb.h, disastrOS_timer.h, disastrOS_resource.h, disastrOS_descriptor.h,
-- disastrOS_message.h and disastrOS_message_queue.h.
-- Objects lie at addresses: one table for each type gives the object at an address. A `ListHead` is
-- the sequence of the addresses that are linked in it. `mapped` says which
-- addresses the program may use: it is the system's and never changes.
pub mod Invariant
pub mod Links
pub mod Memory
pub mod Order
pub mod Returns
pub mod Tables
pub mod Update
use disastr_os_message_queue.Base.{
  ℕ, zero, suc, ◌-◌, ◌^◌, Bool, true, false, Option, none, some, List, [], ◌∷◌, ◌++◌, ◌==◌, not,
  ◌&&◌, ◌||◌, has, if◌then◌else◌, ℤ, pos, negsuc, int_bytes, has_flag, with_flag, ◌≡◌, refl,
}
use disastr_os_message_queue.PoolAllocator.{Ptr, null, PoolAllocator}

pub data ProcessStatus : Type 0 where
  invalid created running ready waiting suspended zombie : ProcessStatus

-- `PCB`, less the saved processor context and the stack, which belong to <ucontext.h>.
pub record Pcb : Type 0 where
  pub pid : ℤ
  pub return_value : ℤ
  pub status : ProcessStatus
  pub signals : ℕ
  pub signals_mask : ℕ
  pub parent : Ptr
  pub children : List Ptr
  pub timer : Ptr
  pub last_fd : ℤ
  pub descriptors : List Ptr
  pub syscall_num : ℤ
  pub syscall_args : ℕ → ℤ
  pub syscall_retvalue : ℤ

pub record TimerItem : Type 0 where
  pub awakening_time : ℤ
  pub pcb : Ptr

-- `type` holds the number of a `ResourceType`, which `openResource` takes from its caller as it is.
pub record Resource : Type 0 where
  pub id : ℤ
  pub type : ℤ
  pub ref_count : ℤ
  pub descriptors_ptrs : List Ptr

abbrev pub resource_message_queue : ℤ
resource_message_queue = pos 1

-- The descriptor of an opened resource. `ptr` is its entry in the resource's list.
pub record Descriptor : Type 0 where
  pub pcb : Ptr
  pub resource : Ptr
  pub fd : ℤ
  pub ptr : Ptr

-- `payload` holds the bytes behind the header that belong to the payload.
pub record Message : Type 0 where
  pub size : ℤ
  pub payload : List ℕ
  pub sender : Ptr

pub data MqStatus : Type 0 where
  mq_invalid mq_open mq_closing mq_closed : MqStatus

-- `MessageQueue` behind its first field, the resource, which the table of resources has at the same
-- address.
pub record MessageQueue : Type 0 where
  pub messages : List Ptr
  pub waiting_receivers : List Ptr
  pub waiting_senders : List Ptr
  pub max_messages : ℤ
  pub current_messages : ℤ
  pub queue_id : ℤ
  pub status : MqStatus

-- `descriptor_ptrs` and `pcb_ptrs` give the pointer that a `DescriptorPtr` or a `PCBPtr` holds.
-- `queues` has an entry only where a message queue was allocated: at any other address the fields
-- behind the resource do not exist.
pub record Kernel : Type 0 where
  pub memory : Ptr → ℕ
  pub mapped : Ptr → Bool
  pub running : Ptr
  pub init_pcb : Ptr
  pub shutdown_now : Bool
  pub last_pid : ℤ
  pub time : ℤ
  pub ready_list : List Ptr
  pub waiting_list : List Ptr
  pub zombie_list : List Ptr
  pub resources_list : List Ptr
  pub timer_list : List Ptr
  pub pcbs : Ptr → Pcb
  pub timers : Ptr → TimerItem
  pub resources : Ptr → Resource
  pub descriptors : Ptr → Descriptor
  pub descriptor_ptrs : Ptr → Ptr
  pub pcb_ptrs : Ptr → Ptr
  pub messages : Ptr → Message
  pub queues : Ptr → Option MessageQueue
  pub pcb_pool : PoolAllocator
  pub pcb_ptr_pool : PoolAllocator
  pub timer_pool : PoolAllocator
  pub resource_pool : PoolAllocator
  pub descriptor_pool : PoolAllocator
  pub descriptor_ptr_pool : PoolAllocator
  pub message_pool : PoolAllocator
  pub queue_pool : PoolAllocator

-- `fault` is undefined behaviour of the kernel's own, or an assertion that fails, and `hang` a loop
-- that never ends. `segfault` is a copy from or to an address that the program may not use. `tangled` is
-- a step that puts a process into a list while another list holds it, or takes it off a list that
-- does not hold it: `List_insert` then refuses or joins the two lists, and `List_detach` changes
-- the wrong one, so that the lists are no sequences any more.
pub data Run {ℓ} (A : Type ℓ) : Type ℓ where
  ok : A → Run A
  fault : Run A
  hang : Run A
  segfault : Run A
  tangled : Run A

infixl 5 ◌>>=◌
abbrev pub ◌>>=◌ {ℓ κ} : {A : Type ℓ} {B : Type κ} → Run A → (A → Run B) → Run B
ok a >>= f = f a
fault >>= f = fault
hang >>= f = hang
segfault >>= f = segfault
tangled >>= f = tangled

-- An access outside an allocator's array.
abbrev pub from_pool {ℓ} : {A : Type ℓ} → Option A → Run A
from_pool none = fault
from_pool (some a) = ok a

abbrev pub update {ℓ} : {A : Type ℓ} → (Ptr → A) → Ptr → A → Ptr → A
update f p v q = if q == p then v else f q

abbrev pub set_pcb : Kernel → Ptr → Pcb → Kernel
set_pcb k p pcb = record k { pcbs = update k.pcbs p pcb }

abbrev pub set_status : Kernel → Ptr → ProcessStatus → Kernel
set_status k p s = record k { pcbs = update k.pcbs p (record (k.pcbs p) { status = s }) }

abbrev pub set_retvalue : Kernel → Ptr → ℤ → Kernel
set_retvalue k p v = record k {
  pcbs = update k.pcbs p (record (k.pcbs p) { syscall_retvalue = v });
}

abbrev pub set_queue : Kernel → Ptr → MessageQueue → Kernel
set_queue k r mq = record k { queues = update k.queues r (some mq) }

-- The sequence with one more item at its end.
abbrev pub push_back : List Ptr → Ptr → List Ptr
push_back xs p = xs ++ p ∷ []

-- A `void*` in a `long int`.
abbrev pub to_ptr : ℤ → Ptr
to_ptr (pos n) = n
to_ptr (negsuc n) = 2 ^ 64 - suc n

abbrev pub is_running : ProcessStatus → Bool
is_running running = true
is_running _ = false

abbrev pub is_waiting : ProcessStatus → Bool
is_waiting waiting = true
is_waiting _ = false

-- The `n` bytes from address `p` on, and `memcpy` of bytes to address `p`.
unfoldable pub read_bytes : (Ptr → ℕ) → Ptr → ℕ → List ℕ
read_bytes memory p zero = []
read_bytes memory p (suc n) = memory p ∷ read_bytes memory (suc p) n

unfoldable pub write_bytes : (Ptr → ℕ) → Ptr → List ℕ → Ptr → ℕ
write_bytes memory p [] = memory
write_bytes memory p (b ∷ bs) = write_bytes (update memory p b) (suc p) bs

-- Whether the program may use the `n` addresses from `p` on.
unfoldable pub can_access : (Ptr → Bool) → Ptr → ℕ → Bool
can_access mapped p zero = true
can_access mapped p (suc n) = not (p == null) && mapped p && can_access mapped (suc p) n

-- `if (p) *p = v;`, for a pointer to an `int`
abbrev pub write_int : Kernel → Ptr → ℤ → Kernel
write_int k p v = record k {
  memory = if p == null then k.memory else write_bytes k.memory p (int_bytes v);
}

-- Whether that is no access to memory that the program may not use.
abbrev pub can_write_int : Kernel → Ptr → Bool
can_write_int k p = (p == null) || can_access k.mapped p 4

-- `pcb->signals |= (signal & pcb->signals_mask)`
abbrev pub raise : Kernel → (signal : ℕ) → Ptr → Kernel
raise k signal p =
    let pcb = k.pcbs p in
    if has_flag signal pcb.signals_mask
    then set_pcb k p (record pcb { signals = with_flag signal pcb.signals })
    else k

-- `List_detach(&ready_list, ready_list.first)`, and the process that is taken off runs. On an empty
-- list `List_detach` is given a null pointer, which it dereferences.
abbrev pub run_first_ready : Kernel → Run Kernel
run_first_ready k = elim k.ready_list [
  | [] ↦ fault
  | next ∷ rest ↦ ok (record (set_status k next running) { ready_list = rest; running = next })
]

-- What a run that goes on has passed.
pub >>=-eq-ok {ℓ κ} :
    {A : Type ℓ} {B : Type κ} (m : Run A) (f : A → Run B) {b : B}
    → (m >>= f) ≡ ok b
    → (a : A) × (m ≡ ok a) × (f a ≡ ok b)
>>=-eq-ok (ok a) f e = (a, refl, e)
>>=-eq-ok fault f e = cc
>>=-eq-ok hang f e = cc
>>=-eq-ok segfault f e = cc
>>=-eq-ok tangled f e = cc
