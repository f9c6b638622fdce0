-- ===== src/Kernel/Order.antt =====
-- Which lists hold a process. A PCB has one pair of links, so the lists of processes are sequences only as
-- long as no process is in two of them.
pub mod Count
use disastr_os_message_queue.Base.{
  Bool, true, not, ◌&&◌, Option, List, [], ◌∷◌, ◌++◌, none, some, has, detach,
}
use disastr_os_message_queue.PoolAllocator.{Ptr, null}
use disastr_os_message_queue.Kernel.{Kernel, MessageQueue, TimerItem, is_running}

-- The processes that wait in the queues among these resources.
unfoldable pub waiters : (Ptr → Option MessageQueue) → List Ptr → List Ptr
waiters queues [] = []
waiters queues (r ∷ rs) = elim (queues r) [
  | none ↦ waiters queues rs
  | some mq ↦ mq.waiting_receivers ++ mq.waiting_senders ++ waiters queues rs
]

-- All processes that some list holds.
abbrev pub listed : Kernel → List Ptr
listed k = k.ready_list ++ k.waiting_list ++ k.zombie_list ++ waiters k.queues k.resources_list

unfoldable pub is_listed : Kernel → Ptr → Bool
unfolding waiters
is_listed k p = has p (listed k)

abbrev pub is_distinct : List Ptr → Bool
is_distinct [] = true
is_distinct (p ∷ ps) = not (has p ps) && is_distinct ps

-- Whether each of these timers has a process of its own in the list.
unfoldable pub timers_wait : (Ptr → TimerItem) → (waiting_list timer_list : List Ptr) → Bool
unfolding detach
timers_wait timers waiting_list [] = true
timers_wait timers waiting_list (t ∷ ts) =
    has (timers t).pcb waiting_list && timers_wait timers (detach (timers t).pcb waiting_list) ts

-- Whether the scheduler meets its lists in order: each process is in one place, those with a timer
-- wait, none is at address 0, and the process that runs, unless it blocks, is in no list.
unfoldable pub is_orderly : Kernel → Bool
unfolding waiters timers_wait
is_orderly k =
    is_distinct (listed k)
    && not (has null (listed k))
    && timers_wait k.timers k.waiting_list k.timer_list
    && not (is_running (k.pcbs k.running).status && has k.running (listed k))
