-- ===== src/Lib.antt =====
-- DisastrOS, a small operating system in one Unix process, with blocking message queues.
--
-- The program. Processes are PCBs in lists: ready, waiting, zombie. A system call stores its number
-- and arguments in the PCB of the process that runs and traps into the kernel, which runs one handler,
-- internal_*, on its global state. A handler may block its caller: it puts it into a list and calls
-- internal_schedule, which wakes the processes whose timers are due and picks the first ready one. A
-- message queue is a resource in the global list of resources, with lists of messages, of waiting
-- receivers and of waiting senders. Every object comes from a pool allocator over a static array.
--
-- The files.
--   Base: numbers, Boolean tests, integers and lists that the rest shares.
--   Constants: include/disastrOS_constants.h.
--   PoolAllocator: src/pool_allocator.c. The record holds the fields of the struct, with the array
--     free_list as a list. get_block, release_block and init are the three operations;
--     PoolAllocator.FreeList says which blocks are free, Lent which are lent, and Far which
--     addresses no other allocator takes for its own.
--   LinkedList: src/linked_list.c on the links of the items; LinkedList.Shape says which sequence a list
--     holds, LinkedList.Detach and Insert treat its operations. The other files use the sequences,
--     by the functions push_back, detach, insert_after and insert_behind on sequences.
--   Kernel: the structs of include/ and the globals of src/disastrOS.c as one record, which every
--     handler takes and returns. Kernel.Invariant says what well-formed stores are.
--     Kernel.Order says when the lists of processes are in order, and Schedule.Order that the scheduler
--     keeps them so.
--     Kernel.Links is the part of it that open and close change, and Keeps says that a run leaves it.
--   Timer, Schedule: src/disastrOS_timer.c, src/disastrOS_schedule.c, src/disastrOS_preempt.c.
--   Message: src/disastrOS_message.c.
--   MessageQueue: src/disastrOS_message_queue.c, and below it Create, Send, Receive and Destroy, the
--     handlers in src/disastrOS_msgqueue_create.c, _send.c, _receive.c and _destroy.c.
--   Process: src/disastrOS_pcb.c, and below it Fork, Spawn, Wait, Exit, Sleep and Shutdown, the handlers
--     in src/disastrOS_fork.c and so on.
--   Resource: src/disastrOS_resource.c and src/disastrOS_descriptor.c, and below it Open, Close and
--     Remove, the handlers in src/disastrOS_open_resource.c, _close_resource.c and _destroy_resource.c.
--     Resource.Linked says how processes, descriptors, their entries and resources are linked.
--   Syscall: the vector of the handlers, the trap and the tick of src/disastrOS.c. Syscall.Handlers
--     treats the handlers together, Syscall.Events runs sequences of calls and ticks, Syscall.Ticks
--     interrupts one after another, Syscall.Start is disastrOS_start, and Syscall.Calls has the
--     functions of include/disastrOS.h that make the calls.
--   Print: the functions that print lists and queues, as sequences of texts and numbers.
--   Tests: a small kernel, with runs of the operations on it.
--
-- The correspondence. A function keeps its name in lower case: Message_alloc is message_alloc. An
-- object is at an address, a number, and null is 0; each type has its table from addresses to objects.
-- A handler's stages that the code separates by early returns are functions of their own: of
-- internal_mq_send, send_full is the branch of a full queue, resume_send what follows the scheduler's
-- return there, and send_message what follows that branch. In the code a caller that was switched away
-- never comes back into its handler: its context was saved at its trap.
-- A run has one of five outcomes. It returns a state. It is fault: an assertion fails, or the kernel
-- uses an address outside an allocator's array or follows a null pointer; disastrOS_syscall's assert(running)
-- is one of these. It is hang: a loop never ends. It is segfault: a copy for a send, a receive, a wait or an
-- exit uses memory that the program may not use. Which addresses it may use is the parameter `mapped`, a
-- field of the state that never changes. Or it is tangled.
-- A ListHead of the kernel is the sequence of the items linked in it. For the lists of processes, ready,
-- waiting and zombie and those of the queues, this holds only while no process is in two of them, since a
-- PCB has one pair of links; a state with a process in two lists stands for none of the program's.
-- The program can leave these states: a process that sleeps while nobody is ready goes on running in
-- the waiting list, and may then block or exit. List_insert then refuses the item or joins two lists, and
-- List_detach takes it off the wrong one. So a handler that puts the process that runs into a
-- list tests first whether a list holds it, one that takes a process off the waiting or the zombie list
-- whether that list holds it, and internal_schedule, which takes processes off the waiting list, tests
-- the whole order of the lists (Kernel.Order). Where the test fails the outcome is tangled, about which
-- nothing is said. A handler that moves a process from the list that holds it to another, and one that
-- makes a process, need no test, nor does one that finds its caller still blocked and undoes that. Children's entries, timers, messages, descriptors and resources are
-- linked into one list when they are made, and taken off the list they are found in.
-- An int is an integer, wrapped to 32 bits where the code converts a wider number. What
-- va_arg(ap, long int) reads where an int was passed is the parameter `as_long` of Syscall.Calls. Counters
-- that are only ever stepped by one are not wrapped.
--
-- Bounds. The loop of internal_schedule removes a timer in each round and is run on as many rounds as
-- there are timers. All other loops follow a list.
--
-- Not modelled: what MessageQueue_print, Message_print and the logging show and read, which may be bytes
-- behind a payload; the contexts, signals and
-- stacks of <ucontext.h> and <signal.h>; the links of the kernel's own lists, which are sequences;
-- the test programs.
pub mod Base
pub mod PoolAllocator
pub mod Constants
pub mod Kernel
pub mod Timer
pub mod Schedule
pub mod Message
pub mod MessageQueue
pub mod Tests
pub mod Print
pub mod Process
pub mod Resource
pub mod Syscall
pub mod LinkedList
