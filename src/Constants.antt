-- ===== src/Constants.antt =====
-- include/disastrOS_constants.h: the limits, the error codes, the signals, the system call numbers
-- and the resource modes that the modelled code names.
use disastr_os_message_queue.Base.{ℕ, ℤ, pos, negsuc}

abbrev pub max_num_processes : ℕ
max_num_processes = 1024

abbrev pub max_num_resources : ℕ
max_num_resources = 1024

abbrev pub max_num_descriptors_per_process : ℕ
max_num_descriptors_per_process = 32

abbrev pub max_message_queues : ℕ
max_message_queues = 32

abbrev pub max_messages_per_queue : ℕ
max_messages_per_queue = 16

-- `MESSAGE_MAX_SIZE`, the largest payload.
abbrev pub message_max_size : ℕ
message_max_size = 256

abbrev pub dsos_sigchld : ℕ
dsos_sigchld = 0x1

abbrev pub dsos_sighup : ℕ
dsos_sighup = 0x2

-- The error code -(n + 1) is `negsuc n`.
abbrev pub dsos_esyscall_not_implemented : ℤ
dsos_esyscall_not_implemented = negsuc 1

abbrev pub dsos_esyscall_out_of_range : ℤ
dsos_esyscall_out_of_range = negsuc 2

abbrev pub dsos_ewait : ℤ
dsos_ewait = negsuc 4

abbrev pub dsos_espawn : ℤ
dsos_espawn = negsuc 5

abbrev pub dsos_esleep : ℤ
dsos_esleep = negsuc 6

abbrev pub dsos_eresourcecreate : ℤ
dsos_eresourcecreate = negsuc 7

abbrev pub dsos_eresourceopen : ℤ
dsos_eresourceopen = negsuc 8

abbrev pub dsos_eresourcenoexcl : ℤ
dsos_eresourcenoexcl = negsuc 9

abbrev pub dsos_eresourcenofd : ℤ
dsos_eresourcenofd = negsuc 10

abbrev pub dsos_eresourceclose : ℤ
dsos_eresourceclose = negsuc 11

abbrev pub dsos_eresourceinuse : ℤ
dsos_eresourceinuse = negsuc 12

abbrev pub dsos_emqfull : ℤ
dsos_emqfull = negsuc 13

abbrev pub dsos_emqempty : ℤ
dsos_emqempty = negsuc 14

abbrev pub dsos_emqinvalid : ℤ
dsos_emqinvalid = negsuc 15

abbrev pub dsos_emqcreate : ℤ
dsos_emqcreate = negsuc 17

abbrev pub dsos_emqexists : ℤ
dsos_emqexists = negsuc 18

abbrev pub dsos_emqclosed : ℤ
dsos_emqclosed = negsuc 19

abbrev pub dsos_emqnotopen : ℤ
dsos_emqnotopen = negsuc 20

abbrev pub dsos_ebuffer : ℤ
dsos_ebuffer = negsuc 21

-- The modes of `openResource`.
abbrev pub dsos_create : ℕ
dsos_create = 0x1

abbrev pub dsos_excl : ℕ
dsos_excl = 0x4

-- The numbers of the system calls.
abbrev pub dsos_call_preempt : ℤ
dsos_call_preempt = pos 1

abbrev pub dsos_call_fork : ℤ
dsos_call_fork = pos 2

abbrev pub dsos_call_wait : ℤ
dsos_call_wait = pos 3

abbrev pub dsos_call_exit : ℤ
dsos_call_exit = pos 4

abbrev pub dsos_call_spawn : ℤ
dsos_call_spawn = pos 5

abbrev pub dsos_call_sleep : ℤ
dsos_call_sleep = pos 6

abbrev pub dsos_call_open_resource : ℤ
dsos_call_open_resource = pos 7

abbrev pub dsos_call_close_resource : ℤ
dsos_call_close_resource = pos 8

abbrev pub dsos_call_destroy_resource : ℤ
dsos_call_destroy_resource = pos 9

abbrev pub dsos_call_shutdown : ℤ
dsos_call_shutdown = pos 10

abbrev pub dsos_call_mq_create : ℤ
dsos_call_mq_create = pos 11

abbrev pub dsos_call_mq_send : ℤ
dsos_call_mq_send = pos 12

abbrev pub dsos_call_mq_receive : ℤ
dsos_call_mq_receive = pos 13

abbrev pub dsos_call_mq_destroy : ℤ
dsos_call_mq_destroy = pos 14

abbrev pub dsos_max_syscalls : ℤ
dsos_max_syscalls = pos 32
