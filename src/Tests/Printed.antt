-- ===== src/Tests/Printed.antt =====
-- The printing functions tried.
use disastr_os_message_queue.Base.{◌≡◌, refl, ◌∷◌, [], pos}
use disastr_os_message_queue.PoolAllocator.{null}
use disastr_os_message_queue.Kernel.{Kernel, ok}
use disastr_os_message_queue.Print.{text, number}
use disastr_os_message_queue.Print.Status.{disastr_os_print_status}
use disastr_os_message_queue.Print.Queues.{message_queue_print_all, message_queue_print_messages}
use disastr_os_message_queue.Tests.Sample.{bare, kernel, queue, message_blocks_left, three_bytes}

no_queues_test :
    message_queue_print_all bare
    ≡ ok (
        text "=== Message Queues ===\n"
        ∷ text "No message queues present.\n"
        ∷ text "======================\n"
        ∷ [])
unfolding message_queue_print_all
no_queues_test = refl

-- Queue 7 has the message at 1000.
abbrev one_message : Kernel
one_message = kernel [] message_blocks_left three_bytes (queue (1000 ∷ []) [] [])

one_queue_test :
    message_queue_print_messages one_message (pos 7)
    ≡ ok (
        text "Queue "
        ∷ number (pos 7)
        ∷ text " messages ("
        ∷ number (pos 1)
        ∷ text "/"
        ∷ number (pos 2)
        ∷ text "):\n"
        ∷ text "  ["
        ∷ number (pos 0)
        ∷ text "] sender="
        ∷ number (pos 1)
        ∷ text " size="
        ∷ number (pos 3)
        ∷ text "\n"
        ∷ [])
unfolding message_queue_print_messages
one_queue_test = refl

status_test :
    disastr_os_print_status (record bare { running = null; ready_list = 6 ∷ 7 ∷ [] })
    ≡ ok (
        text "****************** DisastrOS ******************\n"
        ∷ text "Running: "
        ∷ text "\n"
        ∷ text "Timers: "
        ∷ text "["
        ∷ text "]"
        ∷ text "\nResources: "
        ∷ text "{\n"
        ∷ text "}\n"
        ∷ text "\nReady: "
        ∷ text "{\n"
        ∷ text "\t"
        ∷ text "[pid: "
        ∷ number (pos 1)
        ∷ text ", child: "
        ∷ text "("
        ∷ text ")"
        ∷ text "]"
        ∷ text ","
        ∷ text "\n"
        ∷ text "\t"
        ∷ text "[pid: "
        ∷ number (pos 1)
        ∷ text ", child: "
        ∷ text "("
        ∷ text ")"
        ∷ text "]"
        ∷ text "\n"
        ∷ text "}\n"
        ∷ text "\nWaiting: "
        ∷ text "{\n"
        ∷ text "}\n"
        ∷ text "\nZombie: "
        ∷ text "{\n"
        ∷ text "}\n"
        ∷ text "\n***********************************************\n\n"
        ∷ [])
unfolding disastr_os_print_status
status_test = refl

-- Queue 7 is full, and a process waits to send.
abbrev full : Kernel
full = kernel [] message_blocks_left three_bytes (queue (1000 ∷ 1008 ∷ []) [] (7 ∷ []))
