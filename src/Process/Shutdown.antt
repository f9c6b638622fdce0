-- ===== src/Process/Shutdown.antt =====
-- src/disastrOS_shutdown.c: the flag that ends the program once the main context runs again.
use disastr_os_message_queue.Base.{true}
use disastr_os_message_queue.Kernel.{Kernel, Run, ok}

-- `internal_shutdown`
unfoldable pub internal_shutdown : Kernel → Run Kernel
internal_shutdown k = ok (record k { shutdown_now = true })
