-- ===== src/MessageQueue/Links.antt =====
-- Messages, and the status of a process, are no part of descriptors and resources.
use disastr_os_message_queue.Base.{◌≡◌, refl, arith, ℤ}
use disastr_os_message_queue.PoolAllocator.{Ptr}
use disastr_os_message_queue.Kernel.{Kernel, ok, ready, set_status, set_retvalue}
use disastr_os_message_queue.Kernel.Links.{links_of, links_of-update, Keeps}
use disastr_os_message_queue.Message.{message_alloc, message_free}

pub retvalue-links_of : (k : Kernel) (p : Ptr) (v : ℤ) → links_of (set_retvalue k p v) ≡ links_of k
retvalue-links_of k p v = links_of-update k p (record (k.pcbs p) { syscall_retvalue = v }) refl

pub message_alloc-links_of :
    (k : Kernel) (size : ℤ) (r : Ptr × Kernel)
    → message_alloc k size ≡ ok r
    → links_of r.1 ≡ links_of k
unfolding message_alloc
message_alloc-links_of k size r e = ground arith

pub message_free-Keeps : (k : Kernel) (msg : Ptr) → Keeps (links_of k) (message_free k msg)
unfolding message_free
message_free-Keeps k msg k' e = ground arith

pub ready-links_of : (k : Kernel) (p : Ptr) → links_of (set_status k p ready) ≡ links_of k
ready-links_of k p = links_of-update k p (record (k.pcbs p) { status = ready }) refl
