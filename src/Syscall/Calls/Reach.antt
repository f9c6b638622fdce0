-- ===== src/Syscall/Calls/Reach.antt =====
-- Every function of src/disastrOS.c that makes a system call reaches its handler.
use disastr_os_message_queue.Base.{
  ℕ, zero, suc, ◌==◌, ◌≡◌, refl, ap, ◌∙◌, some, List, [], ◌∷◌, arith, ==_refl, leb_ℤ, false, ℤ, pos,
  fun_ext, length,
}
use disastr_os_message_queue.Constants.{dsos_max_syscalls}
use disastr_os_message_queue.PoolAllocator.{null}
use disastr_os_message_queue.Kernel.{Kernel, set_pcb}
use disastr_os_message_queue.Syscall.{
  Handler, run_handler, syscall_vector, num_args, copy_args, disastr_os_syscall, disastr_os_trap,
  dispatch,
}
use disastr_os_message_queue.Syscall.Calls.{
  Call, forks, preempts, shuts_down, waits, exits, sleeps, closes, destroys, mq_destroys, spawns,
  opens, mq_creates, mq_sends, mq_receives, passed, make_call, meant,
}

-- The values in front, and what was there behind them.
abbrev pub overlay : List ℤ → (ℕ → ℤ) → ℕ → ℤ
overlay [] old i = old i
overlay (x ∷ xs) old zero = x
overlay (x ∷ xs) old (suc i) = overlay xs (λ j. old (suc j)) i

-- The kernel that the handler of the call with this number finds.
abbrev pub entered : Kernel → (num : ℕ) → List ℤ → Kernel
entered k num xs =
    let caller = k.pcbs k.running in
    set_pcb k k.running
      (record caller { syscall_num = pos num; syscall_args = overlay xs caller.syscall_args })

copy_args-passed :
    (xs : List ℤ) (old : ℕ → ℤ) (i : ℕ) → copy_args (length xs) (passed xs) old i ≡ overlay xs old i
copy_args-passed [] old i = ground arith
copy_args-passed (x ∷ xs) old zero = ground arith
copy_args-passed (x ∷ xs) old (suc i) = ground (arith, copy_args-passed xs (λ j. old (suc j)) i)

reached :
    (k : Kernel) (num : ℕ) (m : Handler × List ℤ)
    → (k.running == null) ≡ false
    → leb_ℤ dsos_max_syscalls (pos num) ≡ false
    → syscall_vector num ≡ some m.0
    → num_args num ≡ length m.1
    → disastr_os_syscall k (pos num) (passed m.1) ≡ run_handler m.0 (entered k num m.1)
unfolding disastr_os_syscall disastr_os_trap dispatch
reached k num (h, xs) alive inside found taken =
    let old = (k.pcbs k.running).syscall_args in
    let args : copy_args (num_args num) (passed xs) old ≡ overlay xs old =
      ap (λ (n : ℕ). copy_args n (passed xs) old) taken ∙ fun_ext (copy_args-passed xs old) in
    rw (alive, inside, ==_refl k.running, inside, found, args) refl

-- While a process runs, whichever function a program calls, the handler that this call is meant for runs, on a kernel where
-- the caller's PCB holds a number under which this handler is registered and the values in
-- their order, each `int` as the calling convention makes a `long int` of it, and behind them the
-- arguments of earlier calls.
pub make_call-run_handler :
    (as_long : ℤ → ℤ) (c : Call) (k : Kernel)
    → (k.running == null) ≡ false
    → (num : ℕ) × (syscall_vector num ≡ some (meant as_long c).0)
      × (make_call as_long c k
          ≡ run_handler (meant as_long c).0 (entered k num (meant as_long c).1))
unfolding make_call
make_call-run_handler as_long forks k alive =
    (2, refl, reached k 2 (meant as_long forks) alive refl refl refl)
make_call-run_handler as_long preempts k alive =
    (1, refl, reached k 1 (meant as_long preempts) alive refl refl refl)
make_call-run_handler as_long shuts_down k alive =
    (10, refl, reached k 10 (meant as_long shuts_down) alive refl refl refl)
make_call-run_handler as_long (waits pid retval) k alive =
    (3, refl, reached k 3 (meant as_long (waits pid retval)) alive refl refl refl)
make_call-run_handler as_long (exits exitval) k alive =
    (4, refl, reached k 4 (meant as_long (exits exitval)) alive refl refl refl)
make_call-run_handler as_long (sleeps sleep_time) k alive =
    (6, refl, reached k 6 (meant as_long (sleeps sleep_time)) alive refl refl refl)
make_call-run_handler as_long (closes fd) k alive =
    (8, refl, reached k 8 (meant as_long (closes fd)) alive refl refl refl)
make_call-run_handler as_long (destroys resource_id) k alive =
    (9, refl, reached k 9 (meant as_long (destroys resource_id)) alive refl refl refl)
make_call-run_handler as_long (mq_destroys mq_id) k alive =
    (14, refl, reached k 14 (meant as_long (mq_destroys mq_id)) alive refl refl refl)
make_call-run_handler as_long (spawns f args) k alive =
    (5, refl, reached k 5 (meant as_long (spawns f args)) alive refl refl refl)
make_call-run_handler as_long (opens resource_id type mode) k alive =
    (7, refl, reached k 7 (meant as_long (opens resource_id type mode)) alive refl refl refl)
make_call-run_handler as_long (mq_creates mq_id size) k alive =
    (11, refl, reached k 11 (meant as_long (mq_creates mq_id size)) alive refl refl refl)
make_call-run_handler as_long (mq_sends mq_id buffer size) k alive =
    (12, refl, reached k 12 (meant as_long (mq_sends mq_id buffer size)) alive refl refl refl)
make_call-run_handler as_long (mq_receives mq_id buffer size) k alive =
    (13, refl, reached k 13 (meant as_long (mq_receives mq_id buffer size)) alive refl refl refl)
