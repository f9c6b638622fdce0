-- ===== src/MessageQueue/Destroy/Loops.antt =====
-- The loops of internal_mq_destroy.
use disastr_os_message_queue.Base.{
  ap, fun_ext, ◌||◌, if◌then◌else◌, ◌≡◌, refl, ◌∙◌, sym, true, false, Option, none, some, List, [],
  ◌∷◌, ◌++◌, append_assoc, append-nil, arith, has, ◌==◌, Bool-cases, inl, inr, eq_of_==,
}
use disastr_os_message_queue.Constants.{dsos_emqnotopen}
use disastr_os_message_queue.PoolAllocator.{Ptr, null, PoolAllocator, release_block}
use disastr_os_message_queue.Kernel.{Kernel, Pcb, ready, ok}
use disastr_os_message_queue.Kernel.Invariant.{HasPool, release_block_total}
use disastr_os_message_queue.Message.{message_free}
use disastr_os_message_queue.MessageQueue.Destroy.{wake_all, wake_blocked, free_all}

-- A process that was woken because its queue is gone.
abbrev pub released : Pcb → Pcb
released pcb = record pcb { status = ready; syscall_retvalue = dsos_emqnotopen }

-- The loop touches the processes and the ready list alone.
pub wake_all_frame :
    (xs : List Ptr) (k : Kernel)
    → wake_all xs k
      ≡ record k { pcbs = (wake_all xs k).pcbs; ready_list = (wake_all xs k).ready_list }
unfolding wake_all
wake_all_frame [] k = refl
wake_all_frame (p ∷ xs) k = wake_all_frame xs (wake_blocked k p)

-- The processes go behind the ready ones, in the order in which they waited.
pub wake_all-ready_list :
    (xs : List Ptr) (k : Kernel) → (wake_all xs k).ready_list ≡ k.ready_list ++ xs
unfolding wake_all
wake_all-ready_list [] k = sym (append-nil k.ready_list)
wake_all-ready_list (p ∷ xs) k =
    wake_all-ready_list xs (wake_blocked k p) ∙ append_assoc k.ready_list (p ∷ []) xs

pub wake_all_others :
    (xs : List Ptr) (k : Kernel) (p : Ptr) → has p xs ≡ false → (wake_all xs k).pcbs p ≡ k.pcbs p
unfolding wake_all
wake_all_others [] k p out = refl
wake_all_others (x ∷ xs) k p out =
    wake_all_others xs (wake_blocked k x) p (ground arith)
    ∙ (let other : (p == x) ≡ false = ground arith in rw other)

-- Each of them is ready, and its call returns `DSOS_EMQNOTOPEN`.
pub wake_all_woken :
    (xs : List Ptr) (k : Kernel) (p : Ptr)
    → has p xs ≡ true
    → (wake_all xs k).pcbs p ≡ released (k.pcbs p)
unfolding wake_all
wake_all_woken [] k p h = ground arith
wake_all_woken (x ∷ xs) k p h = elim (Bool-cases (has p xs)) [
  | inl again ↦ wake_all_woken xs (wake_blocked k x) p again ∙ woken_twice k x p
  | inr last ↦
      wake_all_others xs (wake_blocked k x) p last
      ∙ (let same : (p == x) ≡ true = ground arith in rw (same, ← eq_of_== p x same))
]
  where
    woken_twice :
        (k : Kernel) (x p : Ptr) → released ((wake_blocked k x).pcbs p) ≡ released (k.pcbs p)
    woken_twice k x p = elim (Bool-cases (p == x)) [
      | inl same ↦ rw (same, eq_of_== p x same)
      | inr other ↦ rw other
    ]

-- The allocator with these blocks given back one after another.
abbrev pub release_all : List Ptr → PoolAllocator → Option PoolAllocator
release_all [] a = some a
release_all (p ∷ ps) a =
    if p == null
    then release_all ps a
    else elim (release_block a p) [ none ↦ none | some (b, result) ↦ release_all ps b ]

-- The messages are given back to the allocator, and nothing else changes.
pub free_all_total :
    (xs : List Ptr) (k : Kernel)
    → HasPool k.message_pool
    → (pool : PoolAllocator) × HasPool pool
      × (release_all xs k.message_pool ≡ some pool)
      × (free_all xs k ≡ ok (record k { message_pool = pool }))
unfolding free_all message_free
free_all_total [] k p = (k.message_pool, p, refl, refl)
free_all_total (x ∷ xs) k p = elim (Bool-cases (x == null)) [
  | inl nothing ↦
      let (last, q', given, rest) = free_all_total xs k p in
      (last, q', rw nothing given, rw nothing rest)
  | inr block ↦
      let ((pool, result), e, q) = release_block_total k.message_pool x p in
      let (last, q', given, rest) = free_all_total xs (record k { message_pool = pool }) q in
      (last, q', rw (block, e) given, rw (block, e) rest)
]

wake_both-pcbs :
    (rs ss : List Ptr) (k : Kernel)
    → (wake_all ss (wake_all rs k)).pcbs
      ≡ (λ p. if has p rs || has p ss then released (k.pcbs p) else k.pcbs p)
wake_both-pcbs rs ss k = fun_ext λ p. elim (Bool-cases (has p ss)) [
  | inl sends ↦ wake_all_woken ss (wake_all rs k) p sends ∙ elim (Bool-cases (has p rs)) [
    | inl both ↦ rw (both, wake_all_woken rs k p both)
    | inr only ↦ rw (only, sends, wake_all_others rs k p only)
  ]
  | inr no_send ↦ wake_all_others ss (wake_all rs k) p no_send ∙ elim (Bool-cases (has p rs)) [
    | inl receives ↦ rw receives (wake_all_woken rs k p receives)
    | inr neither ↦ rw (neither, no_send) (wake_all_others rs k p neither)
  ]
]

-- Both loops together, in one step.
pub wake_both :
    (rs ss : List Ptr) (k : Kernel)
    → wake_all ss (wake_all rs k) ≡ record k {
      ready_list = (k.ready_list ++ rs) ++ ss;
      pcbs = λ p. if has p rs || has p ss then released (k.pcbs p) else k.pcbs p;
    }
wake_both rs ss k =
    let k1 = wake_all rs k in
    let k2 = wake_all ss k1 in
    wake_all_frame ss k1
    ∙ ap (λ (k : Kernel). record k { pcbs = k2.pcbs; ready_list = k2.ready_list })
        (wake_all_frame rs k)
    ∙ ap (λ (xs : List Ptr). record k { pcbs = k2.pcbs; ready_list = xs })
        (wake_all-ready_list ss k1 ∙ ap (λ (xs : List Ptr). xs ++ ss) (wake_all-ready_list rs k))
    ∙ ap (λ (ps : Ptr → Pcb). record k { pcbs = ps; ready_list = (k.ready_list ++ rs) ++ ss })
        (wake_both-pcbs rs ss k)
