-- ===== src/Process/Wait/Spec.antt =====
-- What internal_wait does with a child that has died.
use disastr_os_message_queue.Base.{
  ◌≡◌, ap, ◌∙◌, true, false, some, List, [], ◌∷◌, ◌++◌, arith, ℤ, pos, wrap32, ltb_ℤ, ◌==ℤ◌, ◌==◌,
  ==_refl, Bool-cases, inl, inr, detach, has,
}
use disastr_os_message_queue.PoolAllocator.{
  Ptr, null, PoolAllocator, PoolAllocatorResult, release_block,
}
use disastr_os_message_queue.Kernel.{Kernel, Pcb, ok, to_ptr, update, write_int, can_write_int}
use disastr_os_message_queue.Kernel.Invariant.{HasPool, release_block_total}
use disastr_os_message_queue.Kernel.Update.{update-update}
use disastr_os_message_queue.Process.{pcb_free, pcb_ptr_free}
use disastr_os_message_queue.Process.Wait.{is_zombie, is_awaited, awaited_ptr, reap, internal_wait}

-- The arguments of the process that runs: the pid that it waits for, and where the value goes.
abbrev pub pid_of : Kernel → ℤ
pid_of k = wrap32 ((k.pcbs k.running).syscall_args 0)

abbrev pub result_of : Kernel → Ptr
result_of k = to_ptr ((k.pcbs k.running).syscall_args 1)

-- The kernel once the child `c` of the process that runs, with the entry `q`, is gone.
abbrev pub reaped : Kernel → (c q : Ptr) → (pcb_pool pcb_ptr_pool : PoolAllocator) → Kernel
reaped k c q pcb_pool pcb_ptr_pool =
    write_int
      (record k {
        pcb_pool = pcb_pool;
        pcb_ptr_pool = pcb_ptr_pool;
        zombie_list = detach c k.zombie_list;
        pcbs = update k.pcbs k.running (record (k.pcbs k.running) {
          children = detach q (k.pcbs k.running).children;
          syscall_retvalue = (k.pcbs c).pid;
        });
      })
      (result_of k) (k.pcbs c).return_value

-- The allocator `b` is `a` with the block `p` given back.
abbrev pub Released : PoolAllocator → Ptr → PoolAllocator → Type 0
Released a p b = HasPool b × (result : PoolAllocatorResult) × (release_block a p ≡ some (b, result))

pcb_ptr_free_total :
    (k : Kernel) (p : Ptr)
    → (p == null) ≡ false
    → HasPool k.pcb_ptr_pool
    → (pool : PoolAllocator) × Released k.pcb_ptr_pool p pool
      × (pcb_ptr_free k p ≡ ok (record k { pcb_ptr_pool = pool }))
unfolding pcb_ptr_free
pcb_ptr_free_total k p given h =
    let ((pool, result), released, h') = release_block_total k.pcb_ptr_pool p h in
    (pool, (h', result, released), rw (given, released))

pub pcb_free_total :
    (k : Kernel) (p : Ptr)
    → (p == null) ≡ false
    → HasPool k.pcb_pool
    → (pool : PoolAllocator) × Released k.pcb_pool p pool
      × (pcb_free k p ≡ ok (record k { pcb_pool = pool }))
unfolding pcb_free
pcb_free_total k p given h =
    let ((pool, result), released, h') = release_block_total k.pcb_pool p h in
    (pool, (h', result, released), rw (given, released))

-- With no child of this pid the scan ends at the last child.
pub awaited_ptr_last :
    (k : Kernel) (pid : ℤ) (previous q : Ptr) (before : List Ptr)
    → ((p : Ptr) → has p (before ++ q ∷ []) ≡ true → is_awaited k pid (k.pcb_ptrs p) ≡ false)
    → awaited_ptr k pid previous (before ++ q ∷ []) ≡ q
unfolding awaited_ptr
awaited_ptr_last k pid previous q [] nobody = rw (nobody q (rw (==_refl q)))
awaited_ptr_last k pid previous q (p ∷ before) nobody =
    rw (nobody p (rw (==_refl p)))
      (awaited_ptr_last k pid p q before (λ r h. nobody r (ground (arith, h))))

reap-reaped :
    (k : Kernel) (c q : Ptr)
    → k.pcb_ptrs q ≡ c
    → (c == null) ≡ false
    → (c == k.running) ≡ false
    → (q == null) ≡ false
    → has c k.zombie_list ≡ true
    → can_write_int k (result_of k) ≡ true
    → HasPool k.pcb_pool
    → HasPool k.pcb_ptr_pool
    → (p1 : PoolAllocator) × (p2 : PoolAllocator) × Released k.pcb_pool c p1
      × Released k.pcb_ptr_pool q p2
      × (reap k (result_of k) q ≡ ok (reaped k c q p1 p2))
unfolding reap
reap-reaped k c q entry exists apart entered buried writable h1 h2 =
    let parent = k.pcbs k.running in
    let k1 = record k {
      pcbs = update k.pcbs k.running (record parent { children = detach q parent.children });
    } in
    let (p2, h2', freed) = pcb_ptr_free_total k1 q entered h2 in
    let (p1, h1', ended) = pcb_free_total (reaped k c q k.pcb_pool p2) c exists h1 in
    (
      p1,
      p2,
      h1',
      h2',
      rw (entry, buried, writable, freed, apart, ==_refl k.running)
          (ap (λ (ps : Ptr → Pcb). pcb_free (record (reaped k c q k.pcb_pool p2) { pcbs = ps }) c)
              (update-update k.pcbs k.running _ _)
            ∙ ended),
    )

internal_wait-reap :
    (k : Kernel) (c q first : Ptr) (others : List Ptr)
    → (k.pcbs k.running).children ≡ first ∷ others
    → awaited_ptr k (pid_of k) null (first ∷ others) ≡ q
    → k.pcb_ptrs q ≡ c
    → (c == null) ≡ false
    → is_zombie (k.pcbs c).status ≡ true
    → internal_wait k ≡ reap k (result_of k) q
unfolding internal_wait
internal_wait-reap k c q first others e stops entry exists dead =
    elim (Bool-cases (ltb_ℤ (pos 0) (pid_of k))) [
      | inl asked ↦ simp (e, internal_wait, stops, entry, exists, dead, asked)
      | inr any ↦ simp (e, internal_wait, stops, entry, exists, dead, any)
    ]

-- With the allocators of PCBs and their pointers in order, where the caller asks for the value at no
-- address or at one that it may use, a wait whose scan of the children stops at another process that
-- has died and is among the zombies takes this child out of the caller's list and out of the zombies,
-- gives the blocks of its PCB and its entry back to their allocators, returns its pid to the caller, and stores its value where
-- the caller asked for it. Nothing else changes.
pub internal_wait-reaped :
    (k : Kernel) (c q first : Ptr) (others : List Ptr)
    → (k.pcbs k.running).children ≡ first ∷ others
    → awaited_ptr k (pid_of k) null (first ∷ others) ≡ q
    → k.pcb_ptrs q ≡ c
    → (c == null) ≡ false
    → is_zombie (k.pcbs c).status ≡ true
    → (c == k.running) ≡ false
    → (q == null) ≡ false
    → has c k.zombie_list ≡ true
    → can_write_int k (result_of k) ≡ true
    → HasPool k.pcb_pool
    → HasPool k.pcb_ptr_pool
    → (p1 : PoolAllocator) × (p2 : PoolAllocator) × Released k.pcb_pool c p1
      × Released k.pcb_ptr_pool q p2
      × (internal_wait k ≡ ok (reaped k c q p1 p2))
internal_wait-reaped k c q first others e stops entry exists dead apart entered buried writable h1
      h2 =
    let (p1, p2, h1', h2', ran) =
      reap-reaped k c q entry exists apart entered buried writable h1 h2 in
    (p1, p2, h1', h2', internal_wait-reap k c q first others e stops entry exists dead ∙ ran)

-- With the allocators of PCBs and their pointers in order, a wait for the positive pid of no
-- child, where the last child `c` has died and is among the zombies, and the value goes to no address
-- or to one that the caller may use, does not fail: it takes this other child, gives both of its blocks
-- back, and returns its pid.
pub internal_wait_wrong_child :
    (k : Kernel) (c q first : Ptr) (others before : List Ptr)
    → (k.pcbs k.running).children ≡ first ∷ others
    → first ∷ others ≡ before ++ q ∷ []
    → ltb_ℤ (pos 0) (pid_of k) ≡ true
    → ((p : Ptr)
        → has p (before ++ q ∷ []) ≡ true
        → ((k.pcbs (k.pcb_ptrs p)).pid ==ℤ pid_of k) ≡ false)
    → k.pcb_ptrs q ≡ c
    → (c == null) ≡ false
    → is_zombie (k.pcbs c).status ≡ true
    → (c == k.running) ≡ false
    → (q == null) ≡ false
    → has c k.zombie_list ≡ true
    → can_write_int k (result_of k) ≡ true
    → HasPool k.pcb_pool
    → HasPool k.pcb_ptr_pool
    → (p1 : PoolAllocator) × (p2 : PoolAllocator) × Released k.pcb_pool c p1
      × Released k.pcb_ptr_pool q p2
      × (internal_wait k ≡ ok (reaped k c q p1 p2))
internal_wait_wrong_child k c q first others before e last asked nobody entry exists dead apart
      entered buried writable h1 h2 =
    internal_wait-reaped k c q first others e
      (ap (awaited_ptr k (pid_of k) null) last
        ∙ awaited_ptr_last k (pid_of k) null q before (λ p h.
          let other = nobody p h in
          let named : (pid_of k ==ℤ pos 0) ≡ false = ground arith in rw (other, named)))
      entry exists dead apart entered buried writable h1 h2
