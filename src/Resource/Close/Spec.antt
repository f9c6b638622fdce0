-- ===== src/Resource/Close/Spec.antt =====
-- What internal_closeResource does.
use disastr_os_message_queue.Base.{
  ◌≡◌, ◌⊎◌, refl, sym, subst, true, List, [], ◌∷◌, arith, ◌==◌, ==_refl, inl, inr, has, has-cons,
  Bool-cases, ℤ, pos, negsuc, ◌==ℤ◌, ◌+ℤ◌, ltb_ℤ, wrap32, length-detach, detach, eq_of_==,
}
use disastr_os_message_queue.Constants.{dsos_eresourceclose}
use disastr_os_message_queue.PoolAllocator.{Ptr, null, PoolAllocator}
use disastr_os_message_queue.PoolAllocator.Lent.{Gives, release_block-Gives}
use disastr_os_message_queue.Kernel.{Kernel, Pcb, Resource, ok, update, set_retvalue}
use disastr_os_message_queue.Kernel.Returns.{Returns}
use disastr_os_message_queue.Kernel.Invariant.{IsKernel, with_resource}
use disastr_os_message_queue.Kernel.Update.{update-update, ap2}
use disastr_os_message_queue.Resource.{descriptor_list_by_fd, descriptor_free, descriptor_ptr_free}
use disastr_os_message_queue.Resource.Invariant.{unlink-IsOpened}
use disastr_os_message_queue.Resource.Linked.{
  IsLinked, IsOpen, entries_of, lent_given, IsOpened-same, Covers-fewer, held-update,
  entries-update, count-update, retvalue-IsLinked,
}
use disastr_os_message_queue.Resource.Close.{close_descriptor, internal_close_resource}

-- The kernel once the running process has closed its descriptor `des`.
abbrev pub closed :
    Kernel → (des : Ptr) → (descriptor_pool descriptor_ptr_pool : PoolAllocator) → Kernel
closed k des descriptor_pool descriptor_ptr_pool =
    let r = (k.descriptors des).resource in
    record k {
      descriptor_pool = descriptor_pool;
      descriptor_ptr_pool = descriptor_ptr_pool;
      pcbs = update k.pcbs k.running (record (k.pcbs k.running) {
        descriptors = detach des (k.pcbs k.running).descriptors;
        syscall_retvalue = pos 0;
      });
      resources = update k.resources r (record (k.resources r) {
        descriptors_ptrs = detach (k.descriptors des).ptr (k.resources r).descriptors_ptrs;
        ref_count = (k.resources r).ref_count +ℤ negsuc 0;
      });
    }

-- A search by number finds a descriptor of the list, or none.
by_fd-cases :
    (k : Kernel) (ds : List Ptr) (fd : ℤ)
    → (descriptor_list_by_fd k ds fd ≡ null) ⊎ (has (descriptor_list_by_fd k ds fd) ds ≡ true)
unfolding descriptor_list_by_fd
by_fd-cases k [] fd = inl refl
by_fd-cases k (d ∷ ds) fd = elim (Bool-cases ((k.descriptors d).fd ==ℤ fd)) [
  | inl here ↦ inr (rw here (ground (arith, ==_refl d)))
  | inr later ↦ elim (by_fd-cases k ds fd) [
    | inl missing ↦ inl (rw later missing)
    | inr found ↦
        let skipped : descriptor_list_by_fd k (d ∷ ds) fd ≡ descriptor_list_by_fd k ds fd =
          rw later refl in
        inr (
          subst (λ (x : Ptr). has x (d ∷ ds) ≡ true) (sym skipped)
            (has-cons (descriptor_list_by_fd k ds fd) d ds found))
  ]
]

pub close_descriptor-closed :
    (k : Kernel) (des : Ptr)
    → IsOpen k
    → has des (k.pcbs k.running).descriptors ≡ true
    → (dp ep : PoolAllocator) × Gives k.descriptor_pool des dp
      × Gives k.descriptor_ptr_pool (k.descriptors des).ptr ep
      × (close_descriptor k des ≡ ok (closed k des dp ep))
unfolding close_descriptor descriptor_free descriptor_ptr_free
close_descriptor-closed k des v on =
    let h = v.held_ok k.running des on in
    let (dp, t) =
      release_block-Gives k.descriptor_pool v.descriptor_pool.0 des v.descriptor_pool.1 h.lent in
    let ptr = (k.descriptors des).ptr in
    let (ep, u) =
      release_block-Gives k.descriptor_ptr_pool v.entry_pool.0 ptr v.entry_pool.1 h.entry_lent in
    let real = lent_given k.descriptor_ptr_pool ptr v.entry_pool h.entry_lent in
    let r = (k.descriptors des).resource in
    let some_left : ltb_ℤ (pos 0) (k.resources r).ref_count ≡ true =
      ground (arith, v.counted r, length-detach ptr (entries_of k.resources r) h.listed) in
    (
      dp,
      ep,
      t,
      u,
      rw (real, t.released, u.released, ==_refl r, some_left, ==_refl k.running)
          (ap2
            (λ (ps : Ptr → Pcb) (rs : Ptr → Resource).
              ok (record (closed k des dp ep) { pcbs = ps; resources = rs }))
            (update-update k.pcbs k.running _ _) (update-update k.resources r _ _)),
    )

module _ (k : Kernel) (des : Ptr) (dp ep : PoolAllocator) where
  abbrev res : Ptr
  res = (k.descriptors des).resource

  closed_empty :
      (r : Ptr) → entries_of k.resources r ≡ [] → entries_of (closed k des dp ep).resources r ≡ []
  unfolding detach
  closed_empty r e = elim (Bool-cases (r == res)) [
    | inl same ↦ ground (arith, eq_of_== r res same)
    | inr other ↦ ground arith
  ]

  -- The invariant after a close.
  pub closed-IsLinked :
      IsLinked k
      → has des (k.pcbs k.running).descriptors ≡ true
      → Gives k.descriptor_pool des dp
      → Gives k.descriptor_ptr_pool (k.descriptors des).ptr ep
      → IsLinked (closed k des dp ep)
  closed-IsLinked v on t u = record {
    opened =
        IsOpened-same (λ p. held-update k.running p k.pcbs _)
          (λ r. entries-update res r k.resources _) (λ r. count-update res r k.resources _)
          (unlink-IsOpened v.opened k.running des on t u);
    listed = record {
      resource_pool = v.listed.resource_pool;
      queue_pool = v.listed.queue_pool;
      far = v.listed.far;
      from = v.listed.from;
      resources =
          Covers-fewer k.resource_pool _ _ _ _ closed_empty (λ r out. out) v.listed.resources;
      queues = Covers-fewer k.queue_pool _ _ _ _ closed_empty (λ r out. out) v.listed.queues;
      once = v.listed.once;
    };
  }

-- The descriptor that the arguments of the running process name, or null.
abbrev pub named : Kernel → Ptr
named k =
    descriptor_list_by_fd k (k.pcbs k.running).descriptors
      (wrap32 ((k.pcbs k.running).syscall_args 0))

abbrev pub refused : Kernel → Kernel
refused k = set_retvalue k k.running dsos_eresourceclose

-- What a close comes to.
abbrev pub Closes : Kernel → Kernel → Type 0
Closes k k' =
    ((named k ≡ null) × (k' ≡ refused k))
    ⊎ ((has (named k) (k.pcbs k.running).descriptors ≡ true)
        × (dp : PoolAllocator) × (ep : PoolAllocator) × Gives k.descriptor_pool (named k) dp
        × Gives k.descriptor_ptr_pool (k.descriptors (named k)).ptr ep
        × (k' ≡ closed k (named k) dp ep))

-- Where processes, descriptors and resources are linked in order, a close returns, whatever its
-- argument, and keeps them so: a number that the caller has no descriptor of is refused and nothing else
-- changes; otherwise the descriptor that it names leaves the caller's list and its entry the
-- list of the resource, which counts one less, and both blocks are given back.
pub internal_close_resource_total :
    (k : Kernel)
    → IsLinked k
    → IsKernel k
    → Returns (λ k'. IsLinked k' × IsKernel k' × Closes k k') (internal_close_resource k)
unfolding internal_close_resource
internal_close_resource_total k v w =
    elim (by_fd-cases k (k.pcbs k.running).descriptors
      (wrap32 ((k.pcbs k.running).syscall_args 0))) [
        | inl missing ↦ (
          refused k,
          rw missing refl,
          (retvalue-IsLinked k k.running dsos_eresourceclose v, w, inl (missing, refl)),
        )
        | inr on ↦
            let (dp, ep, t, u, ran) = close_descriptor-closed k (named k) v.opened on in
            let real =
              lent_given k.descriptor_pool (named k) v.opened.descriptor_pool
                (v.opened.held_ok k.running (named k) on).lent in
            (
              closed k (named k) dp ep,
              rw real ran,
              (
                closed-IsLinked k (named k) dp ep v on t u,
                with_resource w (k.descriptors (named k)).resource _ refl,
                inr (on, dp, ep, t, u, refl),
              ),
            )
      ]
