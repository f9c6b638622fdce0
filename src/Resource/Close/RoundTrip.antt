-- ===== src/Resource/Close/RoundTrip.antt =====
-- A close undoes an open.
use disastr_os_message_queue.Base.{
  ◌≡◌, refl, sym, ◌∙◌, ap, subst, some, true, false, List, [], ◌∷◌, ◌++◌, arith, ◌==◌, ==_refl, inl,
  inr, has, has-append, Bool-cases, ℕ, ℤ, pos, negsuc, ◌+ℤ◌, ◌==ℤ◌, ==ℤ_refl, wrap32, detach,
  detach-append,
}
use disastr_os_message_queue.PoolAllocator.{Ptr, null, PoolAllocator, release_block, success}
use disastr_os_message_queue.PoolAllocator.FreeList.{IsPool, block}
use disastr_os_message_queue.PoolAllocator.Release.{release_block-get_block}
use disastr_os_message_queue.PoolAllocator.Get.{get_block_empty}
use disastr_os_message_queue.PoolAllocator.Lent.{Takes, get_block_same}
use disastr_os_message_queue.Kernel.{Kernel, Pcb, Resource, Descriptor, ok, update, push_back}
use disastr_os_message_queue.Kernel.Links.{links_of, links_of-update}
use disastr_os_message_queue.Kernel.Update.{update-update, update_same, update-at, ap2}
use disastr_os_message_queue.Resource.{descriptor_list_by_fd}
use disastr_os_message_queue.Resource.Linked.{IsLinked, IsWired, lent_given}
use disastr_os_message_queue.Resource.Open.Linked.{
  opened_at, opened_at-IsLinked, IsOpening, internal_open_resource-opened_at,
}
use disastr_os_message_queue.Resource.Open.{internal_open_resource}
use disastr_os_message_queue.Resource.Invariant.{fresh_entry, fresh_descriptor}
use disastr_os_message_queue.Resource.Close.Spec.{closed, named, close_descriptor-closed}
use disastr_os_message_queue.Resource.Close.{close_descriptor, internal_close_resource}

-- The block that was taken goes back, and the allocator is as it was.
Takes-release :
    (a : PoolAllocator) (free : List Ptr) (p : Ptr) (b : PoolAllocator)
    → IsPool a free
    → Takes a p b
    → release_block b p ≡ some (a, success)
Takes-release a [] p b h t =
    let (null_block, same) = get_block_same a (get_block_empty a h) t.taken in
    absurd (ground (arith, null_block, t.given))
Takes-release a (i ∷ is) p b h t =
    let (c, got, back) = release_block-get_block a i is h in
    let (block, pool) = get_block_same a got t.taken in
    subst (λ (x : PoolAllocator). release_block x p ≡ some (a, success)) pool
      (subst (λ (x : Ptr). release_block c x ≡ some (a, success)) block back)

-- A search by a number that nothing in front has.
by_fd-append :
    (k : Kernel) (ds : List Ptr) (d : Ptr) (fd : ℤ)
    → descriptor_list_by_fd k ds fd ≡ null
    → has null ds ≡ false
    → (k.descriptors d).fd ≡ fd
    → descriptor_list_by_fd k (ds ++ d ∷ []) fd ≡ d
unfolding descriptor_list_by_fd
by_fd-append k [] d fd missing no_null numbered = rw (numbered, ==ℤ_refl fd)
by_fd-append k (x ∷ ds) d fd missing no_null numbered =
    elim (Bool-cases ((k.descriptors x).fd ==ℤ fd)) [
      | inl here ↦ absurd (ground arith)
      | inr later ↦ rw later (by_fd-append k ds d fd (ground arith) (ground arith) numbered)
    ]

-- A descriptor that is not in the list does not matter to the search.
by_fd_same :
    (k k' : Kernel) (ds : List Ptr) (fd : ℤ)
    → ((x : Ptr) → has x ds ≡ true → (k'.descriptors x).fd ≡ (k.descriptors x).fd)
    → descriptor_list_by_fd k' ds fd ≡ descriptor_list_by_fd k ds fd
unfolding descriptor_list_by_fd
by_fd_same k k' [] fd same = refl
by_fd_same k k' (x ∷ ds) fd same =
    let here : (k'.descriptors x).fd ≡ (k.descriptors x).fd = same x (rw (==_refl x)) in
    rw (here, by_fd_same k k' ds fd (λ y on. same y (ground (arith, on))))

released_same :
    {b c : PoolAllocator} (a : PoolAllocator) (p : Ptr)
    → release_block a p ≡ some (b, success)
    → release_block a p ≡ some (c, success)
    → b ≡ c
released_same a p e f = ground arith

module _ (k : Kernel) (res d q : Ptr) (dp ep : PoolAllocator) (args : ℕ → ℤ) where
  -- The process has opened `res`, and makes its next call with these arguments.
  abbrev caller : Pcb
  caller = record (k.pcbs k.running) {
    descriptors = push_back (k.pcbs k.running).descriptors d;
    last_fd = (k.pcbs k.running).last_fd +ℤ pos 1;
    syscall_args = args;
    syscall_retvalue = (k.pcbs k.running).last_fd;
  }

  abbrev opener : Pcb
  opener = record (k.pcbs k.running) {
    descriptors = push_back (k.pcbs k.running).descriptors d;
    last_fd = (k.pcbs k.running).last_fd +ℤ pos 1;
    syscall_retvalue = (k.pcbs k.running).last_fd;
  }

  abbrev pub next_call : Kernel
  next_call = record (opened_at k res d q dp ep) { pcbs = update k.pcbs k.running caller }

  -- The kernel as before the open, but for the next number of the process, its arguments and its result, and what
  -- the two blocks, which are free, hold.
  abbrev pub undone : Kernel
  undone =
      let k1 = opened_at k res d q dp ep in
      record k {
        descriptors = k1.descriptors;
        descriptor_ptrs = k1.descriptor_ptrs;
        pcbs = update k.pcbs k.running (record (k.pcbs k.running) {
          last_fd = (k.pcbs k.running).last_fd +ℤ pos 1;
          syscall_args = args;
          syscall_retvalue = pos 0;
        });
      }

  abbrev undone_pcb : Pcb
  undone_pcb = record (k.pcbs k.running) {
    last_fd = (k.pcbs k.running).last_fd +ℤ pos 1;
    syscall_args = args;
    syscall_retvalue = pos 0;
  }

  module _ (v : IsLinked k) (t : Takes k.descriptor_pool d dp)
      (u : Takes k.descriptor_ptr_pool q ep) where
    next_call-named :
        wrap32 (args 0) ≡ (k.pcbs k.running).last_fd
        → descriptor_list_by_fd k (k.pcbs k.running).descriptors (k.pcbs k.running).last_fd ≡ null
        → named next_call ≡ d
    next_call-named asked unused =
        let ds = (k.pcbs k.running).descriptors in
        let fd = (k.pcbs k.running).last_fd in
        let same : descriptor_list_by_fd next_call ds fd ≡ null =
          by_fd_same k next_call ds fd
            (λ x on. let other = t.fresh x (v.opened.held_ok k.running x on).lent in rw other refl)
          ∙ unused in
        let no_null : has null ds ≡ false = elim (Bool-cases (has null ds)) [
          | inl on ↦
              let lent = (v.opened.held_ok k.running null on).lent in
              absurd
                (ground (arith, lent_given k.descriptor_pool null v.opened.descriptor_pool lent))
          | inr off ↦ off
        ] in
        ap (λ (x : Pcb). descriptor_list_by_fd next_call x.descriptors (wrap32 (x.syscall_args 0)))
          (update-at k.pcbs k.running caller)
        ∙ ap (descriptor_list_by_fd next_call (ds ++ d ∷ [])) asked
        ∙ by_fd-append next_call ds d fd same no_null (rw (==_refl d) refl)

    resource_back :
        record (k.resources res) {
          ref_count = (k.resources res).ref_count +ℤ pos 1 +ℤ negsuc 0;
          descriptors_ptrs = detach q ((k.resources res).descriptors_ptrs ++ q ∷ []);
        }
        ≡ k.resources res
    unfolding ◌+ℤ◌
    resource_back = ground (
      arith,
      v.opened.counted res,
      detach-append q (k.resources res).descriptors_ptrs (fresh_entry v.opened u res),
    )

    closed_pcbs : (closed next_call d dp ep).pcbs ≡ update k.pcbs k.running undone_pcb
    closed_pcbs =
        update-update k.pcbs k.running caller _
        ∙ ap (λ (x : Pcb). update k.pcbs k.running x)
            (ap
                (λ (x : Pcb). record x {
                  descriptors = detach d x.descriptors;
                  syscall_retvalue = pos 0;
                })
                (update-at k.pcbs k.running caller)
              ∙ ap (λ (ds : List Ptr). record undone_pcb { descriptors = ds })
                  (detach-append d (k.pcbs k.running).descriptors
                    (fresh_descriptor v.opened t k.running)))

    abbrev taken_out : (Ptr → Resource) → (r p : Ptr) → Ptr → Resource
    taken_out rs r p = update rs r (record (rs r) {
      descriptors_ptrs = detach p (rs r).descriptors_ptrs;
      ref_count = (rs r).ref_count +ℤ negsuc 0;
    })

    closed_resources : (closed next_call d dp ep).resources ≡ k.resources
    closed_resources =
        ap (λ (x : Descriptor). taken_out next_call.resources x.resource x.ptr)
          (update-at k.descriptors d _)
        ∙ update-update k.resources res _ _
        ∙ ap (update k.resources res) (
            ap
              (λ (x : Resource). record x {
                descriptors_ptrs = detach q x.descriptors_ptrs;
                ref_count = x.ref_count +ℤ negsuc 0;
              })
              (update-at k.resources res _)
            ∙ resource_back)
        ∙ update_same k.resources res (k.resources res) refl

    closed-undone : closed next_call d k.descriptor_pool k.descriptor_ptr_pool ≡ undone
    closed-undone =
        ap2 (λ (ps : Ptr → Pcb) (rs : Ptr → Resource). record undone { pcbs = ps; resources = rs })
          closed_pcbs closed_resources

    pub next_call-IsLinked : has res k.resources_list ≡ true → IsLinked next_call
    next_call-IsLinked on =
        let k1 = opened_at k res d q dp ep in
        let linked = opened_at-IsLinked k v res d q dp ep on t u in
        let same_held : caller.descriptors ≡ (k1.pcbs k.running).descriptors =
          sym (ap (λ (x : Pcb). x.descriptors) (update-at k.pcbs k.running opener)) in
        subst IsWired
          (sym (
            ap (λ (ps : Ptr → Pcb). links_of (record k1 { pcbs = ps }))
              (sym (update-update k.pcbs k.running opener caller))
            ∙ links_of-update k1 k.running caller same_held))
          linked

    close-next_call : has res k.resources_list ≡ true → close_descriptor next_call d ≡ ok undone
    close-next_call listed =
        let linked : IsLinked next_call = next_call-IsLinked listed in
        let on : has d (next_call.pcbs next_call.running).descriptors ≡ true =
          rw (==_refl k.running)
            (ground (arith, has-append d (k.pcbs k.running).descriptors (d ∷ []), ==_refl d)) in
        let (dp', ep', g, h, ran) = close_descriptor-closed next_call d linked.opened on in
        let back_d = released_same dp d g.released (
          Takes-release k.descriptor_pool v.opened.descriptor_pool.0 d dp v.opened.descriptor_pool.1
            t) in
        let at_q : (next_call.descriptors d).ptr ≡ q = rw (==_refl d) refl in
        let back_q =
          released_same ep q
            (subst (λ (x : Ptr). release_block ep x ≡ some (ep', success)) at_q h.released)
            (Takes-release k.descriptor_ptr_pool v.opened.entry_pool.0 q ep v.opened.entry_pool.1
              u) in
        ran
        ∙ ap2 (λ (a b : PoolAllocator). ok (closed next_call d a b)) back_d back_q
        ∙ ap ok closed-undone

    next_call-found :
        wrap32 (args 0) ≡ (k.pcbs k.running).last_fd
        → descriptor_list_by_fd k (k.pcbs k.running).descriptors (k.pcbs k.running).last_fd ≡ null
        → internal_close_resource next_call ≡ close_descriptor next_call d
    unfolding internal_close_resource
    next_call-found asked unused =
        let real : (d == null) ≡ false = t.given in rw (next_call-named asked unused, real) refl

-- Where the links are in order, the running process opens a linked resource, with a free block for the
-- descriptor and one for its entry, and its next call closes the number that it got, which is an
-- `int` that none of its descriptors has: then the resource with its entries and count, the
-- descriptors of the process and both allocators are as they were before the open. What has
-- changed is the process's next number, its arguments and its result, and what the two blocks hold.
pub internal_close_resource-internal_open_resource :
    (k : Kernel) (res d q : Ptr) (dp ep : PoolAllocator) (args : ℕ → ℤ)
    → IsLinked k
    → IsOpening k res
    → has res k.resources_list ≡ true
    → Takes k.descriptor_pool d dp
    → Takes k.descriptor_ptr_pool q ep
    → wrap32 (args 0) ≡ (k.pcbs k.running).last_fd
    → descriptor_list_by_fd k (k.pcbs k.running).descriptors (k.pcbs k.running).last_fd ≡ null
    → (internal_open_resource k ≡ ok (opened_at k res d q dp ep))
      × (internal_close_resource (next_call k res d q dp ep args)
          ≡ ok (undone k res d q dp ep args))
internal_close_resource-internal_open_resource k res d q dp ep args v o on t u asked unused = (
  internal_open_resource-opened_at k res d q dp ep o t u,
  next_call-found k res d q dp ep args v t u asked unused
      ∙ close-next_call k res d q dp ep args v t u on,
)
