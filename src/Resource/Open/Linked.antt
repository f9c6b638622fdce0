-- ===== src/Resource/Open/Linked.antt =====
-- internal_openResource keeps the links between processes, descriptors and resources.
use disastr_os_message_queue.Base.{
  ◌≡◌, ◌⊎◌, refl, true, false, ◌==◌, ==_refl, inl, inr, has, has_ne, pos, ◌+ℤ◌, has_flag, ◌&&◌,
  ◌==ℤ◌, ltb_ℤ,
}
use disastr_os_message_queue.Constants.{dsos_eresourcenofd, dsos_create, dsos_excl}
use disastr_os_message_queue.PoolAllocator.{Ptr, null, PoolAllocator}
use disastr_os_message_queue.PoolAllocator.Lent.{
  IsLent, Takes, Gives, get_block-Takes, release_block-Gives,
}
use disastr_os_message_queue.Kernel.{
  Kernel, Pcb, Resource, Descriptor, ok, update, set_retvalue, push_back,
}
use disastr_os_message_queue.Kernel.Returns.{Returns}
use disastr_os_message_queue.Kernel.Update.{update-update, ap2}
use disastr_os_message_queue.Kernel.Invariant.{IsKernel, with_resource}
use disastr_os_message_queue.Resource.{descriptor_alloc, descriptor_ptr_alloc, descriptor_free}
use disastr_os_message_queue.Resource.Invariant.{link-IsOpened, scratch-IsOpened}
use disastr_os_message_queue.Resource.Linked.{
  IsLinked, IsOpen, Covers, entries_of, IsOpened-same, held-update, entries-update, count-update,
  held-update_same, retvalue-IsLinked,
}
use disastr_os_message_queue.Resource.Open.{open_descriptor, open_found, internal_open_resource}
use disastr_os_message_queue.Resource.Open.Spec.{id_of, type_of, mode_of}
use disastr_os_message_queue.MessageQueue.{resource_list_by_id}

-- The kernel once the running process has opened `res`: `d` is the new descriptor and `q` its entry.
abbrev pub opened_at :
    Kernel → (res d q : Ptr) → (descriptor_pool descriptor_ptr_pool : PoolAllocator) → Kernel
opened_at k res d q descriptor_pool descriptor_ptr_pool =
    let pcb = k.pcbs k.running in
    record k {
      descriptor_pool = descriptor_pool;
      descriptor_ptr_pool = descriptor_ptr_pool;
      descriptors =
          update k.descriptors d
            (record { pcb = k.running; resource = res; fd = pcb.last_fd; ptr = q });
      descriptor_ptrs = update k.descriptor_ptrs q d;
      pcbs = update k.pcbs k.running (record pcb {
        descriptors = push_back pcb.descriptors d;
        last_fd = pcb.last_fd +ℤ pos 1;
        syscall_retvalue = pcb.last_fd;
      });
      resources = update k.resources res (record (k.resources res) {
        descriptors_ptrs = push_back (k.resources res).descriptors_ptrs q;
        ref_count = (k.resources res).ref_count +ℤ pos 1;
      });
    }

-- The kernel once the open was refused, for want of a block.
abbrev pub unopened : Kernel → (d : Ptr) → Descriptor → PoolAllocator → Kernel
unopened k d des descriptor_pool =
    set_retvalue
      (record k { descriptor_pool = descriptor_pool; descriptors = update k.descriptors d des })
      k.running dsos_eresourcenofd

-- What an open of the resource at `res` comes to.
abbrev pub Opens : (k : Kernel) → (res : Ptr) → Kernel → Type 0
Opens k res k' =
    (k' ≡ set_retvalue k k.running dsos_eresourcenofd)
    ⊎ ((d : Ptr) × (des : Descriptor) × (dp : PoolAllocator) × (dp' : PoolAllocator) × Takes
          k.descriptor_pool d dp
        × Gives dp d dp'
        × (k' ≡ unopened k d des dp'))
    ⊎ ((d : Ptr) × (q : Ptr) × (dp : PoolAllocator) × (ep : PoolAllocator) × Takes k.descriptor_pool
          d dp
        × Takes k.descriptor_ptr_pool q ep
        × (k' ≡ opened_at k res d q dp ep))

-- With free blocks the resource is opened.
open_descriptor-opened_at :
    (k : Kernel) (res d q : Ptr) (dp ep : PoolAllocator)
    → Takes k.descriptor_pool d dp
    → Takes k.descriptor_ptr_pool q ep
    → open_descriptor k res ≡ ok (opened_at k res d q dp ep)
unfolding open_descriptor descriptor_alloc descriptor_ptr_alloc
open_descriptor-opened_at k res d q dp ep t u =
    rw (t.taken, t.given, t.given, u.taken, u.given, u.given, ==_refl d, ==_refl k.running)
      (ap2
        (λ (ps : Ptr → Pcb) (ds : Ptr → Descriptor).
          ok (record (opened_at k res d q dp ep) { pcbs = ps; descriptors = ds }))
        (update-update k.pcbs k.running _ _) (update-update k.descriptors d _ _))

pub open_descriptor-Opens :
    (k : Kernel) (res : Ptr) → IsOpen k → Returns (Opens k res) (open_descriptor k res)
unfolding open_descriptor descriptor_alloc descriptor_ptr_alloc descriptor_free
open_descriptor-Opens k res v =
    elim (get_block-Takes k.descriptor_pool v.descriptor_pool.0 v.descriptor_pool.1) [
      | inl full ↦ (set_retvalue k k.running dsos_eresourcenofd, rw full, inl refl)
      | inr (d, dp, t) ↦
          elim (get_block-Takes k.descriptor_ptr_pool v.entry_pool.0 v.entry_pool.1) [
            | inl full ↦
                let (dp', g) = release_block-Gives dp t.pool.0 d t.pool.1 t.lent in
                let des = record (k.descriptors d) {
                  fd = (k.pcbs k.running).last_fd;
                  resource = res;
                  pcb = k.running;
                } in
                (
                  unopened k d des dp',
                  rw (t.taken, t.given, t.given, full, g.released) refl,
                  inr (inl (d, des, dp, dp', t, g, refl)),
                )
            | inr (q, ep, u) ↦ (
              opened_at k res d q dp ep,
              open_descriptor-opened_at k res d q dp ep t u,
              inr (inr (d, q, dp, ep, t, u, refl)),
            )
          ]
    ]

module _ (k : Kernel) (v : IsLinked k) where
  unopened-IsLinked :
      (d : Ptr) (des : Descriptor) (dp dp' : PoolAllocator)
      → Takes k.descriptor_pool d dp
      → Gives dp d dp'
      → IsLinked (unopened k d des dp')
  unopened-IsLinked d des dp dp' t g =
      let keeps : (x : Ptr) → IsLent k.descriptor_pool x → IsLent dp' x =
        λ x lent. g.keeps x (t.fresh x lent) (t.keeps x lent) in
      record {
        opened =
            IsOpened-same (held-update_same k.pcbs k.running _ refl) (λ r. refl) (λ r. refl)
              (scratch-IsOpened v.opened d des g.pool.0 g.pool.1 t.fresh keeps);
        listed = v.listed;
      }

  -- A linked resource is not idle.
  Covers-opened :
      (a : PoolAllocator) (res : Ptr) (new : Resource)
      → has res k.resources_list ≡ true
      → Covers a (entries_of k.resources) k.resources_list
      → Covers a (entries_of (update k.resources res new)) k.resources_list
  Covers-opened a res new on c r b = elim (c r b) [
    | inl lent ↦ inl lent
    | inr (empty, out) ↦
        let other : (r == res) ≡ false = has_ne r res k.resources_list out on in
        inr (rw (other, entries_of) empty, out)
  ]

  pub opened_at-IsLinked :
      (res d q : Ptr) (dp ep : PoolAllocator)
      → has res k.resources_list ≡ true
      → Takes k.descriptor_pool d dp
      → Takes k.descriptor_ptr_pool q ep
      → IsLinked (opened_at k res d q dp ep)
  opened_at-IsLinked res d q dp ep on t u = record {
    opened =
        IsOpened-same (λ p. held-update k.running p k.pcbs _)
          (λ r. entries-update res r k.resources _) (λ r. count-update res r k.resources _)
          (link-IsOpened v.opened t u k.running res (k.pcbs k.running).last_fd);
    listed = record {
      resource_pool = v.listed.resource_pool;
      queue_pool = v.listed.queue_pool;
      far = v.listed.far;
      from = v.listed.from;
      resources = Covers-opened k.resource_pool res _ on v.listed.resources;
      queues = Covers-opened k.queue_pool res _ on v.listed.queues;
      once = v.listed.once;
    };
  }

  -- An open of a linked resource returns, and keeps both invariants.
  pub open_descriptor_total :
      (res : Ptr)
      → IsKernel k
      → has res k.resources_list ≡ true
      → Returns (λ k'. IsLinked k' × IsKernel k') (open_descriptor k res)
  open_descriptor_total res w on =
      let (k', ran, o) = open_descriptor-Opens k res v.opened in (k', ran, both k' o)
    where
      both : (k' : Kernel) → Opens k res k' → IsLinked k' × IsKernel k'
      both k' (inl e) = rw e (retvalue-IsLinked k k.running dsos_eresourcenofd v, w)
      both k' (inr (inl (d, des, dp, dp', t, g, e))) = rw e (unopened-IsLinked d des dp dp' t g, w)
      both k' (inr (inr (d, q, dp, ep, t, u, e))) =
          rw e (opened_at-IsLinked res d q dp ep on t u, with_resource w res _ refl)

-- The resource that an open finds, of the type that the caller asks for, and not wanted for the caller
-- alone while others have it.
pub record IsOpening (k : Kernel) (res : Ptr) : Type 0 where
  pub fetches : has_flag dsos_create (mode_of k) ≡ false
  pub finds : resource_list_by_id k.resources k.resources_list (id_of k) ≡ res
  pub exists : (res == null) ≡ false
  pub typed : ((k.resources res).type ==ℤ type_of k) ≡ true
  pub shared : (has_flag dsos_excl (mode_of k) && ltb_ℤ (pos 0) (k.resources res).ref_count) ≡ false

pub internal_open_resource-opened_at :
    (k : Kernel) (res d q : Ptr) (dp ep : PoolAllocator)
    → IsOpening k res
    → Takes k.descriptor_pool d dp
    → Takes k.descriptor_ptr_pool q ep
    → internal_open_resource k ≡ ok (opened_at k res d q dp ep)
unfolding internal_open_resource open_found
internal_open_resource-opened_at k res d q dp ep o t u =
    rw (o.fetches, o.finds, o.exists, o.typed, o.shared)
      (open_descriptor-opened_at k res d q dp ep t u)
