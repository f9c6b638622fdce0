-- ===== src/Resource/Open/Spec.antt =====
-- What internal_openResource does when it creates a resource.
use disastr_os_message_queue.Base.{
  ℕ, ◌≡◌, ◌∙◌, true, false, ◌||◌, none, some, [], ◌∷◌, ◌++◌, arith, ℤ, pos, wrap32, bits32,
  has_flag, ltb_ℤ, leb_ℤ, ◌+ℤ◌, ==ℤ_refl, ◌==◌, ==_refl, Bool-cases, inl, inr, has,
}
use disastr_os_message_queue.Constants.{dsos_create, dsos_excl, message_max_size}
use disastr_os_message_queue.PoolAllocator.{Ptr, null, PoolAllocator, get_block}
use disastr_os_message_queue.Kernel.{
  Kernel, Pcb, Resource, Descriptor, resource_message_queue, ok, fault, update, push_back,
}
use disastr_os_message_queue.Kernel.Update.{update-update, ap3}
use disastr_os_message_queue.MessageQueue.{resource_list_by_id, is_message_queue}
use disastr_os_message_queue.MessageQueue.Lookup.{lookup_update, lookup-append_none, lookup_single}
use disastr_os_message_queue.MessageQueue.Request.{queue_id_of, size_of}
use disastr_os_message_queue.MessageQueue.Send.{send_to, internal_mq_send}
use disastr_os_message_queue.MessageQueue.Send.Spec.{IsSize}
use disastr_os_message_queue.Resource.{resource_alloc, descriptor_alloc, descriptor_ptr_alloc}
use disastr_os_message_queue.Resource.Open.{
  open_descriptor, open_found, open_created, internal_open_resource,
}

-- The arguments of the process that runs.
abbrev pub id_of : Kernel → ℤ
id_of k = wrap32 ((k.pcbs k.running).syscall_args 0)

abbrev pub type_of : Kernel → ℤ
type_of k = wrap32 ((k.pcbs k.running).syscall_args 1)

abbrev pub mode_of : Kernel → ℕ
mode_of k = bits32 (wrap32 ((k.pcbs k.running).syscall_args 2))

-- The kernel with a new resource at `r`, opened once: its descriptor is `d`, and `q` the entry of
-- this in the resource.
abbrev pub opened :
    Kernel
    → (r d q : Ptr) → (resource_pool descriptor_pool descriptor_ptr_pool : PoolAllocator) → Kernel
opened k r d q resource_pool descriptor_pool descriptor_ptr_pool = record k {
  resource_pool = resource_pool;
  descriptor_pool = descriptor_pool;
  descriptor_ptr_pool = descriptor_ptr_pool;
  resources_list = push_back k.resources_list r;
  resources =
      update k.resources r
        (record { id = id_of k; type = type_of k; ref_count = pos 1; descriptors_ptrs = q ∷ [] });
  descriptors =
      update k.descriptors d
        (record { fd = (k.pcbs k.running).last_fd; resource = r; pcb = k.running; ptr = q });
  descriptor_ptrs = update k.descriptor_ptrs q d;
  pcbs = update k.pcbs k.running (record (k.pcbs k.running) {
    descriptors = push_back (k.pcbs k.running).descriptors d;
    last_fd = (k.pcbs k.running).last_fd +ℤ pos 1;
    syscall_retvalue = (k.pcbs k.running).last_fd;
  });
}

-- The same before the descriptor.
abbrev made : Kernel → (r : Ptr) → PoolAllocator → Kernel
made k r pool = record k {
  resource_pool = pool;
  resources_list = push_back k.resources_list r;
  resources =
      update k.resources r
        (record { id = id_of k; type = type_of k; ref_count = pos 0; descriptors_ptrs = [] });
}

open_created-made :
    (k : Kernel) (r : Ptr) (pool : PoolAllocator) (mode : ℤ)
    → get_block k.resource_pool ≡ some (r, pool)
    → (r == null) ≡ false
    → open_created k null (id_of k) (type_of k) mode ≡ open_found (made k r pool) r (type_of k) mode
unfolding open_created resource_alloc
open_created-made k r pool mode got given = rw (got, given, given)

open_found-made :
    (k : Kernel) (r : Ptr) (pool : PoolAllocator) (mode : ℤ)
    → (r == null) ≡ false
    → open_found (made k r pool) r (type_of k) mode ≡ open_descriptor (made k r pool) r
unfolding open_found
open_found-made k r pool mode given = elim (Bool-cases (has_flag dsos_excl (bits32 mode))) [
  | inl excl ↦ rw (given, ==_refl r, ==ℤ_refl (type_of k), excl)
  | inr shared ↦ rw (given, ==_refl r, ==ℤ_refl (type_of k), shared)
]

open_descriptor-opened :
    (k : Kernel) (r d q : Ptr) (p1 p2 p3 : PoolAllocator)
    → get_block k.descriptor_pool ≡ some (d, p2)
    → (d == null) ≡ false
    → get_block k.descriptor_ptr_pool ≡ some (q, p3)
    → (q == null) ≡ false
    → open_descriptor (made k r p1) r ≡ ok (opened k r d q p1 p2 p3)
unfolding open_descriptor descriptor_alloc descriptor_ptr_alloc
open_descriptor-opened k r d q p1 p2 p3 got given got2 given2 =
    rw (got, given, given, got2, given2, given2, ==_refl r, ==_refl d, ==_refl k.running)
      (ap3
        (λ (ps : Ptr → Pcb) (rs : Ptr → Resource) (ds : Ptr → Descriptor).
          ok (record (opened k r d q p1 p2 p3) { pcbs = ps; resources = rs; descriptors = ds }))
        (update-update k.pcbs k.running _ _) (update-update k.resources r _ _)
        (update-update k.descriptors d _ _))

-- With free blocks, an open in the mode `DSOS_CREATE` for an id that no resource has links a new
-- resource with this id and the type that was asked for behind the others, and opens it: the caller
-- has a descriptor of it behind its others, and gets its number, the next one. The resource counts one
-- descriptor.
pub internal_open_resource-opened :
    (k : Kernel) (r d q : Ptr) (p1 p2 p3 : PoolAllocator)
    → has_flag dsos_create (mode_of k) ≡ true
    → resource_list_by_id k.resources k.resources_list (id_of k) ≡ null
    → get_block k.resource_pool ≡ some (r, p1)
    → (r == null) ≡ false
    → get_block k.descriptor_pool ≡ some (d, p2)
    → (d == null) ≡ false
    → get_block k.descriptor_ptr_pool ≡ some (q, p3)
    → (q == null) ≡ false
    → internal_open_resource k ≡ ok (opened k r d q p1 p2 p3)
unfolding internal_open_resource
internal_open_resource-opened k r d q p1 p2 p3 create unused got1 given1 got2 given2 got3 given3 =
    rw (create, unused)
      (open_created-made k r p1 (wrap32 ((k.pcbs k.running).syscall_args 2)) got1 given1
        ∙ open_found-made k r p1 (wrap32 ((k.pcbs k.running).syscall_args 2)) given1
        ∙ open_descriptor-opened k r d q p1 p2 p3 got2 given2 got3 given3)

-- A send whose id finds a resource that claims to be a queue where no queue is.
send_no_queue :
    (k : Kernel) (r : Ptr) (n : ℕ)
    → leb_ℤ (queue_id_of k) (pos 0) ≡ false
    → IsSize (size_of k) n
    → resource_list_by_id k.resources k.resources_list (queue_id_of k) ≡ r
    → (r == null) ≡ false
    → is_message_queue k r ≡ true
    → k.queues r ≡ none
    → internal_mq_send k ≡ fault
unfolding internal_mq_send
send_no_queue k r n id_pos s found exists typed missing =
    let small : (leb_ℤ (size_of k) (pos 0) || ltb_ℤ (pos message_max_size) (size_of k)) ≡ false =
      ground arith in
    rw (id_pos, small, found, exists, typed) (simp (missing, send_to))

lookup-opened :
    (k : Kernel) (r d q : Ptr) (p1 p2 p3 : PoolAllocator)
    → resource_list_by_id k.resources k.resources_list (id_of k) ≡ null
    → has null k.resources_list ≡ false
    → has r k.resources_list ≡ false
    → resource_list_by_id (opened k r d q p1 p2 p3).resources (k.resources_list ++ r ∷ []) (id_of k)
      ≡ r
lookup-opened k r d q p1 p2 p3 unused no_null fresh =
    let rs = (opened k r d q p1 p2 p3).resources in
    lookup-append_none rs k.resources_list (r ∷ []) (id_of k)
      (lookup_update k.resources r _ k.resources_list (id_of k) fresh ∙ unused) no_null
    ∙ lookup_single rs r (id_of k) (rw (==_refl r))

-- With free blocks, an open in the mode `DSOS_CREATE` with the type of message queues and a
-- positive id that no resource has succeeds, but what it creates is a resource where no queue is.
-- A send of 1 to 256 bytes to its id, as long as the resources and the queues stay as they are,
-- is undefined: it uses the fields of a queue that is not there.
pub internal_open_resource_confused :
    (k k2 : Kernel) (r d q : Ptr) (p1 p2 p3 : PoolAllocator) (n : ℕ)
    → has_flag dsos_create (mode_of k) ≡ true
    → type_of k ≡ resource_message_queue
    → resource_list_by_id k.resources k.resources_list (id_of k) ≡ null
    → has null k.resources_list ≡ false
    → has r k.resources_list ≡ false
    → k.queues r ≡ none
    → get_block k.resource_pool ≡ some (r, p1)
    → (r == null) ≡ false
    → get_block k.descriptor_pool ≡ some (d, p2)
    → (d == null) ≡ false
    → get_block k.descriptor_ptr_pool ≡ some (q, p3)
    → (q == null) ≡ false
    → k2.resources ≡ (opened k r d q p1 p2 p3).resources
    → k2.resources_list ≡ k.resources_list ++ r ∷ []
    → k2.queues ≡ k.queues
    → queue_id_of k2 ≡ id_of k
    → leb_ℤ (id_of k) (pos 0) ≡ false
    → IsSize (size_of k2) n
    → (internal_open_resource k ≡ ok (opened k r d q p1 p2 p3)) × (internal_mq_send k2 ≡ fault)
internal_open_resource_confused k k2 r d q p1 p2 p3 n create typed unused no_null fresh none_there
      got1 given1 got2 given2 got3 given3 rs linked qs id id_pos s =
    (
      internal_open_resource-opened k r d q p1 p2 p3 create unused got1 given1 got2 given2 got3
          given3,
      send_no_queue k2 r n (rw id id_pos) s
          (rw (rs, linked, id) (lookup-opened k r d q p1 p2 p3 unused no_null fresh)) given1
          (rw (rs, ==_refl r, typed)) (rw qs none_there),
    )
