-- ===== src/Resource.antt =====
-- src/disastrOS_resource.c and src/disastrOS_descriptor.c: resources, and the descriptors that processes
-- have of them, less the functions that print them.
pub mod Invariant
pub mod Created
pub mod Linked
pub mod Open
pub mod Close
pub mod Remove
use disastr_os_message_queue.Base.{
  List, [], ◌∷◌, if◌then◌else◌, ◌==◌, not, ℤ, pos, negsuc, ◌+ℤ◌, ◌==ℤ◌,
}
use disastr_os_message_queue.PoolAllocator.{Ptr, null, get_block, release_block}
use disastr_os_message_queue.Kernel.{
  Kernel, Resource, Run, ok, fault, ◌>>=◌, from_pool, update, set_pcb, push_back,
}
use disastr_os_message_queue.MessageQueue.{is_empty}

-- `Resource_alloc`
unfoldable pub resource_alloc : Kernel → (id type : ℤ) → Run (Ptr × Kernel)
resource_alloc k id type = do
  (r, pool) ← from_pool (get_block k.resource_pool)
  if r == null
      then ok (null, record k { resource_pool = pool })
      else ok (
        r,
        record k {
          resource_pool = pool;
          resources =
              update k.resources r
                (record { id = id; type = type; ref_count = pos 0; descriptors_ptrs = [] });
        },
      )

-- `Resource_free`: its two assertions are one, as a list has a first item if it has a last one. Its
-- callers ignore the result of the release.
unfoldable pub resource_free : Kernel → Ptr → Run Kernel
resource_free k r = if not (is_empty (k.resources r).descriptors_ptrs) then fault else do
  (pool, _) ← from_pool (release_block k.resource_pool r)
  ok (record k { resource_pool = pool })

-- `Descriptor_alloc`. The link to the entry of the resource keeps what the block held.
unfoldable pub descriptor_alloc : Kernel → (fd : ℤ) → (res pcb : Ptr) → Run (Ptr × Kernel)
descriptor_alloc k fd res pcb = do
  (d, pool) ← from_pool (get_block k.descriptor_pool)
  if d == null
      then ok (null, record k { descriptor_pool = pool })
      else ok (
        d,
        record k {
          descriptor_pool = pool;
          descriptors =
              update k.descriptors d
                (record (k.descriptors d) { fd = fd; resource = res; pcb = pcb });
        },
      )

-- `Descriptor_free`. Its callers ignore the result.
unfoldable pub descriptor_free : Kernel → Ptr → Run Kernel
descriptor_free k d = do
  (pool, _) ← from_pool (release_block k.descriptor_pool d)
  ok (record k { descriptor_pool = pool })

-- `DescriptorPtr_alloc`
unfoldable pub descriptor_ptr_alloc : Kernel → Ptr → Run (Ptr × Kernel)
descriptor_ptr_alloc k descriptor = do
  (d, pool) ← from_pool (get_block k.descriptor_ptr_pool)
  if d == null
      then ok (null, record k { descriptor_ptr_pool = pool })
      else ok (
        d,
        record k {
          descriptor_ptr_pool = pool;
          descriptor_ptrs = update k.descriptor_ptrs d descriptor;
        },
      )

-- `DescriptorPtr_free`. Its callers ignore the result.
unfoldable pub descriptor_ptr_free : Kernel → Ptr → Run Kernel
descriptor_ptr_free k d = do
  (pool, _) ← from_pool (release_block k.descriptor_ptr_pool d)
  ok (record k { descriptor_ptr_pool = pool })

-- `DescriptorList_byFd`
unfoldable pub descriptor_list_by_fd : Kernel → List Ptr → (fd : ℤ) → Ptr
descriptor_list_by_fd k [] fd = null
descriptor_list_by_fd k (d ∷ ds) fd =
    let rest = descriptor_list_by_fd k ds fd in if (k.descriptors d).fd ==ℤ fd then d else rest

-- The descriptor `d`, whose entry is `desptr`, linked into its process and its resource, which counts
-- it: the four assignments and insertions behind the allocations in `internal_openResource` and
-- in the loop of `internal_fork`.
abbrev pub link_descriptor : Kernel → (pcb res d desptr : Ptr) → Kernel
link_descriptor k pcb res d desptr = record k {
  descriptors = update k.descriptors d (record (k.descriptors d) { ptr = desptr });
  pcbs =
      update k.pcbs pcb
        (record (k.pcbs pcb) { descriptors = push_back (k.pcbs pcb).descriptors d });
  resources = update k.resources res (record (k.resources res) {
    descriptors_ptrs = push_back (k.resources res).descriptors_ptrs desptr;
    ref_count = (k.resources res).ref_count +ℤ pos 1;
  });
}
