-- ===== src/Tests/Opened.antt =====
-- Opens, closes and destroys of resources tried.
use disastr_os_message_queue.Base.{◌≡◌, refl, [], ◌∷◌, arith, pos, inr, wrap32}
use disastr_os_message_queue.PoolAllocator.{Ptr, PoolAllocator, get_block, initialised, links_from}
use disastr_os_message_queue.PoolAllocator.Get.{taken}
use disastr_os_message_queue.PoolAllocator.Lent.{IsBlock, Takes, Takes-of}
use disastr_os_message_queue.PoolAllocator.Far.{IsFar, block-IsFar}
use disastr_os_message_queue.Kernel.{Kernel, running}
use disastr_os_message_queue.Kernel.Returns.{Returns}
use disastr_os_message_queue.Kernel.Invariant.{IsKernel}
use disastr_os_message_queue.Kernel.Links.{links_of}
use disastr_os_message_queue.Resource.Linked.{IsLinked}
use disastr_os_message_queue.Resource.Created.{empty-IsWired}
use disastr_os_message_queue.Kernel.{ok}
use disastr_os_message_queue.Kernel.Invariant.{with_plain, with_resource}
use disastr_os_message_queue.MessageQueue.{resource_list_by_id}
use disastr_os_message_queue.Resource.{descriptor_list_by_fd}
use disastr_os_message_queue.Resource.Open.{internal_open_resource}
use disastr_os_message_queue.Resource.Open.Linked.{opened_at, IsOpening}
use disastr_os_message_queue.Resource.Open.Total.{IsBoth, created, created-IsLinked}
use disastr_os_message_queue.Resource.Close.{internal_close_resource}
use disastr_os_message_queue.Resource.Close.Spec.{Closes, internal_close_resource_total}
use disastr_os_message_queue.Resource.Close.RoundTrip.{
  next_call, undone, next_call-IsLinked, internal_close_resource-internal_open_resource,
}
use disastr_os_message_queue.Resource.Remove.{internal_destroy_resource}
use disastr_os_message_queue.Resource.Remove.Total.{Removes, internal_destroy_resource_total}
use disastr_os_message_queue.Tests.Sample.{
  bare, bare-IsKernel, other_blocks, other_blocks-IsPool, queue_blocks, queue_blocks-IsPool,
  arguments, process, processes,
}

queue_blocks-IsFar : (r : Ptr) → IsBlock queue_blocks r → IsFar other_blocks r
unfolding initialised
queue_blocks-IsFar r at =
    block-IsFar other_blocks queue_blocks r at (inr (omega arith, omega arith)) (omega arith)
      (omega arith)

no_descriptors : (p : Ptr) → (processes p).descriptors ≡ []
no_descriptors p = ground arith

pub bare-IsLinked : IsLinked bare
bare-IsLinked =
    empty-IsWired (links_of bare) (_, other_blocks-IsPool) (_, other_blocks-IsPool)
      (_, other_blocks-IsPool) (_, queue_blocks-IsPool) queue_blocks-IsFar no_descriptors
      (λ r. refl) (λ r. refl) refl

-- The first block of each allocator taken.
abbrev blocks_left : PoolAllocator
blocks_left = taken other_blocks 0 (pos 1)

first-Takes : Takes other_blocks 3000 blocks_left
unfolding get_block initialised links_from
first-Takes = Takes-of other_blocks (0 ∷ 1 ∷ []) 3000 blocks_left other_blocks-IsPool refl refl

-- Resource 9 of type 0 is linked at 3000. Process 5 opens it.
abbrev asking : Kernel
asking = record bare { pcbs = λ p. process running (arguments (pos 9) (pos 0) (pos 0)) }

abbrev with_nine : Kernel
with_nine = created asking 3000 blocks_left (pos 9) (pos 0)

asking-IsLinked : IsLinked asking
asking-IsLinked =
    empty-IsWired (links_of asking) (_, other_blocks-IsPool) (_, other_blocks-IsPool)
      (_, other_blocks-IsPool) (_, queue_blocks-IsPool) queue_blocks-IsFar (λ p. refl) (λ r. refl)
      (λ r. refl) refl

with_nine-IsLinked : IsLinked with_nine
with_nine-IsLinked =
    created-IsLinked asking asking-IsLinked 3000 blocks_left first-Takes (pos 9) (pos 0)

with_nine-IsKernel : IsKernel with_nine
with_nine-IsKernel = with_plain bare-IsKernel 3000 _ refl

with_nine-IsOpening : IsOpening with_nine 3000
unfolding wrap32 resource_list_by_id
with_nine-IsOpening = record {
  fetches = refl;
  finds = refl;
  exists = refl;
  typed = refl;
  shared = refl;
}

internal_close_resource-internal_open_resource_example :
    (internal_open_resource with_nine
      ≡ ok (opened_at with_nine 3000 3000 3000 blocks_left blocks_left))
    × (internal_close_resource
          (next_call with_nine 3000 3000 3000 blocks_left blocks_left (λ i. pos 0))
        ≡ ok (undone with_nine 3000 3000 3000 blocks_left blocks_left (λ i. pos 0)))
unfolding wrap32 descriptor_list_by_fd
internal_close_resource-internal_open_resource_example =
    internal_close_resource-internal_open_resource with_nine 3000 3000 3000 blocks_left blocks_left
      (λ i. pos 0) with_nine-IsLinked with_nine-IsOpening refl first-Takes first-Takes refl refl

-- It has opened resource 9, and closes it.
abbrev holding : Kernel
holding = next_call with_nine 3000 3000 3000 blocks_left blocks_left (λ i. pos 0)

holding-IsLinked : IsLinked holding
holding-IsLinked =
    next_call-IsLinked with_nine 3000 3000 3000 blocks_left blocks_left (λ i. pos 0)
      with_nine-IsLinked first-Takes first-Takes refl

holding-IsKernel : IsKernel holding
holding-IsKernel = with_resource with_nine-IsKernel 3000 _ refl

internal_close_resource_total_example :
    Returns (λ k'. IsLinked k' × IsKernel k' × Closes holding k') (internal_close_resource holding)
internal_close_resource_total_example =
    internal_close_resource_total holding holding-IsLinked holding-IsKernel

internal_destroy_resource_total_example :
    Returns (λ k'. IsBoth k' × Removes with_nine k') (internal_destroy_resource with_nine)
internal_destroy_resource_total_example =
    internal_destroy_resource_total with_nine (with_nine-IsLinked, with_nine-IsKernel)
