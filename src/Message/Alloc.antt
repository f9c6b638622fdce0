-- ===== src/Message/Alloc.antt =====
-- Message_alloc and Message_free on an allocator in order.
use disastr_os_message_queue.Base.{
  ℕ, zero, suc, ◌≤◌, ◌≡◌, ◌⊎◌, refl, ap, false, ◌||◌, arith, length, ℤ, pos, pos_part, leb_ℤ, ltb_ℤ,
  ◌==◌, Bool-cases, inl, inr, replicate, ==_refl,
}
use disastr_os_message_queue.Constants.{message_max_size}
use disastr_os_message_queue.PoolAllocator.{Ptr, null, PoolAllocator}
use disastr_os_message_queue.Kernel.{Kernel, Message, Run, ok, update, read_bytes}
use disastr_os_message_queue.Kernel.Invariant.{
  HasPool, IsKernel, get_block_total, release_block_total, with_message_pool, with_message,
}
use disastr_os_message_queue.Message.{message_alloc, message_free, fill}

-- A new message of `size` bytes, as `Message_alloc` sets it up.
abbrev pub new_message : Kernel → ℤ → Message
new_message k size = record {
  size = size;
  payload = replicate (pos_part size) 0;
  sender = k.running;
}

-- The kernel with a new message in the block `msg`.
abbrev pub allocated : Kernel → Ptr → PoolAllocator → ℤ → Kernel
allocated k msg pool size = record k {
  message_pool = pool;
  messages = update k.messages msg (new_message k size);
}

-- The same with its payload copied from memory.
abbrev pub filled : Kernel → Ptr → PoolAllocator → ℤ → (buffer : Ptr) → Kernel
filled k msg pool size buffer =
    fill (allocated k msg pool size) msg (read_bytes k.memory buffer (pos_part size))

abbrev pub Allocates : Kernel → ℤ → Run (Ptr × Kernel) → Type 0
Allocates k size r =
    ((pool : PoolAllocator) × HasPool pool × (r ≡ ok (null, record k { message_pool = pool })))
    ⊎ ((msg : Ptr) × (pool : PoolAllocator) × (n : ℕ) × HasPool pool
        × ((msg == null) ≡ false)
        × (size ≡ pos n)
        × (n ≤ message_max_size)
        × (r ≡ ok (msg, allocated k msg pool size)))

-- With the allocator in order, `Message_alloc` returns null or a message whose size is in range,
-- sent by the running process and with a zeroed payload, and touches nothing else but the
-- allocator, which stays in order.
pub message_alloc-Allocates :
    (k : Kernel) (size : ℤ) → HasPool k.message_pool → Allocates k size (message_alloc k size)
unfolding message_alloc
message_alloc-Allocates k size p =
    elim (Bool-cases (leb_ℤ size (pos 0) || ltb_ℤ (pos message_max_size) size)) [
      | inl outside ↦ inl (k.message_pool, p, rw outside)
      | inr inside ↦
          let ((msg, pool), e, q) = get_block_total k.message_pool p in
          elim (Bool-cases (msg == null)) [
            | inl none_left ↦ inl (pool, q, rw (inside, e, none_left))
            | inr got ↦
                inr (
                  msg,
                  pool,
                  pos_part size,
                  q,
                  got,
                  ground arith,
                  ground arith,
                  rw (inside, e, got),
                )
          ]
    ]

-- `Message_free` returns the block and touches nothing but the allocator.
pub message_free_total :
    (k : Kernel) (msg : Ptr)
    → HasPool k.message_pool
    → (pool : PoolAllocator) × HasPool pool
      × (message_free k msg ≡ ok (record k { message_pool = pool }))
unfolding message_free
message_free_total k msg p = elim (Bool-cases (msg == null)) [
  | inl nothing ↦ (k.message_pool, p, rw nothing)
  | inr given ↦
      let ((pool, result), e, q) = release_block_total k.message_pool msg p in
      (pool, q, rw (given, e))
]

pub length-read_bytes : (memory : Ptr → ℕ) (p : Ptr) (n : ℕ) → length (read_bytes memory p n) ≡ n
unfolding read_bytes
length-read_bytes memory p zero = refl
length-read_bytes memory p (suc n) = ap suc (length-read_bytes memory (suc p) n)

length-replicate : (n : ℕ) → length (replicate {A = ℕ} n 0) ≡ n
length-replicate zero = refl
length-replicate (suc n) = ap suc (length-replicate n)

-- The stores stay in order when a message is allocated and filled from memory.
pub fill-IsKernel :
    (k : Kernel) (msg buffer : Ptr) (pool : PoolAllocator) (size : ℤ) (n : ℕ)
    → IsKernel k
    → HasPool pool
    → size ≡ pos n
    → n ≤ message_max_size
    → IsKernel (filled k msg pool size buffer)
fill-IsKernel k msg buffer pool size n v p e small =
    with_message
      (with_message (with_message_pool v pool p) msg _ (rw e (ground (arith, length-replicate n))))
      msg _ (rw (e, ==_refl msg) (ground (arith, length-read_bytes k.memory buffer n)))
