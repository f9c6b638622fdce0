-- ===== src/PoolAllocator/Release.antt =====
-- PoolAllocator_releaseBlock against the free list.
use native.Mathlib.Nat.{mul-mod_left, mul-div_left}
use disastr_os_message_queue.Base.{
  ℕ, suc, ◌*◌, ◌/◌, ◌%◌, ◌<◌, ◌≡◌, ◌≢◌, ◌⊎◌, refl, some, ◌∷◌, List, arith, length, get_elem?, set,
  has, pos, ℤ, negsuc, ◌+ℤ◌, length-set, get_elem?-set_self, get_elem?-set_ne, lt_of_get_elem?,
  Bool-cases, inl, inr, ◌==◌, false, ◌∙◌, true, wrap32, wrap32-pos, sub_ℕ, set-set, set_same, leb,
  ap, eq_of_==ℤ,
}
use disastr_os_message_queue.PoolAllocator.{
  PoolAllocator, PoolAllocatorResult, success, double_free, out_of_range, unaligned_free, Ptr,
  detached_idx, get_block, release_block, release_offset, release_index, put_back,
}
use disastr_os_message_queue.PoolAllocator.FreeList.{IsPool, block, cons, Chain-set, Chain-entry}
use disastr_os_message_queue.PoolAllocator.Get.{taken, get_block-taken}

-- The allocator after block `i` came back.
abbrev pub returned : PoolAllocator → ℕ → PoolAllocator
returned a i = record a {
  free_list = set a.free_list i a.first_idx;
  first_idx = pos i;
  size = a.size +ℤ pos 1;
}

release_offset-index :
    (a : PoolAllocator) (offset : ℕ)
    → offset % a.item_size ≡ 0
    → release_offset a (pos offset) ≡ release_index a (offset / a.item_size)
unfolding release_offset
release_offset-index a offset aligned = rw aligned

-- The offset of block `i` is aligned, and its quotient is `i`.
release_block-index :
    (a : PoolAllocator) (i : ℕ)
    → 0 < a.item_size
    → i * a.item_size < 0x8000_0000
    → release_block a (block a i) ≡ release_index a i
unfolding release_block
release_block-index a i positive fits =
    let offset : sub_ℕ (block a i) a.buffer ≡ pos (i * a.item_size) = ground arith in
    ap (release_offset a) (ap wrap32 offset ∙ wrap32-pos (i * a.item_size) fits)
    ∙ release_offset-index a (i * a.item_size) (mul-mod_left i a.item_size)
    ∙ ap (release_index a) (mul-div_left i positive)

block-fits :
    (a : PoolAllocator) {free : List ℕ} (i : ℕ)
    → IsPool a free
    → i < a.size_max
    → i * a.item_size < 0x8000_0000
block-fits a i p below = grind (arith, p.fits)

returned-IsPool :
    (a : PoolAllocator) {free : List ℕ} (i : ℕ)
    → IsPool a free
    → i < a.size_max
    → has i free ≡ false
    → IsPool (returned a i) (i ∷ free)
unfolding ◌+ℤ◌
returned-IsPool a i p below out = record {
  chain =
      cons refl (get_elem?-set_self a.free_list i a.first_idx (ground (arith, p.entries))) out
        (Chain-set i a.first_idx p.chain out);
  entries = length-set a.free_list i a.first_idx ∙ p.entries;
  counted = ground (arith, p.counted);
  lent = λ j inside away.
      get_elem?-set_ne a.free_list i j a.first_idx (ground arith) ∙ p.lent j inside (ground arith);
  item_pos = p.item_pos;
  buffer_pos = p.buffer_pos;
  fits = p.fits;
}

release_index_lent :
    (a : PoolAllocator) {free : List ℕ} (i : ℕ)
    → IsPool a free
    → i < a.size_max
    → has i free ≡ false
    → release_index a i ≡ some (returned a i, success)
unfolding release_index put_back
release_index_lent a i p below out = ground (arith, p.lent i below out)

release_index_free :
    (a : PoolAllocator) {free : List ℕ} (i : ℕ)
    → IsPool a free
    → i < a.size_max
    → has i free ≡ true
    → release_index a i ≡ some (a, double_free)
unfolding release_index put_back
release_index_free a i p below on =
    let (v, at, ne) = Chain-entry i p.chain on in ground (arith, at, ne, eq_of_==ℤ v detached_idx)

-- In an allocator in order, the release of a lent block succeeds: it goes back to the head of the
-- free list, and the allocator stays in order.
pub release_block_lent :
    (a : PoolAllocator) (free : List ℕ) (i : ℕ)
    → IsPool a free
    → i < a.size_max
    → has i free ≡ false
    → (release_block a (block a i) ≡ some (returned a i, success))
      × IsPool (returned a i) (i ∷ free)
release_block_lent a free i p below out = (
  release_block-index a i p.item_pos (block-fits a i p below) ∙ release_index_lent a i p below out,
  returned-IsPool a i p below out,
)

returned-taken :
    (a : PoolAllocator) (i n : ℕ) (next : ℤ)
    → get_elem? a.free_list i ≡ some next
    → a.first_idx ≡ pos i
    → a.size ≡ pos (suc n)
    → returned (taken a i next) i ≡ a
unfolding ◌+ℤ◌
returned-taken a i n next at first counted =
    ground (arith, set-set a.free_list i detached_idx next, set_same a.free_list i next at)

-- In an allocator in order with a free block, the block that is taken, given back, leaves the
-- allocator exactly as it was.
pub release_block-get_block :
    (a : PoolAllocator) (i : ℕ) (is : List ℕ)
    → IsPool a (i ∷ is)
    → (b : PoolAllocator) × (get_block a ≡ some (block a i, b))
      × (release_block b (block a i) ≡ some (a, success))
release_block-get_block a i is p =
    let (next, got, at, first, out, q) = get_block-taken a i is p in
    let below : i < a.size_max = omega (arith, lt_of_get_elem? a.free_list i next at, p.entries) in
    (
      taken a i next,
      got,
      (release_block_lent (taken a i next) is i q below out).0
          ∙ ap (λ b. some (b, success)) (returned-taken a i (length is) next at first p.counted),
    )

-- What a release does: it takes the lent block at this address back, or refuses and changes nothing.
abbrev pub Released : PoolAllocator → List ℕ → ℤ → PoolAllocator × PoolAllocatorResult → Type 0
Released a free offset r =
    ((i : ℕ) × (i < a.size_max)
      × (has i free ≡ false)
      × (offset ≡ pos (i * a.item_size))
      × (r ≡ (returned a i, success))
      × IsPool r.0 (i ∷ free))
    ⊎ ((r.0 ≡ a) × (r.1 ≢ success))

release_index-Released :
    (a : PoolAllocator) (free : List ℕ) (i : ℕ)
    → IsPool a free
    → (r : PoolAllocator × PoolAllocatorResult) × (release_index a i ≡ some r)
      × Released a free (pos (i * a.item_size)) r
unfolding release_index
release_index-Released a free i p = elim (Bool-cases (leb a.size_max i)) [
  | inl outside ↦ ((a, out_of_range), rw outside, inr (refl, λ e. cc))
  | inr inside ↦ elim (Bool-cases (has i free)) [
    | inl on ↦ ((a, double_free), release_index_free a i p (ground arith) on, inr (refl, λ e. cc))
    | inr out ↦ (
      (returned a i, success),
      release_index_lent a i p (ground arith) out,
      inl (i, ground arith, out, refl, refl, returned-IsPool a i p (ground arith) out),
    )
  ]
]

release_offset-Released :
    (a : PoolAllocator) (free : List ℕ) (offset : ℤ)
    → IsPool a free
    → (r : PoolAllocator × PoolAllocatorResult) × (release_offset a offset ≡ some r)
      × Released a free offset r
unfolding release_offset
release_offset-Released a free (pos n) p = elim (Bool-cases (n % a.item_size == 0)) [
  | inl aligned ↦
      let (r, e, c) = release_index-Released a free (n / a.item_size) p in
      let whole : n / a.item_size * a.item_size ≡ n = grind arith in
      (r, rw aligned e, rw whole at c)
  | inr odd ↦ ((a, unaligned_free), rw odd, inr (refl, λ e. cc))
]
release_offset-Released a free (negsuc n) p = elim (Bool-cases (suc n % a.item_size == 0)) [
  | inl aligned ↦ ((a, out_of_range), rw aligned, inr (refl, λ e. cc))
  | inr odd ↦ ((a, unaligned_free), rw odd, inr (refl, λ e. cc))
]

-- In an allocator in order and at any address whatever, a release touches no entry outside the
-- array, and either takes back the lent block whose offset this is, or refuses and leaves the
-- allocator as it was.
pub release_block-Released :
    (a : PoolAllocator) (free : List ℕ) (x : Ptr)
    → IsPool a free
    → (r : PoolAllocator × PoolAllocatorResult) × (release_block a x ≡ some r)
      × Released a free (wrap32 (sub_ℕ x a.buffer)) r
unfolding release_block
release_block-Released a free x p = release_offset-Released a free (wrap32 (sub_ℕ x a.buffer)) p
