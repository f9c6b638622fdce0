-- ===== src/PoolAllocator/Lent.antt =====
-- The blocks that an allocator has lent, whatever the order of its free list.
use disastr_os_message_queue.Base.{
  ℕ, ◌<◌, ◌≡◌, ◌⊎◌, refl, ap, sym, ◌∙◌, subst, some, List, [], ◌∷◌, arith, get_elem?, has, false,
  ◌==◌, eq_of_==, Bool-cases, inl, inr, get_elem?-set_self, get_elem?-set_ne, lt_of_get_elem?,
}
use disastr_os_message_queue.PoolAllocator.{
  Ptr, null, PoolAllocator, detached_idx, success, get_block, release_block,
}
use disastr_os_message_queue.PoolAllocator.FreeList.{IsPool, block, Chain-entry}
use disastr_os_message_queue.PoolAllocator.Get.{get_block-taken, get_block_empty, taken}
use disastr_os_message_queue.PoolAllocator.Release.{release_block_lent, returned}

abbrev pub IsBlock : PoolAllocator → Ptr → Type 0
IsBlock a p = (i : ℕ) × (i < a.size_max) × (p ≡ block a i)

abbrev pub IsLent : PoolAllocator → Ptr → Type 0
IsLent a p =
    (i : ℕ) × (i < a.size_max) × (p ≡ block a i) × (get_elem? a.free_list i ≡ some detached_idx)

block-eq : (a : PoolAllocator) (i j : ℕ) → 0 < a.item_size → block a i ≡ block a j → i ≡ j
block-eq a i j positive e = grind arith

block_ne :
    (a : PoolAllocator) (x : Ptr) (i j : ℕ)
    → 0 < a.item_size
    → x ≡ block a j
    → (j == i) ≡ false
    → (x == block a i) ≡ false
block_ne a x i j positive at other = elim (Bool-cases (x == block a i)) [
  | inl same ↦
      absurd (ground (arith, block-eq a j i positive (sym at ∙ eq_of_== x (block a i) same)))
  | inr ne ↦ ne
]

index_ne :
    (a : PoolAllocator) (x : Ptr) (i j : ℕ)
    → x ≡ block a j
    → (x == block a i) ≡ false
    → (j == i) ≡ false
index_ne a x i j at other = elim (Bool-cases (j == i)) [
  | inl same ↦ absurd (ground (arith, at, ap (block a) (eq_of_== j i same)))
  | inr ne ↦ ne
]

-- The same array, with another free list.
pub record SameArray (a b : PoolAllocator) : Type 0 where
  pub buffer : b.buffer ≡ a.buffer
  pub size_max : b.size_max ≡ a.size_max
  pub item_size : b.item_size ≡ a.item_size

pub IsBlock-SameArray : {a b : PoolAllocator} (p : Ptr) → SameArray a b → IsBlock b p → IsBlock a p
IsBlock-SameArray {a} {b} p s (i, below, at) =
    (i, rw (← s.size_max) below, at ∙ rw (s.buffer, s.item_size) refl)

pub IsBlock-SameArray_back :
    {a b : PoolAllocator} (p : Ptr) → SameArray a b → IsBlock a p → IsBlock b p
IsBlock-SameArray_back {a} {b} p s (i, below, at) =
    (i, rw s.size_max below, at ∙ rw (s.buffer, s.item_size) refl)

-- `b` is `a` after the block at `p`, which was free, was lent.
pub record Takes (a : PoolAllocator) (p : Ptr) (b : PoolAllocator) : Type 0 where
  pub taken : get_block a ≡ some (p, b)
  pub given : (p == null) ≡ false
  pub pool : (free : List ℕ) × IsPool b free
  pub array : SameArray a b
  pub block : IsBlock a p
  pub lent : IsLent b p
  pub fresh : (x : Ptr) → IsLent a x → (x == p) ≡ false
  pub keeps : (x : Ptr) → IsLent a x → IsLent b x
  pub lends : (x : Ptr) → (x == p) ≡ false → IsLent b x → IsLent a x

-- `b` is `a` after the lent block at `p` came back.
pub record Gives (a : PoolAllocator) (p : Ptr) (b : PoolAllocator) : Type 0 where
  pub released : release_block a p ≡ some (b, success)
  pub pool : (free : List ℕ) × IsPool b free
  pub array : SameArray a b
  pub keeps : (x : Ptr) → (x == p) ≡ false → IsLent a x → IsLent b x

-- The entry of a lent block leads nowhere.
not_free :
    (a : PoolAllocator) {free : List ℕ} (i : ℕ)
    → IsPool a free
    → get_elem? a.free_list i ≡ some detached_idx
    → has i free ≡ false
not_free a {free} i p at = elim (Bool-cases (has i free)) [
  | inl on ↦ let (v, got, ne) = Chain-entry i p.chain on in absurd (ne (ground arith))
  | inr out ↦ out
]

-- A request is refused, and changes nothing, or lends a block that was free.
pub get_block-Takes :
    (a : PoolAllocator) (free : List ℕ)
    → IsPool a free
    → (get_block a ≡ some (null, a)) ⊎ ((p : Ptr) × (b : PoolAllocator) × Takes a p b)
get_block-Takes a [] p = inl (get_block_empty a p)
get_block-Takes a (i ∷ is) p =
    let (next, got, at, first, out, q) = get_block-taken a i is p in
    let below : i < a.size_max = omega (arith, lt_of_get_elem? a.free_list i next at, p.entries) in
    let apart : (x : ℕ) → get_elem? a.free_list x ≡ some detached_idx → (x == i) ≡ false =
      λ x e. not_first a i is x p e in
    inr (
      block a i,
      taken a i next,
      record {
        taken = got;
        given = ground (arith, p.buffer_pos);
        pool = (is, q);
        array = record { buffer = refl; size_max = refl; item_size = refl };
        block = (i, below, refl);
        lent = (
          i,
          below,
          refl,
          get_elem?-set_self a.free_list i detached_idx (lt_of_get_elem? a.free_list i next at),
        );
        fresh = λ x (j, inside, here, e). block_ne a x i j p.item_pos here (apart j e);
        keeps = λ x (j, inside, here, e). (
          j,
          inside,
          here,
          get_elem?-set_ne a.free_list i j detached_idx (ground (arith, apart j e)) ∙ e,
        );
        lends = λ x other (j, inside, here, e).
            let ne = index_ne a x i j here other in
            (
              j,
              inside,
              here,
              sym (get_elem?-set_ne a.free_list i j detached_idx (ground (arith, ne))) ∙ e,
            );
      },
    )
  where
    not_first :
        (a : PoolAllocator) (i : ℕ) (is : List ℕ) (x : ℕ)
        → IsPool a (i ∷ is)
        → get_elem? a.free_list x ≡ some detached_idx
        → (x == i) ≡ false
    not_first a i is x p e = ground (arith, not_free a x p e)

-- A lent block is taken back.
pub release_block-Gives :
    (a : PoolAllocator) (free : List ℕ) (p : Ptr)
    → IsPool a free
    → IsLent a p
    → (b : PoolAllocator) × Gives a p b
release_block-Gives a free p h (i, below, here, at) =
    let (released, q) = release_block_lent a free i h below (not_free a i h at) in
    (
      returned a i,
      record {
        released = rw here released;
        pool = (i ∷ free, q);
        array = record { buffer = refl; size_max = refl; item_size = refl };
        keeps = λ x other (j, inside, there, e).
            let ne : (j == i) ≡ false = index_ne a x i j there (rw (← here) other) in
            (
              j,
              inside,
              there,
              get_elem?-set_ne a.free_list i j a.first_idx (ground (arith, ne)) ∙ e,
            );
      },
    )

-- A request has one answer.
pub get_block_same :
    (a : PoolAllocator) {q p : Ptr} {c b : PoolAllocator}
    → get_block a ≡ some (q, c)
    → get_block a ≡ some (p, b)
    → (q ≡ p) × (c ≡ b)
get_block_same a e f = ground arith

-- Whatever block a request gets, it was free.
pub Takes-of :
    (a : PoolAllocator) (free : List ℕ) (p : Ptr) (b : PoolAllocator)
    → IsPool a free
    → get_block a ≡ some (p, b)
    → (p == null) ≡ false
    → Takes a p b
Takes-of a free p b h got given = elim (get_block-Takes a free h) [
  | inl full ↦
      let (null_block, same) = get_block_same a full got in absurd (ground (arith, null_block))
  | inr (q, c, t) ↦
      let (block, pool) = get_block_same a t.taken got in
      subst (λ (x : PoolAllocator). Takes a p x) pool (subst (λ (x : Ptr). Takes a x c) block t)
]
