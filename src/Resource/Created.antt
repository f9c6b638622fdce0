-- ===== src/Resource/Created.antt =====
-- A new resource, or a new message queue, linked behind the others.
use disastr_os_message_queue.Base.{
  ◌≡◌, ◌⊎◌, refl, sym, ◌∙◌, ap, subst, true, arith, ◌==◌, ==_refl, inl, inr, eq_of_==, List, [],
  ◌∷◌, ◌++◌, has, has-append, append-IsDistinct, Bool-cases, pos, length, fun_ext,
}
use disastr_os_message_queue.PoolAllocator.{Ptr, PoolAllocator}
use disastr_os_message_queue.PoolAllocator.Lent.{
  IsLent, IsBlock, IsBlock-SameArray, IsBlock-SameArray_back, Takes,
}
use disastr_os_message_queue.PoolAllocator.Far.{IsFar, IsFar-SameArray}
use disastr_os_message_queue.Kernel.{Kernel, Resource, update}
use disastr_os_message_queue.Kernel.Invariant.{HasPool}
use disastr_os_message_queue.Kernel.Links.{Links}
use disastr_os_message_queue.Resource.Invariant.{IsOpened}
use disastr_os_message_queue.Resource.Linked.{
  IsWired, IsOpen, IsIdle, IsListed, IsListed-apart, Covers, entries_of, count_of, IsOpened-same,
}

-- The new block was idle.
pub Takes-IsIdle :
    {a b : PoolAllocator} (entries : Ptr → List Ptr) (linked : List Ptr) (r : Ptr)
    → Covers a entries linked
    → Takes a r b
    → IsIdle entries linked r
Takes-IsIdle entries linked r c t = elim (c r t.block) [
  | inl lent ↦ absurd (ground (arith, ==_refl r, t.fresh r lent))
  | inr idle ↦ idle
]

-- The allocator that the block is from, and another one.
Covers-taken :
    {a b : PoolAllocator} (entries : Ptr → List Ptr) (linked : List Ptr) (r : Ptr)
    → Takes a r b
    → Covers a entries linked
    → Covers b entries (linked ++ r ∷ [])
Covers-taken {a} {b} entries linked r t c q is = elim (Bool-cases (q == r)) [
  | inl same ↦ inl (subst (IsLent b) (sym (eq_of_== q r same)) t.lent)
  | inr other ↦ elim (c q (IsBlock-SameArray q t.array is)) [
    | inl lent ↦ inl (t.keeps q lent)
    | inr (empty, out) ↦ inr (empty, ground (arith, has-append q linked (r ∷ [])))
  ]
]

Covers-other :
    (a : PoolAllocator) (entries : Ptr → List Ptr) (linked : List Ptr) (r : Ptr)
    → ¬ IsBlock a r
    → Covers a entries linked
    → Covers a entries (linked ++ r ∷ [])
Covers-other a entries linked r foreign c q is = elim (c q is) [
  | inl lent ↦ inl lent
  | inr (empty, out) ↦ inr (
    empty,
    elim (Bool-cases (q == r)) [
      | inl same ↦ absurd (foreign (subst (IsBlock a) (eq_of_== q r same) is))
      | inr other ↦ ground (arith, has-append q linked (r ∷ []))
    ],
  )
]

linked_end :
    (q r : Ptr) (linked : List Ptr)
    → has q (linked ++ r ∷ []) ≡ true
    → (q ≡ r) ⊎ (has q linked ≡ true)
linked_end q r linked on = elim (Bool-cases (q == r)) [
  | inl same ↦ inl (eq_of_== q r same)
  | inr other ↦ inr (ground (arith, has-append q linked (r ∷ [])))
]

module _ {rp qp : PoolAllocator} {entries : Ptr → List Ptr} {linked : List Ptr}
    (v : IsListed rp qp entries linked) (r : Ptr) where
  pub with_resource_taken :
      {b : PoolAllocator} → Takes rp r b → IsListed b qp entries (linked ++ r ∷ [])
  with_resource_taken t = record {
    resource_pool = t.pool;
    queue_pool = v.queue_pool;
    far = λ q is_queue. IsFar-SameArray q t.array (v.far q is_queue);
    from = λ q on. elim (linked_end q r linked on) [
      | inl same ↦ inl (rw same (IsBlock-SameArray_back r t.array t.block))
      | inr old ↦ elim (v.from q old) [
        | inl is ↦ inl (IsBlock-SameArray_back q t.array is)
        | inr is_queue ↦ inr is_queue
      ]
    ];
    resources = Covers-taken entries linked r t v.resources;
    queues = Covers-other qp entries linked r (IsListed-apart v r t.block) v.queues;
    once = append-IsDistinct r linked v.once (Takes-IsIdle entries linked r v.resources t).1;
  }

  pub with_queue_taken :
      {b : PoolAllocator} → Takes qp r b → IsListed rp b entries (linked ++ r ∷ [])
  with_queue_taken t = record {
    resource_pool = v.resource_pool;
    queue_pool = t.pool;
    far = λ q is_queue. v.far q (IsBlock-SameArray q t.array is_queue);
    from = λ q on. elim (linked_end q r linked on) [
      | inl same ↦ inr (rw same (IsBlock-SameArray_back r t.array t.block))
      | inr old ↦ elim (v.from q old) [
        | inl is ↦ inl is
        | inr is_queue ↦ inr (IsBlock-SameArray_back q t.array is_queue)
      ]
    ];
    resources = Covers-other rp entries linked r (λ is. IsListed-apart v r is t.block) v.resources;
    queues = Covers-taken entries linked r t v.queues;
    once = append-IsDistinct r linked v.once (Takes-IsIdle entries linked r v.queues t).1;
  }

-- A resource without entries in the place of one without entries.
module _ (resources : Ptr → Resource) (r : Ptr) (res : Resource) where
  pub entries-update_empty :
      res.descriptors_ptrs ≡ []
      → entries_of resources r ≡ []
      → (q : Ptr) → entries_of (update resources r res) q ≡ entries_of resources q
  entries-update_empty e was q = elim (Bool-cases (q == r)) [
    | inl same ↦
        rw (same, entries_of) (e ∙ sym was ∙ ap (entries_of resources) (sym (eq_of_== q r same)))
    | inr other ↦ rw (other, entries_of)
  ]

  pub count-update_zero :
      res.ref_count ≡ pos 0
      → count_of resources r ≡ pos 0
      → (q : Ptr) → count_of (update resources r res) q ≡ count_of resources q
  count-update_zero e was q = elim (Bool-cases (q == r)) [
    | inl same ↦
        rw (same, count_of) (e ∙ sym was ∙ ap (count_of resources) (sym (eq_of_== q r same)))
    | inr other ↦ rw (other, count_of)
  ]

-- What nobody has open counts nothing.
pub IsOpen-zero :
    (k : Kernel) (r : Ptr)
    → IsOpen k
    → entries_of k.resources r ≡ []
    → count_of k.resources r ≡ pos 0
IsOpen-zero k r v e = v.counted r ∙ ap (λ (xs : List Ptr). pos (length xs)) e

pub IsListed-same :
    (rp qp : PoolAllocator) (entries entries' : Ptr → List Ptr) (linked : List Ptr)
    → ((q : Ptr) → entries' q ≡ entries q)
    → IsListed rp qp entries linked
    → IsListed rp qp entries' linked
IsListed-same rp qp entries entries' linked h =
    subst (λ (x : Ptr → List Ptr). IsListed rp qp x linked) (sym (fun_ext h))

-- Where nothing is linked and nobody has anything open, the links are in order.
pub empty-IsWired :
    (l : Links)
    → HasPool l.descriptor_pool
    → HasPool l.descriptor_ptr_pool
    → HasPool l.resource_pool
    → HasPool l.queue_pool
    → ((r : Ptr) → IsBlock l.queue_pool r → IsFar l.resource_pool r)
    → ((p : Ptr) → l.held p ≡ [])
    → ((r : Ptr) → entries_of l.resources r ≡ [])
    → ((r : Ptr) → count_of l.resources r ≡ pos 0)
    → l.resources_list ≡ []
    → IsWired l
empty-IsWired l pd pe pr pq far held entries count none_linked = record {
  opened = IsOpened-same held entries count nothing;
  listed = record {
    resource_pool = pr;
    queue_pool = pq;
    far = far;
    from = λ r on. absurd (ground (arith, none_linked));
    resources = λ r is. inr (entries r, rw none_linked refl);
    queues = λ r is. inr (entries r, rw none_linked refl);
    once = rw none_linked _;
  };
}
  where
    nothing :
        IsOpened l.descriptor_pool l.descriptor_ptr_pool l.descriptors l.descriptor_ptrs
          (λ p. [])
          (λ r. [])
          (λ r. pos 0)
    nothing = record {
      descriptor_pool = pd;
      entry_pool = pe;
      counted = λ r. refl;
      held_ok = λ p x on. absurd (ground arith);
      entry_ok = λ r q on. absurd (ground arith);
      held_once = λ p. _;
      entry_once = λ r. _;
    }
