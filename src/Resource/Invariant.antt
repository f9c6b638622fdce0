-- ===== src/Resource/Invariant.antt =====
-- The links between processes, descriptors and resources, as src/disastrOS_open_resource.c makes them
-- and src/disastrOS_close_resource.c takes them apart.
use disastr_os_message_queue.Base.{
  ◌≡◌, refl, sym, ◌∙◌, ap, subst, true, false, List, [], ◌∷◌, arith, ◌==◌, ==_refl, eq_of_==,
  Bool-cases, inl, inr, has, IsDistinct, length, length-append, length-detach, ℤ, pos, negsuc, ◌+ℤ◌,
}
use disastr_os_message_queue.PoolAllocator.{Ptr, PoolAllocator}
use disastr_os_message_queue.PoolAllocator.FreeList.{IsPool}
use disastr_os_message_queue.PoolAllocator.Lent.{IsLent, Takes, Gives}
use disastr_os_message_queue.Kernel.{Descriptor, update}
use disastr_os_message_queue.Kernel.Tables.{
  linked, linked-keeps, linked-has, linked-cases, linked-IsDistinct, unlinked, unlinked-has,
  unlinked-gone, unlinked-keeps, unlinked-IsDistinct,
}

-- A descriptor `d` that process `p` has: its block and that of its entry are lent, the two lead to each
-- other and to the process, and the entry is linked in the resource.
pub record IsHeld (dp ep : PoolAllocator) (ds : Ptr → Descriptor) (dps : Ptr → Ptr)
    (entries : Ptr → List Ptr) (p d : Ptr) : Type 0 where
  pub lent : IsLent dp d
  pub entry_lent : IsLent ep (ds d).ptr
  pub back : dps (ds d).ptr ≡ d
  pub owner : (ds d).pcb ≡ p
  pub listed : has (ds d).ptr (entries (ds d).resource) ≡ true

-- An entry `q` of resource `r` leads to a descriptor that its process has.
pub record IsEntry (ds : Ptr → Descriptor) (dps : Ptr → Ptr) (held : Ptr → List Ptr) (r q : Ptr)
    : Type 0 where
  pub forth : (ds (dps q)).ptr ≡ q
  pub resource : (ds (dps q)).resource ≡ r
  pub held_by : has (dps q) (held (ds (dps q)).pcb) ≡ true

-- In this order: the allocators of descriptors and of entries, the descriptors, the entries, the lists of
-- the processes, and the lists and the counts of the resources. The entries of a resource and the
-- descriptors of processes correspond, and the count of a resource is the number of its entries.
pub record IsOpened (dp ep : PoolAllocator) (ds : Ptr → Descriptor) (dps : Ptr → Ptr)
    (held entries : Ptr → List Ptr) (count : Ptr → ℤ) : Type 0 where
  pub descriptor_pool : (free : List Ptr) × IsPool dp free
  pub entry_pool : (free : List Ptr) × IsPool ep free
  pub counted : (r : Ptr) → count r ≡ pos (length (entries r))
  pub held_ok : (p d : Ptr) → has d (held p) ≡ true → IsHeld dp ep ds dps entries p d
  pub entry_ok : (r q : Ptr) → has q (entries r) ≡ true → IsEntry ds dps held r q
  pub held_once : (p : Ptr) → IsDistinct (held p)
  pub entry_once : (r : Ptr) → IsDistinct (entries r)

out_of_fresh : (x : Ptr) (xs : List Ptr) → (has x xs ≡ true → (x == x) ≡ false) → has x xs ≡ false
out_of_fresh x xs f = elim (Bool-cases (has x xs)) [
  | inl on ↦ absurd (ground (arith, ==_refl x, f on))
  | inr off ↦ off
]

module _ {dp ep : PoolAllocator} {ds : Ptr → Descriptor} {dps : Ptr → Ptr}
    {held entries : Ptr → List Ptr} {count : Ptr → ℤ}
    (v : IsOpened dp ep ds dps held entries count) where
  -- A new descriptor is none that a process has, and likewise for entries.
  pub fresh_descriptor :
      {d : Ptr} {dp' : PoolAllocator} → Takes dp d dp' → (p : Ptr) → has d (held p) ≡ false
  fresh_descriptor {d} t p = out_of_fresh d (held p) λ on. t.fresh d (v.held_ok p d on).lent

  pub fresh_entry :
      {q : Ptr} {ep' : PoolAllocator} → Takes ep q ep' → (r : Ptr) → has q (entries r) ≡ false
  fresh_entry {q} t r = out_of_fresh q (entries r) λ on.
      let e = v.entry_ok r q on in
      let h = v.held_ok (ds (dps q)).pcb (dps q) e.held_by in
      t.fresh q (subst (IsLent ep) e.forth h.entry_lent)

  -- The open keeps the links.
  module _ {d q : Ptr} {dp' ep' : PoolAllocator} (t : Takes dp d dp') (u : Takes ep q ep')
      (p r : Ptr) (fd : ℤ) where
    abbrev new_descriptor : Descriptor
    new_descriptor = record { pcb = p; resource = r; fd = fd; ptr = q }

    link_held :
        (p' d' : Ptr)
        → has d' (linked held p d p') ≡ true
        → IsHeld dp' ep' (update ds d new_descriptor) (update dps q d) (linked entries r q) p' d'
    link_held p' d' on = elim (linked-cases held p d p' d' on) [
      | inl (same, by) ↦
          rw (same, by)
            (record {
              lent = t.lent;
              entry_lent = rw (==_refl d) u.lent;
              back = rw (==_refl d, ==_refl q) refl;
              owner = rw (==_refl d) refl;
              listed = rw (==_refl d) (linked-has entries r q);
            })
      | inr old ↦
          let h = v.held_ok p' d' old in
          let other = t.fresh d' h.lent in
          let apart = u.fresh (ds d').ptr h.entry_lent in
          record {
            lent = t.keeps d' h.lent;
            entry_lent = rw other (u.keeps (ds d').ptr h.entry_lent);
            back = rw (other, apart) h.back;
            owner = rw other h.owner;
            listed = rw other (linked-keeps entries r q (ds d').resource (ds d').ptr h.listed);
          }
    ]

    link-IsEntry :
        (r' q' : Ptr)
        → has q' (linked entries r q r') ≡ true
        → IsEntry (update ds d new_descriptor) (update dps q d) (linked held p d) r' q'
    link-IsEntry r' q' on = elim (linked-cases entries r q r' q' on) [
      | inl (same, of) ↦
          rw (same, of)
            (record {
              forth = rw (==_refl q, ==_refl d) refl;
              resource = rw (==_refl q, ==_refl d) refl;
              held_by = rw (==_refl q, ==_refl d) (linked-has held p d);
            })
      | inr old ↦
          let e = v.entry_ok r' q' old in
          let h = v.held_ok (ds (dps q')).pcb (dps q') e.held_by in
          let apart : (q' == q) ≡ false = u.fresh q' (subst (IsLent ep) e.forth h.entry_lent) in
          let other = t.fresh (dps q') h.lent in
          record {
            forth = rw (apart, other) e.forth;
            resource = rw (apart, other) e.resource;
            held_by =
                rw (apart, other) (linked-keeps held p d (ds (dps q')).pcb (dps q') e.held_by);
          }
    ]

    pub link-IsOpened :
        IsOpened dp' ep'
          (update ds d new_descriptor)
          (update dps q d)
          (linked held p d)
          (linked entries r q)
          (update count r (count r +ℤ pos 1))
    unfolding ◌+ℤ◌
    link-IsOpened = record {
      descriptor_pool = t.pool;
      entry_pool = u.pool;
      counted = λ r'. elim (Bool-cases (r' == r)) [
        | inl same ↦ rw same (ground (arith, v.counted r, length-append (entries r) (q ∷ [])))
        | inr other ↦ rw other (v.counted r')
      ];
      held_ok = link_held;
      entry_ok = link-IsEntry;
      held_once = linked-IsDistinct held p d v.held_once (fresh_descriptor t p);
      entry_once = linked-IsDistinct entries r q v.entry_once (fresh_entry u r);
    }

  -- A block that was not lent may hold anything, as long as the lent ones stay.
  pub scratch-IsOpened :
      (d : Ptr) (des : Descriptor) {dp' : PoolAllocator}
      → (free : List Ptr) → IsPool dp' free
      → ((x : Ptr) → IsLent dp x → (x == d) ≡ false)
      → ((x : Ptr) → IsLent dp x → IsLent dp' x)
      → IsOpened dp' ep (update ds d des) dps held entries count
  scratch-IsOpened d des free h fresh keeps = record {
    descriptor_pool = (free, h);
    entry_pool = v.entry_pool;
    counted = v.counted;
    held_ok = λ p d' on.
        let old = v.held_ok p d' on in
        let other = fresh d' old.lent in
        record {
          lent = keeps d' old.lent;
          entry_lent = rw other old.entry_lent;
          back = rw other old.back;
          owner = rw other old.owner;
          listed = rw other old.listed;
        };
    entry_ok = λ r q on.
        let old = v.entry_ok r q on in
        let other = fresh (dps q) (v.held_ok (ds (dps q)).pcb (dps q) old.held_by).lent in
        record {
          forth = rw other old.forth;
          resource = rw other old.resource;
          held_by = rw other old.held_by;
        };
    held_once = v.held_once;
    entry_once = v.entry_once;
  }

  -- So does the close of a descriptor that process `p` has.
  module _ (p d : Ptr) (on : has d (held p) ≡ true) {dp' ep' : PoolAllocator} (t : Gives dp d dp')
      (u : Gives ep (ds d).ptr ep') where
    -- Another descriptor has another entry.
    entry_ne :
        (p' d' : Ptr)
        → has d' (held p') ≡ true
        → (d' == d) ≡ false
        → ((ds d').ptr == (ds d).ptr) ≡ false
    entry_ne p' d' on' other = elim (Bool-cases ((ds d').ptr == (ds d).ptr)) [
      | inl same ↦
          let whole =
            sym (v.held_ok p' d' on').back
            ∙ ap dps (eq_of_== (ds d').ptr (ds d).ptr same)
            ∙ (v.held_ok p d on).back in
          absurd (ground (arith, whole, ==_refl d))
      | inr ne ↦ ne
    ]

    -- What is left in a process is not `d`.
    left_ne : (p' d' : Ptr) → has d' (unlinked held p d p') ≡ true → (d' == d) ≡ false
    left_ne p' d' on' = elim (Bool-cases (d' == d)) [
      | inl same ↦
          let e = eq_of_== d' d same in
          let was : has d (held p') ≡ true = rw (← e) (unlinked-has held p d p' d' on') in
          let here : p' ≡ p = sym (v.held_ok p' d was).owner ∙ (v.held_ok p d on).owner in
          let gone = unlinked-gone held p d v.held_once in
          let stays : has d (unlinked held p d p) ≡ true =
            subst (λ (z : Ptr). has d (unlinked held p d z) ≡ true) here
              (subst (λ (x : Ptr). has x (unlinked held p d p') ≡ true) e on') in
          let clash = sym gone ∙ stays in cc
      | inr ne ↦ ne
    ]

    unlink_held :
        (p' d' : Ptr)
        → has d' (unlinked held p d p') ≡ true
        → IsHeld dp' ep' ds dps (unlinked entries (ds d).resource (ds d).ptr) p' d'
    unlink_held p' d' on' =
        let was = unlinked-has held p d p' d' on' in
        let h = v.held_ok p' d' was in
        let ne = left_ne p' d' on' in
        let apart = entry_ne p' d' was ne in
        record {
          lent = t.keeps d' ne h.lent;
          entry_lent = u.keeps (ds d').ptr apart h.entry_lent;
          back = h.back;
          owner = h.owner;
          listed =
              unlinked-keeps entries (ds d).resource (ds d).ptr (ds d').resource (ds d').ptr apart
                h.listed;
        }

    unlink-IsEntry :
        (r' q' : Ptr)
        → has q' (unlinked entries (ds d).resource (ds d).ptr r') ≡ true
        → IsEntry ds dps (unlinked held p d) r' q'
    unlink-IsEntry r' q' on' =
        let was = unlinked-has entries (ds d).resource (ds d).ptr r' q' on' in
        let e = v.entry_ok r' q' was in
        let ne : (dps q' == d) ≡ false = elim (Bool-cases (dps q' == d)) [
          | inl same ↦
              let e1 = eq_of_== (dps q') d same in
              let q_is : (ds d).ptr ≡ q' = rw (← e1) e.forth in
              let r_is : (ds d).resource ≡ r' = rw (← e1) e.resource in
              let gone = unlinked-gone entries (ds d).resource (ds d).ptr v.entry_once in
              let stays : has (ds d).ptr
                    (unlinked entries (ds d).resource (ds d).ptr (ds d).resource)
                  ≡ true =
                subst
                  (λ (z : Ptr).
                    has (ds d).ptr (unlinked entries (ds d).resource (ds d).ptr z) ≡ true)
                  (sym r_is)
                  (subst
                    (λ (x : Ptr). has x (unlinked entries (ds d).resource (ds d).ptr r') ≡ true)
                    (sym q_is) on') in
              let clash = sym gone ∙ stays in cc
          | inr other ↦ other
        ] in
        record {
          forth = e.forth;
          resource = e.resource;
          held_by = unlinked-keeps held p d (ds (dps q')).pcb (dps q') ne e.held_by;
        }

    pub unlink-IsOpened :
        IsOpened dp' ep' ds dps
          (unlinked held p d)
          (unlinked entries (ds d).resource (ds d).ptr)
          (update count (ds d).resource (count (ds d).resource +ℤ negsuc 0))
    unfolding ◌+ℤ◌
    unlink-IsOpened = record {
      descriptor_pool = t.pool;
      entry_pool = u.pool;
      counted = λ r'. elim (Bool-cases (r' == (ds d).resource)) [
        | inl same ↦ rw same (
            ground (
              arith,
              v.counted (ds d).resource,
              length-detach (ds d).ptr (entries (ds d).resource),
              (v.held_ok p d on).listed,
            ))
        | inr other ↦ rw other (v.counted r')
      ];
      held_ok = unlink_held;
      entry_ok = unlink-IsEntry;
      held_once = unlinked-IsDistinct held p d v.held_once;
      entry_once = unlinked-IsDistinct entries (ds d).resource (ds d).ptr v.entry_once;
    }
