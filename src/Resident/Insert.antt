-- ===== src/Resident/Insert.antt =====
-- A new object in the list of the resident objects: what it does to the books.
use vnv_heap.Base.{
  ℕ, ◌+◌, ◌-◌, ◌≤◌, ◌<◌, ◌≡◌, refl, sym, ap, ◌∙◌, true, false, arith, if◌then◌else◌, ◌==◌, inl, inr,
  fun_ext, subst, none, some, Bool-cases, replicate, length, zero, suc,
}
use vnv_heap.Base.Words.{usize_mod}
use vnv_heap.Status.{in_use, partial_dirtiness_tracking, data_dirty}
use vnv_heap.Status.Flags.{get_flag-new, new-IsStatus}
use vnv_heap.Buddy.Chain.{has}
use vnv_heap.Buddy.Push.{insert, has-insert}
use vnv_heap.Resident.Object.{
  TypeLayout, ResidentObject, dirty_size, total_metadata_backup_size, new_object,
}
use vnv_heap.Resident.Persist.{IsObject, dirty_size-whole}
use vnv_heap.Resident.Total.{total-congr, total-insert, insert-Distinct}
use vnv_heap.Resident.State.{Resident, Layouts, put, object_in_use, AllocatorModule}
use vnv_heap.Resident.Allocation.{AllocatorSpec, block_layout, with_block}
use vnv_heap.Resident.Books.{
  Books, Kept, Untouched, Untouched-refl, Untouched-trans, blocks_of, size_of, put_self, put-other,
}
use vnv_heap.Resident.Require.{fresh_object}

-- The fresh object of a type without partial dirtiness tracking.
pub record IsFresh (layout : TypeLayout) (offset : ℕ) (o : ResidentObject) : Type 0 where
  pub valid : IsObject o
  pub layout_is : o.layout ≡ layout
  pub offset_is : o.offset ≡ offset
  pub idle : object_in_use o ≡ false
  pub clean : dirty_size o ≡ total_metadata_backup_size

length-replicate : (n : ℕ) (b : ℕ) → length (replicate n b) ≡ n
length-replicate zero b = refl
length-replicate (suc n) b = ap suc (length-replicate n b)

pub fresh_object-IsFresh :
    (layout : TypeLayout) (offset : ℕ)
    → layout.size + total_metadata_backup_size < usize_mod
    → IsFresh layout offset (fresh_object layout offset false)
unfolding fresh_object new_object
fresh_object-IsFresh layout offset small = record {
  valid = valid;
  layout_is = refl;
  offset_is = refl;
  idle = get_flag-new false in_use;
  clean = dirty_size-whole valid ∙ rw (get_flag-new false data_dirty) refl;
}
  where
    valid : IsObject (fresh_object layout offset false)
    valid = record {
      status_byte = new-IsStatus false;
      whole = get_flag-new false partial_dirtiness_tracking;
      filled = length-replicate layout.size 0;
      small = small;
    }

module _ {S H : Type 0} (l : Layouts) {a : AllocatorModule H} (spec : AllocatorSpec a)
    (initial : ℕ) where
  -- The books are in order after a step, and an object in use stays resident and untouched.
  pub record Stays (r r' : Resident S H) : Type 0 where
    pub books : Books l spec initial r'
    pub stays :
        (p : ℕ)
        → has p r.resident_list ≡ true
        → object_in_use (r.objects p) ≡ true
        → (has p r'.resident_list ≡ true) × Untouched (r.objects p) (r'.objects p)

  pub Kept-Stays : {r r' : Resident S H} → Kept l spec initial r r' → Stays r r'
  Kept-Stays k = record { books = k.books; stays = k.stays }

  pub Stays-trans : {r₁ r₂ r₃ : Resident S H} → Stays r₁ r₂ → Stays r₂ r₃ → Stays r₁ r₃
  Stays-trans s s' = record {
    books = s'.books;
    stays = λ p h u.
        let t = s.stays p h u in
        let t' = s'.stays p t.0 (t.1.flags in_use refl ∙ u) in (t'.0, Untouched-trans t.1 t'.1);
  }

  -- An object whose dirty size is paid for is put into the list, at a block that is handed out for it.
  pub insert-Stays :
      {r : Resident S H} (p n : ℕ) (o : ResidentObject) (s : S) (h : H)
      → Books l spec initial r
      → has p r.resident_list ≡ false
      → IsObject o
      → dirty_size o ≡ n
      → n ≤ r.remaining_dirty_size
      → spec.Live h (with_block p (block_layout l o.layout) (blocks_of l r))
      → Stays r (record {
        storage = s;
        heap = h;
        remaining_dirty_size = r.remaining_dirty_size - n;
        resident_list = insert p r.resident_list;
        objects = put r.objects p o;
      })
  insert-Stays {r} p n o s h b new v e fits live = record {
    books = record {
      fits = b.fits;
      distinct = insert-Distinct p r.resident_list new b.distinct;
      objects_valid = λ q hq. elim (Bool-cases (q == p)) [
        | inl here ↦ rw here v
        | inr other ↦ rw other (b.objects_valid q (sym (old q other) ∙ hq))
      ];
      blocks = subst (spec.Live h) (fun_ext taken) live;
      sum = omega (
        arith,
        b.sum,
        e,
        ap dirty_size (put_self r.objects p o),
        total-insert (size_of (put r.objects p o)) p r.resident_list,
        total-congr (size_of (put r.objects p o)) (size_of r.objects) r.resident_list
            (λ q hq. ap dirty_size (put-other r.objects p q o (apart q hq))),
      );
    };
    stays = λ q hq u.
        (rw (has-insert q p r.resident_list) (ground (arith, hq)), rw (apart q hq) Untouched-refl);
  }
    where
      apart : (q : ℕ) → has q r.resident_list ≡ true → (q == p) ≡ false
      apart q hq = elim (Bool-cases (q == p)) [
        | inl here ↦ let at : q ≡ p = ground arith in absurd (ground (arith, rw at at hq))
        | inr other ↦ other
      ]

      old : (q : ℕ) → (q == p) ≡ false → has q (insert p r.resident_list) ≡ has q r.resident_list
      old q other = has-insert q p r.resident_list ∙ rw other refl

      taken :
          (q : ℕ)
          → with_block p (block_layout l o.layout) (blocks_of l r) q ≡ (
              if has q (insert p r.resident_list)
              then some (block_layout l (put r.objects p o q).layout)
              else none)
      taken q = elim (Bool-cases (q == p)) [
        | inl here ↦ rw (here, has-insert q p r.resident_list, here) refl
        | inr other ↦ rw (other, old q other) refl
      ]
