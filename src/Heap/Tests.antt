-- ===== src/Heap/Tests.antt =====
-- The theorem on the heap at a storage of 1000 bytes whose regions are handed out one after the other.
use vnv_heap.Base.{
  ℕ, ◌+◌, refl, none, some, arith, if◌then◌else◌, leb, true, false, [], ◌∷◌, inl, inr, Bool-cases,
}
use vnv_heap.Storage.Bytes.{Contents}
use vnv_heap.Storage.Tests.{ram, ram-IsReliable}
use vnv_heap.Resident.Tests.{
  rising, rising-AllocatorSpec, packed, packed-IsCompiled, default_objects, managed, state, limit,
  clean-Books, layout_of,
}
use vnv_heap.Heap.Inner.{NonResidentAllocatorModule, inner_allocate}
use vnv_heap.Heap.Allocated.{IsInside, Allocates, inner_allocate-Allocates}

abbrev rising_regions : NonResidentAllocatorModule ℕ Contents
rising_regions = record {
  allocate = λ layout n s.
      if leb (n + layout.size) 1000 then (some n, (n + layout.size, s)) else (none, (n, s));
  deallocate = λ offset layout n s. (true, (n, s));
}

rising_regions-IsInside : IsInside ram rising_regions
rising_regions-IsInside layout n s offset e = elim (Bool-cases (leb (n + layout.size) 1000)) [
  | inl fits ↦ ground (arith, fits, e)
  | inr lacks ↦ absurd (ground (arith, lacks, e))
]

inner_allocate-Allocates_example :
    let e =
      inner_allocate ram rising packed default_objects rising_regions
        (layout_of 2)
        (7 ∷ 9 ∷ [])
        false
        (128, (tt, state false 16 67)) in
    Allocates ram rising packed default_objects rising_regions ram-IsReliable
      rising_regions-IsInside rising-AllocatorSpec managed packed-IsCompiled
      (limit false 16)
      (layout_of 2)
      (7 ∷ 9 ∷ [])
      128
      (state false 16 67)
      e.0
      e.1.1.1
inner_allocate-Allocates_example =
    inner_allocate-Allocates ram rising packed default_objects rising_regions ram-IsReliable
      rising_regions-IsInside rising-AllocatorSpec managed packed-IsCompiled (limit false 16)
      (layout_of 2) (7 ∷ 9 ∷ []) 128 tt (clean-Books 16 (omega arith)) refl (omega arith)
