-- ===== src/Resident/Allocation.antt =====
-- modules/allocator/mod.rs: what the manager relies on of an `AllocatorModule`, and of the layouts
-- that the compiler gives a resident object.
use vnv_heap.Base.{
  ℕ, ◌<◌, ◌≡◌, refl, fun_ext, subst, false, [], ◌∷◌, Option, none, some, arith, if◌then◌else◌, ◌==◌,
  inl, inr, Bool-cases,
}
use vnv_heap.Base.Words.{usize_mod, sub_usize}
use vnv_heap.Resident.Object.{TypeLayout}
use vnv_heap.Resident.State.{
  AllocatorModule, Layouts, repr_c_layout, calc_resident_obj_layout_dynamic,
}

-- The blocks that are handed out: their addresses and the layouts that they were asked for with.
abbrev pub Blocks : Type 0
Blocks = ℕ → Option TypeLayout

abbrev pub with_block : ℕ → TypeLayout → Blocks → Blocks
with_block q layout f x = if x == q then some layout else f x

abbrev pub without_block : ℕ → Blocks → Blocks
without_block q f x = if x == q then none else f x

-- An allocator hands out a block that is not handed out yet, at an address in the address space, and
-- takes back a block with the layout that it was asked for with. `Live h f`: of the heap `h`, the
-- blocks `f` are handed out.
pub record AllocatorSpec {H : Type 0} (a : AllocatorModule H) : Type 1 where
  pub Live : H → Blocks → Type 0
  pub fresh :
      (layout : TypeLayout) (h : H) (f : Blocks) (q : ℕ)
      → Live h f
      → (a.allocate layout h).0 ≡ some q
      → f q ≡ none
  pub address :
      (layout : TypeLayout) (h : H) (f : Blocks) (q : ℕ)
      → Live h f
      → f q ≡ some layout
      → q < usize_mod
  pub allocated :
      (layout : TypeLayout) (h : H) (f : Blocks) (q : ℕ)
      → Live h f
      → (a.allocate layout h).0 ≡ some q
      → Live (a.allocate layout h).1 (with_block q layout f)
  pub refused :
      (layout : TypeLayout) (h : H) (f : Blocks)
      → Live h f
      → (a.allocate layout h).0 ≡ none
      → Live (a.allocate layout h).1 f
  pub deallocated :
      (layout : TypeLayout) (h : H) (f : Blocks) (q : ℕ)
      → Live h f
      → f q ≡ some layout
      → Live (a.deallocate q layout h) (without_block q f)

-- A `ResidentObject` is `repr(C)`: its layout is that of its fields, one after the other.
pub record IsCompiled (l : Layouts) : Type 0 where
  pub fields :
      (layout : TypeLayout)
      → repr_c_layout l (record { size = 0; align = 1 }) (l.metadata ∷ layout ∷ [])
        ≡ l.resident_object layout

-- The layout of the block of an object without partial dirtiness tracking.
abbrev pub block_layout : Layouts → TypeLayout → TypeLayout
block_layout l layout = (calc_resident_obj_layout_dynamic l layout false).0

module _ {H : Type 0} {a : AllocatorModule H} (spec : AllocatorSpec a) where
  -- `sub` of no offset.
  pub at_block :
      (layout : TypeLayout) (h : H) (f : Blocks) (q : ℕ)
      → spec.Live h f
      → f q ≡ some layout
      → sub_usize q 0 ≡ q
  at_block layout h f q live e = omega (arith, spec.address layout h f q live e)

  -- A block that is handed out and taken back at once leaves the others.
  pub given_back :
      (layout : TypeLayout) (h : H) (f : Blocks) (q : ℕ)
      → spec.Live h f
      → (a.allocate layout h).0 ≡ some q
      → spec.Live (a.deallocate q layout (a.allocate layout h).1) f
  given_back layout h f q live e =
      let b = spec.deallocated layout _ _ q (spec.allocated layout h f q live e) (ground arith) in
      let same : without_block q (with_block q layout f) ≡ f = fun_ext (λ x. others x) in
      subst (spec.Live (a.deallocate q layout (a.allocate layout h).1)) same b
    where
      others : (x : ℕ) → without_block q (with_block q layout f) x ≡ f x
      others x = elim (Bool-cases (x == q)) [
        | inl here ↦
            let at : x ≡ q = ground arith in
            let gone = spec.fresh layout h f q live e in ground (arith, gone)
        | inr other ↦ rw other refl
      ]
