-- ===== src/Resident/Management.antt =====
-- modules/object_management/mod.rs: the trait of the object management modules as an interface, and
-- the walk of its iterator over the resident list. An item may take itself out of the list and no
-- other, so the walk meets the objects that the list had at its start.
use vnv_heap.Base.{
  ℕ, ◌+◌, ◌≤◌, ◌≡◌, Bool, true, List, [], ◌∷◌, Option, none, some, arith, if◌then◌else◌, leb,
}
use vnv_heap.Base.Outcome.{Outcome, ok, err, panic, out_of_fuel}
use vnv_heap.Base.Words.{add_usize}
use vnv_heap.Buddy.Chain.{has}
use vnv_heap.Resident.Object.{TypeLayout, ResidentObject}
use vnv_heap.Resident.Persist.{IsObject}
use vnv_heap.Resident.Total.{Distinct}
use vnv_heap.Resident.State.{Resident, AllocatorModule, Layouts}
use vnv_heap.Resident.Allocation.{AllocatorSpec}
use vnv_heap.Resident.Books.{Books, Kept, Untouched}
use vnv_heap.Resident.Items.{Spares}

-- `ObjectManagementModule`: the module has a state of type `M`.
pub record ObjectManagementModule (M S H : Type 0) : Type 0 where
  pub new : M
  pub sync_dirty_data : ℕ → M → Resident S H → Outcome (Unit {0}) × (M × Resident S H)
  pub unload_objects : TypeLayout → M → Resident S H → Outcome (Unit {0}) × (M × Resident S H)
  pub access_object : M → ResidentObject → M × ResidentObject
  pub modify_object : M → ResidentObject → M × ResidentObject

-- How a request for bytes ends: with at least as many more, or with an error.
pub data Syncs (required before after : ℕ) : Outcome (Unit {0}) → Type 0 where
  enough : before + required ≤ after → Syncs required before after (ok tt)
  short : Syncs required before after err

pub data OkOrErr : Outcome (Unit {0}) → Type 0 where
  went : OkOrErr (ok tt)
  erred : OkOrErr err

-- What the manager relies on of an object management module: the books are kept, objects in use stay, a request that succeeds
-- gives the bytes, and no call panics or loops.
pub record IsManagement {M S H : Type 0} (l : Layouts) {a : AllocatorModule H}
    (spec : AllocatorSpec a) (o : ObjectManagementModule M S H) : Type 0 where
  pub sync_kept :
      {initial : ℕ} {r : Resident S H} (required : ℕ) (m : M)
      → Books l spec initial r
      → let e = o.sync_dirty_data required m r in
        Kept l spec initial r e.1.1
        × Syncs required r.remaining_dirty_size e.1.1.remaining_dirty_size e.0
  pub unload_kept :
      {initial : ℕ} {r : Resident S H} (layout : TypeLayout) (m : M)
      → Books l spec initial r
      → let e = o.unload_objects layout m r in Kept l spec initial r e.1.1 × OkOrErr e.0
  pub access_keeps :
      (m : M) {x : ResidentObject}
      → IsObject x
      → let y = (o.access_object m x).1 in IsObject y × Untouched x y
  pub modify_keeps :
      (m : M) {x : ResidentObject}
      → IsObject x
      → let y = (o.modify_object m x).1 in IsObject y × Untouched x y

-- `while let Some(item) = iter.next()` over the objects that are left, with the variables `c` of
-- the loop and the state `x`; `none` is `return Ok(())` out of the body.
abbrev pub Round : Type 0 → Type 0 → Type 0
Round C X = Outcome (Option C) × X

abbrev pub and_then : {C X : Type 0} → Round C X → (C → X → Round C X) → Round C X
and_then (ok none, x) k = (ok none, x)
and_then (ok (some c), x) k = k c x
and_then (err, x) k = (err, x)
and_then (panic, x) k = (panic, x)
and_then (out_of_fuel, x) k = (out_of_fuel, x)

unfoldable pub for_each : {C X : Type 0} → (ℕ → C → X → Round C X) → List ℕ → C → X → Round C X
for_each body [] c x = (ok (some c), x)
for_each body (p ∷ ps) c x = and_then (body p c x) (for_each body ps)

-- `curr += result.unwrap_or_default(); if curr >= required_bytes { return Ok(()) }`
unfoldable pub account : {X : Type 0} → ℕ → ℕ → Outcome ℕ → X → Round ℕ X
account required curr (ok n) x =
    let c = add_usize curr n in (if leb required c then ok none else ok (some c), x)
account required curr err x =
    let c = add_usize curr 0 in (if leb required c then ok none else ok (some c), x)
account required curr panic x = (panic, x)
account required curr out_of_fuel x = (out_of_fuel, x)

-- `Err` of an unloading is ignored, and the loop goes on.
unfoldable pub until_space : {X : Type 0} → Outcome Bool → X → Round (Unit {0}) X
until_space (ok space) x = (if space then ok none else ok (some tt), x)
until_space err x = (ok (some tt), x)
until_space panic x = (panic, x)
until_space out_of_fuel x = (out_of_fuel, x)

-- A round goes on with `Going` or returns with `Done`, and does nothing else.
pub data Progress {C X : Type 0} (Going : C → X → Type 0) (Done : X → Type 0)
    : Outcome (Option C) → X → Type 0 where
  goes : {c : C} {x : X} → Going c x → Progress Going Done (ok (some c)) x
  stops : {x : X} → Done x → Progress Going Done (ok none) x

module _ {C X S H : Type 0} (resident : X → Resident S H) (Going : C → X → Type 0)
    (Done : X → Type 0) (body : ℕ → C → X → Round C X)
    (step : (p : ℕ) (c : C) (x : X)
      → has p (resident x).resident_list ≡ true
      → Going c x
      → let e = body p c x in
        Progress Going Done e.0 e.1 × Spares p (resident x) (resident e.1)) where
  -- A walk whose rounds keep `Going` ends, and has kept it or has returned with `Done`.
  pub for_each-Progress :
      (ps : List ℕ) (c : C) (x : X)
      → Distinct ps
      → ((q : ℕ) → has q ps ≡ true → has q (resident x).resident_list ≡ true)
      → Going c x
      → let e = for_each body ps c x in Progress Going Done e.0 e.1
  unfolding for_each
  for_each-Progress [] c x dis inside g = goes g
  for_each-Progress (p ∷ ps) c x dis inside g =
      let s = step p c x (inside p (ground arith)) g in
      next (λ c' x' inside' g'. for_each-Progress ps c' x' dis.1 inside' g') (body p c x).0 _ s.0
        s.1
    where
      next :
          ((c' : C) (x' : X)
            → ((q : ℕ) → has q ps ≡ true → has q (resident x').resident_list ≡ true)
            → Going c' x'
            → let e = for_each body ps c' x' in Progress Going Done e.0 e.1)
          → (w : Outcome (Option C)) (x' : X) → Progress Going Done w x'
          → Spares p (resident x) (resident x')
          → let e = and_then (w, x') (for_each body ps) in Progress Going Done e.0 e.1
      next again w x' (goes {c = c'} g') sp =
          again c' x' (λ q m. sp.others q (ground (arith, dis.0)) (inside q (ground arith))) g'
      next again w x' (stops done) sp = stops done
