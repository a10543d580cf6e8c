-- ===== src/Resident/Rounds.antt =====
-- The rounds of the object management modules: what the bytes of one item do to their count.
use vnv_heap.Base.{
  ℕ, ◌+◌, ◌≤◌, ◌≡◌, Bool, true, false, none, some, arith, if◌then◌else◌, leb, inl, inr, Bool-cases,
}
use vnv_heap.Base.Outcome.{Outcome, ok}
use vnv_heap.Base.Words.{add_usize}
use vnv_heap.Resident.State.{Resident, AllocatorModule, Layouts}
use vnv_heap.Resident.Allocation.{AllocatorSpec}
use vnv_heap.Resident.Books.{Kept, Kept-trans}
use vnv_heap.Resident.Items.{Spares, GivesBack, gives, fails, Answers, answers, refuses}
use vnv_heap.Resident.Management.{Progress, goes, stops, account, until_space}

module _ {S H : Type 0} (l : Layouts) {a : AllocatorModule H} (spec : AllocatorSpec a) (initial : ℕ)
    (r : Resident S H) where
  -- A loop that has got `curr` bytes since the state `r`.
  pub record Gained (curr : ℕ) (r' : Resident S H) : Type 0 where
    pub kept : Kept l spec initial r r'
    pub bytes : r'.remaining_dirty_size ≡ r.remaining_dirty_size + curr

  pub record Enough (required : ℕ) (r' : Resident S H) : Type 0 where
    pub kept : Kept l spec initial r r'
    pub bytes : r.remaining_dirty_size + required ≤ r'.remaining_dirty_size

module _ {S H X : Type 0} (l : Layouts) {a : AllocatorModule H} (spec : AllocatorSpec a)
    (resident : X → Resident S H) {initial : ℕ} {r : Resident S H} where
  counted :
      (required curr n : ℕ) (x : X)
      → Kept l spec initial r (resident x)
      → (resident x).remaining_dirty_size ≡ r.remaining_dirty_size + curr + n
      → let c = add_usize curr n in
        Progress
          (λ (k : ℕ) (y : X). Gained l spec initial r k (resident y))
          (λ (y : X). Enough l spec initial r required (resident y))
          (if leb required c then ok none else ok (some c))
          x
  counted required curr n x k e =
      let whole : add_usize curr n ≡ curr + n = omega (arith, e, k.books.sum, k.books.fits) in
      elim (Bool-cases (leb required (add_usize curr n))) [
        | inl full ↦ rw full (stops (record { kept = k; bytes = ground (arith, whole, e, full) }))
        | inr short ↦ rw short (goes (record { kept = k; bytes = omega (arith, whole, e) }))
      ]

  -- The count of the bytes of an item ends the loop only with the bytes that are required.
  pub account-Progress :
      (required curr p : ℕ) (r₁ : Resident S H) (w : Outcome ℕ) (x : X)
      → Gained l spec initial r curr r₁
      → Kept l spec initial r₁ (resident x)
      → Spares p r₁ (resident x)
      → GivesBack r₁ (resident x) w
      → let e = account required curr w x in
        Progress
          (λ (k : ℕ) (y : X). Gained l spec initial r k (resident y))
          (λ (y : X). Enough l spec initial r required (resident y))
          e.0
          e.1
        × Spares p r₁ (resident e.1)
  unfolding account
  account-Progress required curr p r₁ w x g k sp (gives {n} e) =
      (counted required curr n x (Kept-trans l spec g.kept k) (omega (arith, g.bytes, e)), sp)
  account-Progress required curr p r₁ w x g k sp (fails e) =
      (counted required curr 0 x (Kept-trans l spec g.kept k) (omega (arith, g.bytes, e)), sp)

  pub until_space-Progress :
      (p : ℕ) (r₁ : Resident S H) (w : Outcome Bool) (x : X)
      → Kept l spec initial r (resident x)
      → Spares p r₁ (resident x)
      → Answers w
      → let e = until_space w x in
        Progress
          (λ (u : Unit {0}) (y : X). Kept l spec initial r (resident y))
          (λ (y : X). Kept l spec initial r (resident y))
          e.0
          e.1
        × Spares p r₁ (resident e.1)
  unfolding until_space
  until_space-Progress p r₁ w x k sp (answers true) = (stops k, sp)
  until_space-Progress p r₁ w x k sp (answers false) = (goes k, sp)
  until_space-Progress p r₁ w x k sp refuses = (goes k, sp)
