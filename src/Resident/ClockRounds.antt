-- ===== src/Resident/ClockRounds.antt =====
-- modules/object_management/clock.rs: the iterations of a clock over any body that keeps what the
-- loop has reached.
use vnv_heap.Base.{
  ℕ, ◌≡◌, ◌∙◌, refl, Bool, true, false, ◌&&◌, some, arith, if◌then◌else◌, ◌==◌, ltb, Option, inl,
  inr, Bool-cases,
}
use vnv_heap.Base.Outcome.{Outcome, ok}
use vnv_heap.Status.{Flag, bit_of, clock_accessed, clock_modified}
use vnv_heap.Buddy.Chain.{has}
use vnv_heap.Resident.Object.{ResidentObject}
use vnv_heap.Resident.Persist.{IsObject, with_flag, with_flag-IsObject, flag-with_flag}
use vnv_heap.Resident.Total.{Distinct}
use vnv_heap.Resident.State.{Resident, put}
use vnv_heap.Resident.Books.{Untouched, Untouched-refl}
use vnv_heap.Resident.Items.{Spares}
use vnv_heap.Resident.Management.{Round, Progress, goes, stops, for_each-Progress}
use vnv_heap.Resident.DefaultKept.{and_then-Progress}
use vnv_heap.Resident.Clock.{
  GenericClock, modified_clock, resident_clock, handle, Clocked, visit, reset_ptr, sub_iter, iter,
}

-- A change of a clock bit is no change of the object.
pub with_clock-Untouched :
    (f : Flag) (b : Bool) {x : ResidentObject}
    → ltb (bit_of f) 4 ≡ false
    → IsObject x
    → IsObject (with_flag f b x) × Untouched x (with_flag f b x)
unfolding with_flag
with_clock-Untouched f b {x} high v = (
  with_flag-IsObject f b (ground (arith, high)) v,
  record {
    flags = λ g low.
        let ne : (bit_of f == bit_of g) ≡ false = ground (arith, high, low) in
        flag-with_flag f g b v ∙ rw ne refl;
    tracking = refl;
    offset = refl;
    layout = refl;
    bytes = refl;
  },
)

-- A clock that changes nothing of an object but its clock bits.
pub record IsClock (clock : GenericClock) : Type 0 where
  pub bit_only :
      {x : ResidentObject}
      → IsObject x
      → IsObject (clock.set_clock_bit false x) × Untouched x (clock.set_clock_bit false x)

pub modified_clock-IsClock : IsClock modified_clock
modified_clock-IsClock = record { bit_only = with_clock-Untouched clock_modified false refl }

pub resident_clock-IsClock : IsClock resident_clock
resident_clock-IsClock = record { bit_only = with_clock-Untouched clock_accessed false refl }

pub handle-Untouched :
    {clock : GenericClock} {x : ResidentObject}
    → IsClock clock
    → IsObject x
    → IsObject (handle clock x).1 × Untouched x (handle clock x).1
unfolding handle
handle-Untouched {clock} {x} i v = elim (Bool-cases (clock.iter_item_valid x)) [
  | inr invalid ↦ rw invalid (v, Untouched-refl)
  | inl valid ↦ rw valid (elim (Bool-cases (clock.get_clock_bit x)) [
    | inl set ↦ rw set (i.bit_only v)
    | inr clear ↦ rw clear (v, Untouched-refl)
  ])
]

-- What a loop has reached does not depend on the clock bits, and the objects in the list are valid.
pub record IsSteady {C S H : Type 0} (Going : C → Resident S H → Type 0) : Type 0 where
  pub distinct : {c : C} {r : Resident S H} → Going c r → Distinct r.resident_list
  pub object :
      {c : C} {r : Resident S H} {p : ℕ}
      → Going c r
      → has p r.resident_list ≡ true
      → IsObject (r.objects p)
  pub touched :
      {c : C} {r : Resident S H} {p : ℕ} {y : ResidentObject}
      → Going c r
      → has p r.resident_list ≡ true
      → IsObject y × Untouched (r.objects p) y
      → Going c (record r { objects = put r.objects p y })

module _ {C S H : Type 0} (clock : GenericClock) (is_clock : IsClock clock)
    (Going : C → Resident S H → Type 0) (Done : Resident S H → Type 0) (steady : IsSteady Going)
    (body : ℕ → C → Clocked S H → Round C (Clocked S H))
    (step : (p : ℕ) (c : C) (x : Clocked S H)
      → has p x.1.resident_list ≡ true
      → Going c x.1
      → let e = body p c x in
        Progress (λ k (y : Clocked S H). Going k y.1) (λ (y : Clocked S H). Done y.1) e.0 e.1
        × Spares p x.1 e.1.1) where
  abbrev Ends : Outcome (Option C) → Clocked S H → Type 0
  Ends = Progress (λ k (y : Clocked S H). Going k y.1) (λ (y : Clocked S H). Done y.1)

  visit-Ends :
      (first : Bool) (start_ptr p : ℕ) (c : C) (x : Clocked S H)
      → has p x.1.resident_list ≡ true
      → Going c x.1
      → let e = visit clock body first start_ptr p c x in Ends e.0 e.1 × Spares p x.1 e.1.1
  unfolding visit
  visit-Ends first start_ptr p c (m, r) hp g =
      let t = steady.touched g hp (handle-Untouched is_clock (steady.object g hp)) in
      elim (Bool-cases (first && ltb p start_ptr)) [
        | inl before ↦ rw before (goes g, record { others = λ q ne h. h })
        | inr reached ↦ rw reached (elim (Bool-cases (handle clock (r.objects p)).0) [
          | inl chosen ↦ let s = step p c _ hp t in rw chosen (s.0, record { others = s.1.others })
          | inr spared ↦ rw spared (goes t, record { others = λ q ne h. h })
        ])
      ]

  reset-Ends :
      (w : Outcome (Option C)) (x : Clocked S H)
      → Ends w x
      → let e = reset_ptr clock body (w, x) in Ends e.0 e.1
  reset-Ends w x (goes g) = goes g
  reset-Ends w x (stops g) = stops g

  sub_iter-Ends :
      (first : Bool) (start_ptr : ℕ) (c : C) (x : Clocked S H)
      → Going c x.1
      → let e = sub_iter clock body first start_ptr c x in Ends e.0 e.1
  unfolding sub_iter
  sub_iter-Ends first start_ptr c x g = reset-Ends _ _ (
      for_each-Progress (λ (y : Clocked S H). y.1) (λ k (y : Clocked S H). Going k y.1)
        (λ (y : Clocked S H). Done y.1) _ (visit-Ends first start_ptr) x.1.resident_list c x
        (steady.distinct g) (λ q h. h) g)

  -- The iterations of a clock end, and keep what the loop has reached or return with `Done`.
  pub iter-Ends :
      (c : C) (x : Clocked S H)
      → Going c x.1
      → let e = iter clock body c x in
        Progress (λ k (y : Clocked S H). Going k y.1) (λ (y : Clocked S H). Done y.1) e.0 e.1
  unfolding iter
  iter-Ends c x g =
      and_then-Progress _ _ _ (sub_iter-Ends false start_ptr) _ _
        (and_then-Progress _ _ _ (sub_iter-Ends false start_ptr) _ _ first)
    where
      start_ptr : ℕ
      start_ptr = clock.get_curr_ptr x.0

      first :
          let e =
            if start_ptr == 0 then (ok (some c), x) else sub_iter clock body true start_ptr c x in
          Ends e.0 e.1
      first = elim (Bool-cases (start_ptr == 0)) [
        | inl null ↦ rw null (goes g)
        | inr set ↦ rw set (sub_iter-Ends true start_ptr c x g)
      ]
