-- ===== src/Utils/CxxOptional.antt =====
-- kernel/libkernelcxx/include/optional.hpp. `storage` is the value that is built in the storage, if
-- there is one; destroying it leaves none.
use bolgenos_ng.Base.{◌≡◌, refl, Bool, true, false, Option, none, some, if◌then◌else◌}
use bolgenos_ng.Memory.Machine.{Run, ok, panicked, fault, ◌>>=◌}

pub record CxxOptional (A : Type 0) : Type 0 where
  pub storage : Option A
  pub has_value : Bool

module _ {A : Type 0} where
  unfoldable pub empty : CxxOptional A
  empty = record { storage = none; has_value = false }

  unfoldable pub from_value : A → CxxOptional A
  from_value u = record { storage = some u; has_value = true }

  -- `value()`; without the test, reading storage that holds nothing is a fault.
  unfoldable pub value : CxxOptional A → Run A
  value o = if o.has_value then elim o.storage [ none ↦ fault | some a ↦ ok a ] else panicked

  -- The constructor builds the value, and `_has_value` keeps its initializer.
  unfoldable pub move_construct : (other : CxxOptional A) → Run (CxxOptional A)
  move_construct other =
      if other.has_value
      then (do a ← value other; ok (record { storage = some a; has_value = false }))
      else ok empty

  -- The value of the target is destroyed before that of the other is asked for.
  unfoldable pub move_assign : CxxOptional A → (other : CxxOptional A) → Run (CxxOptional A)
  move_assign o other = do
    o' ← if o.has_value then (do old ← value o; ok (record o { storage = none })) else ok o
    a ← value other
    ok (record { storage = some a; has_value = true })

  unfoldable pub assign : CxxOptional A → A → Run (CxxOptional A)
  assign o u = do
    o' ← if o.has_value then (do old ← value o; ok (record o { storage = none })) else ok o
    ok (record { storage = some u; has_value = true })

  -- A value that is assigned is there.
  pub value-assign :
      (old u : A) → (assign empty u >>= value ≡ ok u) × (assign (from_value old) u >>= value ≡ ok u)
  unfolding assign value empty from_value
  value-assign old u = (refl, refl)

  -- A value that is moved into a new optional is lost: the new one has none.
  pub value-move_construct : (u : A) → (move_construct (from_value u) >>= value) ≡ panicked
  unfolding move_construct value from_value
  value-move_construct u = refl
