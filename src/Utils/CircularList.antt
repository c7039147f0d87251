-- ===== src/Utils/CircularList.antt =====
-- kernel/libkernelcxx/include/ext/intrusive_circular_list.hpp: the circular list whose nodes lie in
-- the objects that it holds. A node is known by the address of its owner, so `get_node` and `owner`
-- are the identity. The null pointer is address 0, and reading or writing through it is a fault.
-- A list is its field `_some`. The loop over a list takes fuel.
pub mod Ring
pub mod Insert
pub mod Remove
pub mod Visit
use bolgenos_ng.Base.{ℕ, zero, suc, ◌+◌, ◌%◌, Bool, true, false, not, ◌&&◌, ◌==◌, if◌then◌else◌}
use bolgenos_ng.Utils.MemUtils.{word}
use bolgenos_ng.Memory.Machine.{Run, ok, fault, out_of_fuel, ◌>>=◌}

-- The fields `next` and `prev` of the node of each object.
pub record Links : Type 0 where
  pub next : ℕ → ℕ
  pub prev : ℕ → ℕ

unfoldable pub update : (ℕ → ℕ) → ℕ → ℕ → ℕ → ℕ
update f p q a = if a == p then q else f a

unfoldable pub get_next : Links → ℕ → Run ℕ
get_next m p = if p == 0 then fault else ok (m.next p)

unfoldable pub get_prev : Links → ℕ → Run ℕ
get_prev m p = if p == 0 then fault else ok (m.prev p)

unfoldable pub set_next : Links → (p q : ℕ) → Run Links
set_next m p q = if p == 0 then fault else ok (record m { next = update m.next p q })

unfoldable pub set_prev : Links → (p q : ℕ) → Run Links
set_prev m p q = if p == 0 then fault else ok (record m { prev = update m.prev p q })

-- The operations answer the links and `_some`.
unfoldable pub insert : Links → (some value : ℕ) → Run (Links × ℕ)
insert m some value =
    if some == 0
    then (do m1 ← set_prev m value value; m2 ← set_next m1 value value; ok (m2, value))
    else do
      n ← get_next m some
      m1 ← set_next m value n
      m2 ← set_prev m1 value some
      n' ← get_next m2 some
      m3 ← set_prev m2 n' value
      m4 ← set_next m3 some value
      ok (m4, some)

-- The answer is that of the source too: the object after the removed one, or null.
unfoldable pub remove : Links → (some value : ℕ) → Run ((Links × ℕ) × ℕ)
remove m some value = do
  following ← get_next m value
  if value == following
      then (do m1 ← set_next m value 0; m2 ← set_prev m1 value 0; ok ((m2, 0), 0))
      else do
        ret_node ← get_next m value
        before ← get_prev m value
        m1 ← set_next m before ret_node
        after ← get_next m1 value
        p ← get_prev m1 value
        m2 ← set_prev m1 after p
        m3 ← set_next m2 value 0
        m4 ← set_prev m3 value 0
        ok ((m4, if some == value then ret_node else some), ret_node)

-- `iterator == end_iterator`, for the end of a loop that began at `some`.
unfoldable pub at_end : (node shift some : ℕ) → Bool
at_end node shift some = (node == some) && not (shift == 0)

-- `for (auto value: list) ...`, with what the body changes as a state `W` that holds the links.
module _ {W : Type 0} (links : W → Links) (body : W → ℕ → Run W) where
  unfoldable pub for_each_from : (fuel : ℕ) → W → (some node shift : ℕ) → Run W
  for_each_from zero w some node shift = out_of_fuel
  for_each_from (suc fuel) w some node shift = elim (at_end node shift some) [
    | true ↦ ok w
    | false ↦ elim (node == 0) [
      | true ↦ fault
      | false ↦ do
        w' ← body w node
        node' ← get_next (links w') node
        for_each_from fuel w' some node' ((shift + 1) % word)
    ]
  ]

  unfoldable pub for_each : (fuel : ℕ) → W → (some : ℕ) → Run W
  for_each fuel w some = for_each_from fuel w some some 0
