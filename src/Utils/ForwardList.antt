-- ===== src/Utils/ForwardList.antt =====
-- kernel/libkernelcxx/include/forward_list.hpp and impl/basic_forward_list.hpp: the singly linked
-- list, and the loops of algorithm.hpp over it. A node is a cell at an address, and a list is known
-- by the address of its node `before_begin_`, which lies in the list object itself. The null
-- pointer is address 0. The allocator is a parameter of the class: what it answers to
-- `alloc_.allocate(1)` is an argument here. Loops take fuel.
pub mod Linked
pub mod Erase
pub mod Push
pub mod Remove
pub mod Visit
use bolgenos_ng.Base.{
  ℕ, zero, suc, ◌+◌, ◌%◌, Bool, true, false, Option, none, some, ◌==◌, if◌then◌else◌,
}
use bolgenos_ng.Utils.MemUtils.{word}
use bolgenos_ng.Memory.Machine.{Run, ok, fault, out_of_fuel, ◌>>=◌}

pub record Node (A : Type 0) : Type 0 where
  pub next : ℕ
  pub value : A

-- An address without a node is dangling, and reading or writing it is a fault.
abbrev pub Nodes : Type 0 → Type 0
Nodes A = ℕ → Option (Node A)

module _ {A : Type 0} where
  unfoldable pub store : Nodes A → ℕ → Option (Node A) → Nodes A
  store m p c a = if a == p then c else m a

  unfoldable pub load : Nodes A → ℕ → Run (Node A)
  load m p = if p == 0 then fault else elim (m p) [ none ↦ fault | some n ↦ ok n ]

  -- `p->next = next;`
  unfoldable pub set_next : Nodes A → (p next : ℕ) → Run (Nodes A)
  set_next m p next = do
    n ← load m p
    ok (store m p (some (record { next = next; value = n.value })))

  -- `p->value_ = value;`
  unfoldable pub set_value : Nodes A → ℕ → A → Run (Nodes A)
  set_value m p value = do
    n ← load m p
    ok (store m p (some (record { next = n.next; value = value })))

  -- What `new` leaves at the address that it answers, and what `delete` does.
  unfoldable pub allocate : Nodes A → (blank : A) → (answer : ℕ) → Nodes A
  allocate m blank answer =
      if answer == 0 then m else store m answer (some (record { next = 0; value = blank }))

  unfoldable pub deallocate : Nodes A → ℕ → Run (Nodes A)
  deallocate m p = if p == 0 then ok m else do n ← load m p; ok (store m p none)

  -- The operations of basic_forward_list.
  unfoldable pub basic_push_after : Nodes A → (after node : ℕ) → Run (Nodes A × ℕ)
  basic_push_after m after node = do
    a ← load m after
    m1 ← set_next m node a.next
    m2 ← set_next m1 after node
    ok (m2, node)

  unfoldable pub basic_erase_after : Nodes A → (after : ℕ) → Run (Nodes A × ℕ)
  basic_erase_after m after = do
    a ← load m after
    e ← load m a.next
    m' ← set_next m after e.next
    ok (m', a.next)

  unfoldable pub begin : Nodes A → (list : ℕ) → Run ℕ
  begin m list = do b ← load m list; ok b.next

  -- The operations of forward_list.
  unfoldable pub front : Nodes A → (list : ℕ) → Run A
  front m list = do p ← begin m list; n ← load m p; ok n.value

  unfoldable pub erase_after : Nodes A → (position : ℕ) → Run (Nodes A)
  erase_after m position = do (m', erased) ← basic_erase_after m position; deallocate m' erased

  unfoldable pub pop_front : Nodes A → (list : ℕ) → Run (Nodes A)
  pop_front m list = erase_after m list

  unfoldable pub push_after :
      Nodes A → (blank : A) → (answer position : ℕ) → (value : A) → Run (Nodes A × ℕ)
  push_after m blank answer position value =
      let m1 = allocate m blank answer in
      if answer == 0
      then ok (m1, 0)
      else do m2 ← set_value m1 answer value; basic_push_after m2 position answer

  unfoldable pub push_front :
      Nodes A → (blank : A) → (answer list : ℕ) → (value : A) → Run (Nodes A × ℕ)
  push_front m blank answer list value = push_after m blank answer list value

  unfoldable pub empty : Nodes A → (list : ℕ) → Run Bool
  empty m list = do p ← begin m list; ok (p == 0)

  unfoldable pub clear : (fuel : ℕ) → Nodes A → (list : ℕ) → Run (Nodes A)
  clear zero m list = out_of_fuel
  clear (suc fuel) m list = do
    e ← empty m list
    elim e [ true ↦ ok m | false ↦ do m' ← erase_after m list; clear fuel m' list ]

  -- `++it`
  unfoldable pub increment : Nodes A → (it : ℕ) → Run ℕ
  increment m it = do n ← load m it; ok n.next

  unfoldable pub advance : Nodes A → (it n : ℕ) → Run ℕ
  advance m it zero = ok it
  advance m it (suc n) = do it' ← increment m it; advance m it' n

  unfoldable pub next : Nodes A → (it : ℕ) → Run ℕ
  next m it = advance m it 1

  -- The loop of `remove`.
  unfoldable pub remove_from :
      (fuel : ℕ)
      → Nodes A
      → (same : A → A → Bool) → (it : ℕ) → (value : A) → (removed : ℕ) → Run (Nodes A × ℕ)
  remove_from zero m same it value removed = out_of_fuel
  remove_from (suc fuel) m same it value removed = do
    following ← next m it
    elim (following == 0) [
      | true ↦ ok (m, removed)
      | false ↦ do
        next_it ← next m it
        elim (next_it == 0) [
          | true ↦ ok (m, removed)
          | false ↦ do
            n ← load m next_it
            elim (same n.value value) [
              | true ↦ do
                m' ← erase_after m it
                remove_from fuel m' same it value ((removed + 1) % word)
              | false ↦ do it' ← increment m it; remove_from fuel m same it' value removed
            ]
        ]
    ]

  unfoldable pub remove :
      (fuel : ℕ) → Nodes A → (same : A → A → Bool) → (list : ℕ) → (value : A) → Run (Nodes A × ℕ)
  remove fuel m same list value = remove_from fuel m same list value 0

  -- `for_each` and `find_if` from an iterator to the end, with what the function passed changes
  -- as a state `W`.
  unfoldable pub for_each :
      {W : Type 0} (fuel : ℕ) → Nodes A → (func : W → A → W) → (first : ℕ) → W → Run W
  for_each zero m func first w = out_of_fuel
  for_each (suc fuel) m func first w = elim (first == 0) [
    | true ↦ ok w
    | false ↦ do n ← load m first; it ← increment m first; for_each fuel m func it (func w n.value)
  ]

  unfoldable pub find_if :
      {W : Type 0} (fuel : ℕ) → Nodes A → (pred : W → A → W × Bool) → (first : ℕ) → W → Run (W × ℕ)
  find_if zero m pred first w = out_of_fuel
  find_if (suc fuel) m pred first w = elim (first == 0) [
    | true ↦ ok (w, first)
    | false ↦ do
      n ← load m first
      let (w', found) = pred w n.value
      elim found [
        | true ↦ ok (w', first)
        | false ↦ do it ← increment m first; find_if fuel m pred it w'
      ]
  ]

  -- `for (auto value: list) ...`, with what the body changes as a state `W` that holds the nodes.
  module _ {W : Type 0} (nodes : W → Nodes A) (body : W → A → Run W) where
    unfoldable pub for_range_from : (fuel : ℕ) → W → (it : ℕ) → Run W
    for_range_from zero w it = out_of_fuel
    for_range_from (suc fuel) w it = elim (it == 0) [
      | true ↦ ok w
      | false ↦ do
        n ← load (nodes w) it
        w' ← body w n.value
        it' ← increment (nodes w') it
        for_range_from fuel w' it'
    ]

    unfoldable pub for_range : (fuel : ℕ) → W → (list : ℕ) → Run W
    for_range fuel w list = do first ← begin (nodes w) list; for_range_from fuel w first
