-- ===== src/Memory/FreeList.antt =====
-- kernel/memory/free_list.hpp and free_list.cpp: the free list of one order, threaded through the
-- free frames themselves. A `page_frame_t *` is the address of the frame, and the `next` pointer
-- of an item is the word at that address. Loops take fuel from the count of items that the list
-- keeps. The count is a plain number: it never passes the number of frames of the machine.
pub mod Chain
pub mod Sanity
pub mod Find
pub mod Get
pub mod Link
pub mod Outcome
pub mod Squash
pub mod Put
use bolgenos_ng.Base.{
  ℕ, zero, suc, ◌+◌, ◌-◌, ◌/◌, ◌^◌, bit_and, Bool, true, false, not, ◌&&◌, ltb, ◌==◌, if◌then◌else◌,
}
use bolgenos_ng.Memory.Machine.{Heap, write, Run, ok, panicked, fault, out_of_fuel, ◌>>=◌, ◌>>◌}

abbrev pub page_size : ℕ
page_size = 4096

pub record FreeList : Type 0 where
  pub items : ℕ
  pub list : ℕ
  pub order : ℕ
  pub disable_squashing : Bool

-- `if (it) it = it->next;`
abbrev pub advance : Heap → ℕ → ℕ
advance h p = if p == 0 then p else h p

-- The two iterators of `sanity_check`, of which one goes two steps at a time.
unfoldable pub race : ℕ → Heap → ℕ → ℕ → Run (ℕ × ℕ)
race zero h slow fast = out_of_fuel
race (suc fuel) h slow fast =
    let slow' = advance h slow in
    let fast' = advance h (advance h fast) in
    let rest = race fuel h slow' fast' in
    if not (slow' == 0) && (not (fast' == 0) && not (slow' == fast'))
    then rest
    else ok (slow', fast')

unfoldable pub count_items : ℕ → Heap → ℕ → ℕ → Run ℕ
count_items zero h it length = out_of_fuel
count_items (suc fuel) h it length =
    let rest = count_items fuel h (h it) (length + 1) in if it == 0 then ok length else rest

unfoldable pub sanity_check : FreeList → Heap → Run (Unit {0})
sanity_check fl h = do
  (slow, fast) ← race (fl.items + 2) h fl.list fl.list
  if slow == fast && not (slow == 0) then panicked else do
    length ← count_items (fl.items + 1) h fl.list 0
    if length == fl.items then ok tt else panicked

-- How each branch of `put` and `get` ends.
unfoldable pub finish : FreeList → Heap → ℕ → Run (FreeList × Heap × ℕ)
finish fl h result = do sanity_check fl h; ok (fl, h, result)

unfoldable pub initialize : FreeList → ℕ → Bool → Heap → Run FreeList
initialize fl order disable_squashing h = do
  let fl' = record fl { list = 0; order = order; disable_squashing = disable_squashing }
  sanity_check fl' h
  ok fl'

unfoldable pub get : FreeList → Heap → Run (FreeList × Heap × ℕ)
get fl h =
    if fl.list == 0
    then finish fl h 0
    else finish (record fl { list = h fl.list; items = fl.items - 1 }) (write h fl.list 0) fl.list

-- A difference of pointers that C++ makes negative is 0 here, which is no power of two either.
unfoldable pub are_consequent : ℕ → ℕ → ℕ → Bool
are_consequent first second order = (second - first) / page_size == 2 ^ order

unfoldable pub is_the_first_in_buddy : ℕ → ℕ → Bool
is_the_first_in_buddy frame order = bit_and (frame / page_size) (2 ^ order) == 0

-- The loop of `find_last_lesser`: the last item below `new_item`, and the one before that.
unfoldable pub find_last_lesser : ℕ → Heap → (new_item item last prelast : ℕ) → Run (ℕ × ℕ)
find_last_lesser zero h new_item item last prelast = out_of_fuel
find_last_lesser (suc fuel) h new_item item last prelast =
    let rest = find_last_lesser fuel h new_item (h item) item last in
    if not (item == 0) && ltb item new_item then rest else ok (last, prelast)

unfoldable pub link_front : FreeList → ℕ → Heap → Run (FreeList × Heap × ℕ)
link_front fl frame h =
    finish (record fl { list = frame; items = fl.items + 1 }) (write h frame fl.list) 0

unfoldable pub link_after : FreeList → (frame last : ℕ) → Heap → Run (FreeList × Heap × ℕ)
link_after fl frame last h =
    finish (record fl { items = fl.items + 1 }) (write (write h frame (h last)) last frame) 0

-- The new frame comes first in the list.
unfoldable pub put_front : FreeList → ℕ → Heap → Run (FreeList × Heap × ℕ)
put_front fl frame h =
    if are_consequent frame fl.list fl.order && is_the_first_in_buddy frame fl.order
    then finish (record fl { list = h fl.list; items = fl.items - 1 }) h frame
    else link_front fl frame h

-- The last lesser item leaves the list, squashed with the new frame behind it.
unfoldable pub take_lesser : FreeList → (last prelast : ℕ) → Heap → Run (FreeList × Heap × ℕ)
take_lesser fl last prelast h =
    if prelast == 0
    then finish (record fl { list = h last; items = fl.items - 1 }) (write h last 0) last
    else finish (record fl { items = fl.items - 1 }) (write (write h prelast (h last)) last 0) last

-- The next item leaves the list, squashed with the new frame before it.
unfoldable pub take_next : FreeList → (frame last next : ℕ) → Heap → Run (FreeList × Heap × ℕ)
take_next fl frame last next h =
    if next == 0
    then fault
    else finish (record fl { items = fl.items - 1 }) (write h last (h next)) frame

unfoldable pub put_after : FreeList → (frame last prelast : ℕ) → Heap → Run (FreeList × Heap × ℕ)
put_after fl frame last prelast h =
    if are_consequent last frame fl.order && is_the_first_in_buddy last fl.order
    then take_lesser fl last prelast h
    else if are_consequent frame (h last) fl.order && is_the_first_in_buddy frame fl.order
    then take_next fl frame last (h last) h
    else link_after fl frame last h

-- What `put` does with the two items that the loop has found.
unfoldable pub choose : FreeList → (frame last prelast : ℕ) → Heap → Run (FreeList × Heap × ℕ)
choose fl frame last prelast h =
    if fl.disable_squashing
    then (if last == 0 then link_front fl frame h else link_after fl frame last h)
    else (if last == 0 then put_front fl frame h else put_after fl frame last prelast h)

unfoldable pub put_into : FreeList → ℕ → Heap → Run (FreeList × Heap × ℕ)
put_into fl frame h = do
  (last, prelast) ← find_last_lesser (fl.items + 1) h frame fl.list 0 0
  choose fl frame last prelast h

-- `new_item->next = nullptr` is the first access.
unfoldable pub put : FreeList → ℕ → Heap → Run (FreeList × Heap × ℕ)
put fl frame h =
    if frame == 0
    then fault
    else (let h' = write h frame 0 in
        if fl.list == 0
        then finish (record fl { list = frame; items = fl.items + 1 }) h' 0
        else put_into fl frame h')
