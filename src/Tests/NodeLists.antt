-- ===== src/Tests/NodeLists.antt =====
-- A singly linked list at 0x10 with two nodes, and a circular list of three objects.
use bolgenos_ng.Base.{ℕ, ◌+◌, ◌≡◌, refl, none, some, [], ◌∷◌, arith, ◌==◌, if◌then◌else◌}
use bolgenos_ng.Memory.Machine.{Run, ok, ◌>>=◌, Returns, walk}
use bolgenos_ng.Utils.ForwardList
use bolgenos_ng.Utils.ForwardList.{Nodes, push_after, push_front, pop_front, clear}
use bolgenos_ng.Utils.ForwardList.Linked.{Cells, Linked}
use bolgenos_ng.Utils.ForwardList.Push.{pop_front-push_front}
use bolgenos_ng.Utils.ForwardList.Remove.{Filtered, remove-Filtered}
use bolgenos_ng.Utils.CircularList
use bolgenos_ng.Utils.CircularList.{Links, insert, for_each}
use bolgenos_ng.Utils.CircularList.Ring.{Ring}
use bolgenos_ng.Utils.CircularList.Insert.{Inserted, insert-Inserted}
use bolgenos_ng.Utils.CircularList.Remove.{Removed, remove-Removed}
use bolgenos_ng.Utils.CircularList.Visit.{for_each-walk}

abbrev nodes : Nodes ℕ
nodes a =
    if a == 0x10
    then some (record { next = 0x20; value = 0 })
    else if a == 0x20
    then some (record { next = 0x30; value = 7 })
    else if a == 0x30
    then some (record { next = 0; value = 8 })
    else none

abbrev two : Cells ℕ
two = (0x20, 7) ∷ (0x30, 8) ∷ []

nodes-Linked : Linked nodes ((0x10, 0) ∷ two)
nodes-Linked = (
  omega arith,
  (omega arith, (omega arith, tt)),
  refl,
  (omega arith, (omega arith, tt), refl, (omega arith, tt, refl, tt)),
)

pop_front-push_front_example :
    (do (m', position) ← push_front nodes 0 0x40 0x10 9; pop_front m' 0x10) ≡ ok nodes
pop_front-push_front_example =
    pop_front-push_front nodes 0 0x10 0 0x40 9 two (omega arith) refl nodes-Linked

remove-Filtered_example :
    Returns (Filtered ◌==◌ 8 nodes 0x10 0 two 0) (ForwardList.remove 3 nodes ◌==◌ 0x10 8)
remove-Filtered_example = remove-Filtered ◌==◌ 8 3 nodes 0x10 0 two (omega arith) nodes-Linked

-- 1, 2, 3 and 1 again.
abbrev links : Links
links = record {
  next = λ a. if a == 3 then 1 else a + 1;
  prev = λ a. if a == 1 then 3 else if a == 2 then 1 else 2;
}

links-Ring : Ring links 1 (1 ∷ 2 ∷ 3 ∷ [])
links-Ring = (
  refl,
  (refl, refl, (refl, refl, (refl, refl))),
  ((omega arith, (omega arith, tt)), ((omega arith, tt), (tt, tt))),
  (omega arith, (omega arith, (omega arith, tt))),
)

insert-Inserted_example : Returns (Inserted links (1 ∷ 2 ∷ 3 ∷ []) 4) (insert links 1 4)
insert-Inserted_example =
    insert-Inserted links 1 4 (1 ∷ 2 ∷ 3 ∷ []) (omega arith)
      (omega arith, (omega arith, (omega arith, tt))) links-Ring

remove-Removed_example : Returns (Removed links (1 ∷ []) 2 (3 ∷ [])) (CircularList.remove links 1 2)
remove-Removed_example = remove-Removed links 1 (1 ∷ []) 2 (3 ∷ []) links-Ring

-- The body of the loop adds the objects up.
abbrev add_up : ℕ → ℕ → Run ℕ
add_up sum x = ok (sum + x)

abbrev fixed : ℕ → Links
fixed sum = links

for_each-walk_example : for_each fixed add_up 5 0 1 ≡ walk add_up 0 (1 ∷ 2 ∷ 3 ∷ [])
for_each-walk_example =
    for_each-walk fixed add_up (λ w x w' e. refl) 5 0 1 1 (2 ∷ 3 ∷ []) (omega arith) (omega arith)
      links-Ring
