-- ===== src/Utils/UniquePtr.antt =====
-- unique_ptr of kernel/libkernelcxx/include/memory.hpp, with default_delete. An object is known by
-- its address, null is 0, and the objects that `new` has made and `delete` has not taken back are
-- `alive`. Deleting one that is not alive is a fault. The variant for arrays is the same text.
use bolgenos_ng.Base.{
  ℕ, ◌≡◌, refl, Bool, true, false, ◌⊎◌, inl, inr, Bool-cases, ◌==◌, if◌then◌else◌,
}
use bolgenos_ng.Memory.Machine.{Run, ok, fault, ◌>>=◌}

abbrev pub Objects : Type 0
Objects = ℕ → Bool

unfoldable pub killed : Objects → ℕ → Objects
killed alive p a = if a == p then false else alive a

-- default_delete.
unfoldable pub delete_object : Objects → (ptr : ℕ) → Run Objects
delete_object alive ptr = if alive ptr then ok (killed alive ptr) else fault

pub record UniquePtr : Type 0 where
  pub object : ℕ

unfoldable pub move_construct : (other : UniquePtr) → UniquePtr × UniquePtr
move_construct other = (record { object = other.object }, record { object = 0 })

unfoldable pub destroy : Objects → UniquePtr → Run Objects
destroy alive u = if u.object == 0 then ok alive else delete_object alive u.object

unfoldable pub reset : Objects → UniquePtr → (ptr : ℕ) → Run (Objects × UniquePtr)
reset alive u ptr = do
  let old_ptr = u.object
  let u' = record u { object = ptr }
  if old_ptr == 0 then ok (alive, u') else do alive' ← delete_object alive old_ptr; ok (alive', u')

unfoldable pub release : UniquePtr → UniquePtr × ℕ
release u = (record u { object = 0 }, u.object)

-- The assignment of one pointer to another; the answer has the two pointers.
unfoldable pub move_assign :
    Objects → UniquePtr → (other : UniquePtr) → Run (Objects × UniquePtr × UniquePtr)
move_assign alive u other = do
  let (other', ptr) = release other
  (alive', u') ← reset alive u ptr
  ok (alive', u', other')

-- A pointer holds nothing, or something alive.
abbrev pub IsOwner : Objects → UniquePtr → Type 0
IsOwner alive u = (u.object ≡ 0) ⊎ (alive u.object ≡ true)

-- The objects without that of a pointer.
abbrev pub without : Objects → UniquePtr → Objects
without alive u = if u.object == 0 then alive else killed alive u.object

pub destroy_lem :
    (alive : Objects) (u : UniquePtr) → IsOwner alive u → destroy alive u ≡ ok (without alive u)
unfolding destroy delete_object
destroy_lem alive u (inl e) = rw e refl
destroy_lem alive u (inr e) = elim (Bool-cases (u.object == 0)) [
  | inl null ↦ rw null refl
  | inr some_object ↦ rw (some_object, e) refl
]

-- What the pointer held is deleted, and what the other held has changed its owner.
pub move_assign_lem :
    (alive : Objects) (u other : UniquePtr)
    → IsOwner alive u
    → move_assign alive u other
      ≡ ok (without alive u, record { object = other.object }, record { object = 0 })
unfolding move_assign reset release delete_object
move_assign_lem alive u other (inl e) = rw e refl
move_assign_lem alive u other (inr e) = elim (Bool-cases (u.object == 0)) [
  | inl null ↦ rw null refl
  | inr some_object ↦ rw (some_object, e) refl
]

-- After a move, the destructor of the source deletes nothing, and that of the target what the source
-- would have deleted.
pub destroy-move_construct :
    (alive : Objects) (other : UniquePtr)
    → (destroy alive (move_construct other).1 ≡ ok alive)
      × (destroy alive (move_construct other).0 ≡ destroy alive other)
unfolding destroy move_construct
destroy-move_construct alive other = (refl, refl)
