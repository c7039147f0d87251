-- ===== src/Tests/Lists.antt =====
-- A free list of two frames of the order 0, and the frame between them.
use bolgenos_ng.Base.{ℕ, false, List, [], ◌∷◌, ◌==◌, if◌then◌else◌}
use bolgenos_ng.Memory.Machine.{Heap}
use bolgenos_ng.Memory.FreeList.{FreeList}

abbrev frames : List ℕ
frames = 0x100000 ∷ 0x104000 ∷ []

abbrev chained : Heap
chained a = if a == 0x100000 then 0x104000 else 0

abbrev two_frames : FreeList
two_frames = record { items = 2; list = 0x100000; order = 0; disable_squashing = false }
