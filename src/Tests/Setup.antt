-- ===== src/Tests/Setup.antt =====
-- A machine with 64 kB of high memory, whose kernel ends within the first page of it.
use bolgenos_ng.Base.{ℕ, List, replicate}
use bolgenos_ng.Memory.Setup.{BootInfo}

abbrev info : BootInfo
info = record { flags = 1; mem_upper = 64 }

abbrev maps : ℕ → List ℕ
maps i = replicate 16384 0
