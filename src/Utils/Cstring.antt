-- ===== src/Utils/Cstring.antt =====
-- kernel/libkernelcxx/src/cstring.cpp and string.cpp: strings of bytes in memory, and the class
-- string with its concatenation. Bytes that are not allocated are not there, and reading or writing
-- them is a fault. The loops that go on to a final zero take fuel.
pub mod Copy
pub mod Concat
use bolgenos_ng.Base.{
  ℕ, zero, suc, ◌+◌, ◌-◌, ◌%◌, ◌≤◌, ◌<◌, Bool, true, false, ◌&&◌, Option, none, some, leb, ltb,
  ◌==◌, if◌then◌else◌,
}
use bolgenos_ng.Memory.Machine.{Run, ok, fault, out_of_fuel, ◌>>=◌}

abbrev pub Bytes : Type 0
Bytes = ℕ → Option ℕ

unfoldable pub read : Bytes → (a : ℕ) → Run ℕ
read m a = elim (m a) [ none ↦ fault | some c ↦ ok c ]

unfoldable pub update : Bytes → (a c : ℕ) → Bytes
update m a c b = if b == a then some c else m b

unfoldable pub write : Bytes → (a c : ℕ) → Run Bytes
write m a c = elim (m a) [ none ↦ fault | some old ↦ ok (update m a c) ]

unfoldable pub strlen_from : (fuel : ℕ) → Bytes → (str length : ℕ) → Run ℕ
strlen_from zero m str length = out_of_fuel
strlen_from (suc fuel) m str length = do
  c ← read m str
  elim (c == 0) [ true ↦ ok length | false ↦ strlen_from fuel m (str + 1) (length + 1) ]

unfoldable pub strlen : (fuel : ℕ) → Bytes → (str : ℕ) → Run ℕ
strlen fuel m str = strlen_from fuel m str 0

-- The test of the loop reads the source again.
unfoldable pub strcpy : (fuel : ℕ) → Bytes → (dest src : ℕ) → Run Bytes
strcpy zero m dest src = out_of_fuel
strcpy (suc fuel) m dest src = do
  c ← read m src
  m' ← write m dest c
  again ← read m' src
  elim (again == 0) [ true ↦ ok m' | false ↦ strcpy fuel m' (dest + 1) (src + 1) ]

-- The two loops of `strncpy`, with the bytes that are left.
unfoldable pub pad : (left : ℕ) → Bytes → (dest : ℕ) → Run Bytes
pad zero m dest = ok m
pad (suc left) m dest = do m' ← write m dest 0; pad left m' (dest + 1)

unfoldable pub copy : (left : ℕ) → Bytes → (dest src : ℕ) → Run Bytes
copy zero m dest src = ok m
copy (suc left) m dest src = do
  c ← read m src
  elim (c == 0) [
    | true ↦ pad (suc left) m dest
    | false ↦ do m' ← write m dest c; copy left m' (dest + 1) (src + 1)
  ]

unfoldable pub strncpy : Bytes → (dest src n : ℕ) → Run Bytes
strncpy m dest src n = copy n m dest src

unfoldable pub memset : (n : ℕ) → Bytes → (s c : ℕ) → Run Bytes
memset zero m s c = ok m
memset (suc n) m s c = do m' ← write m s (c % 256); memset n m' (s + 1) c

-- lib::string.
pub record CxxString : Type 0 where
  pub string : ℕ
  pub size : ℕ

-- `new char[n]` at `p`, with what lies there.
unfoldable pub allocate : Bytes → (contents : ℕ → ℕ) → (p n : ℕ) → Bytes
allocate m contents p n a = if leb p a && ltb a (p + n) then some (contents a) else m a

-- `operator+` up to the zero that it writes behind the characters.
unfoldable pub join : Bytes → (contents : ℕ → ℕ) → (tmp : ℕ) → (lhs rhs : CxxString) → Run Bytes
join m contents tmp lhs rhs = do
  let len = lhs.size + rhs.size
  let m0 = allocate m contents tmp (len + 1)
  m1 ← strncpy m0 tmp lhs.string lhs.size
  let ptr = tmp + lhs.size
  m2 ← strncpy m1 ptr rhs.string rhs.size
  let ptr' = ptr + rhs.size
  write m2 (ptr' + 1) 0
