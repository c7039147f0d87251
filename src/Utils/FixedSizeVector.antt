-- ===== src/Utils/FixedSizeVector.antt =====
-- kernel/libkernelcxx/include/ext/fixed_size_vector.hpp on array.hpp: a vector in an array of
-- `capacity` elements. `size_t` has 32 bits.
use bolgenos_ng.Base.{
  ℕ, ◌+◌, ◌-◌, ◌%◌, ◌<◌, ◌≡◌, refl, ap, true, false, List, [], ◌∷◌, ◌++◌, arith, ltb, leb,
  if◌then◌else◌, length, set, get_or, length-append, zero, suc, inl, inr, Bool-cases,
}
use bolgenos_ng.Utils.MemUtils.{word}
use bolgenos_ng.Memory.Machine.{Run, ok, panicked, ◌>>=◌, Returns}

pub record FixedSizeVector (A : Type 0) : Type 0 where
  -- `_data`
  pub elems : List A
  pub size : ℕ

module _ {A : Type 0} (capacity : ℕ) where
  unfoldable pub expand_up_to : FixedSizeVector A → (new_size : ℕ) → Run (FixedSizeVector A)
  expand_up_to v new_size =
      if ltb capacity new_size
      then panicked
      else ok (record v { size = if ltb v.size new_size then new_size else v.size })

  unfoldable pub expand_by : FixedSizeVector A → (additional_elems : ℕ) → Run (FixedSizeVector A)
  expand_by v additional_elems = expand_up_to v ((v.size + additional_elems) % word)

  unfoldable pub push_back : FixedSizeVector A → A → Run (FixedSizeVector A)
  push_back v value = do
    v' ← expand_by v 1
    ok (record v' { elems = set v'.elems (v'.size - 1) value })

  -- `d` stands for an element that is not there, which the two tests exclude.
  unfoldable pub at : (d : A) → FixedSizeVector A → (pos : ℕ) → Run A
  at d v pos =
      if leb v.size pos
      then panicked
      else if leb capacity pos
      then panicked
      else ok (get_or v.elems pos d)

  -- The elements of the vector are `xs`, and behind them lie those of the array that are unused.
  pub record Contains (v : FixedSizeVector A) (xs : List A) : Type 0 where
    pub rest : List A
    pub whole : v.elems ≡ xs ++ rest
    pub measured : v.size ≡ length xs
    pub room : length xs + length rest ≡ capacity

set-append :
    {A : Type 0} (xs : List A) (r : A) (rest : List A) (x : A)
    → set (xs ++ r ∷ rest) (length xs) x ≡ (xs ++ x ∷ []) ++ rest
set-append [] r rest x = refl
set-append (y ∷ xs) r rest x = ap (λ ys. y ∷ ys) (set-append xs r rest x)

get_or-append :
    {A : Type 0} (xs ys : List A) (i : ℕ) (d : A)
    → i < length xs
    → get_or (xs ++ ys) i d ≡ get_or xs i d
get_or-append [] ys i d less = absurd (omega arith)
get_or-append (x ∷ xs) ys zero d less = refl
get_or-append (x ∷ xs) ys (suc i) d less = get_or-append xs ys i d (omega arith)

module _ {A : Type 0} (capacity : ℕ) (in_word : capacity + 1 < word) where
  -- An element more behind the others, while there is room.
  pub push_back-Contains :
      (v : FixedSizeVector A) (xs : List A) (x : A)
      → Contains capacity v xs
      → length xs < capacity
      → Returns (λ v'. Contains capacity v' (xs ++ x ∷ [])) (push_back capacity v x)
  unfolding push_back expand_by expand_up_to
  push_back-Contains v xs x c less = pushed c.rest c.whole c.room
    where
      pushed :
          (rest : List A)
          → v.elems ≡ xs ++ rest
          → length xs + length rest ≡ capacity
          → Returns (λ v'. Contains capacity v' (xs ++ x ∷ [])) (push_back capacity v x)
      pushed [] whole room = absurd (omega arith)
      pushed (r ∷ rest) whole room =
          let one : (v.size + 1) % word ≡ length xs + 1 = omega (arith, c.measured) in
          let fits : ltb capacity (length xs + 1) ≡ false = ground arith in
          let size = c.measured in
          let more : ltb v.size (length xs + 1) ≡ true = ground arith in
          let back : length xs + 1 - 1 ≡ length xs = omega arith in
          rw (one, fits, more)
            (rw (back, whole)
              (record {
                rest = rest;
                whole = set-append xs r rest x;
                measured = omega (arith, length-append {0} xs (x ∷ []));
                room = omega (arith, length-append {0} xs (x ∷ []));
              }))

  -- Without room there is no way on.
  pub push_back_full :
      (v : FixedSizeVector A) (xs : List A) (x : A)
      → Contains capacity v xs
      → length xs ≡ capacity
      → push_back capacity v x ≡ panicked
  unfolding push_back expand_by expand_up_to
  push_back_full v xs x c full =
      let size = c.measured in
      let one : (v.size + 1) % word ≡ capacity + 1 = omega arith in
      let over : ltb capacity (capacity + 1) ≡ true = ground arith in rw (one, over) refl

  pub at_lem :
      (d : A) (v : FixedSizeVector A) (xs : List A) (pos : ℕ)
      → Contains capacity v xs
      → at capacity d v pos ≡ (if leb (length xs) pos then panicked else ok (get_or xs pos d))
  unfolding at
  at_lem d v xs pos c = rw c.measured (elim (Bool-cases (leb (length xs) pos)) [
    | inl e ↦ rw e refl
    | inr e ↦
        let room = c.room in
        let inside : leb capacity pos ≡ false = ground arith in
        let less : pos < length xs = ground arith in
        rw (e, inside, c.whole) (ap ok (get_or-append xs c.rest pos d less))
  ])
