-- ===== src/Memory/FreeList/Sanity.antt =====
-- `sanity_check` of kernel/memory/free_list.cpp, with its two iterators and its count.
use mathlib.Core.List.{append_assoc}
use bolgenos_ng.Base.{
  ℕ, zero, suc, ◌+◌, ◌<◌, ◌≡◌, ap, ◌∙◌, Bool, true, false, not, ◌&&◌, List, [], ◌∷◌, ◌++◌, arith,
  ◌==◌, if◌then◌else◌, length,
}
use bolgenos_ng.Memory.Machine.{Heap, Run, ok, Returns, Returns-ok}
use bolgenos_ng.Memory.FreeList.{FreeList, advance, race, count_items, sanity_check, finish}
use bolgenos_ng.Memory.FreeList.Chain.{Chain, Ascending, Rep}

abbrev Unmet : ℕ × ℕ → Type 0
Unmet (slow, fast) = (slow == fast && not (slow == 0)) ≡ false

Ascending-head :
    (low y : ℕ) (pre : List ℕ) (w : ℕ) (ws : List ℕ) → Ascending low (y ∷ pre ++ w ∷ ws) → y < w
Ascending-head low y [] w ws h = h.1.0
Ascending-head low y (x ∷ pre) w ws h = omega (arith, Ascending-head y x pre w ws h.1)

Ascending-rest : (low : ℕ) (pre zs : List ℕ) → Ascending low (pre ++ zs) → (l : ℕ) × Ascending l zs
Ascending-rest low [] zs h = (low, h)
Ascending-rest low (x ∷ pre) zs h = Ascending-rest x pre zs h.1

abbrev running : ℕ → ℕ → Bool
running slow fast = not (slow == 0) && (not (fast == 0) && not (slow == fast))

stopped :
    (slow fast : ℕ) (rest : Run (ℕ × ℕ))
    → fast ≡ 0
    → Returns Unmet (if running slow fast then rest else ok (slow, fast))
stopped slow fast rest e =
    let halt : running slow fast ≡ false = ground arith in
    let unmet : (slow == fast && not (slow == 0)) ≡ false = ground arith in rw halt unmet

module _ (h : Heap) where
  advance-item : (p low x : ℕ) → p ≡ x → low < x → advance h p ≡ h x
  advance-item p low x e less = let live : (p == 0) ≡ false = ground arith in rw live (ap h e)

  advance-end : (p : ℕ) → p ≡ 0 → advance h p ≡ 0
  advance-end p e = ground arith

  race-decide :
      (slow fast low y : ℕ) (pre zs : List ℕ) (rest : Run (ℕ × ℕ))
      → slow ≡ y
      → Chain h fast zs
      → Ascending low (y ∷ pre ++ zs)
      → Returns Unmet rest
      → Returns Unmet (if running slow fast then rest else ok (slow, fast))
  race-decide slow fast low y pre [] rest c d a r = stopped slow fast rest d
  race-decide slow fast low y pre (w ∷ ws) rest c d a r =
      let less : y < w = Ascending-head low y pre w ws a in
      let go : running slow fast ≡ true = ground arith in rw go r

  race-two :
      (fuel y : ℕ) (pre : List ℕ) (z w : ℕ) (zs : List ℕ)
      → Chain h (h y) (pre ++ z ∷ w ∷ zs)
      → Chain h (h w) zs
      → Ascending y (pre ++ z ∷ w ∷ zs)
      → Returns Unmet (race fuel h (h y) (h w))
      → Returns Unmet (if running (h y) (h w) then race fuel h (h y) (h w) else ok (h y, h w))
  race-two fuel y [] z w zs c d a r = race-decide (h y) (h w) y z (w ∷ []) zs _ c.0 d a r
  race-two fuel y (x ∷ pre) z w zs c d a r =
      race-decide (h y) (h w) y x (pre ++ z ∷ w ∷ []) zs _ c.0 d (rw append_assoc a) r

  -- `fast` runs ahead of `slow` on one ascending chain.
  race-Unmet :
      (fuel slow fast low : ℕ) (pre zs : List ℕ)
      → Chain h slow (pre ++ zs)
      → Chain h fast zs
      → Ascending low (pre ++ zs)
      → length zs < fuel
      → Returns Unmet (race fuel h slow fast)
  unfolding race
  race-Unmet zero slow fast low pre zs c d a f = absurd (omega arith)
  race-Unmet (suc fuel) slow fast low pre [] c d a f =
      stopped (advance h slow) (advance h (advance h fast))
        (race fuel h (advance h slow) (advance h (advance h fast)))
        (advance-end _ (advance-end fast d))
  race-Unmet (suc fuel) slow fast low pre (z ∷ []) c d a f =
      let (l, b) = Ascending-rest low pre (z ∷ []) a in
      stopped (advance h slow) (advance h (advance h fast))
        (race fuel h (advance h slow) (advance h (advance h fast)))
        (advance-end _ (advance-item fast l z d.0 b.0 ∙ d.1))
  race-Unmet (suc fuel) slow fast low [] (z ∷ w ∷ zs) c d a f =
      rw
        (
          advance-item slow low z c.0 a.0,
          advance-item fast low z d.0 a.0,
          advance-item (h z) z w d.1.0 a.1.0,
        )
        (race-decide (h z) (h w) z w [] zs _ d.1.0 d.1.1 a.1
          (race-Unmet fuel (h z) (h w) z (w ∷ []) zs d.1 d.1.1 a.1 (omega arith)))
  race-Unmet (suc fuel) slow fast low (y ∷ pre) (z ∷ w ∷ zs) c d a f =
      let (l, b) = Ascending-rest y pre (z ∷ w ∷ zs) a.1 in
      rw
        (
          advance-item slow low y c.0 a.0,
          advance-item fast l z d.0 b.0,
          advance-item (h z) z w d.1.0 b.1.0,
        )
        (race-two fuel y pre z w zs c.1 d.1.1 a.1 (
          race-Unmet fuel (h y) (h w) y (pre ++ z ∷ w ∷ []) zs (rw append_assoc c.1) d.1.1
            (rw append_assoc a.1) (omega arith)))

  count_items-length :
      (fuel it n low : ℕ) (xs : List ℕ)
      → Chain h it xs
      → Ascending low xs
      → length xs < fuel
      → count_items fuel h it n ≡ ok (n + length xs)
  unfolding count_items
  count_items-length zero it n low xs c a f = absurd (omega arith)
  count_items-length (suc fuel) it n low [] c a f =
      let e : (it == 0) ≡ true = ground arith in rw e (ap ok (omega arith))
  count_items-length (suc fuel) it n low (x ∷ xs) c a f =
      let e : (it == 0) ≡ false = ground arith in
      rw (e, c.0)
        (count_items-length fuel (h x) (n + 1) x xs c.1 a.1 (omega arith) ∙ ap ok (omega arith))

  -- On a well-formed list, whose count is right, the check ends without a panic.
  pub sanity_check-ok : (fl : FreeList) (xs : List ℕ) → Rep h fl xs → sanity_check fl h ≡ ok tt
  unfolding sanity_check
  sanity_check-ok fl xs r =
      let (met, e, unmet) = Returns-ok Unmet _ (
        race-Unmet (fl.items + 2) fl.list fl.list 0 [] xs r.chain r.chain r.ascending
          (omega (arith, r.counted))) in
      let counted : (0 + length xs == fl.items) ≡ true = ground (arith, r.counted) in
      rw (
        e,
        unmet,
        count_items-length (fl.items + 1) fl.list 0 0 xs r.chain r.ascending
            (omega (arith, r.counted)),
        counted,
      )

  pub finish-ok :
      (fl : FreeList) (xs : List ℕ) (result : ℕ)
      → Rep h fl xs
      → finish fl h result ≡ ok (fl, h, result)
  unfolding finish
  finish-ok fl xs result r = rw (sanity_check-ok fl xs r)
