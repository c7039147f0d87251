-- ===== src/Irq/Locking.antt =====
-- Locks of kernel/threading, one inside another.
use bolgenos_ng.Base.{
  same_bool, arith, Bool-cases, inl, inr, ◌≡◌, refl, ◌∙◌, Bool, true, false, if◌then◌else◌,
}
use bolgenos_ng.Memory.Machine.{Run, ok, Returns, Returns-bind}
use bolgenos_ng.Irq.{Interrupts, is_enabled, enable, disable, Locker, lock, unlock, with_irq_lock}

-- The flag is what the shadow says.
abbrev pub IsSynced : Interrupts → Type 0
IsSynced i = i.flag ≡ i.enabled

abbrev pub masked : Interrupts
masked = record { flag = false; enabled = false }

same_bool_self : (a : Bool) → same_bool a a ≡ true
same_bool_self true = refl
same_bool_self false = refl

pub is_enabled-ok : (i : Interrupts) → IsSynced i → is_enabled i ≡ ok i.enabled
unfolding is_enabled
is_enabled-ok i h = rw (h, same_bool_self i.enabled) refl

pub enable-IsSynced : (i : Interrupts) → IsSynced (enable i)
unfolding enable
enable-IsSynced i = refl

restored :
    (i : Interrupts)
    → IsSynced i
    → (if i.enabled then record { flag = true; enabled = true } else masked) ≡ i
restored i h = elim (Bool-cases i.enabled) [
  | inl e ↦ let f : i.flag ≡ true = h ∙ e in ground arith
  | inr e ↦ let f : i.flag ≡ false = h ∙ e in ground arith
]

-- What was off stays off and what was on comes back.
pub unlock-lock : (l : Locker) (i : Interrupts) → IsSynced i → unlock (lock l i).0 (lock l i).1 ≡ i
unfolding unlock lock disable enable
unlock-lock l i h = restored i h

module _ {S : Type 0} (get : S → Interrupts) (put : S → Interrupts → S) where
  -- The function runs with interrupts off, and leaves them off. Then the state of the interrupts
  -- is as before, and all else is as the function has left it.
  pub with_irq_lock-Returns :
      {A : Type 0} (P : S → A → Type 0) (f : S → Run (S × A)) (s : S)
      → IsSynced (get s)
      → Returns (λ r. (get r.0 ≡ masked) × P (put r.0 (get s)) r.1) (f (put s masked))
      → Returns (λ r. P r.0 r.1) (with_irq_lock get put f s)
  unfolding with_irq_lock lock unlock disable enable
  with_irq_lock-Returns P f s synced runs =
      Returns-bind (λ r. (get r.0 ≡ masked) × P (put r.0 (get s)) r.1) (λ r. P r.0 r.1)
        (f (put s masked)) _ runs λ r h. rw h.0 (rw (restored (get s) synced) h.1)
