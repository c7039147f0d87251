-- ===== src/Sched/Loop/Steps.antt =====
-- What single steps of the scheduler do to its data.
use bolgenos_ng.Base.{
  ◌⊎◌, ℕ, ◌≡◌, ◌≢◌, refl, ◌∙◌, ap, subst, true, false, not, List, [], ◌∷◌, inl, inr, arith, ◌==◌,
  if◌then◌else◌,
}
use bolgenos_ng.Utils.ForwardList.Linked.{Cells}
use bolgenos_ng.Utils.CircularList.{Links, get_next}
use bolgenos_ng.Utils.CircularList.Ring.{Arc, Ring}
use bolgenos_ng.Memory.Machine.{ok, fault, ◌>>=◌}
use bolgenos_ng.Irq.{Interrupts, enable, disable}
use bolgenos_ng.Irq.Locking.{IsSynced, masked, is_enabled-ok}
use bolgenos_ng.Sched.{
  Scheduler, load_task, should_schedule, switch_to, switched, create_task, yield_task,
}
use bolgenos_ng.Sched.Inv.{Within, IsLive, Inv, Within-All, load_task_lem}
use bolgenos_ng.Sched.Loop.{between, visiting, at, disabled, unmasked, IsSafe}

-- The object after one of the list is one of the list.
pub Arc-next :
    (m : Links) (a : ℕ) (xs : List ℕ) (z x : ℕ)
    → Arc m a xs z
    → Within x (a ∷ xs)
    → Within (m.next x) (xs) ⊎ (m.next x ≡ z)
Arc-next m a [] z x h (inl e) = inr (ap m.next e ∙ h.0)
Arc-next m a [] z x h (inr w) = absurd w
Arc-next m a (y ∷ ys) z x h (inl e) = inl (inl (ap m.next e ∙ h.0))
Arc-next m a (y ∷ ys) z x h (inr w) = elim (Arc-next m y ys z x h.2 w) [
  | inl in_ys ↦ inl (inr in_ys)
  | inr at_end ↦ inr at_end
]

pub Ring-next :
    (m : Links) (first x : ℕ) (ring : List ℕ)
    → Ring m first ring
    → Within x ring
    → Within (m.next x) ring × (get_next m x ≡ ok (m.next x))
unfolding get_next
Ring-next m first x [] h w = absurd w
Ring-next m first x (y ∷ ys) h w =
    let (at_y, arc, once, nonnull) = h in
    let some_x : x ≢ 0 = Within-All (λ q. q ≢ 0) x (y ∷ ys) w nonnull in
    let t : (x == 0) ≡ false = ground arith in
    (elim (Arc-next m y ys y x arc w) [ inl in_ys ↦ inr in_ys | inr back ↦ inl back ], rw t refl)

module _ (s : Scheduler) (ring : List ℕ) (fin : Cells ℕ) (inv : Inv s ring fin) where
  pub set-Inv :
      (c : ℕ) (i : Interrupts)
      → Within c ring
      → IsSynced i
      → Inv (record s { current = c; interrupts = i }) ring fin
  set-Inv c i w synced = record {
    ring_ok = inv.ring_ok;
    fin_ok = inv.fin_ok;
    live = inv.live;
    fin_within = inv.fin_within;
    fin_exited = inv.fin_exited;
    fin_once = inv.fin_once;
    scheduler_within = inv.scheduler_within;
    scheduler_runs = inv.scheduler_runs;
    current_within = w;
    synced = synced;
  }

  -- A switch with interrupts on.
  pub switch_to_lem :
      (task : ℕ)
      → s.interrupts ≡ unmasked
      → Within task ring
      → switch_to s task ≡ ok (record s { interrupts = masked; current = task })
  unfolding switch_to disable load_task
  switch_to_lem task on w =
      let (prev, at_prev) = Within-All (IsLive s.task) s.current ring inv.current_within inv.live in
      let (next, at_next) = Within-All (IsLive s.task) task ring w inv.live in
      let enabled : s.interrupts.enabled ≡ true = ap (λ (i : Interrupts). i.enabled) on in
      rw
        (
          is_enabled-ok s.interrupts inv.synced,
          enabled,
          load_task_lem s s.current prev at_prev,
          load_task_lem s task next at_next,
        )
        refl

  pub yield_task_lem :
      s.interrupts ≡ unmasked
      → yield_task s ≡ ok (record s { interrupts = unmasked; current = s.scheduler_task })
  unfolding yield_task switched enable
  yield_task_lem on = rw (switch_to_lem s.scheduler_task on inv.scheduler_within) refl

pub should_schedule-ne :
    (s : Scheduler) (p : ℕ) → should_schedule s p ≡ ok true → p ≢ s.scheduler_task
unfolding should_schedule
should_schedule-ne s p should e =
    let t : (p == s.scheduler_task) ≡ true = ground arith in
    let no : ok false ≡ ok true =
      subst (λ b. (if b then ok false else (do k ← load_task s p; ok (not k.exited))) ≡ ok true) t
        should in
    absurd (cc)

pub kept_between :
    (s : Scheduler) (ring : List ℕ) (fin : Cells ℕ)
    → Inv s ring fin
    → s.current ≡ s.scheduler_task
    → IsSafe (at (switched s) between)
unfolding switched enable
kept_between s ring fin inv home =
    (ring, fin, set-Inv s ring fin inv s.current unmasked inv.current_within refl, (home, refl))

pub begin-IsSafe :
    (s : Scheduler)
    → IsSafe (at s between)
    → IsSafe (at (disabled s) (visiting s.some_task s.some_task 0))
unfolding disabled disable
begin-IsSafe s (ring, fin, inv, (home, on)) = (
  ring,
  fin,
  set-Inv s ring fin inv s.current masked inv.current_within refl,
  (home, refl, first_within s.tasks s.some_task s.current ring inv.ring_ok inv.current_within),
)
  where
    first_within :
        (m : Links) (first x : ℕ) (ring : List ℕ)
        → Ring m first ring
        → Within x ring
        → Within first ring
    first_within m first x [] h w = absurd w
    first_within m first x (y ∷ ys) h w = inl h.0

pub created_some :
    (s : Scheduler) (routine arg p stack : ℕ) (r : Scheduler × ℕ)
    → create_task s routine arg p stack ≡ ok r
    → p ≢ 0
unfolding create_task
created_some s routine arg p stack r e zero_p =
    let no : fault ≡ ok r = subst (λ q. create_task s routine arg q stack ≡ ok r) zero_p e in
    absurd (cc)
