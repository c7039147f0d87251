-- ===== src/Sched/Inv.antt =====
-- What the scheduler's data say together: which tasks there are, and which are finished.
use bolgenos_ng.Base.{
  ℕ, ◌≡◌, ◌≢◌, refl, sym, ◌∙◌, ap, subst, Bool, true, false, Option, none, some, List, [], ◌∷◌,
  ◌++◌, ◌⊎◌, inl, inr, arith,
}
use bolgenos_ng.Base.All.{All, Apart, Distinct}
use bolgenos_ng.Utils.ForwardList.Linked.{Cells, values, Linked}
use bolgenos_ng.Utils.CircularList.Ring.{Ring}
use bolgenos_ng.Utils.CircularList.Insert.{second}
use bolgenos_ng.Irq.Locking.{IsSynced}
use bolgenos_ng.Sched.{Task, Scheduler, set_task, load_task}
use bolgenos_ng.Memory.Machine.{ok}

-- `a` stands in the list.
abbrev pub Within : ℕ → List ℕ → Type 0
Within a [] = ⊥
Within a (x ∷ xs) = (a ≡ x) ⊎ Within a xs

-- The object of a task, which has exited or not.
abbrev pub IsTask : (ℕ → Option Task) → Bool → ℕ → Type 0
IsTask task exited p = (t : Task) × (task p ≡ some t) × (t.exited ≡ exited)

abbrev pub IsLive : (ℕ → Option Task) → ℕ → Type 0
IsLive task p = (t : Task) × (task p ≡ some t)

-- `ring` is what `_tasks` holds, and `fin` are the nodes of `_finished_tasks`.
pub record Inv (s : Scheduler) (ring : List ℕ) (fin : Cells ℕ) : Type 0 where
  pub ring_ok : Ring s.tasks s.some_task ring
  pub fin_ok : Linked s.finished_nodes ((s.finished_tasks, 0) ∷ fin)
  pub live : All (IsLive s.task) ring
  pub fin_within : All (λ p. Within p ring) (values fin)
  pub fin_exited : All (IsTask s.task true) (values fin)
  pub fin_once : Distinct (values fin)
  pub scheduler_within : Within s.scheduler_task ring
  pub scheduler_runs : IsTask s.task false s.scheduler_task
  pub current_within : Within s.current ring
  pub synced : IsSynced s.interrupts

pub Within-All : (P : ℕ → Type 0) (a : ℕ) (xs : List ℕ) → Within a xs → All P xs → P a
Within-All P a [] w h = absurd w
Within-All P a (x ∷ xs) (inl e) h = subst P (sym e) h.0
Within-All P a (x ∷ xs) (inr w) h = Within-All P a xs w h.1

pub Within-split :
    (a : ℕ) (xs : List ℕ) → Within a xs → (pre : List ℕ) × (suf : List ℕ) × (xs ≡ pre ++ a ∷ suf)
Within-split a [] w = absurd w
Within-split a (x ∷ xs) (inl e) = ([], xs, rw e refl)
Within-split a (x ∷ xs) (inr w) =
    let (pre, suf, e) = Within-split a xs w in (x ∷ pre, suf, ap (λ ys. x ∷ ys) e)

-- What is outside is not the one inside.
pub Apart-Within : (a b : ℕ) (xs : List ℕ) → Apart a xs → Within b xs → a ≢ b
Apart-Within a b [] h w = absurd w
Apart-Within a b (x ∷ xs) h (inl e) = λ e'. h.0 (e' ∙ e)
Apart-Within a b (x ∷ xs) h (inr w) = Apart-Within a b xs h.1 w

-- An object that is not there is none of the live ones.
pub none-Apart :
    (task : ℕ → Option Task) (p : ℕ) (xs : List ℕ)
    → task p ≡ none
    → All (IsLive task) xs
    → Apart p xs
none-Apart task p [] free h = tt
none-Apart task p (x ∷ xs) free h = (
  (λ e. let (t, at_x) = h.0 in let at_p : task x ≡ none = subst (λ y. task y ≡ none) e free in cc),
  none-Apart task p xs free h.1,
)

pub exited-ne :
    (task : ℕ → Option Task) (p q : ℕ) → IsTask task true p → IsTask task false q → p ≢ q
exited-ne task p q (t, at_p, e) (u, at_q, f) same =
    let at : task q ≡ some t = subst (λ y. task y ≡ some t) same at_p in
    let eq : t ≡ u = cc in
    let both : true ≡ false = sym e ∙ ap (λ (k : Task). k.exited) eq ∙ f in absurd (cc)

pub set_task_self : (task : ℕ → Option Task) (p : ℕ) (t : Option Task) → set_task task p t p ≡ t
unfolding set_task
set_task_self task p t = ground arith

pub set_task_ne :
    (task : ℕ → Option Task) (p q : ℕ) (t : Option Task) → q ≢ p → set_task task p t q ≡ task q
unfolding set_task
set_task_ne task p q t ne = ground arith

-- The other tasks are as before.
pub set_task-All :
    (P : Option Task → Type 0) (task : ℕ → Option Task) (p : ℕ) (t : Option Task) (xs : List ℕ)
    → Apart p xs
    → All (λ x. P (task x)) xs
    → All (λ x. P (set_task task p t x)) xs
set_task-All P task p t [] out h = tt
set_task-All P task p t (x ∷ xs) out h = (
  subst P (sym (set_task_ne task p x t (λ e. out.0 (sym e)))) h.0,
  set_task-All P task p t xs out.1 h.1,
)

pub load_task_lem : (s : Scheduler) (p : ℕ) (t : Task) → s.task p ≡ some t → load_task s p ≡ ok t
unfolding load_task
load_task_lem s p t e = rw (e, load_task) refl

pub Within-second : (a v : ℕ) (xs : List ℕ) → Within a xs → Within a (second v xs)
Within-second a v [] w = absurd w
Within-second a v (x ∷ xs) (inl e) = inl e
Within-second a v (x ∷ xs) (inr w) = inr (inr w)

pub All-second : (P : ℕ → Type 0) (v : ℕ) (xs : List ℕ) → P v → All P xs → All P (second v xs)
All-second P v [] p h = (p, tt)
All-second P v (x ∷ xs) p h = (h.0, (p, h.1))
