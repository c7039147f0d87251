-- ===== src/Sched/Create.antt =====
-- `create_task` of scheduler.cpp, and the constructor of the scheduler.
use bolgenos_ng.Base.{
  ℕ, ◌+◌, ◌-◌, ◌%◌, ◌≡◌, ◌≢◌, refl, sym, ◌∙◌, subst, Bool, true, false, Option, none, some, List,
  arith, ◌==◌,
}
use bolgenos_ng.Base.All.{Apart, All-map}
use bolgenos_ng.Utils.MemUtils.{word}
use bolgenos_ng.Utils.ForwardList.Linked.{Cells, values}
use bolgenos_ng.Utils.CircularList.Ring.{Ring}
use bolgenos_ng.Utils.CircularList.Insert.{second, Inserted, insert-Inserted, Ring-reset}
use bolgenos_ng.Memory.Machine.{Returns, Returns-bind, Returns-mono}
use bolgenos_ng.Sched.{Task, Scheduler, stack_size, new_task_stack_size, new_task, create_task}
use bolgenos_ng.Sched.Inv.{
  IsTask, Inv, none-Apart, set_task_self, set_task_ne, load_task_lem, Within-second, All-second,
}

-- A task before its first run.
abbrev pub made : Scheduler → (routine arg stack : ℕ) → Task
made s routine arg stack = record {
  routine = routine;
  arg = arg;
  id = s.next_task_id;
  exited = false;
  stack = stack;
  esp = ((stack + stack_size) % word + word - new_task_stack_size) % word;
}

-- What `create_task` makes of a scheduler whose tasks are `ring`.
pub record Created (s : Scheduler) (ring : List ℕ) (routine arg p stack : ℕ) (r : Scheduler × ℕ)
    : Type 0 where
  pub ring_ok : Ring r.0.tasks r.0.some_task (second p ring)
  pub at_new : r.0.task p ≡ some (made s routine arg stack)
  pub others : (q : ℕ) → q ≢ p → r.0.task q ≡ s.task q
  pub rest : r ≡ (
    record s {
      tasks = r.0.tasks;
      some_task = r.0.some_task;
      task = r.0.task;
      next_task_id = (s.next_task_id + 1) % word;
    },
    p,
  )

pub create_task-Created :
    (s : Scheduler) (ring : List ℕ) (routine arg p stack : ℕ)
    → p ≢ 0
    → Apart p ring
    → Ring s.tasks s.some_task ring
    → Returns (Created s ring routine arg p stack) (create_task s routine arg p stack)
unfolding create_task new_task
create_task-Created s ring routine arg p stack some_p out ring_ok =
    let t : (p == 0) ≡ false = ground arith in
    let s1 = new_task s routine arg p stack in
    rw t (
      Returns-bind (Inserted s1.tasks ring p) (Created s ring routine arg p stack) _ _
        (insert-Inserted s1.tasks s.some_task p ring some_p out
          (Ring-reset s.tasks s.some_task p 0 0 ring out ring_ok))
        λ r inserted.
          rw
            (load_task_lem (record s1 { tasks = r.0; some_task = r.1 }) p _
              (set_task_self s.task p _))
            (record {
              ring_ok = inserted.ring;
              at_new = set_task_self _ p _;
              others = λ q ne. set_task_ne _ p q _ ne ∙ set_task_ne s.task p q _ ne;
              rest = refl;
            }))

IsTask-set :
    (f g : ℕ → Option Task) (p : ℕ) (exited : Bool) (q : ℕ)
    → ((a : ℕ) → a ≢ p → g a ≡ f a)
    → f p ≡ none
    → IsTask f exited q
    → IsTask g exited q
IsTask-set f g p exited q same free (t, at_q, e) =
    (t, same q (λ eq. let at_p : f p ≡ some t = subst (λ a. f a ≡ some t) eq at_q in cc) ∙ at_q, e)

module _ (s : Scheduler) (ring : List ℕ) (fin : Cells ℕ) (inv : Inv s ring fin)
    (routine arg p stack : ℕ) (free : s.task p ≡ none) where
  Created-Inv :
      (r : Scheduler × ℕ) → Created s ring routine arg p stack r → Inv r.0 (second p ring) fin
  Created-Inv r c =
      let new = r.0.task in
      let keep = λ (exited : Bool) (q : ℕ) (k : IsTask s.task exited q).
        IsTask-set s.task new p exited q c.others free k in
      subst (λ (u : Scheduler × ℕ). Inv u.0 (second p ring) fin) (sym c.rest)
        (record {
          ring_ok = c.ring_ok;
          fin_ok = inv.fin_ok;
          live =
              All-second _ p ring (made s routine arg stack, c.at_new)
                (All-map _ _ ring
                  (λ q (t, at_q). let (t', at', e) = keep t.exited q (t, at_q, refl) in (t', at'))
                  inv.live);
          fin_within = All-map _ _ (values fin) (λ q w. Within-second q p ring w) inv.fin_within;
          fin_exited = All-map _ _ (values fin) (keep true) inv.fin_exited;
          fin_once = inv.fin_once;
          scheduler_within = Within-second s.scheduler_task p ring inv.scheduler_within;
          scheduler_runs = keep false s.scheduler_task inv.scheduler_runs;
          current_within = Within-second s.current p ring inv.current_within;
          synced = inv.synced;
        })

  -- A new task keeps the invariant.
  pub create_task-Inv :
      p ≢ 0
      → Returns
          (λ r. Created s ring routine arg p stack r × Inv r.0 (second p ring) fin)
          (create_task s routine arg p stack)
  create_task-Inv some_p =
      Returns-mono (Created s ring routine arg p stack) _ _
        (create_task-Created s ring routine arg p stack some_p
          (none-Apart s.task p ring free inv.live) inv.ring_ok)
        λ r c. (c, Created-Inv r c)
