-- ===== src/Sched/Sweep.antt =====
-- `handle_finished_tasks` of scheduler.cpp.
mod Strike
mod Walk
use bolgenos_ng.Base.{
  ℕ, ◌+◌, ◌<◌, ◌≡◌, ◌≢◌, refl, sym, ◌∙◌, ap, subst, Bool, true, false, Option, none, some, List, [],
  ◌∷◌, ◌++◌, inl, inr, arith, ◌==◌, if◌then◌else◌, ℕ_discrete, length,
}
use bolgenos_ng.Base.All.{All, Apart, Distinct, All-map, All-both}
use bolgenos_ng.Utils.ForwardList.{Nodes, clear, for_range}
use bolgenos_ng.Irq.{Locker, lock, unlock, disable, with_irq_lock}
use bolgenos_ng.Utils.ForwardList.Linked.{Cells, values, Linked}
use bolgenos_ng.Utils.ForwardList.Erase.{Freed, Cleared, clear-Cleared}
use bolgenos_ng.Utils.ForwardList.Visit.{for_range_lem, for_range-fuel}
use bolgenos_ng.Utils.CircularList
use bolgenos_ng.Utils.CircularList.{Links}
use bolgenos_ng.Utils.CircularList.Ring.{Ring}
use bolgenos_ng.Utils.CircularList.Remove.{Removed, remove-Removed}
use bolgenos_ng.Memory.Machine.{
  Run, ok, ◌>>=◌, Returns, Returns-bind, Returns-mono, walk, bind-ok, ok-injective,
}
use bolgenos_ng.Irq.Locking.{masked, with_irq_lock-Returns}
use bolgenos_ng.Sched.{
  Task, Scheduler, set_task, load_task, set_interrupts, interrupts_of, finished_of, delete_task,
  handle_finished_task, sweep, handle_finished_tasks,
}
use bolgenos_ng.Sched.Inv.{
  Within, IsTask, IsLive, Inv, exited-ne, set_task_self, set_task_ne, set_task-All, Within-All,
  Within-split, load_task_lem,
}
pub use Strike.*
pub use Walk.*

-- What `handle_finished_tasks` makes of the tasks `ring` and the finished `fin`.
pub record Swept (s : Scheduler) (ring : List ℕ) (fin : Cells ℕ) (s' : Scheduler) : Type 0 where
  pub kept : Inv s' (strike ring (values fin)) []
  pub gone : All (λ q. s'.task q ≡ none) (values fin)
  pub others : (q : ℕ) → Apart q (values fin) → s'.task q ≡ s.task q
  pub freed : s'.freed_stacks ≡ stacks s.task (values fin) s.freed_stacks
  pub nodes_freed : Freed s'.finished_nodes fin
  pub rest : s' ≡ record s {
    tasks = s'.tasks;
    some_task = s'.some_task;
    task = s'.task;
    freed_stacks = s'.freed_stacks;
    finished_nodes = s'.finished_nodes;
  }

module _ (s : Scheduler) (ring : List ℕ) (fin : Cells ℕ) (inv : Inv s ring fin)
    (home : s.current ≡ s.scheduler_task) where
  scheduler_apart : Apart s.scheduler_task (values fin)
  scheduler_apart =
      All-map (IsTask s.task true) _ (values fin)
        (λ q exited e. exited-ne s.task q s.scheduler_task exited inv.scheduler_runs (sym e))
        inv.fin_exited

  -- The state that the sweep leaves, with the interrupts as they were.
  abbrev swept : Scheduler → Nodes ℕ → Scheduler
  swept s1 nodes = record s1 { finished_nodes = nodes; interrupts = s.interrupts }

  swept-Swept :
      (s1 : Scheduler) (nodes : Nodes ℕ)
      → Walked (set_interrupts s masked) ring (values fin) s1
      → Cleared s.finished_nodes s.finished_tasks 0 fin nodes
      → Swept s ring fin (swept s1 nodes)
  swept-Swept s1 nodes w c =
      subst (λ u. Swept s ring fin (swept u nodes)) (sym w.rest)
        (record {
          kept = record {
            ring_ok = w.ring_ok;
            fin_ok = c.linked;
            live = w.live;
            fin_within = tt;
            fin_exited = tt;
            fin_once = tt;
            scheduler_within =
                Within-strike s.scheduler_task (values fin) ring inv.scheduler_within
                  scheduler_apart;
            scheduler_runs =
                let (t, at, e) = inv.scheduler_runs in
                (t, w.others s.scheduler_task scheduler_apart ∙ at, e);
            current_within =
                Within-strike s.current (values fin) ring inv.current_within
                  (subst (λ q. Apart q (values fin)) (sym home) scheduler_apart);
            synced = inv.synced;
          };
          gone = w.gone;
          others = w.others;
          freed = w.freed;
          nodes_freed = c.freed;
          rest = refl;
        })

  -- On a scheduler that keeps its invariant and runs its own task, removing the finished tasks
  -- returns, with fuel for more than their number. Their objects and the nodes that list them are
  -- gone, their stacks are given back, each once and in order, and the invariant holds with the
  -- other tasks and none finished; the rest of the scheduler is as it was.
  pub handle_finished_tasks-Swept :
      (fuel : ℕ) → length fin < fuel → Returns (Swept s ring fin) (handle_finished_tasks fuel s)
  unfolding handle_finished_tasks sweep
  handle_finished_tasks-Swept fuel enough =
      let s0 = set_interrupts s masked in
      Returns-bind (λ r. Swept s ring fin r.0) (Swept s ring fin) _ _
        (with_irq_lock-Returns interrupts_of set_interrupts (λ s' u. Swept s ring fin s')
          (sweep fuel) s inv.synced
          (rw
            (for_range_lem finished_of handle_finished_task handle_finished_task_keeps fuel s0
              s.finished_tasks 0 fin enough inv.fin_ok)
            (Returns-bind (Walked s0 ring (values fin))
              (λ r. (r.0.interrupts ≡ masked) × Swept s ring fin (set_interrupts r.0 s.interrupts))
              _ _
              (walk-Walked (values fin) ring s0 inv.ring_ok inv.live inv.fin_within inv.fin_once)
              λ s1 w.
                let nodes1 : s1.finished_nodes ≡ s.finished_nodes =
                  ap (λ (u : Scheduler). u.finished_nodes) w.rest in
                let list1 : s1.finished_tasks ≡ s.finished_tasks =
                  ap (λ (u : Scheduler). u.finished_tasks) w.rest in
                let masked1 : s1.interrupts ≡ masked =
                  ap (λ (u : Scheduler). u.interrupts) w.rest in
                let same = λ (P : Nodes ℕ → ℕ → Type 0) (h : P s.finished_nodes s.finished_tasks).
                  subst (λ l. P s1.finished_nodes l) (sym list1)
                    (subst (λ n. P n s.finished_tasks) (sym nodes1) h) in
                let back = λ (P : Nodes ℕ → ℕ → Type 0) (h : P s1.finished_nodes s1.finished_tasks).
                  subst (λ l. P s.finished_nodes l) list1
                    (subst (λ n. P n s1.finished_tasks) nodes1 h) in
                Returns-bind (Cleared s1.finished_nodes s1.finished_tasks 0 fin)
                  (λ r.
                    (r.0.interrupts ≡ masked) × Swept s ring fin (set_interrupts r.0 s.interrupts))
                  _ _
                  (clear-Cleared fuel s1.finished_nodes s1.finished_tasks 0 fin enough
                    (same (λ n l. Linked n ((l, 0) ∷ fin)) inv.fin_ok))
                  λ nodes c.
                    (masked1, swept-Swept s1 nodes w (back (λ n l. Cleared n l 0 fin nodes) c)))))
        λ r f. f

-- A sweep that has ended had fuel for all finished tasks.
pub handle_finished_tasks-fuel :
    (s : Scheduler) (ring : List ℕ) (fin : Cells ℕ) (fuel : ℕ) (s' : Scheduler)
    → Inv s ring fin
    → handle_finished_tasks fuel s ≡ ok s'
    → length fin < fuel
unfolding handle_finished_tasks with_irq_lock sweep lock disable
handle_finished_tasks-fuel s ring fin fuel s' inv e =
    let s0 = set_interrupts s masked in
    let l : Locker = record { enable_on_unlock = s.interrupts.enabled } in
    let out =
      λ (r : Scheduler × Unit {0}). ok (set_interrupts r.0 (unlock l r.0.interrupts), r.1) in
    let (r, ran, e1) =
      bind-ok (sweep fuel s0 >>= out) (λ (r : Scheduler × Unit {0}). ok r.0) s' e in
    let (r', swept, e2) = bind-ok (sweep fuel s0) out r ran in
    let rest = λ (s1 : Scheduler). clear fuel s1.finished_nodes s1.finished_tasks >>= λ nodes.
    ok (record s1 { finished_nodes = nodes }, tt) in
    let (s1, walked, e3) =
      bind-ok (for_range finished_of handle_finished_task fuel s0 s.finished_tasks) rest r' swept in
    for_range-fuel finished_of handle_finished_task handle_finished_task_keeps fuel s0
      s.finished_tasks 0 fin s1 inv.fin_ok walked
