-- ===== src/Sched/Finish.antt =====
-- The end of a task: `Task::run` of task.cpp and `handle_exit` of scheduler.cpp.
use bolgenos_ng.Base.{
  ℕ, ◌≡◌, ◌≢◌, refl, sym, ◌∙◌, subst, true, false, none, some, List, [], ◌∷◌, ℕ_discrete,
}
use bolgenos_ng.Base.All.{Apart, All-map}
use bolgenos_ng.Utils.ForwardList.{push_front}
use bolgenos_ng.Utils.ForwardList.Linked.{Cells, values}
use bolgenos_ng.Utils.ForwardList.Push.{Pushed, push_after-Pushed, push_after_full}
use bolgenos_ng.Memory.Machine.{Returns, Returns-bind}
use bolgenos_ng.Irq.Locking.{masked, with_irq_lock-Returns}
use bolgenos_ng.Sched.{
  Task, Scheduler, set_task, push_finished, set_interrupts, interrupts_of, handle_exit, finish_run,
}
use bolgenos_ng.Sched.Inv.{
  Within, IsTask, IsLive, Inv, exited-ne, set_task_self, set_task_ne, load_task_lem,
}

module _ (s : Scheduler) (p : ℕ) (k : Task) (at_p : s.task p ≡ some k) where
  -- The scheduler with the task marked.
  abbrev pub marked : Scheduler
  marked = record s { task = set_task s.task p (some (record k { exited = true })) }

  pub marked_at : IsTask marked.task true p
  marked_at = (record k { exited = true }, set_task_self s.task p _, refl)

  marked-IsLive : (q : ℕ) → IsLive s.task q → IsLive marked.task q
  marked-IsLive q (t, at_q) = elim (ℕ_discrete q p) [
    | yes e ↦ subst (IsLive marked.task) (sym e) (marked_at.0, marked_at.1)
    | no ne ↦ (t, set_task_ne s.task p q _ ne ∙ at_q)
  ]

  marked_exited : (q : ℕ) → IsTask s.task true q → IsTask marked.task true q
  marked_exited q (t, at_q, e) = elim (ℕ_discrete q p) [
    | yes eq ↦ subst (IsTask marked.task true) (sym eq) marked_at
    | no ne ↦ (t, set_task_ne s.task p q _ ne ∙ at_q, e)
  ]

  module _ (ring : List ℕ) (fin : Cells ℕ) (inv : Inv s ring fin)
      (other : p ≢ s.scheduler_task) where
    pub marked-Inv : Inv marked ring fin
    marked-Inv = record {
      ring_ok = inv.ring_ok;
      fin_ok = inv.fin_ok;
      live = All-map _ _ ring marked-IsLive inv.live;
      fin_within = inv.fin_within;
      fin_exited = All-map _ _ (values fin) marked_exited inv.fin_exited;
      fin_once = inv.fin_once;
      scheduler_within = inv.scheduler_within;
      scheduler_runs =
          let (t, at, e) = inv.scheduler_runs in
          (t, set_task_ne s.task p s.scheduler_task _ (λ eq. other (sym eq)) ∙ at, e);
      current_within = inv.current_within;
      synced = inv.synced;
    }

    -- What the end of the task at `p` leaves, with a new node at `node`.
    pub record Finished (node : ℕ) (s' : Scheduler) : Type 0 where
      pub kept : Inv s' ring ((node, p) ∷ fin)
      pub rest : s' ≡ record marked { finished_nodes = s'.finished_nodes }

    module _ (within : Within p ring) (runs : k.exited ≡ false) where
      fresh : Apart p (values fin)
      fresh =
          All-map (IsTask s.task true) _ (values fin)
            (λ q exited e. exited-ne s.task q p exited (k, at_p, runs) (sym e)) inv.fin_exited

      -- What the end of a task leaves, where there is memory for the node.
      pub finish_run-Finished :
          (node : ℕ)
          → node ≢ 0
          → s.finished_nodes node ≡ none
          → Returns (Finished node) (finish_run s p node)
      unfolding finish_run handle_exit push_finished push_front
      finish_run-Finished node some_node free =
          let m = marked-Inv in
          rw (load_task_lem s p k at_p) (
            Returns-bind (λ r. Finished node r.0) (Finished node) _ _
              (with_irq_lock-Returns interrupts_of set_interrupts (λ s' u. Finished node s')
                (push_finished p node) marked inv.synced
                (Returns-bind (Pushed s.finished_nodes [] s.finished_tasks 0 node p fin)
                  (λ r. (r.0.interrupts ≡ masked) × Finished node (set_interrupts r.0 s.interrupts))
                  _ _
                  (push_after-Pushed s.finished_nodes 0 [] s.finished_tasks 0 node p fin some_node
                    free inv.fin_ok)
                  λ r pushed. (
                    refl,
                    record {
                      kept = record {
                        ring_ok = m.ring_ok;
                        fin_ok = pushed.linked;
                        live = m.live;
                        fin_within = (within, m.fin_within);
                        fin_exited = (marked_at, m.fin_exited);
                        fin_once = (fresh, m.fin_once);
                        scheduler_within = m.scheduler_within;
                        scheduler_runs = m.scheduler_runs;
                        current_within = m.current_within;
                        synced = m.synced;
                      };
                      rest = refl;
                    },
                  )))
              λ r f. f)

    -- Without memory for the node the task is marked, and is not listed.
    pub finish_run_full : Returns (λ s'. s' ≡ marked) (finish_run s p 0)
    unfolding finish_run handle_exit push_finished push_front
    finish_run_full = rw (load_task_lem s p k at_p) (
        Returns-bind (λ r. r.0 ≡ marked) (λ s'. s' ≡ marked) _ _
          (with_irq_lock-Returns interrupts_of set_interrupts (λ s' u. s' ≡ marked)
            (push_finished p 0) marked inv.synced
            (rw (push_after_full s.finished_nodes 0 s.finished_tasks p) (refl, refl)))
          λ r f. f)
