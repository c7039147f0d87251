-- ===== src/Sched/Start.antt =====
-- The constructor of the scheduler.
use bolgenos_ng.Base.{
  ℕ, ◌≡◌, ◌≢◌, refl, sym, ◌∙◌, ap, subst, false, none, [], ◌∷◌, inl, arith, ◌==◌,
}
use bolgenos_ng.Utils.ForwardList.Linked.{Linked}
use bolgenos_ng.Memory.Machine.{Returns, Returns-bind}
use bolgenos_ng.Irq.Locking.{IsSynced, masked, with_irq_lock-Returns}
use bolgenos_ng.Sched.{Scheduler, set_interrupts, interrupts_of, construct_tasks, construct}
use bolgenos_ng.Sched.Inv.{IsTask, Inv}
use bolgenos_ng.Sched.Create.{Created, made, create_task-Created}

-- The members of a scheduler before its constructor runs.
pub record Blank (s : Scheduler) : Type 0 where
  pub no_tasks : s.some_task ≡ 0
  pub no_finished : Linked s.finished_nodes ((s.finished_tasks, 0) ∷ [])
  pub synced : IsSynced s.interrupts

-- The scheduler with its own task at `t` and the main task at `m`.
pub record Constructed (s : Scheduler) (t m : ℕ) (s' : Scheduler) : Type 0 where
  pub inv : Inv s' (t ∷ m ∷ []) []
  pub home : (s'.current ≡ t) × (s'.scheduler_task ≡ t)
  pub interrupts : s'.interrupts ≡ s.interrupts

module _ (s : Scheduler) (t m routine this stack main_continuation stack' : ℕ)
    (r1 r2 : Scheduler × ℕ) where
  two_tasks :
      Blank s
      → m ≢ t
      → Created (set_interrupts s masked) [] routine this t stack r1
      → Created (record (r1.0) { scheduler_task = r1.1 }) (t ∷ []) main_continuation 0 m stack' r2
      → (r2.0.interrupts ≡ masked)
        × Constructed s t m
            (set_interrupts (record (r2.0) { current = r2.0.scheduler_task }) s.interrupts)
  two_tasks blank apart c1 c2 =
      let nodes : r2.0.finished_nodes ≡ s.finished_nodes =
        ap (λ (u : Scheduler × ℕ). u.0.finished_nodes) c2.rest
        ∙ ap (λ (u : Scheduler × ℕ). u.0.finished_nodes) c1.rest in
      let list : r2.0.finished_tasks ≡ s.finished_tasks =
        ap (λ (u : Scheduler × ℕ). u.0.finished_tasks) c2.rest
        ∙ ap (λ (u : Scheduler × ℕ). u.0.finished_tasks) c1.rest in
      let scheduler : r2.0.scheduler_task ≡ t =
        ap (λ (u : Scheduler × ℕ). u.0.scheduler_task) c2.rest
        ∙ ap (λ (u : Scheduler × ℕ). u.1) c1.rest in
      let at_t = c2.others t (λ e. apart (sym e)) ∙ c1.at_new in
      (
        ap (λ (u : Scheduler × ℕ). u.0.interrupts) c2.rest
            ∙ ap (λ (u : Scheduler × ℕ). u.0.interrupts) c1.rest,
        record {
          inv = record {
            ring_ok = c2.ring_ok;
            fin_ok =
                subst (λ l. Linked r2.0.finished_nodes ((l, 0) ∷ [])) (sym list)
                  (subst (λ n. Linked n ((s.finished_tasks, 0) ∷ [])) (sym nodes)
                    blank.no_finished);
            live = ((_, at_t), ((_, c2.at_new), tt));
            fin_within = tt;
            fin_exited = tt;
            fin_once = tt;
            scheduler_within = inl scheduler;
            scheduler_runs =
                subst (IsTask r2.0.task false) (sym scheduler)
                  (made (set_interrupts s masked) routine this stack, at_t, refl);
            current_within = inl scheduler;
            synced = blank.synced;
          };
          home = (scheduler, scheduler);
          interrupts = refl;
        },
      )

-- The constructor returns on blank members with a main routine, where the two answers of the
-- allocator are free, not null and different. The scheduler then holds its own task and the main
-- task, its own is the current one, the invariant holds with none finished, and the interrupts are
-- as they were.
pub construct-Constructed :
    (s : Scheduler) (main_continuation routine this t stack m stack' : ℕ)
    → Blank s
    → main_continuation ≢ 0
    → t ≢ 0
    → m ≢ 0
    → m ≢ t
    → s.task t ≡ none
    → s.task m ≡ none
    → Returns
        (Constructed s t m)
        (construct s main_continuation routine this (t, stack) (m, stack'))
unfolding construct construct_tasks
construct-Constructed s main_continuation routine this t stack m stack' blank some_main some_t
      some_m apart free_t free_m =
    let some_c : (main_continuation == 0) ≡ false = ground arith in
    let s0 = set_interrupts s masked in
    Returns-bind (λ r. Constructed s t m r.0) (Constructed s t m) _ _
      (with_irq_lock-Returns interrupts_of set_interrupts (λ s' u. Constructed s t m s')
        (construct_tasks main_continuation routine this (t, stack) (m, stack')) s blank.synced
        (rw some_c (
          Returns-bind (Created s0 [] routine this t stack)
            (λ r. (r.0.interrupts ≡ masked) × Constructed s t m (set_interrupts r.0 s.interrupts)) _
            _ (create_task-Created s0 [] routine this t stack some_t tt blank.no_tasks)
            λ r1 c1.
              let s2 = record (r1.0) { scheduler_task = r1.1 } in
              Returns-bind (Created s2 (t ∷ []) main_continuation 0 m stack')
                (λ r.
                  (r.0.interrupts ≡ masked) × Constructed s t m (set_interrupts r.0 s.interrupts))
                _ _
                (create_task-Created s2 (t ∷ []) main_continuation 0 m stack' some_m (apart, tt)
                  c1.ring_ok)
                λ r2 c2.
                  two_tasks s t m routine this stack main_continuation stack' r1 r2 blank apart c1
                    c2)))
      λ r c. c
