-- ===== src/Sched/Loop/Safety.antt =====
-- The steps of the scheduler and its tasks keep the scheduler's data sound.
use bolgenos_ng.Utils.MemUtils.{word}
use bolgenos_ng.Base.{
  ℕ, ◌+◌, ◌%◌, ◌≡◌, ◌≢◌, refl, sym, ◌∙◌, ap, subst, true, false, none, [], ◌∷◌, ℕ_discrete,
}
use bolgenos_ng.Utils.ForwardList.Linked.{values}
use bolgenos_ng.Utils.CircularList.{get_next}
use bolgenos_ng.Utils.CircularList.Insert.{second}
use bolgenos_ng.Memory.Machine.{ok, Returns-at, ok-injective}
use bolgenos_ng.Irq.{enable, disable}
use bolgenos_ng.Irq.Locking.{masked}
use bolgenos_ng.Sched.{
  Scheduler, should_schedule, switch_to, switched, create_task, finish_run, yield_task,
  handle_finished_tasks,
}
use bolgenos_ng.Sched.Inv.{Within, IsTask, Within-second}
use bolgenos_ng.Sched.Create.{create_task-Inv}
use bolgenos_ng.Sched.Finish.{marked, finish_run-Finished, finish_run_full, marked-Inv}
use bolgenos_ng.Sched.Sweep.{strike, handle_finished_tasks-Swept, handle_finished_tasks-fuel}
use bolgenos_ng.Sched.Loop.{
  between, visiting, running, System, at, disabled, Step, begin_round, skip, resume, create, finish,
  yield_back, end_round, Reach, here, later, unmasked, IsSafe,
}
use bolgenos_ng.Sched.Loop.Steps.{
  Ring-next, set-Inv, switch_to_lem, yield_task_lem, should_schedule-ne, kept_between, begin-IsSafe,
  created_some,
}

module _ (s : Scheduler) (start node shift : ℕ) where
  skip-IsSafe :
      (following next_shift : ℕ)
      → get_next s.tasks node ≡ ok following
      → IsSafe (at s (visiting start node shift))
      → IsSafe (at s (visiting start following next_shift))
  skip-IsSafe following next_shift e (ring, fin, inv, (home, off, w)) =
      let (w', e') = Ring-next s.tasks s.some_task node ring inv.ring_ok w in
      let same : s.tasks.next node ≡ following = ok-injective _ _ (sym e' ∙ e) in
      (ring, fin, inv, (home, off, subst (λ q. Within q ring) same w'))

  resume-IsSafe :
      (s' : Scheduler)
      → should_schedule s node ≡ ok true
      → switch_to (switched s) node ≡ ok s'
      → IsSafe (at s (visiting start node shift))
      → IsSafe (at (switched s') (running start node shift))
  unfolding switched enable
  resume-IsSafe s' should e (ring, fin, inv, (home, off, w)) =
      let inv1 = set-Inv s ring fin inv s.current unmasked inv.current_within refl in
      let after = switch_to_lem (switched s) ring fin inv1 node refl w in
      let same = ok-injective _ s' (sym after ∙ e) in
      subst (λ u. IsSafe (at (switched u) (running start node shift))) same
        (
          ring,
          fin,
          set-Inv s ring fin inv node unmasked w refl,
          (refl, refl, w, should_schedule-ne s node should),
        )

  create-IsSafe :
      (routine arg p stack : ℕ) (r : Scheduler × ℕ)
      → s.task p ≡ none
      → create_task s routine arg p stack ≡ ok r
      → IsSafe (at s (running start node shift))
      → IsSafe (at r.0 (running start node shift))
  create-IsSafe routine arg p stack r free e (ring, fin, inv, (runs_here, on, w, ne)) =
      let some_p : p ≢ 0 = created_some s routine arg p stack r e in
      let (made, inv') =
        Returns-at _ _ r e (create_task-Inv s ring fin inv routine arg p stack free some_p) in
      let same =
        λ (P : Scheduler → Type 0)
            (h : P (record s {
              tasks = r.0.tasks;
              some_task = r.0.some_task;
              task = r.0.task;
              next_task_id = (s.next_task_id + 1) % word;
            })).
          subst (λ (u : Scheduler × ℕ). P u.0) (sym made.rest) h in
      (
        second p ring,
        fin,
        inv',
        (
          same (λ u. u.current ≡ node) runs_here,
          same (λ u. u.interrupts ≡ unmasked) on,
          Within-second node p ring w,
          same (λ u. node ≢ u.scheduler_task) ne,
        ),
      )

  finish-IsSafe :
      (answer : ℕ) (s' : Scheduler)
      → IsTask s.task false s.current
      → (answer ≢ 0 → s.finished_nodes answer ≡ none)
      → finish_run s s.current answer ≡ ok s'
      → IsSafe (at s (running start node shift))
      → IsSafe (at s' (running start node shift))
  finish-IsSafe answer s' (k, at_c, runs) free e (ring, fin, inv, (runs_here, on, w, ne)) =
      let other : s.current ≢ s.scheduler_task = λ eq. ne (sym runs_here ∙ eq) in
      elim (ℕ_discrete answer 0) [
        | yes zero_answer ↦
            let full =
              Returns-at _ _ s' (sym (ap (finish_run s s.current) zero_answer) ∙ e)
                (finish_run_full s s.current k at_c ring fin inv other) in
            subst (λ u. IsSafe (at u (running start node shift))) (sym full)
              (ring, fin, marked-Inv s s.current k at_c ring fin inv other, (runs_here, on, w, ne))
        | no some_answer ↦
            let done = Returns-at _ _ s' e (
              finish_run-Finished s s.current k at_c ring fin inv other inv.current_within runs
                answer some_answer (free some_answer)) in
            let same =
              λ (P : Scheduler → Type 0)
                  (h : P
                    (record (marked s s.current k at_c) { finished_nodes = s'.finished_nodes })).
                subst P (sym done.rest) h in
            (
              ring,
              (answer, s.current) ∷ fin,
              done.kept,
              (
                same (λ u. u.current ≡ node) runs_here,
                same (λ u. u.interrupts ≡ unmasked) on,
                w,
                same (λ u. node ≢ u.scheduler_task) ne,
              ),
            )
      ]

  yield-IsSafe :
      (following next_shift : ℕ) (s' : Scheduler)
      → yield_task s ≡ ok s'
      → get_next s'.tasks node ≡ ok following
      → IsSafe (at s (running start node shift))
      → IsSafe (at (disabled s') (visiting start following next_shift))
  unfolding disabled disable
  yield-IsSafe following next_shift s' e e' (ring, fin, inv, (runs_here, on, w, ne)) =
      let same = ok-injective _ s' (sym (yield_task_lem s ring fin inv on) ∙ e) in
      let (w', next) = Ring-next s.tasks s.some_task node ring inv.ring_ok w in
      let next' : get_next s.tasks node ≡ ok following =
        ap (λ (u : Scheduler). get_next u.tasks node) same ∙ e' in
      let at_next : s.tasks.next node ≡ following = ok-injective _ _ (sym next ∙ next') in
      subst (λ u. IsSafe (at (disabled u) (visiting start following next_shift))) same
        (
          ring,
          fin,
          set-Inv s ring fin inv s.scheduler_task masked inv.scheduler_within refl,
          (refl, refl, subst (λ q. Within q ring) at_next w'),
        )

  end-IsSafe :
      (fuel : ℕ) (s' : Scheduler)
      → handle_finished_tasks fuel s ≡ ok s'
      → IsSafe (at s (visiting start node shift))
      → IsSafe (at (switched s') between)
  end-IsSafe fuel s' e (ring, fin, inv, (home, off, w)) =
      let enough = handle_finished_tasks-fuel s ring fin fuel s' inv e in
      let swept =
        Returns-at _ _ s' e (handle_finished_tasks-Swept s ring fin inv home fuel enough) in
      kept_between s' (strike ring (values fin)) [] swept.kept
        (subst (λ (u : Scheduler). u.current ≡ u.scheduler_task) (sym swept.rest) home)

-- Every step keeps the system safe.
pub Step-IsSafe : {x y : System} → Step x y → IsSafe x → IsSafe y
Step-IsSafe (begin_round s) safe = begin-IsSafe s safe
Step-IsSafe (skip s start node shift following going should e) safe =
    skip-IsSafe s start node shift following ((shift + 1) % word) e safe
Step-IsSafe (resume s start node shift s' going should e) safe =
    resume-IsSafe s start node shift s' should e safe
Step-IsSafe (create s start node shift routine arg p stack r runs free e) safe =
    create-IsSafe s start node shift routine arg p stack r free e safe
Step-IsSafe (finish s start node shift answer s' runs free e) safe =
    finish-IsSafe s start node shift answer s' runs free e safe
Step-IsSafe (yield_back s start node shift following s' e e') safe =
    yield-IsSafe s start node shift following ((shift + 1) % word) s' e e' safe
Step-IsSafe (end_round s start node shift fuel s' over e) safe =
    end-IsSafe s start node shift fuel s' e safe

-- Whatever steps the scheduler and its tasks take from a safe state, the state reached is safe: the
-- circular list holds the tasks, each with its object, the finished ones are all among them, have
-- exited and stand there once, and the scheduler's own task has not exited. Between the rounds and
-- within one the scheduler runs, within one with interrupts off; where a task runs, it is the one
-- of the loop's node, which is not the scheduler's, with interrupts on.
pub Reach-IsSafe : {x y : System} → IsSafe x → Reach x y → IsSafe y
Reach-IsSafe safe here = safe
Reach-IsSafe safe (later r st) = Step-IsSafe st (Reach-IsSafe safe r)
