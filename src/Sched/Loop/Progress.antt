-- ===== src/Sched/Loop/Progress.antt =====
-- The scheduler and its tasks always have a next step.
use bolgenos_ng.Base.{
  ℕ, ◌+◌, ◌≡◌, refl, ◌∙◌, ap, Bool, false, not, inl, inr, arith, ◌==◌, Bool-cases, length,
}
use bolgenos_ng.Utils.CircularList.{at_end}
use bolgenos_ng.Memory.Machine.{ok, Returns-ok}
use bolgenos_ng.Irq.{enable}
use bolgenos_ng.Sched.{Scheduler, should_schedule, switched, handle_finished_tasks}
use bolgenos_ng.Sched.Inv.{IsLive, Within-All, load_task_lem}
use bolgenos_ng.Sched.Sweep.{Swept, handle_finished_tasks-Swept}
use bolgenos_ng.Sched.Loop.{
  Position, between, visiting, running, System, at, Step, begin_round, skip, resume, yield_back,
  end_round, Reach, unmasked, IsSafe,
}
use bolgenos_ng.Sched.Loop.Safety.{Reach-IsSafe}
use bolgenos_ng.Sched.Loop.Steps.{Ring-next, set-Inv, switch_to_lem, yield_task_lem}

should_schedule_lem :
    (s : Scheduler) (p : ℕ) → IsLive s.task p → (b : Bool) × (should_schedule s p ≡ ok b)
unfolding should_schedule
should_schedule_lem s p (k, at_p) = elim (Bool-cases (p == s.scheduler_task)) [
  | inl e ↦ (false, rw e refl)
  | inr e ↦ (not k.exited, rw (e, load_task_lem s p k at_p) refl)
]

go_on :
    (s : Scheduler) (start node shift : ℕ)
    → at_end node shift start ≡ false
    → IsSafe (at s (visiting start node shift))
    → (y : System) × Step (at s (visiting start node shift)) y
unfolding switched enable
go_on s start node shift going (ring, fin, inv, (home, off, w)) =
    let (b, schedules) =
      should_schedule_lem s node (Within-All (IsLive s.task) node ring w inv.live) in
    let on = set-Inv s ring fin inv s.current unmasked inv.current_within refl in
    elim (Bool-cases b) [
      | inl e ↦ (
        _,
        resume s start node shift _ going (schedules ∙ ap ok e)
            (switch_to_lem (switched s) ring fin on node refl w),
      )
      | inr e ↦ (
        _,
        skip s start node shift _ going (schedules ∙ ap ok e)
            (Ring-next s.tasks s.some_task node ring inv.ring_ok w).1,
      )
    ]

step_from :
    (s : Scheduler) (position : Position)
    → IsSafe (at s position)
    → (y : System) × Step (at s position) y
step_from s between safe = (_, begin_round s)
step_from s (visiting start node shift) safe = elim (Bool-cases (at_end node shift start)) [
  | inl over ↦
      let (ring, fin, inv, (home, off, w)) = safe in
      let fuel = length fin + 1 in
      let (s', swept, left) =
        Returns-ok (Swept s ring fin) (handle_finished_tasks fuel s)
          (handle_finished_tasks-Swept s ring fin inv home fuel (omega arith)) in
      (_, end_round s start node shift fuel s' over swept)
  | inr going ↦ go_on s start node shift going safe
]
step_from s (running start node shift) safe =
    let (ring, fin, inv, (runs_here, on, w, ne)) = safe in
    let (w', next) = Ring-next s.tasks s.some_task node ring inv.ring_ok w in
    (_, yield_back s start node shift _ _ (yield_task_lem s ring fin inv on) next)

-- From every state that the scheduler and its tasks reach from a safe one, there is a next step:
-- none of the panics and faults of switching, yielding, the loop and the removal of finished tasks
-- stops all of them.
pub Reach-progress : {x y : System} → IsSafe x → Reach x y → (z : System) × Step y z
Reach-progress {x} {y} safe r = step_from y.scheduler y.position (Reach-IsSafe safe r)
