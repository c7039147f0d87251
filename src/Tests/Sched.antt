-- ===== src/Tests/Sched.antt =====
-- A scheduler before its constructor runs, and one of two tasks, 1 its own and 2 finished.
use bolgenos_ng.Base.{
  ℕ, refl, Bool, true, false, none, some, List, [], ◌∷◌, inl, inr, arith, ◌==◌, if◌then◌else◌,
}
use bolgenos_ng.Memory.Machine.{Returns}
use bolgenos_ng.Utils.ForwardList.{Nodes}
use bolgenos_ng.Utils.ForwardList.Linked.{Cells}
use bolgenos_ng.Utils.CircularList.{at_end, get_next}
use bolgenos_ng.Irq.{disable}
use bolgenos_ng.Sched.{
  Task, Scheduler, construct, handle_finished_tasks, should_schedule, load_task,
}
use bolgenos_ng.Sched.Inv.{Inv}
use bolgenos_ng.Sched.Start.{Blank, Constructed, construct-Constructed}
use bolgenos_ng.Sched.Sweep.{Swept, handle_finished_tasks-Swept}
use bolgenos_ng.Sched.Loop.{
  between, visiting, System, at, Step, begin_round, skip, Reach, here, later, unmasked, IsSafe,
  disabled,
}
use bolgenos_ng.Sched.Loop.Safety.{Reach-IsSafe}
use bolgenos_ng.Sched.Loop.Progress.{Reach-progress}

abbrev no_nodes : Nodes ℕ
no_nodes a = if a == 0x10 then some (record { next = 0; value = 0 }) else none

abbrev blank : Scheduler
blank = record {
  tasks = record { next = λ a. 0; prev = λ a. 0 };
  some_task = 0;
  finished_nodes = no_nodes;
  finished_tasks = 0x10;
  scheduler_task = 0;
  current = 0;
  task = λ a. none;
  next_task_id = 0;
  freed_stacks = [];
  interrupts = unmasked;
}

blank-Blank : Blank blank
blank-Blank = record { no_tasks = refl; no_finished = (omega arith, tt, refl, tt); synced = refl }

construct-Constructed_example :
    Returns
      (Constructed blank 1 2)
      (construct blank 0x100000 0x101000 0x200000 (1, 0x300000) (2, 0x310000))
construct-Constructed_example =
    construct-Constructed blank 0x100000 0x101000 0x200000 1 0x300000 2 0x310000 blank-Blank
      (omega arith) (omega arith) (omega arith) (omega arith) refl refl

abbrev task_of : ℕ → Bool → Task
task_of routine exited = record {
  routine = routine;
  arg = 0;
  id = 0;
  exited = exited;
  stack = 0x300000;
  esp = 0x30ffec;
}

abbrev nodes : Nodes ℕ
nodes a =
    if a == 0x10
    then some (record { next = 0x20; value = 0 })
    else if a == 0x20
    then some (record { next = 0; value = 2 })
    else none

abbrev one_finished : Scheduler
one_finished = record {
  tasks = record { next = λ a. if a == 1 then 2 else 1; prev = λ a. if a == 1 then 2 else 1 };
  some_task = 1;
  finished_nodes = nodes;
  finished_tasks = 0x10;
  scheduler_task = 1;
  current = 1;
  task = λ a.
      if a == 1
      then some (task_of 0x101000 false)
      else if a == 2
      then some (task_of 0x100000 true)
      else none;
  next_task_id = 2;
  freed_stacks = [];
  interrupts = unmasked;
}

abbrev both : List ℕ
both = 1 ∷ 2 ∷ []

abbrev finished : Cells ℕ
finished = (0x20, 2) ∷ []

one_finished-Inv : Inv one_finished both finished
one_finished-Inv = record {
  ring_ok = (
    refl,
    (refl, refl, (refl, refl)),
    ((omega arith, tt), (tt, tt)),
    (omega arith, (omega arith, tt)),
  );
  fin_ok = (omega arith, (omega arith, tt), refl, (omega arith, tt, refl, tt));
  live = ((_, refl), ((_, refl), tt));
  fin_within = (inr (inl refl), tt);
  fin_exited = ((_, refl, refl), tt);
  fin_once = (tt, tt);
  scheduler_within = inl refl;
  scheduler_runs = (_, refl, refl);
  current_within = inl refl;
  synced = refl;
}

handle_finished_tasks-Swept_example :
    Returns (Swept one_finished both finished) (handle_finished_tasks 2 one_finished)
handle_finished_tasks-Swept_example =
    handle_finished_tasks-Swept one_finished both finished one_finished-Inv refl 2 (omega arith)

-- A round in which no task is resumed: the first is the scheduler's, and the second has exited.
round : Reach (at one_finished between) (at (disabled one_finished) (visiting 1 1 2))
unfolding at_end should_schedule load_task get_next disabled disable
round =
    let s = disabled one_finished in
    later (later (later here (begin_round one_finished)) (skip s 1 1 0 2 refl refl refl))
      (skip s 1 2 1 1 refl refl refl)

start-IsSafe : IsSafe (at one_finished between)
start-IsSafe = (both, finished, one_finished-Inv, (refl, refl))

Reach-IsSafe_example : IsSafe (at (disabled one_finished) (visiting 1 1 2))
Reach-IsSafe_example = Reach-IsSafe start-IsSafe round

Reach-progress_example : (z : System) × Step (at (disabled one_finished) (visiting 1 1 2)) z
Reach-progress_example = Reach-progress start-IsSafe round
