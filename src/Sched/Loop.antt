-- ===== src/Sched/Loop.antt =====
-- `schedule_forever` of scheduler.cpp together with the tasks that it switches to, as steps of one
-- machine: a step ends where control passes from the scheduler to a task or back, or where the code
-- between can take one way or another. A task runs with interrupts on; what it does to the
-- scheduler is to create tasks, to yield and to end.
pub mod Steps
pub mod Safety
pub mod Progress
use bolgenos_ng.Base.{ℕ, ◌+◌, ◌%◌, ◌≡◌, ◌≢◌, Bool, true, false, Option, none, some, List}
use bolgenos_ng.Utils.MemUtils.{word}
use bolgenos_ng.Utils.ForwardList.Linked.{Cells}
use bolgenos_ng.Utils.CircularList.{get_next, at_end}
use bolgenos_ng.Memory.Machine.{ok}
use bolgenos_ng.Irq.{Interrupts, enable, disable}
use bolgenos_ng.Irq.Locking.{masked}
use bolgenos_ng.Sched.{
  Task, Scheduler, set_interrupts, should_schedule, switch_to, switched, create_task, finish_run,
  yield_task, handle_finished_tasks,
}
use bolgenos_ng.Sched.Inv.{Within, IsTask, Inv}

-- Between two rounds; in the loop at `node`; in the loop at `node`, whose task runs. `start` is the
-- node of the end iterator.
pub data Position : Type 0 where
  between : Position
  visiting : (start node shift : ℕ) → Position
  running : (start node shift : ℕ) → Position

pub record System : Type 0 where
  pub scheduler : Scheduler
  pub position : Position

abbrev pub at : Scheduler → Position → System
at s position = record { scheduler = s; position = position }

unfoldable pub disabled : Scheduler → Scheduler
disabled s = set_interrupts s (disable s.interrupts).0

pub data Step : System → System → Type 0 where
  begin_round :
      (s : Scheduler) → Step (at s between) (at (disabled s) (visiting s.some_task s.some_task 0))
  skip :
      (s : Scheduler) (start node shift following : ℕ)
      → at_end node shift start ≡ false
      → should_schedule s node ≡ ok false
      → get_next s.tasks node ≡ ok following
      → Step
          (at s (visiting start node shift))
          (at s (visiting start following ((shift + 1) % word)))
  resume :
      (s : Scheduler) (start node shift : ℕ) (s' : Scheduler)
      → at_end node shift start ≡ false
      → should_schedule s node ≡ ok true
      → switch_to (switched s) node ≡ ok s'
      → Step (at s (visiting start node shift)) (at (switched s') (running start node shift))
  create :
      (s : Scheduler) (start node shift routine arg p stack : ℕ) (r : Scheduler × ℕ)
      → IsTask s.task false s.current
      → s.task p ≡ none
      → create_task s routine arg p stack ≡ ok r
      → Step (at s (running start node shift)) (at r.0 (running start node shift))
  finish :
      (s : Scheduler) (start node shift answer : ℕ) (s' : Scheduler)
      → IsTask s.task false s.current
      → (answer ≢ 0 → s.finished_nodes answer ≡ none)
      → finish_run s s.current answer ≡ ok s'
      → Step (at s (running start node shift)) (at s' (running start node shift))
  yield_back :
      (s : Scheduler) (start node shift following : ℕ) (s' : Scheduler)
      → yield_task s ≡ ok s'
      → get_next s'.tasks node ≡ ok following
      → Step
          (at s (running start node shift))
          (at (disabled s') (visiting start following ((shift + 1) % word)))
  end_round :
      (s : Scheduler) (start node shift fuel : ℕ) (s' : Scheduler)
      → at_end node shift start ≡ true
      → handle_finished_tasks fuel s ≡ ok s'
      → Step (at s (visiting start node shift)) (at (switched s') between)

pub data Reach (x : System) : System → Type 0 where
  here : Reach x x
  later : {y z : System} → Reach x y → Step y z → Reach x z

abbrev pub unmasked : Interrupts
unmasked = record { flag = true; enabled = true }

-- Who runs, and with which interrupts.
abbrev pub Fits : Scheduler → List ℕ → Position → Type 0
Fits s ring between = (s.current ≡ s.scheduler_task) × (s.interrupts ≡ unmasked)
Fits s ring (visiting start node shift) =
    (s.current ≡ s.scheduler_task) × (s.interrupts ≡ masked) × Within node ring
Fits s ring (running start node shift) =
    (s.current ≡ node) × (s.interrupts ≡ unmasked) × Within node ring × (node ≢ s.scheduler_task)

abbrev pub IsSafe : System → Type 0
IsSafe x =
    (ring : List ℕ) × (fin : Cells ℕ) × Inv x.scheduler ring fin × Fits x.scheduler ring x.position
