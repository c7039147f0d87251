-- ===== src/Sched.antt =====
-- kernel/sched: scheduler.hpp, scheduler.cpp and task.cpp. A task is known by its address, and the
-- objects that `new` has made and `delete` has not taken back are `task`. The answers of `new`, of
-- `alloc_pages` and of the list's allocator are arguments. What `free_pages` is told is recorded.
-- The assembler of `switch_tasks_impl` stops the code of the one task and goes on with that of the
-- other, so `switch_to` stands here as what it does before, and `switched` as what it does when the
-- task is switched to again. The names, the log and the first frame of a stack are left out.
pub mod Inv
pub mod Create
pub mod Finish
pub mod Sweep
pub mod Start
pub mod Loop
use bolgenos_ng.Base.{
  ℕ, zero, suc, ◌+◌, ◌-◌, ◌*◌, ◌%◌, Bool, true, false, not, ◌&&◌, Option, none, some, List, [], ◌∷◌,
  ◌==◌, if◌then◌else◌,
}
use bolgenos_ng.Utils.MemUtils.{word}
use bolgenos_ng.Utils.ForwardList
use bolgenos_ng.Utils.ForwardList.{Nodes}
use bolgenos_ng.Utils.CircularList
use bolgenos_ng.Utils.CircularList.{Links, update}
use bolgenos_ng.Memory.Machine.{Run, ok, panicked, fault, ◌>>=◌}
use bolgenos_ng.Memory.FreeList.{page_size}
use bolgenos_ng.Irq.{Interrupts, is_enabled, enable, disable, with_irq_lock}

pub record Task : Type 0 where
  pub routine : ℕ
  pub arg : ℕ
  pub id : ℕ
  pub exited : Bool
  pub stack : ℕ
  pub esp : ℕ

pub record Scheduler : Type 0 where
  pub tasks : Links
  pub some_task : ℕ
  pub finished_nodes : Nodes ℕ
  pub finished_tasks : ℕ
  pub scheduler_task : ℕ
  pub current : ℕ
  pub task : ℕ → Option Task
  pub next_task_id : ℕ
  pub freed_stacks : List ℕ
  pub interrupts : Interrupts

abbrev pub stack_size : ℕ
stack_size = 16 * page_size

-- `sizeof(NewTaskStack)`
abbrev pub new_task_stack_size : ℕ
new_task_stack_size = 20

unfoldable pub set_task : (ℕ → Option Task) → ℕ → Option Task → ℕ → Option Task
set_task f p t a = if a == p then t else f a

unfoldable pub load_task : Scheduler → ℕ → Run Task
load_task s p = elim (s.task p) [ none ↦ fault | some t ↦ ok t ]

-- The constructor of Task; the node of a new object has null links.
unfoldable pub new_task : Scheduler → (routine arg answer stack : ℕ) → Scheduler
new_task s routine arg answer stack = record s {
  tasks = record { next = update s.tasks.next answer 0; prev = update s.tasks.prev answer 0 };
  task = set_task s.task answer (
      some (record {
        routine = routine;
        arg = arg;
        id = s.next_task_id;
        exited = false;
        stack = stack;
        esp = (stack + stack_size) % word;
      }));
  next_task_id = (s.next_task_id + 1) % word;
}

unfoldable pub create_task : Scheduler → (routine arg answer stack : ℕ) → Run (Scheduler × ℕ)
create_task s routine arg answer stack = if answer == 0 then fault else do
  let s1 = new_task s routine arg answer stack
  (tasks, some_task) ← CircularList.insert s1.tasks s1.some_task answer
  let s2 = record s1 { tasks = tasks; some_task = some_task }
  t ← load_task s2 answer
  let t' = record t { esp = (t.esp + word - new_task_stack_size) % word }
  ok (record s2 { task = set_task s2.task answer (some t') }, answer)

-- Up to the switch; the name of the task to leave is read for the log.
unfoldable pub switch_to : Scheduler → (task : ℕ) → Run Scheduler
switch_to s task = do
  on ← is_enabled s.interrupts
  if not on then panicked else do
    let (i, was) = disable s.interrupts
    prev ← load_task s s.current
    next ← load_task s task
    ok (record s { interrupts = i; current = task })

-- Back from the switch. A task that is switched to for the first time does the same, in `run`.
unfoldable pub switched : Scheduler → Scheduler
switched s = record s { interrupts = enable s.interrupts }

unfoldable pub yield_task : Scheduler → Run Scheduler
yield_task s = do s' ← switch_to s s.scheduler_task; ok (switched s')

unfoldable pub should_schedule : Scheduler → (task : ℕ) → Run Bool
should_schedule s task =
    if task == s.scheduler_task then ok false else do t ← load_task s task; ok (not t.exited)

-- `_finished_tasks.push_front(task)`, whose answer is dropped.
unfoldable pub push_finished : (task answer : ℕ) → Scheduler → Run (Scheduler × Unit {0})
push_finished task answer s = do
  (nodes, position) ← ForwardList.push_front s.finished_nodes 0 answer s.finished_tasks task
  ok (record s { finished_nodes = nodes }, tt)

abbrev pub set_interrupts : Scheduler → Interrupts → Scheduler
set_interrupts s i = record s { interrupts = i }

abbrev pub interrupts_of : Scheduler → Interrupts
interrupts_of s = s.interrupts

-- `handle_exit` up to its `yield`.
unfoldable pub handle_exit : Scheduler → (task answer : ℕ) → Run Scheduler
handle_exit s task answer = do
  (s', done) ← with_irq_lock interrupts_of set_interrupts (push_finished task answer) s
  ok s'

-- The end of `Task::run`, from the return of the routine to the first `yield`.
unfoldable pub finish_run : Scheduler → (task answer : ℕ) → Run Scheduler
finish_run s task answer = do
  t ← load_task s task
  handle_exit (record s { task = set_task s.task task (some (record t { exited = true })) }) task
      answer

-- `delete task;` with the destructor of Task.
unfoldable pub delete_task : Scheduler → (task : ℕ) → Run Scheduler
delete_task s task = do
  t ← load_task s task
  ok (record s { task = set_task s.task task none; freed_stacks = t.stack ∷ s.freed_stacks })

-- The body of the loop of `handle_finished_tasks`.
unfoldable pub handle_finished_task : Scheduler → (task : ℕ) → Run Scheduler
handle_finished_task s task = do
  ((tasks, some_task), following) ← CircularList.remove s.tasks s.some_task task
  delete_task (record s { tasks = tasks; some_task = some_task }) task

abbrev pub finished_of : Scheduler → Nodes ℕ
finished_of s = s.finished_nodes

unfoldable pub sweep : (fuel : ℕ) → Scheduler → Run (Scheduler × Unit {0})
sweep fuel s = do
  s1 ← ForwardList.for_range finished_of handle_finished_task fuel s s.finished_tasks
  nodes ← ForwardList.clear fuel s1.finished_nodes s1.finished_tasks
  ok (record s1 { finished_nodes = nodes }, tt)

unfoldable pub handle_finished_tasks : (fuel : ℕ) → Scheduler → Run Scheduler
handle_finished_tasks fuel s = do
  (s', done) ← with_irq_lock interrupts_of set_interrupts (sweep fuel) s
  ok s'

-- The body of the constructor's lock, and the constructor. `routine` is `scheduling_task_routine`.
unfoldable pub construct_tasks :
    (main_continuation routine this : ℕ)
    → (first second : ℕ × ℕ) → Scheduler
    → Run (Scheduler × Unit {0})
construct_tasks main_continuation routine this first second s =
    if main_continuation == 0 then panicked else do
      (s1, t) ← create_task s routine this first.0 first.1
      let s2 = record s1 { scheduler_task = t }
      (s3, m) ← create_task s2 main_continuation 0 second.0 second.1
      ok (record s3 { current = s3.scheduler_task }, tt)

unfoldable pub construct :
    Scheduler → (main_continuation routine this : ℕ) → (first second : ℕ × ℕ) → Run Scheduler
construct s main_continuation routine this first second = do
  (s', done) ←
      with_irq_lock interrupts_of set_interrupts
        (construct_tasks main_continuation routine this first second) s
  ok s'
