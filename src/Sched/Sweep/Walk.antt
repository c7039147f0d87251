-- ===== src/Sched/Sweep/Walk.antt =====
-- The loop over the finished tasks.
use bolgenos_ng.Base.{
  ℕ, ◌≡◌, ◌≢◌, refl, sym, ◌∙◌, ap, subst, Option, none, some, List, [], ◌∷◌, ◌++◌,
}
use bolgenos_ng.Base.All.{All, Apart, Distinct, All-map, All-both}
use bolgenos_ng.Utils.CircularList
use bolgenos_ng.Utils.CircularList.{Links}
use bolgenos_ng.Utils.CircularList.Ring.{Ring}
use bolgenos_ng.Utils.CircularList.Remove.{Removed, remove-Removed}
use bolgenos_ng.Memory.Machine.{
  ok, Returns, Returns-bind, Returns-mono, walk, bind-ok, ok-injective,
}
use bolgenos_ng.Sched.{
  Task, Scheduler, set_task, load_task, finished_of, delete_task, handle_finished_task,
}
use bolgenos_ng.Sched.Inv.{
  Within, IsLive, set_task_self, set_task_ne, set_task-All, Within-All, Within-split, load_task_lem,
}
use bolgenos_ng.Sched.Sweep.Strike.{
  Ring-Distinct, without, strike, without-split, Ring-before, Apart-without, All-without,
  Within-without,
}

-- What becomes of one finished task.
pub record Gone (s : Scheduler) (ring : List ℕ) (p : ℕ) (k : Task) (s' : Scheduler) : Type 0 where
  pub ring_ok : Ring s'.tasks s'.some_task (without p ring)
  pub rest : s' ≡ record s {
    tasks = s'.tasks;
    some_task = s'.some_task;
    task = set_task s.task p none;
    freed_stacks = k.stack ∷ s.freed_stacks;
  }

handle_finished_task-Gone :
    (s : Scheduler) (ring : List ℕ) (p : ℕ) (k : Task)
    → Ring s.tasks s.some_task ring
    → Within p ring
    → s.task p ≡ some k
    → Returns (Gone s ring p k) (handle_finished_task s p)
unfolding handle_finished_task delete_task
handle_finished_task-Gone s ring p k ring_ok within at_p =
    let (pre, suf, e) = Within-split p ring within in
    let split : Ring s.tasks s.some_task (pre ++ p ∷ suf) =
      subst (Ring s.tasks s.some_task) e ring_ok in
    let shorter : pre ++ suf ≡ without p ring = sym (
      ap (without p) e
      ∙ without-split p pre suf (Ring-before s.tasks s.some_task pre p suf split)) in
    Returns-bind (Removed s.tasks pre p suf) (Gone s ring p k) _ _
      (remove-Removed s.tasks s.some_task pre p suf split)
      λ r removed.
        rw (load_task_lem (record s { tasks = r.0.0; some_task = r.0.1 }) p k at_p)
          (record { ring_ok = subst (Ring r.0.0 r.0.1) shorter removed.ring; rest = refl })

abbrev pub stack_of : Option Task → ℕ
stack_of none = 0
stack_of (some k) = k.stack

-- The stacks of the tasks `ps`, the last in front of `acc`.
abbrev pub stacks : (ℕ → Option Task) → List ℕ → List ℕ → List ℕ
stacks task [] acc = acc
stacks task (p ∷ ps) acc = stacks task ps (stack_of (task p) ∷ acc)

stacks-same :
    (f g : ℕ → Option Task) (ps acc : List ℕ)
    → All (λ q. f q ≡ g q) ps
    → stacks f ps acc ≡ stacks g ps acc
stacks-same f g [] acc h = refl
stacks-same f g (p ∷ ps) acc h = rw h.0 (stacks-same f g ps (stack_of (g p) ∷ acc) h.1)

-- What becomes of the tasks `ps`.
pub record Walked (s : Scheduler) (ring ps : List ℕ) (s' : Scheduler) : Type 0 where
  pub ring_ok : Ring s'.tasks s'.some_task (strike ring ps)
  pub live : All (IsLive s'.task) (strike ring ps)
  pub gone : All (λ q. s'.task q ≡ none) ps
  pub others : (q : ℕ) → Apart q ps → s'.task q ≡ s.task q
  pub freed : s'.freed_stacks ≡ stacks s.task ps s.freed_stacks
  pub rest : s' ≡ record s {
    tasks = s'.tasks;
    some_task = s'.some_task;
    task = s'.task;
    freed_stacks = s'.freed_stacks;
  }

Walked-step :
    (s : Scheduler) (ring : List ℕ) (p : ℕ) (ps : List ℕ) (k : Task) (s1 s' : Scheduler)
    → s.task p ≡ some k
    → Apart p ps
    → Gone s ring p k s1
    → Walked s1 (without p ring) ps s'
    → Walked s ring (p ∷ ps) s'
Walked-step s ring p ps k s1 s' at_p out g w =
    let task1 : s1.task ≡ set_task s.task p none = ap (λ (u : Scheduler). u.task) g.rest in
    let same : (q : ℕ) → q ≢ p → s1.task q ≡ s.task q =
      λ q ne. ap (λ (f : ℕ → Option Task). f q) task1 ∙ set_task_ne s.task p q none ne in
    let freed1 : s1.freed_stacks ≡ stack_of (s.task p) ∷ s.freed_stacks =
      ap (λ (u : Scheduler). u.freed_stacks) g.rest
      ∙ ap (λ (t : Option Task). stack_of t ∷ s.freed_stacks) (sym at_p) in
    record {
      ring_ok = w.ring_ok;
      live = w.live;
      gone = (
        w.others p out ∙ ap (λ (f : ℕ → Option Task). f p) task1 ∙ set_task_self s.task p none,
        w.gone,
      );
      others = λ q away. w.others q away.1 ∙ same q away.0;
      freed =
          w.freed
          ∙ stacks-same s1.task s.task ps s1.freed_stacks
              (All-map _ _ ps (λ q ne. same q (λ e. ne (sym e))) out)
          ∙ ap (stacks s.task ps) freed1;
      rest =
          w.rest
          ∙ ap
              (λ (u : Scheduler). record u {
                tasks = s'.tasks;
                some_task = s'.some_task;
                task = s'.task;
                freed_stacks = s'.freed_stacks;
              })
              g.rest;
    }

pub walk-Walked :
    (ps ring : List ℕ) (s : Scheduler)
    → Ring s.tasks s.some_task ring
    → All (IsLive s.task) ring
    → All (λ q. Within q ring) ps
    → Distinct ps
    → Returns (Walked s ring ps) (walk handle_finished_task s ps)
walk-Walked [] ring s ring_ok live within once = record {
  ring_ok = ring_ok;
  live = live;
  gone = tt;
  others = λ q out. refl;
  freed = refl;
  rest = refl;
}
walk-Walked (p ∷ ps) ring s ring_ok live within once =
    let (k, at_p) = Within-All (IsLive s.task) p ring within.0 live in
    Returns-bind (Gone s ring p k) (Walked s ring (p ∷ ps)) (handle_finished_task s p) _
      (handle_finished_task-Gone s ring p k ring_ok within.0 at_p)
      λ s1 g.
        let task1 : s1.task ≡ set_task s.task p none = ap (λ (u : Scheduler). u.task) g.rest in
        let out = Apart-without p ring (Ring-Distinct s.tasks s.some_task ring ring_ok) in
        let live1 : All (IsLive s1.task) (without p ring) =
          subst (λ f. All (IsLive f) (without p ring)) (sym task1)
            (set_task-All (λ t. (k : Task) × (t ≡ some k)) s.task p none (without p ring) out
              (All-without _ p ring live)) in
        Returns-mono (Walked s1 (without p ring) ps) (Walked s ring (p ∷ ps)) _
          (walk-Walked ps (without p ring) s1 g.ring_ok live1
            (All-both _ _ _ ps (λ q w ne. Within-without q p ring w (λ e. ne (sym e))) within.1
              once.0)
            once.1)
          λ s' w. Walked-step s ring p ps k s1 s' at_p once.0 g w

delete_task_keeps :
    (s : Scheduler) (p : ℕ) (s' : Scheduler)
    → delete_task s p ≡ ok s'
    → finished_of s' ≡ finished_of s
unfolding delete_task
delete_task_keeps s p s' e =
    let left = λ (t : Task). record s {
      task = set_task s.task p none;
      freed_stacks = t.stack ∷ s.freed_stacks;
    } in
    let (t, loaded, e1) = bind-ok (load_task s p) (λ (t : Task). ok (left t)) s' e in
    ap finished_of (sym (ok-injective (left t) s' e1))

pub handle_finished_task_keeps :
    (s : Scheduler) (p : ℕ) (s' : Scheduler)
    → handle_finished_task s p ≡ ok s'
    → finished_of s' ≡ finished_of s
unfolding handle_finished_task
handle_finished_task_keeps s p s' e =
    let left = λ (r : (Links × ℕ) × ℕ). record s { tasks = r.0.0; some_task = r.0.1 } in
    let (r, removed, e1) =
      bind-ok (CircularList.remove s.tasks s.some_task p)
        (λ (r : (Links × ℕ) × ℕ). delete_task (left r) p) s' e in
    delete_task_keeps (left r) p s' e1
