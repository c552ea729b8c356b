-- ===== src/Scheduler/Collect.antt =====
-- pkg/executor/scheduler/scheduler.go: what a task and its followups put out, described
-- without goroutines. `Safe` is the worlds that the calls may be made in.
use bonk.Base.{
  ℕ, suc, ◌+◌, String, List, [], ◌∷◌, ◌++◌, none, ◌≡◌, refl, arith, count, count-append,
}
use bonk.Task.Value.{Task, Session}
use bonk.Executor.{Executor}
use bonk.Scheduler.{Routine, begun, handing_over, child_call, after_call}

module _ {W : Type 0} (exec : Executor W) (session : Session) (Safe : W → Type 0) where
  -- In every safe world the child runs the task without an error and into a safe world, and what is
  -- left to do then is to hand over `fs` and to put out `os`.
  pub record Answers (tsk : Task) (fs : List Task) (os : List String) : Type 0 where
    pub succeeds : (w : W) → Safe w → (child_call exec session tsk w).err ≡ none
    pub stays : (w : W) → Safe w → Safe (child_call exec session tsk w).world
    pub leaves :
        (w : W)
        → Safe w
        → after_call exec session (child_call exec session tsk w) ≡ handing_over fs os

  -- The task and all tasks that follow from it run without an error, put out `os`, and take `n`
  -- steps.
  mutual
    pub data Collects : Task → List String → ℕ → Type 0 where
      node :
          {tsk : Task} {os : List String} {n : ℕ} (fs : List Task) (own rest : List String) (m : ℕ)
          → Answers tsk fs own
          → CollectsAll fs rest m
          → os ≡ own ++ rest
          → n ≡ suc (suc m)
          → Collects tsk os n

    pub data CollectsAll : List Task → List String → ℕ → Type 0 where
      none_left : CollectsAll [] [] 0
      one_more :
          {tsk : Task} {tsks : List Task} {total : List String} {k : ℕ} (os more : List String)
          (n m : ℕ)
          → Collects tsk os n
          → CollectsAll tsks more m
          → total ≡ os ++ more
          → k ≡ suc (n + m)
          → CollectsAll (tsk ∷ tsks) total k

  -- The same for a routine, for all of a group, from where they stand.
  abbrev pub RoutineCollects : Routine → List String → ℕ → Type 0
  RoutineCollects (begun tsk) os n = Collects tsk os n
  RoutineCollects (handing_over fs own) os n =
      (rest : List String) × (m : ℕ) × CollectsAll fs rest m × (os ≡ own ++ rest) × (n ≡ suc m)

  pub data GroupCollects : List Routine → List String → ℕ → Type 0 where
    idle : GroupCollects [] [] 0
    both :
        {g : Routine} {gs : List Routine} {total : List String} {k : ℕ} (os more : List String)
        (n m : ℕ)
        → RoutineCollects g os n
        → GroupCollects gs more m
        → total ≡ os ++ more
        → k ≡ n + m
        → GroupCollects (g ∷ gs) total k

  -- A group apart from one of its routines.
  pub record Apart (g : Routine) (gs : List Routine) (total : List String) (k : ℕ) : Type 0 where
    pub os : List String
    pub more : List String
    pub n : ℕ
    pub m : ℕ
    pub one : RoutineCollects g os n
    pub others : GroupCollects gs more m
    pub counted : (a : String) → count a total ≡ count a os + count a more
    pub steps : k ≡ n + m

  pub apart :
      (xs ys : List Routine) (g : Routine) (total : List String) (k : ℕ)
      → GroupCollects (xs ++ (g ∷ ys)) total k
      → Apart g (xs ++ ys) total k
  apart [] ys g total k (both os more n m c rest e f) = record {
    os = os;
    more = more;
    n = n;
    m = m;
    one = c;
    others = rest;
    counted = λ a. rw e (count-append a os more);
    steps = f;
  }
  apart (x ∷ xs) ys g total k (both os more n m c rest e f) =
      let r = apart xs ys g more m rest in
      record {
        os = r.os;
        more = os ++ r.more;
        n = r.n;
        m = n + r.m;
        one = r.one;
        others = both os r.more n r.m c r.others refl refl;
        counted = λ a.
            rw e (omega (arith, count-append a os more, count-append a os r.more, r.counted a));
        steps = omega (arith, f, r.steps);
      }

  -- No task left: no output and no step.
  pub none_left_only : {os : List String} {k : ℕ} → CollectsAll [] os k → (os ≡ []) × (k ≡ 0)
  none_left_only none_left = (refl, refl)

  -- The first of several tasks, and the others.
  pub record First (tsk : Task) (tsks : List Task) (total : List String) (k : ℕ) : Type 0 where
    pub os : List String
    pub more : List String
    pub n : ℕ
    pub m : ℕ
    pub one : Collects tsk os n
    pub others : CollectsAll tsks more m
    pub split : total ≡ os ++ more
    pub steps : k ≡ suc (n + m)

  pub first :
      {tsk : Task} {tsks : List Task} {total : List String} {k : ℕ}
      → CollectsAll (tsk ∷ tsks) total k
      → First tsk tsks total k
  first (one_more os more n m c rest e f) = record {
    os = os;
    more = more;
    n = n;
    m = m;
    one = c;
    others = rest;
    split = e;
    steps = f;
  }

  pub idle_only : {os : List String} {k : ℕ} → GroupCollects [] os k → (os ≡ []) × (k ≡ 0)
  idle_only idle = (refl, refl)
