-- ===== src/Pipeline/Engine/Work.antt =====
-- internal/pipeline/engine.go: how much work is left, which each step of a goroutine takes from.
use go_core_lab.Common.{
  ℕ, ◌+◌, ◌*◌, ◌<◌, ◌≡◌, ◌⊎◌, inl, inr, sym, ap, Bool, true, false, Bool-cases, List, [], ◌∷◌, ◌++◌,
  length, length-append, arith,
}
use go_core_lab.Pipeline.Engine.{
  EngineConfig, Worker, idle, holds, to_stats, to_ring, returned, Engine, Turns, Step, enqueue,
  drop_event, abandon, close_cancelled, close_exhausted, cancel, receive, discard, dissect, count,
  keep, return_worker,
}

-- The steps that a worker has ahead, if no other event comes.
abbrev pub ahead : Worker → ℕ
ahead idle = 1
ahead (holds event) = 4
ahead (to_stats p) = 3
ahead (to_ring p) = 2
ahead returned = 0

abbrev pub work : List Worker → ℕ
work [] = 0
work (w ∷ ws) = ahead w + work ws

-- 1 for what has still to happen.
abbrev pub outstanding : Bool → ℕ
outstanding true = 0
outstanding false = 1

abbrev pub work_left : Engine → ℕ
work_left e =
    6 * length e.source
    + 5 * length e.queue
    + work e.workers
    + outstanding e.closed
    + outstanding e.cancelled

work-append : (xs ys : List Worker) → work (xs ++ ys) ≡ work xs + work ys
work-append [] ys = omega arith
work-append (x ∷ xs) ys = omega (arith, work-append xs ys)

turn_work :
    {e : Engine} {from to : Worker} {workers : List Worker}
    → Turns e from to workers
    → work workers + ahead from ≡ work e.workers + ahead to
turn_work {e} {from} {to} t =
    rw (t.now, t.next)
      (omega (arith, work-append t.before (from ∷ t.behind), work-append t.before (to ∷ t.behind)))

abbrev pub is_cancel : {cfg : EngineConfig} {e e' : Engine} → Step cfg e e' → Bool
is_cancel (cancel e) = true
is_cancel s = false

pub Step-less :
    {cfg : EngineConfig} {e e' : Engine} (s : Step cfg e e')
    → is_cancel s ≡ false
    → work_left e' < work_left e
Step-less (enqueue e event rest unclosed next room) h =
    (omega (arith, ap length next, length-append e.queue (event ∷ [])))
Step-less (drop_event e event rest unclosed next dropping full) h = (omega (arith, ap length next))
Step-less (abandon e event rest unclosed next blocking cancelled) h =
    (omega (arith, ap length next, ap outstanding unclosed))
Step-less (close_cancelled e unclosed cancelled) h = (omega (arith, ap outstanding unclosed))
Step-less (close_exhausted e unclosed nothing) h = (omega (arith, ap outstanding unclosed))
Step-less (cancel e) h = absurd cc
Step-less (receive e event rest workers next t) h = (omega (arith, ap length next, turn_work t))
Step-less (discard e event worker_id latency workers done t) h = (omega (arith, turn_work t))
Step-less (dissect e event p worker_id latency workers done t) h = (omega (arith, turn_work t))
Step-less (count e p workers t) h = (omega (arith, turn_work t))
Step-less (keep e p ring workers kept t) h = (omega (arith, turn_work t))
Step-less (return_worker e workers empty closed t) h = (omega (arith, turn_work t))

cancel-decreases :
    {cfg : EngineConfig} {e e' : Engine} (s : Step cfg e e')
    → is_cancel s ≡ true
    → (work_left e' < work_left e) ⊎ ((e.cancelled ≡ true) × (e' ≡ e))
cancel-decreases (cancel e) h = elim (Bool-cases e.cancelled) [
  | inl done ↦ inr (done, ap (λ c. record e { cancelled = c }) (sym done))
  | inr not_yet ↦ inl (omega (arith, ap outstanding not_yet))
]
cancel-decreases s h = absurd cc

-- Each step of the engine, whichever goroutine takes it, leaves less work than before; the only
-- exception is a cancellation of an engine that is cancelled already, which changes nothing.
pub Step-decreases :
    {cfg : EngineConfig} {e e' : Engine} (s : Step cfg e e')
    → (work_left e' < work_left e) ⊎ ((is_cancel s ≡ true) × (e.cancelled ≡ true) × (e' ≡ e))
Step-decreases s = elim (Bool-cases (is_cancel s)) [
  | inr h ↦ inl (Step-less s h)
  | inl h ↦ elim (cancel-decreases s h) [
    | inl less ↦ inl less
    | inr (cancelled, same) ↦ inr (h, cancelled, same)
  ]
]
