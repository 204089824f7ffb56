-- ===== src/Pipeline/Engine/Progress.antt =====
-- internal/pipeline/engine.go: the engine is never stuck before its workers have returned.
use go_core_lab.Common.{
  ℕ, zero, suc, ◌≤◌, ◌<◌, ◌≡◌, ◌⊎◌, inl, inr, refl, ap, ◌∙◌, true, false, Bool-cases, List, [], ◌∷◌,
  ◌++◌, Option, none, some, length, All, ok, leb, leb→le, arith,
}
use go_core_lab.Pipeline.Types.{IngestionEvent, PipelineEvent}
use go_core_lab.Pipeline.Engine.{
  EngineConfig, Worker, idle, holds, to_stats, to_ring, returned, Engine, Turns, Step, enqueue,
  drop_event, close_exhausted, receive, discard, dissect, count, keep, return_worker, process,
  Reaches, stepped,
}
use go_core_lab.Pipeline.Engine.Workers.{left, leaves}
use go_core_lab.Pipeline.Engine.Work.{work_left, is_cancel, Step-less}
use go_core_lab.Pipeline.Engine.Live.{Handled, CanGoOn, Live, on_event-Takes, Reaches-Live}

-- A worker that has not returned, among the others.
record Busy (cfg : EngineConfig) (ws : List Worker) : Type 0 where
  before : List Worker
  worker : Worker
  behind : List Worker
  now : ws ≡ before ++ (worker ∷ behind)
  here : left worker ≡ 0
  able : CanGoOn cfg worker

later-Busy : {cfg : EngineConfig} (w : Worker) {ws : List Worker} → Busy cfg ws → Busy cfg (w ∷ ws)
later-Busy w b = record {
  before = w ∷ b.before;
  worker = b.worker;
  behind = b.behind;
  now = ap (λ l. w ∷ l) b.now;
  here = b.here;
  able = b.able;
}

first-Busy :
    {cfg : EngineConfig} (w : Worker) (ws : List Worker)
    → left w ≡ 0
    → CanGoOn cfg w
    → Busy cfg (w ∷ ws)
first-Busy w ws h a = record {
  before = [];
  worker = w;
  behind = ws;
  now = refl;
  here = h;
  able = a;
}

find-Busy :
    {cfg : EngineConfig} (ws : List Worker)
    → All (CanGoOn cfg) ws
    → (leaves ws ≡ length ws) ⊎ Busy cfg ws
find-Busy [] all = inl refl
find-Busy (idle ∷ ws) (a, all) = inr (first-Busy idle ws refl a)
find-Busy (holds event ∷ ws) (a, all) = inr (first-Busy (holds event) ws refl a)
find-Busy (to_stats p ∷ ws) (a, all) = inr (first-Busy (to_stats p) ws refl a)
find-Busy (to_ring p ∷ ws) (a, all) = inr (first-Busy (to_ring p) ws refl a)
find-Busy (returned ∷ ws) (a, all) = elim (find-Busy ws all) [
  | inl e ↦ inl (omega (arith, e))
  | inr b ↦ inr (later-Busy returned b)
]

-- A run from one state to another, step by step.
pub data Steps (cfg : EngineConfig) : Engine → Engine → Type 0 where
  stay : {e : Engine} → Steps cfg e e
  go : {e next end : Engine} → Step cfg e next → Steps cfg next end → Steps cfg e end

-- A step that is no cancellation, and takes from the work.
pub record Advance (cfg : EngineConfig) (e : Engine) : Type 0 where
  pub next : Engine
  pub step : Step cfg e next
  pub less : work_left next < work_left e
  pub calm : next.cancelled ≡ e.cancelled

module _ (cfg : EngineConfig) {e : Engine} where
  advance :
      {next : Engine} (s : Step cfg e next)
      → is_cancel s ≡ false
      → next.cancelled ≡ e.cancelled
      → Advance cfg e
  advance {next} s h calm = record { next = next; step = s; less = Step-less s h; calm = calm }

module _ (cfg : EngineConfig) (e : Engine) (live : Live cfg e) (before behind : List Worker) where
  abbrev turned_to : Worker → List Worker
  turned_to w = before ++ (w ∷ behind)

  turn : {from : Worker} (to : Worker) → e.workers ≡ turned_to from → Turns e from to (turned_to to)
  turn to now = record { before = before; behind = behind; now = now; next = refl }

  idle_advances :
      e.workers ≡ turned_to idle
      → (queue : List IngestionEvent) → e.queue ≡ queue
      → (0 < length e.queue) ⊎ (e.closed ≡ true)
      → Advance cfg e
  idle_advances now (event ∷ rest) next more =
      advance cfg (receive e event rest (turned_to (holds event)) next (turn (holds event) now))
        refl refl
  idle_advances now [] empty (inr closed) =
      advance cfg (return_worker e (turned_to returned) empty closed (turn returned now)) refl refl
  idle_advances now [] empty (inl waiting) = absurd (omega (arith, ap length empty))

  answered :
      (event : IngestionEvent) (o : Option PipelineEvent)
      → process cfg 0 0 event ≡ ok o
      → e.workers ≡ turned_to (holds event)
      → Advance cfg e
  answered event none done now =
      advance cfg (discard e event 0 0 (turned_to idle) done (turn idle now)) refl refl
  answered event (some p) done now =
      advance cfg (dissect e event p 0 0 (turned_to (to_stats p)) done (turn (to_stats p) now)) refl
        refl

  -- A worker that has not returned goes on, if there is an event for it or no more will come.
  worker_advances :
      (w : Worker)
      → e.workers ≡ turned_to w
      → left w ≡ 0
      → CanGoOn cfg w
      → (0 < length e.queue) ⊎ (e.closed ≡ true)
      → Advance cfg e
  worker_advances idle now here able more = idle_advances now e.queue refl more
  worker_advances (holds event) now here able more =
      let (o, done) = able 0 0 in answered event o done now
  worker_advances (to_stats p) now here able more =
      advance cfg (count e p (turned_to (to_ring p)) (turn (to_ring p) now)) refl refl
  worker_advances (to_ring p) now here able more =
      let (ring, kept) = on_event-Takes p e.ring live.ring in
      advance cfg (keep e p ring (turned_to idle) kept (turn idle now)) refl refl
  worker_advances returned now here able more = absurd (omega (arith, here))

module _ (cfg : EngineConfig) (e : Engine) (live : Live cfg e) (workers : 0 < cfg.num_workers)
    (room : 0 < cfg.queue_size) where
  busy_advances : Busy cfg e.workers → (0 < length e.queue) ⊎ (e.closed ≡ true) → Advance cfg e
  busy_advances b more =
      worker_advances cfg e live b.before b.behind b.worker b.now b.here b.able more

  -- A full queue that is not closed has a worker that takes from it.
  full_advances : e.closed ≡ false → cfg.queue_size ≤ length e.queue → Advance cfg e
  full_advances unclosed full = elim (find-Busy e.workers live.workers) [
    | inl all ↦ absurd (omega (arith, all, live.none_left unclosed, live.crew))
    | inr b ↦ busy_advances b (inl (omega arith))
  ]

  dispatcher_advances :
      (source : List IngestionEvent) → e.source ≡ source → e.closed ≡ false → Advance cfg e
  dispatcher_advances [] nothing unclosed =
      advance cfg (close_exhausted e unclosed nothing) refl refl
  dispatcher_advances (event ∷ rest) next unclosed =
      elim (Bool-cases (leb cfg.queue_size (length e.queue))) [
        | inr h ↦ advance cfg (enqueue e event rest unclosed next (ground arith)) refl refl
        | inl full ↦ elim (Bool-cases cfg.drop_on_backpressure) [
          | inl drops ↦
              advance cfg
                (drop_event e event rest unclosed next drops
                  (leb→le cfg.queue_size (length e.queue) full))
                refl refl
          | inr blocks ↦ full_advances unclosed (leb→le cfg.queue_size (length e.queue) full)
        ]
      ]

  all_returned_or_advances : (leaves e.workers ≡ length e.workers) ⊎ Advance cfg e
  all_returned_or_advances = elim (Bool-cases e.closed) [
    | inr unclosed ↦ inr (dispatcher_advances e.source refl unclosed)
    | inl closed ↦ elim (find-Busy e.workers live.workers) [
      | inl all ↦ inl all
      | inr b ↦ inr (busy_advances b (inr closed))
    ]
  ]

module _ (cfg : EngineConfig) (events : List IngestionEvent) (workers : 0 < cfg.num_workers)
    (room : 0 < cfg.queue_size) (handled : All (Handled cfg) events) where
  -- An engine with a worker and room in its queue, for whose events no dissection panics, is never
  -- stuck: in every state that it comes to, all of its workers have returned, or some goroutine has a
  -- step that is no cancellation and leaves less work than before.
  pub Reaches-Advance :
      (e : Engine) → Reaches cfg events e → (leaves e.workers ≡ cfg.num_workers) ⊎ Advance cfg e
  Reaches-Advance e r =
      let live = Reaches-Live handled r in
      elim (all_returned_or_advances cfg e live workers room) [
        | inl all ↦ inl (all ∙ live.crew)
        | inr a ↦ inr a
      ]

  -- A state to which a run from `e` leads, in which every worker has returned.
  record Finish (e : Engine) : Type 0 where
    end : Engine
    path : Steps cfg e end
    all_returned : leaves end.workers ≡ cfg.num_workers
    calm : end.cancelled ≡ e.cancelled

  finished : (e : Engine) → leaves e.workers ≡ cfg.num_workers → Finish e
  finished e all = record { end = e; path = stay; all_returned = all; calm = refl }

  finishes_within : (n : ℕ) (e : Engine) → Reaches cfg events e → work_left e ≤ n → Finish e
  finishes_within zero e r h = elim (Reaches-Advance e r) [
    | inl all ↦ finished e all
    | inr a ↦ absurd (omega (arith, a.less))
  ]
  finishes_within (suc n) e r h = elim (Reaches-Advance e r) [
    | inl all ↦ finished e all
    | inr a ↦
        let f = finishes_within n a.next (stepped r a.step) (omega (arith, a.less)) in
        record {
          end = f.end;
          path = go a.step f.path;
          all_returned = f.all_returned;
          calm = f.calm ∙ a.calm;
        }
  ]

  -- From every state that an engine comes to which has a worker and room in its queue, and for whose
  -- events no dissection panics, steps lead to a state in which every worker has returned, and which is
  -- cancelled exactly if the first one was.
  pub Reaches-finishes :
      (e : Engine)
      → Reaches cfg events e
      → (end : Engine) × Steps cfg e end
        × (leaves end.workers ≡ cfg.num_workers)
        × (end.cancelled ≡ e.cancelled)
  Reaches-finishes e r =
      let f = finishes_within (work_left e) e r (omega arith) in
      (f.end, f.path, f.all_returned, f.calm)
