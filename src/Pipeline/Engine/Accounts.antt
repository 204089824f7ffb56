-- ===== src/Pipeline/Engine/Accounts.antt =====
-- internal/pipeline/engine.go: where the events of the source are, before and after each step.
use go_core_lab.Common.{
  ℕ, ◌+◌, ◌^◌, ◌<◌, ◌≤◌, ◌≡◌, refl, ap, ◌∙◌, true, false, List, [], ◌∷◌, ◌++◌, length,
  length-append, length-replicate, arith,
}
use go_core_lab.Pipeline.Types.{IngestionEvent}
use go_core_lab.Pipeline.RingBuffer.{RingBufferSink}
use go_core_lab.Pipeline.Stats.{StatsSink, on_stats_event, record_drop}
use go_core_lab.Pipeline.Engine.{
  EngineConfig, Worker, idle, returned, Engine, start, Turns, Step, enqueue, drop_event, abandon,
  close_cancelled, close_exhausted, cancel, receive, discard, dissect, count, keep, return_worker,
}
use go_core_lab.Pipeline.Engine.Workers.{
  pending, leaves, left, weight, pending-idle, leaves-idle, turn_pending, turn_leaves, turn_length,
  total-on_stats_event, dropped-on_stats_event, total-record_drop, dropped-record_drop,
}

-- Where the events of the source are.
pub record Accounts (cfg : EngineConfig) (events : List IngestionEvent) (e : Engine) : Type 0 where
  pub balance :
      e.stats.total_processed
        + e.stats.dropped_events
        + e.filtered
        + e.lost
        + pending e.workers
        + length e.queue
        + length e.source
      ≡ length events
  pub room : length e.queue ≤ cfg.queue_size
  pub crew : length e.workers ≡ cfg.num_workers
  pub no_drop : cfg.drop_on_backpressure ≡ false → e.stats.dropped_events ≡ 0
  pub no_loss : e.cancelled ≡ false → e.lost ≡ 0
  pub no_rest : e.cancelled ≡ false → e.closed ≡ true → length e.source ≡ 0
  pub drained : 0 < leaves e.workers → (e.closed ≡ true) × (length e.queue ≡ 0)

pub start-Accounts :
    (cfg : EngineConfig) (events : List IngestionEvent) → Accounts cfg events (start cfg events)
unfolding start
start-Accounts cfg events = record {
  balance = omega (arith, pending-idle cfg.num_workers);
  room = omega arith;
  crew = length-replicate cfg.num_workers idle;
  no_drop = λ h. refl;
  no_loss = λ h. refl;
  no_rest = λ h c. cc;
  drained = λ h. absurd (omega (arith, leaves-idle cfg.num_workers));
}

module _ {cfg : EngineConfig} {events : List IngestionEvent} {e : Engine}
    (a : Accounts cfg events e) where
  -- A queue that is not closed has no worker that returned.
  still_open {ℓ} : {A : Type ℓ} → e.closed ≡ false → 0 < leaves e.workers → A
  still_open unclosed h = let (closed, empty) = a.drained h in cc

  -- The dispatcher has closed the queue.
  close_queue :
      e.closed ≡ false
      → (e.cancelled ≡ false → length e.source ≡ 0)
      → Accounts cfg events (record e { closed = true })
  close_queue unclosed why = record {
    balance = a.balance;
    room = a.room;
    crew = a.crew;
    no_drop = a.no_drop;
    no_loss = a.no_loss;
    no_rest = λ h c. why h;
    drained = λ h. still_open unclosed h;
  }

  -- The dispatcher has passed an event on.
  pass_on :
      (event : IngestionEvent) (rest : List IngestionEvent)
      → e.closed ≡ false
      → e.source ≡ event ∷ rest
      → length e.queue < cfg.queue_size
      → Accounts cfg events (record e { source = rest; queue = e.queue ++ (event ∷ []) })
  pass_on event rest unclosed next room = record {
    balance = omega (arith, a.balance, ap length next, length-append e.queue (event ∷ []));
    room = omega (arith, length-append e.queue (event ∷ []));
    crew = a.crew;
    no_drop = a.no_drop;
    no_loss = a.no_loss;
    no_rest = λ h c. cc;
    drained = λ h. still_open unclosed h;
  }

  -- A worker has turned to something else, and neither it nor the queue was left before its time.
  turned :
      {from to : Worker} {workers : List Worker} (queue : List IngestionEvent) (stats : StatsSink)
      (ring : RingBufferSink) (filtered : ℕ)
      → Turns e from to workers
      → left to ≡ left from
      → stats.total_processed + stats.dropped_events + filtered + weight to + length queue
        ≡ e.stats.total_processed
          + e.stats.dropped_events
          + e.filtered
          + weight from
          + length e.queue
      → stats.dropped_events ≡ e.stats.dropped_events
      → length queue ≤ length e.queue
      → Accounts cfg events (record e {
        queue = queue;
        workers = workers;
        stats = stats;
        ring = ring;
        filtered = filtered;
      })
  turned queue stats ring filtered t stays sum drops shorter = record {
    balance = omega (arith, a.balance, turn_pending t);
    room = omega (arith, a.room);
    crew = turn_length t ∙ a.crew;
    no_drop = λ h. drops ∙ a.no_drop h;
    no_loss = a.no_loss;
    no_rest = a.no_rest;
    drained = λ h.
        let (closed, empty) = a.drained (omega (arith, turn_leaves t)) in (closed, omega arith);
  }

  -- A worker that finds the queue closed and empty returns.
  leave :
      {workers : List Worker}
      → e.queue ≡ []
      → e.closed ≡ true
      → Turns e idle returned workers
      → Accounts cfg events (record e { workers = workers })
  leave empty closed t = record {
    balance = omega (arith, a.balance, turn_pending t);
    room = a.room;
    crew = turn_length t ∙ a.crew;
    no_drop = a.no_drop;
    no_loss = a.no_loss;
    no_rest = a.no_rest;
    drained = λ h. (closed, ap length empty);
  }

  -- The dispatcher has given up an event: it was dropped, or held at a cancellation.
  drop_on :
      (event : IngestionEvent) (rest : List IngestionEvent)
      → length events < 2 ^ 64
      → e.closed ≡ false
      → e.source ≡ event ∷ rest
      → cfg.drop_on_backpressure ≡ true
      → Accounts cfg events (record e { source = rest; stats = record_drop e.stats })
  drop_on event rest few unclosed next dropping = record {
    balance =
        omega (
          arith,
          a.balance,
          ap length next,
          total-record_drop e.stats,
          dropped-record_drop e.stats,
        );
    room = a.room;
    crew = a.crew;
    no_drop = λ h. cc;
    no_loss = a.no_loss;
    no_rest = λ h c. cc;
    drained = a.drained;
  }

  give_up :
      (event : IngestionEvent) (rest : List IngestionEvent)
      → e.closed ≡ false
      → e.source ≡ event ∷ rest
      → e.cancelled ≡ true
      → Accounts cfg events (record e { source = rest; closed = true; lost = e.lost + 1 })
  give_up event rest unclosed next cancelled = record {
    balance = omega (arith, a.balance, ap length next);
    room = a.room;
    crew = a.crew;
    no_drop = a.no_drop;
    no_loss = λ h. cc;
    no_rest = λ h c. cc;
    drained = λ h. still_open unclosed h;
  }

  cancelled-Accounts : Accounts cfg events (record e { cancelled = true })
  cancelled-Accounts = record {
    balance = a.balance;
    room = a.room;
    crew = a.crew;
    no_drop = a.no_drop;
    no_loss = λ h. cc;
    no_rest = λ h c. cc;
    drained = a.drained;
  }

pub Step-Accounts :
    {cfg : EngineConfig} {events : List IngestionEvent} {e e' : Engine}
    → length events < 2 ^ 64
    → Step cfg e e'
    → Accounts cfg events e
    → Accounts cfg events e'
Step-Accounts few (enqueue e event rest unclosed next room) a =
    pass_on a event rest unclosed next room
Step-Accounts few (drop_event e event rest unclosed next dropping full) a =
    drop_on a event rest few unclosed next dropping
Step-Accounts few (abandon e event rest unclosed next blocking cancelled) a =
    give_up a event rest unclosed next cancelled
Step-Accounts few (close_cancelled e unclosed cancelled) a = close_queue a unclosed (λ h. cc)
Step-Accounts few (close_exhausted e unclosed nothing) a =
    close_queue a unclosed (λ h. ap length nothing)
Step-Accounts few (cancel e) a = cancelled-Accounts a
Step-Accounts few (receive e event rest workers next t) a =
    turned a rest e.stats e.ring e.filtered t refl (omega (arith, ap length next)) refl
      (omega (arith, ap length next))
Step-Accounts few (discard e event worker_id latency workers done t) a =
    turned a e.queue e.stats e.ring (e.filtered + 1) t refl (omega arith) refl (omega arith)
Step-Accounts few (dissect e event p worker_id latency workers done t) a =
    turned a e.queue e.stats e.ring e.filtered t refl refl refl (omega arith)
Step-Accounts few (count e p workers t) a =
    turned a e.queue (on_stats_event p e.stats) e.ring e.filtered t refl
      (omega (
        arith,
        a.balance,
        turn_pending t,
        total-on_stats_event p e.stats,
        dropped-on_stats_event p e.stats,
      ))
      (dropped-on_stats_event p e.stats) (omega arith)
Step-Accounts few (keep e p ring workers kept t) a =
    turned a e.queue e.stats ring e.filtered t refl refl refl (omega arith)
Step-Accounts few (return_worker e workers empty closed t) a = leave a empty closed t
