-- ===== src/Pipeline/Engine/Conserve.antt =====
-- internal/pipeline/engine.go: the events of a source in the states that the engine comes to.
use go_core_lab.Common.{◌+◌, ◌^◌, ◌<◌, ◌≡◌, sym, ◌∙◌, false, List, length, arith}
use go_core_lab.Pipeline.Types.{IngestionEvent}
use go_core_lab.Pipeline.Engine.{EngineConfig, Engine, Reaches, started, stepped}
use go_core_lab.Pipeline.Engine.Workers.{leaves, all_left}
use go_core_lab.Pipeline.Engine.Accounts.{Accounts, start-Accounts, Step-Accounts}

-- In every state that the engine comes to on fewer than 2 ^ 64 events: each event of the source is
-- counted as processed or as dropped, filtered, abandoned at a cancellation, with a worker, in the
-- queue or still to come; the queue is no longer than configured; nothing is dropped unless that is
-- configured, and nothing abandoned or left at the source of a closed queue without a cancellation.
pub Reaches-Accounts :
    {cfg : EngineConfig} {events : List IngestionEvent} {e : Engine}
    → length events < 2 ^ 64
    → Reaches cfg events e
    → Accounts cfg events e
Reaches-Accounts {cfg} {events} few started = start-Accounts cfg events
Reaches-Accounts {cfg} {events} few (stepped r s) = Step-Accounts few s (Reaches-Accounts few r)

-- When every worker of an engine that has any has returned, nothing was cancelled and nothing may be
-- dropped, every event of the source, fewer than 2 ^ 64, was processed and counted once or discarded
-- by the filter.
pub Reaches-complete :
    {cfg : EngineConfig} {events : List IngestionEvent} {e : Engine}
    → length events < 2 ^ 64
    → 0 < cfg.num_workers
    → cfg.drop_on_backpressure ≡ false
    → Reaches cfg events e
    → e.cancelled ≡ false
    → leaves e.workers ≡ cfg.num_workers
    → e.stats.total_processed + e.filtered ≡ length events
Reaches-complete {cfg} {events} {e} few some_workers keeping r calm all_returned =
    let a : Accounts cfg events e = Reaches-Accounts few r in
    let (closed, empty) = a.drained (omega (arith, all_returned)) in
    omega (
      arith,
      a.balance,
      a.no_drop keeping,
      a.no_loss calm,
      a.no_rest calm closed,
      (all_left e.workers).1 (all_returned ∙ sym a.crew),
    )
