-- ===== src/Pipeline/Engine/Workers.antt =====
-- internal/pipeline/engine.go: how many workers hold an event, and how many have returned.
use go_core_lab.Common.{
  ℕ, zero, suc, ◌+◌, ◌%◌, ◌^◌, ◌≤◌, ◌≡◌, refl, ap, List, [], ◌∷◌, ◌++◌, length, replicate,
  length-append, arith,
}
use go_core_lab.Pipeline.Types.{PipelineEvent}
use go_core_lab.Pipeline.Stats.{StatsSink, on_stats_event, record_drop}
use go_core_lab.Pipeline.Stats.Tally.{apply, on_stats_event-apply}
use go_core_lab.Pipeline.Engine.{Worker, idle, holds, to_stats, to_ring, returned, Engine, Turns}

-- The workers that hold an event which no counter of the statistics shows, and those that returned.
abbrev pub weight : Worker → ℕ
weight idle = 0
weight (holds event) = 1
weight (to_stats p) = 1
weight (to_ring p) = 0
weight returned = 0

abbrev pub pending : List Worker → ℕ
pending [] = 0
pending (w ∷ ws) = weight w + pending ws

abbrev pub left : Worker → ℕ
left idle = 0
left (holds event) = 0
left (to_stats p) = 0
left (to_ring p) = 0
left returned = 1

abbrev pub leaves : List Worker → ℕ
leaves [] = 0
leaves (w ∷ ws) = left w + leaves ws

pub pending-append : (xs ys : List Worker) → pending (xs ++ ys) ≡ pending xs + pending ys
pending-append [] ys = omega arith
pending-append (x ∷ xs) ys = omega (arith, pending-append xs ys)

pub leaves-append : (xs ys : List Worker) → leaves (xs ++ ys) ≡ leaves xs + leaves ys
leaves-append [] ys = omega arith
leaves-append (x ∷ xs) ys = omega (arith, leaves-append xs ys)

pub pending-idle : (n : ℕ) → pending (replicate n idle) ≡ 0
pending-idle zero = refl
pending-idle (suc n) = omega (arith, pending-idle n)

pub leaves-idle : (n : ℕ) → leaves (replicate n idle) ≡ 0
leaves-idle zero = refl
leaves-idle (suc n) = omega (arith, leaves-idle n)

module _ {e : Engine} {from to : Worker} {workers : List Worker} (t : Turns e from to workers) where
  pub turn_pending : pending workers + weight from ≡ pending e.workers + weight to
  turn_pending =
      rw (t.now, t.next)
        (omega (
          arith,
          pending-append t.before (from ∷ t.behind),
          pending-append t.before (to ∷ t.behind),
        ))

  pub turn_leaves : leaves workers + left from ≡ leaves e.workers + left to
  turn_leaves =
      rw (t.now, t.next)
        (omega
          (arith, leaves-append t.before (from ∷ t.behind), leaves-append t.before (to ∷ t.behind)))

  pub turn_length : length workers ≡ length e.workers
  turn_length =
      rw (t.now, t.next)
        (omega
          (arith, length-append t.before (from ∷ t.behind), length-append t.before (to ∷ t.behind)))

module _ (p : PipelineEvent) (s : StatsSink) where
  pub total-on_stats_event : (on_stats_event p s).total_processed ≡ (s.total_processed + 1) % 2 ^ 64
  unfolding apply
  total-on_stats_event = ap (λ (s : StatsSink). s.total_processed) (on_stats_event-apply p s)

  pub dropped-on_stats_event : (on_stats_event p s).dropped_events ≡ s.dropped_events
  unfolding apply
  dropped-on_stats_event = ap (λ (s : StatsSink). s.dropped_events) (on_stats_event-apply p s)

module _ (s : StatsSink) where
  pub total-record_drop : (record_drop s).total_processed ≡ s.total_processed
  unfolding record_drop
  total-record_drop = refl

  pub dropped-record_drop : (record_drop s).dropped_events ≡ (s.dropped_events + 1) % 2 ^ 64
  unfolding record_drop
  dropped-record_drop = refl

pub all_left :
    (ws : List Worker) → (leaves ws ≤ length ws) × (leaves ws ≡ length ws → pending ws ≡ 0)
all_left [] = (omega arith, λ h. refl)
all_left (idle ∷ ws) =
    let (most, none_left) = all_left ws in (omega arith, λ h. absurd (omega arith))
all_left (holds event ∷ ws) =
    let (most, none_left) = all_left ws in (omega arith, λ h. absurd (omega arith))
all_left (to_stats p ∷ ws) =
    let (most, none_left) = all_left ws in (omega arith, λ h. absurd (omega arith))
all_left (to_ring p ∷ ws) =
    let (most, none_left) = all_left ws in (omega arith, λ h. absurd (omega arith))
all_left (returned ∷ ws) =
    let (most, none_left) = all_left ws in
    (omega arith, λ h. omega (arith, none_left (omega arith)))
