-- ===== src/Commands/Aggregate.antt =====
-- What the callback of the live tables gives the aggregator.
use kernel_scope.Prelude.{◌≡◌, refl, List, [], ◌∷◌, fold}
use kernel_scope.Event.{Event, comm_str}
use kernel_scope.Ksr.Replay.{call}
use kernel_scope.Aggregator.{
  Aggregator, process_event, update_process, update_thread, update_syscall, update_stack, add_stack,
  empty, after,
}
use kernel_scope.Aggregator.Stats.{change_process, change_thread, change_syscall, change_stack}
use kernel_scope.Commands.{aggregate, classified}

pub process_event-classified :
    (a : Aggregator) (ev : Event) → process_event a (classified ev) ≡ process_event a ev
unfolding process_event update_process update_thread update_syscall update_stack add_stack
    change_process change_thread change_syscall change_stack comm_str
process_event-classified a ev = refl

pub fold-aggregate :
    (evs : List Event) (a : Aggregator) → fold (call aggregate) a evs ≡ fold process_event a evs
unfolding call
fold-aggregate [] a = refl
fold-aggregate (ev ∷ evs) a =
    rw (process_event-classified a ev) (fold-aggregate evs (process_event a ev))

-- The class that the live commands give each event does not reach the statistics: their callback leaves
-- the aggregator that the events leave as they come from the ring buffer, as in a replay.
pub aggregate-after : (evs : List Event) → fold (call aggregate) empty evs ≡ after evs
aggregate-after evs = fold-aggregate evs empty
