-- ===== src/Classification/Tests.antt =====
-- Runs of the classification.
use kernel_scope.Prelude.{◌≡◌, refl}
use kernel_scope.Event.{LatencyClass}
use kernel_scope.Event.Examples.{futex, slice}
use kernel_scope.Classification.{classify_event}
use kernel_scope.Classification.Classes.{Classes, classify_event-Classes}

classify_slice : classify_event slice ≡ LatencyClass.off_cpu
unfolding classify_event
classify_slice = refl

classify_event-Classes_example : Classes futex
classify_event-Classes_example = classify_event-Classes futex
