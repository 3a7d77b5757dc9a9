-- ===== src/Examples/Storing.antt =====
-- src/Metadata.cpp and the tests of src/Event.cpp and src/TimeoutEvent.cpp at concrete inputs.
use cpp_statecharts.Base.{◌≡◌, ◌≢◌, ◌↔◌, true, none, some, [], ◌∷◌, All}
use cpp_statecharts.Structure.{final_state}
use cpp_statecharts.Event.{Event, equals, signal, timeout_event}
use cpp_statecharts.Event.Matching.{Consumes, equals_iff_Consumes}
use cpp_statecharts.Metadata.{Metadata, is_running, get_active_states}
use cpp_statecharts.Metadata.Queries.{is_running_iff}
use cpp_statecharts.Examples.Samples.{nest, data_at, sample_meta}

abbrev stored : Metadata
stored = sample_meta ((0, data_at 1 (some 1)) ∷ (1, data_at 2 none) ∷ [])

is_running_iff_example :
    (is_running nest.states stored ≡ true)
    ↔ All (λ s. (nest.states s).kind ≢ final_state) (get_active_states stored)
is_running_iff_example = is_running_iff nest.states stored

equals_iff_Consumes_example :
    (equals (signal "TimeoutEvent") (some (timeout_event (record { high = 1; low = 2 }) 30)) ≡ true)
    ↔ ((f : Event) × (some (timeout_event (record { high = 1; low = 2 }) 30) ≡ some f)
        × Consumes (signal "TimeoutEvent") f)
equals_iff_Consumes_example =
    equals_iff_Consumes (signal "TimeoutEvent")
      (some (timeout_event (record { high = 1; low = 2 }) 30))
