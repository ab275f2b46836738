-- ===== src/Tests/Flow.antt =====
-- Segments.
use hyper_dpi.Prelude.{◌≡◌, none, Bytes, codes, arith, if◌then◌else◌}
use hyper_dpi.Traffic.{http}
use hyper_dpi.Flow.{FlowState, new_state}
use hyper_dpi.Flow.Place.{place}
use hyper_dpi.Flow.Invariant.{IsValid, new_state-IsValid, place-IsValid}
use hyper_dpi.Flow.View.{view, or_else, byte_of, reaches, view-place}

abbrev empty : FlowState
empty = new_state http

abbrev get : Bytes
get = codes "GET "

-- The second segment arrives first.
abbrev late : FlowState
late = place empty 104 get 4

late-IsValid : IsValid late
late-IsValid = place-IsValid empty 104 get 4 (omega arith) (omega arith) (new_state-IsValid http)

place-IsValid_example : IsValid (place late 100 get 4)
place-IsValid_example = place-IsValid late 100 get 4 (omega arith) (omega arith) late-IsValid

view-place_example :
    view (place late 100 get 4) 105
    ≡ or_else (view late 105) (if reaches late 100 105 then byte_of 100 get 4 105 else none)
view-place_example =
    view-place late 100 get 4 105 late-IsValid (omega arith) (omega arith) (omega arith)
