-- ===== src/Archive/Breaker/Tests.antt =====
-- The breaker at concrete times.
use arc_relay.Prelude.{◌≡◌, refl, [], ◌∷◌, List, false}
use arc_relay.Archive.Breaker.{Breaker, open_, check_breaker, after_send, new_breaker}
use arc_relay.Archive.Breaker.Laws.{Event, sent, checked, breaker_run, breaker_step}

abbrev failures : List Event
failures =
    sent false 1
    ∷ sent false 2
    ∷ sent false 3
    ∷ sent false 4
    ∷ sent false 5
    ∷ checked 70
    ∷ sent false 71
    ∷ []

abbrev opened : Breaker
opened = record { consecutive_fails = 6; cb_state = open_; cb_opened_at = 71; cb_pause_level = 1 }

opens : breaker_run new_breaker failures ≡ opened
unfolding breaker_run breaker_step after_send check_breaker
opens = refl
