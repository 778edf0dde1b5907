-- ===== src/Discovery/Examples.antt =====
-- A window that ends, and a timer that outlives its window.
use zda.Base.{ℕ, ◌≡◌, refl, false, none, List, [], ◌∷◌, lookup, delete, nat_key}
use zda.Discovery.{
  Network, Discovery, status, stop, enable, disable, fire, Step, call_enable, call_disable,
  timer_fires, step, run,
}
use zda.Discovery.Window.{Inv, seen_discovering, closed, run-Inv}
use zda.Discovery.Ending.{window_ends}

abbrev quiet : Network
quiet = record {
  Net = ℕ;
  Failure = Unit {0};
  permit_join = λ net. (none, net);
  deny_join = λ net. (none, net);
  request_node_leave = λ a net. (none, net);
  force_node_leave = λ a net. (none, net);
}

program : Unit {0}
unfolding lookup delete status stop enable disable fire step run
program = tt

-- Disable does not stop the timer of the window: it ends the next window early.
abbrev two_windows : List (Step quiet)
two_windows = call_enable 0 100 ∷ call_disable ∷ call_enable 50 100 ∷ timer_fires 0 ∷ []

early_end : (run quiet two_windows (closed quiet 0)).discovering ≡ false
unfolding program
early_end = refl

abbrev open_window : Discovery ℕ
open_window = run quiet (call_enable 0 100 ∷ []) (closed quiet 0)

run-Inv_example : Inv quiet (run quiet two_windows (closed quiet 0))
run-Inv_example = run-Inv quiet two_windows 0

abbrev after_firing : Discovery ℕ
after_firing = run quiet (timer_fires 0 ∷ []) open_window

window_ends_example :
    (after_firing.discovering ≡ false)
    × (after_firing.allow_timer ≡ none)
    × (seen_discovering after_firing.sent ≡ false)
unfolding program
window_ends_example = window_ends quiet (call_enable 0 100 ∷ []) 0 (λ net. refl) (tt, tt)
