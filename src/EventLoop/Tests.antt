-- ===== src/EventLoop/Tests.antt =====
-- Runs of a loop whose functions are numbers, of which 0 calls `quit`.
use clear_moon.Prelude.{
  ℕ, ◌<◌, ◌≡◌, ◌≢◌, refl, Bool, true, false, [], ◌∷◌, ◌++◌, some, arith, length, ◌==◌,
}
use clear_moon.EventLoop.System.{
  polling, finished, System, no_events, advance, advance_times, give, wake, ask_to_quit, Reach,
  here, loops, gives, wakes, asks, start,
}
use clear_moon.EventLoop.Heard.{is_looking, signals, no_function_is_lost}
use clear_moon.EventLoop.Wakes.{waiting_functions_are_called}
use clear_moon.EventLoop.Ends.{quit_is_obeyed}
use clear_moon.EventLoop.Quit.{Unasked, stays, goes, is_given, early_quit_is_lost}

abbrev zero_quits : ℕ → Bool
zero_quits n = n == 0

-- Two functions are given before the loop begins, it comes to `poll`, and the wake-ups are written.
abbrev at_poll : System ℕ
at_poll = record (give 8 (give 7 start)) {
  loop = record (give 8 (give 7 start)).loop { looping = true };
  phase = polling;
}

abbrev woken : System ℕ
woken = wake 0 (wake 1 at_poll)

comes_to_poll : Reach zero_quits start woken
unfolding advance
comes_to_poll =
    wakes 0 (wakes 1 (loops no_events (loops no_events (gives 8 (gives 7 here)) refl) refl) refl)
      refl

no_function_is_lost_example :
    (woken.ran ++ (woken.running ++ woken.loop.pending) ≡ woken.given)
    × (is_looking woken.phase ≡ false → 0 < length woken.loop.pending → 0 < signals woken)
no_function_is_lost_example = no_function_is_lost zero_quits comes_to_poll

waiting_functions_are_called_example :
    (u : System ℕ) × (advance_times zero_quits 5 woken ≡ some u)
    × (u.ran ≡ 7 ∷ 8 ∷ [])
    × (u.given ≡ 7 ∷ 8 ∷ [])
    × (u.loop.pending ≡ [])
waiting_functions_are_called_example =
    waiting_functions_are_called zero_quits comes_to_poll refl refl (omega arith)

-- The loop begins behind the `quit`, and is given a function.
abbrev begun : System ℕ
begun = give 7 (record (ask_to_quit start) {
  loop = record (ask_to_quit start).loop { looping = true; quit_ = false };
  phase = polling;
})

runs_on : Unasked (ask_to_quit start) begun
unfolding advance
runs_on = is_given 7 (goes false (goes false stays refl) refl)

early_quit_is_lost_example : begun.phase ≢ finished
early_quit_is_lost_example = early_quit_is_lost start refl runs_on

-- The loop is asked to quit where it waits in `poll`.
abbrev asked_in_poll : System ℕ
asked_in_poll =
    wake 0
      (ask_to_quit (record start { loop = record start.loop { looping = true }; phase = polling }))

comes_to_quit : Reach zero_quits start asked_in_poll
unfolding advance
comes_to_quit = wakes 0 (asks (loops no_events (loops no_events here refl) refl)) refl

quit_is_obeyed_example :
    (n : ℕ) × (u : System ℕ) × (advance_times zero_quits n asked_in_poll ≡ some u)
    × (u.phase ≡ finished)
quit_is_obeyed_example = quit_is_obeyed zero_quits comes_to_quit refl refl refl
