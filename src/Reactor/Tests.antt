-- ===== src/Reactor/Tests.antt =====
-- A channel and its poller at concrete operations.
use clear_moon.Prelude.{◌≡◌, refl, true, false, [], ◌∷◌, some}
use clear_moon.OrdMap.{number_key}
use clear_moon.Reactor.Epoller.{
  Channel, Epoller, no_events, ctl_add, ctl_del, update_channel, remove_channel, Events, Index,
}
use clear_moon.Reactor.Epoller.Interest.{interest, control}
use clear_moon.Reactor.Channel.{
  create, reading_on, writing_on, writing_off, all_off, removal, run, enable_reading, disable_all,
  update,
}
use clear_moon.Reactor.Channel.Registered.{run-Registered}
use clear_moon.Reactor.Channel.Listed.{Registered, Frame}

abbrev idle : Epoller
idle = record { channel_map = (3, 100) ∷ []; calls = ctl_add 3 no_events ∷ [] }

abbrev fresh : Channel
fresh = create 200 7

fresh-Registered : Registered fresh idle
fresh-Registered = record {
  list = (3, no_events) ∷ [];
  accepted = unfold interest control in refl;
  mapped = refl;
  watched = refl;
  known = refl;
}

abbrev reads_and_writes : Events
reads_and_writes = record { input = true; output = true }

-- Turning all off takes the channel out; turning all off again puts it back.
off_twice :
    run (reading_on ∷ all_off ∷ all_off ∷ []) fresh idle
    ≡ some (
      record fresh { added = true; index = Index.present },
      record {
        channel_map = (3, 100) ∷ (7, 200) ∷ [];
        calls =
            ctl_add 7 no_events
            ∷ ctl_del 7
            ∷ ctl_add 7 (record { input = true; output = false })
            ∷ idle.calls;
      },
    )
unfolding run enable_reading disable_all update update_channel remove_channel
off_twice = refl

run-Registered_example :
    (c' : Channel) × (p' : Epoller) × (run
        (reading_on ∷ writing_on ∷ writing_off ∷ removal ∷ reading_on ∷ [])
        fresh
        idle
      ≡ some (c', p'))
    × Registered c' p'
    × Frame 7 idle p'
    × (c'.fd ≡ 7)
run-Registered_example =
    run-Registered (reading_on ∷ writing_on ∷ writing_off ∷ removal ∷ reading_on ∷ []) fresh idle
      fresh-Registered
