-- ===== src/Timers/Examples.antt =====
-- Two timers and a virtual one: the second is due before the first.
use stunt.Prelude.{◌≡◌, refl, some, [], ◌∷◌, arith}
use stunt.Prelude.Int.{pos, ◌+ℤ◌}
use stunt.Int32.{wrap32, signed32, bits}
use stunt.Timers.{
  Timers, start, after, insert, stop_timers, restart_timers, set_timer, set_virtual_timer,
  wakeup_call, timer_wakeup_interval,
}
use stunt.Timers.Queue.{Reaches, begins, goes_on, sets, sets_virtual, step, IsQueue}
use stunt.Timers.Reached.{Reaches-IsQueue}
use stunt.Timers.View.{IsTimerTable, Reaches-IsTimerTable}

abbrev one : Timers
one = (set_timer 100 0 9 1 0 start).1

abbrev two : Timers
two = (set_timer 101 0 3 2 0 one).1

abbrev three : Timers
three = (set_virtual_timer 102 0 5 3 0 two).1

three_set : Reaches three
unfolding step set_timer set_virtual_timer stop_timers restart_timers insert wrap32 signed32 bits
    ◌+ℤ◌
three_set =
    goes_on two three 102 0 (sets_virtual 5 3 0)
      (goes_on one two 101 0 (sets 3 2 0)
        (goes_on start one 100 0 (sets 9 1 0) begins (omega arith) refl) (omega arith) refl)
      (omega arith) refl

Reaches-IsQueue_example : IsQueue three
Reaches-IsQueue_example = Reaches-IsQueue three three_set

Reaches-IsTimerTable_example : IsTimerTable 104 2 three
Reaches-IsTimerTable_example = Reaches-IsTimerTable 104 2 three three_set

-- The second timer goes off first.
goes_off :
    wakeup_call 104 2 three
    ≡ some (
      some (record { proc = 2; id = pos 1; data_ = 0 }),
      record {
        active_timers = record { when = 109; proc = 1; data_ = 0; id = pos 0 } ∷ [];
        virtual_timer = some (record { when = 5; proc = 3; data_ = 0; id = pos 2 });
        next_id = pos 3;
        alarm = after 5;
        virtual_alarm = after 5;
      },
    )
unfolding wakeup_call set_timer set_virtual_timer stop_timers restart_timers insert wrap32 signed32
    bits ◌+ℤ◌
goes_off = refl

-- A timer whose time is over has an interval close to 2 ^ 32 seconds.
late : timer_wakeup_interval 110 2 (pos 0) three ≡ 4294967295
unfolding timer_wakeup_interval set_timer set_virtual_timer stop_timers restart_timers insert wrap32
    signed32 bits ◌+ℤ◌
late = refl
