-- ===== src/Timers.antt =====
-- timers.cc: the timers that are set, by the time at which they are due.
pub mod Order
pub mod Queue
pub mod Reached
pub mod View
pub mod Examples
use stunt.Prelude.{
  ℕ, zero, suc, ◌+◌, ◌-◌, ◌%◌, ◌^◌, Bool, true, false, Option, none, some, List, [], ◌∷◌, ltb, leb,
  if◌then◌else◌,
}
use mathlib.Core.Option
use stunt.Prelude.Int.{ℤ, pos, negsuc, ◌+ℤ◌, eqb_ℤ}
use stunt.Int32.{wrap32}

-- `Timer_Entry`: procedures and data are pointers, 0 is NULL.
pub record Timer : Type 0 where
  pub when : ℕ
  pub proc : ℕ
  pub data_ : ℕ
  pub id : ℤ

-- What the kernel was last asked for: nothing, a signal after some seconds, or a signal now.
pub data Alarm : Type 0 where
  off now : Alarm
  after : ℕ → Alarm

pub record Timers : Type 0 where
  pub active_timers : List Timer
  pub virtual_timer : Option Timer
  pub next_id : ℤ
  pub alarm : Alarm
  pub virtual_alarm : Alarm

abbrev pub start : Timers
start = record {
  active_timers = [];
  virtual_timer = none;
  next_id = pos 0;
  alarm = off;
  virtual_alarm = off;
}

-- The call of a timer's procedure.
pub record Call : Type 0 where
  pub proc : ℕ
  pub id : ℤ
  pub data_ : ℕ

abbrev pub call_of : Timer → Option Call
call_of t =
    if ltb 0 t.proc then some (record { proc = t.proc; id = t.id; data_ = t.data_ }) else none

-- The loop of `set_timer` that finds the place.
unfoldable pub insert : Timer → List Timer → List Timer
insert t [] = t ∷ []
insert t (u ∷ us) = let rest = insert t us in if leb u.when t.when then u ∷ rest else t ∷ u ∷ us

-- The loop of `cancel_timer`; `none` means that it did not find the timer.
unfoldable pub remove : ℤ → List Timer → Option (List Timer)
remove id [] = none
remove id (t ∷ ts) =
    let later = remove id ts in if eqb_ℤ t.id id then some ts else Option.map (λ us. t ∷ us) later

abbrev pub is_timer : ℤ → Option Timer → Bool
is_timer id none = false
is_timer id (some t) = eqb_ℤ t.id id

-- `time` is the time of the day, `left` what the kernel has left of the virtual timer.
module _ (time left : ℕ) where
  unfoldable pub stop_timers : Timers → Timers
  stop_timers s = record s {
    alarm = off;
    virtual_alarm = off;
    virtual_timer = Option.map (λ (t : Timer). record t { when = left }) s.virtual_timer;
  }

  abbrev pub alarm_for : List Timer → Alarm
  alarm_for [] = off
  alarm_for (t ∷ ts) = if ltb time t.when then after (t.when - time) else now

  abbrev pub virtual_for : Option Timer → Alarm
  virtual_for none = off
  virtual_for (some t) = if ltb 0 t.when then after t.when else now

  -- No signal is asked for where there is no timer: then what was asked for stands.
  abbrev pub or_stands : Alarm → Alarm → Alarm
  or_stands off old = old
  or_stands asked old = asked

  unfoldable pub restart_timers : Timers → Timers
  restart_timers s = record s {
    alarm = or_stands (alarm_for s.active_timers) s.alarm;
    virtual_alarm = or_stands (virtual_for s.virtual_timer) s.virtual_alarm;
  }

  unfoldable pub set_timer : ℕ → ℕ → ℕ → Timers → ℤ × Timers
  set_timer seconds proc data_ s =
      let stopped = stop_timers s in
      let t : Timer = record {
        when = time + seconds;
        proc = proc;
        data_ = data_;
        id = s.next_id;
      } in
      (
        s.next_id,
        restart_timers (record stopped {
          active_timers = insert t s.active_timers;
          next_id = wrap32 (s.next_id +ℤ pos 1);
        }),
      )

  -- The wait for the signal comes after.
  unfoldable pub timer_sleep : ℕ → Timers → Timers
  timer_sleep seconds s = (set_timer seconds 0 0 s).1

  unfoldable pub set_virtual_timer : ℕ → ℕ → ℕ → Timers → ℤ × Timers
  set_virtual_timer seconds proc data_ s = elim s.virtual_timer [
    | some t ↦ (negsuc 0, s)
    | none ↦
        let t : Timer = record { when = seconds; proc = proc; data_ = data_; id = s.next_id } in
        (
          s.next_id,
          restart_timers (record (stop_timers s) {
            virtual_timer = some t;
            next_id = wrap32 (s.next_id +ℤ pos 1);
          }),
        )
  ]

  -- The signals: what the kernel was asked for has come. `none` is the dereference of NULL, when no
  -- timer is set.
  unfoldable pub wakeup_call : Timers → Option (Option Call × Timers)
  wakeup_call s = elim s.active_timers [
    | [] ↦ none
    | t ∷ ts ↦ some (call_of t, restart_timers (record s { active_timers = ts; alarm = off }))
  ]

  unfoldable pub virtual_wakeup_call : Timers → Option (Option Call × Timers)
  virtual_wakeup_call s = elim s.virtual_timer [
    | none ↦ none
    | some t ↦ some (call_of t, record s { virtual_timer = none; virtual_alarm = off })
  ]

  -- The time until a timer, as an `unsigned`: one that is late has a large one.
  abbrev pub interval_to : ℕ → ℕ
  interval_to due =
      if leb time due then (due - time) % 2 ^ 32 else (2 ^ 32 - (time - due) % 2 ^ 32) % 2 ^ 32

  abbrev pub interval_in : ℤ → List Timer → ℕ
  interval_in id [] = 0
  interval_in id (t ∷ ts) =
      let later = interval_in id ts in if eqb_ℤ t.id id then interval_to t.when else later

  unfoldable pub timer_wakeup_interval : ℤ → Timers → ℕ
  timer_wakeup_interval id s =
      if is_timer id s.virtual_timer then left else interval_in id s.active_timers

  unfoldable pub cancel_timer : ℤ → Timers → Bool × Timers
  cancel_timer id s =
      let stopped = stop_timers s in
      if is_timer id s.virtual_timer
      then (true, restart_timers (record stopped { virtual_timer = none }))
      else elim (remove id s.active_timers) [
        | none ↦ (false, restart_timers stopped)
        | some ts ↦ (true, restart_timers (record stopped { active_timers = ts }))
      ]
