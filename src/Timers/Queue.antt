-- ===== src/Timers/Queue.antt =====
-- What every sequence of calls and signals keeps of the timers.
use stunt.Prelude.{
  ℕ, suc, ◌≤◌, ◌<◌, ◌≡◌, refl, Bool, true, false, Option, none, some, List, [], ◌∷◌, arith, ltb,
  Bool-cases, inl, inr,
}
use mathlib.Core.Option
use stunt.Prelude.Int.{ℤ, pos, ◌+ℤ◌, pos_part}
use stunt.Int32.{wrap32, signed32, bits}
use stunt.Timers.{
  Timer, Alarm, off, now, after, Timers, start, is_timer, set_timer, set_virtual_timer, wakeup_call,
  virtual_wakeup_call, cancel_timer, Call, alarm_for, virtual_for, or_stands,
}
use stunt.Timers.Order.{lookup, Distinct, Sorted}

-- The server sets a timer, cancels one, or gets a signal.
pub data Event : Type 0 where
  sets sets_virtual : ℕ → ℕ → ℕ → Event
  cancels : ℤ → Event
  wakes wakes_virtual : Event

unfoldable pub step : ℕ → ℕ → Event → Timers → Option Timers
step time left (sets seconds proc data_) s = some (set_timer time left seconds proc data_ s).1
step time left (sets_virtual seconds proc data_) s =
    some (set_virtual_timer time left seconds proc data_ s).1
step time left (cancels id) s = some (cancel_timer time left id s).1
step time left wakes s = Option.map (λ (r : Option Call × Timers). r.1) (wakeup_call time left s)
step time left wakes_virtual s =
    Option.map (λ (r : Option Call × Timers). r.1) (virtual_wakeup_call time left s)

-- Fewer than 2 ^ 31 - 1 timers have been set before each event; the time is arbitrary.
pub data Reaches : Timers → Type 0 where
  begins : Reaches start
  goes_on :
      (s s' : Timers) (time left : ℕ) (event : Event)
      → Reaches s
      → pos_part s.next_id < 2147483647
      → step time left event s ≡ some s'
      → Reaches s'

abbrev pub is_asked : Alarm → Bool
is_asked off = false
is_asked now = true
is_asked (after n) = true

abbrev pub has_active : List Timer → Bool
has_active [] = false
has_active (t ∷ ts) = true

abbrev pub has_virtual : Option Timer → Bool
has_virtual none = false
has_virtual (some t) = true

pub record IsTable (s : Timers) : Type 0 where
  pub count : ℕ
  pub next : s.next_id ≡ pos count
  pub old : (m : ℕ) → count ≤ m → lookup (pos m) s.active_timers ≡ none
  pub distinct : Distinct s.active_timers
  pub sorted : Sorted s.active_timers
  pub virtual_old : (m : ℕ) → count ≤ m → is_timer (pos m) s.virtual_timer ≡ false
  pub apart : (id : ℤ) → is_timer id s.virtual_timer ≡ true → lookup id s.active_timers ≡ none

-- A signal is asked for exactly where a timer is set.
pub record IsQueue (s : Timers) : Type 0 where
  pub table : IsTable s
  pub armed : is_asked s.alarm ≡ has_active s.active_timers
  pub virtual_armed : is_asked s.virtual_alarm ≡ has_virtual s.virtual_timer

pub start-IsQueue : IsQueue start
unfolding lookup Distinct Sorted
start-IsQueue = record {
  table = record {
    count = 0;
    next = refl;
    old = λ m h. refl;
    distinct = tt;
    sorted = tt;
    virtual_old = λ m h. refl;
    apart = λ id h. refl;
  };
  armed = refl;
  virtual_armed = refl;
}

-- After restart_timers the kernel is asked for a signal exactly where a timer is set, if before it was
-- asked for none without a timer.
pub alarm_for-asked :
    (time left : ℕ) (ts : List Timer) (old : Alarm)
    → (has_active ts ≡ false → is_asked old ≡ false)
    → is_asked (or_stands time left (alarm_for time left ts) old) ≡ has_active ts
alarm_for-asked time left [] old h = h refl
alarm_for-asked time left (t ∷ ts) old h = elim (Bool-cases (ltb time t.when)) [
  | inl e ↦ rw e refl
  | inr e ↦ rw e refl
]

pub virtual_for-asked :
    (time left : ℕ) (v : Option Timer) (old : Alarm)
    → (has_virtual v ≡ false → is_asked old ≡ false)
    → is_asked (or_stands time left (virtual_for time left v) old) ≡ has_virtual v
virtual_for-asked time left none old h = h refl
virtual_for-asked time left (some t) old h = elim (Bool-cases (ltb 0 t.when)) [
  | inl e ↦ rw e refl
  | inr e ↦ rw e refl
]

pub wrap32-suc : (n : ℕ) → n < 2147483647 → wrap32 (pos n +ℤ pos 1) ≡ pos (suc n)
unfolding wrap32 ◌+ℤ◌ signed32 bits
wrap32-suc n h = ground arith
