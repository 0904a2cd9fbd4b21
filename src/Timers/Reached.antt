-- ===== src/Timers/Reached.antt =====
-- Each operation on the timers keeps what is true of them.
use stunt.Prelude.{
  ℕ, suc, ◌+◌, ◌≤◌, ◌<◌, ◌≡◌, refl, sym, subst, ◌∙◌, true, false, Option, none, some, List, [], ◌∷◌,
  arith, Bool-cases, Option-cases, some_eq, inl, inr,
}
use mathlib.Core.Option
use stunt.Prelude.Int.{ℤ, pos, eqb_ℤ, eqb_eq, pos_part}
use stunt.Timers.{
  Timer, Alarm, off, Timers, is_timer, stop_timers, restart_timers, set_timer, set_virtual_timer,
  wakeup_call, virtual_wakeup_call, cancel_timer, Call,
}
use stunt.Timers.Order.{
  lookup, lookup-insert, insert-Distinct, insert-Sorted, IsWithout, first-IsWithout,
  remove-IsWithout,
}
use stunt.Timers.Queue.{
  sets, sets_virtual, cancels, wakes, wakes_virtual, step, Reaches, begins, goes_on, is_asked,
  has_active, has_virtual, IsTable, IsQueue, start-IsQueue, alarm_for-asked, virtual_for-asked,
  wrap32-suc,
}

pub is_timer-stopped :
    (id : ℤ) (left : ℕ) (v : Option Timer)
    → is_timer id (Option.map (λ (t : Timer). record t { when = left }) v) ≡ is_timer id v
is_timer-stopped id left none = refl
is_timer-stopped id left (some t) = refl

stop_timers-IsTable : (time left : ℕ) (s : Timers) → IsTable s → IsTable (stop_timers time left s)
unfolding stop_timers
stop_timers-IsTable time left s q = record {
  count = q.count;
  next = q.next;
  old = q.old;
  distinct = q.distinct;
  sorted = q.sorted;
  virtual_old = λ m h. is_timer-stopped (pos m) left s.virtual_timer ∙ q.virtual_old m h;
  apart = λ id h. q.apart id (sym (is_timer-stopped id left s.virtual_timer) ∙ h);
}

restart_timers-IsQueue :
    (time left : ℕ) (s : Timers)
    → IsTable s
    → (has_active s.active_timers ≡ false → is_asked s.alarm ≡ false)
    → (has_virtual s.virtual_timer ≡ false → is_asked s.virtual_alarm ≡ false)
    → IsQueue (restart_timers time left s)
unfolding restart_timers
restart_timers-IsQueue time left s q idle virtual_idle = record {
  table = record {
    count = q.count;
    next = q.next;
    old = q.old;
    distinct = q.distinct;
    sorted = q.sorted;
    virtual_old = q.virtual_old;
    apart = q.apart;
  };
  armed = alarm_for-asked time left s.active_timers s.alarm idle;
  virtual_armed = virtual_for-asked time left s.virtual_timer s.virtual_alarm virtual_idle;
}

-- A number that is not given out yet differs from those that are.
pos-other : (n m : ℕ) → suc n ≤ m → eqb_ℤ (pos n) (pos m) ≡ false
pos-other n m h = ground arith

other_number :
    (s : Timers)
    → IsTable s
    → (id : ℤ) → is_timer id s.virtual_timer ≡ true
    → eqb_ℤ s.next_id id ≡ false
other_number s q id h = elim (Bool-cases (eqb_ℤ s.next_id id)) [
  | inr other ↦ other
  | inl same ↦
      let e : pos q.count ≡ id = sym q.next ∙ eqb_eq s.next_id id same in
      let unused : is_timer id s.virtual_timer ≡ false =
        subst (λ i. is_timer i s.virtual_timer ≡ false) e (q.virtual_old q.count (omega arith)) in
      cc
]

set_timer-IsQueue :
    (time left seconds proc data_ : ℕ) (s : Timers)
    → IsQueue s
    → pos_part s.next_id < 2147483647
    → IsQueue (set_timer time left seconds proc data_ s).1
unfolding set_timer stop_timers
set_timer-IsQueue time left seconds proc data_ s i room =
    let q = stop_timers-IsTable time left s i.table in
    let fresh : lookup s.next_id s.active_timers ≡ none = rw q.next (q.old q.count (omega arith)) in
    let below : q.count < 2147483647 = subst (λ n. pos_part n < 2147483647) q.next room in
    let t : Timer = record { when = time + seconds; proc = proc; data_ = data_; id = s.next_id } in
    restart_timers-IsQueue time left _
      (record {
        count = suc q.count;
        next = rw q.next (wrap32-suc q.count below);
        old = λ m h.
            lookup-insert t s.active_timers (pos m) fresh
            ∙ rw (q.next, pos-other q.count m h) (q.old m (omega arith));
        distinct = insert-Distinct t s.active_timers fresh q.distinct;
        sorted = insert-Sorted t s.active_timers q.sorted;
        virtual_old = λ m h. q.virtual_old m (omega arith);
        apart = λ id h.
            lookup-insert t s.active_timers id fresh ∙ rw (other_number _ q id h) (q.apart id h);
      })
      (λ e. refl) (λ e. refl)

set_virtual_timer-IsQueue :
    (time left seconds proc data_ : ℕ) (s : Timers)
    → IsQueue s
    → pos_part s.next_id < 2147483647
    → IsQueue (set_virtual_timer time left seconds proc data_ s).1
unfolding set_virtual_timer stop_timers
set_virtual_timer-IsQueue time left seconds proc data_ s i room =
    on_slot s.active_timers s.virtual_timer s.next_id s.alarm s.virtual_alarm i room
  where
    on_slot :
        (active : List Timer) (v : Option Timer) (next : ℤ) (alarm virtual_alarm : Alarm)
        → IsQueue (record {
          active_timers = active;
          virtual_timer = v;
          next_id = next;
          alarm = alarm;
          virtual_alarm = virtual_alarm;
        })
        → pos_part next < 2147483647
        → IsQueue
            (set_virtual_timer time left seconds proc data_ (record {
              active_timers = active;
              virtual_timer = v;
              next_id = next;
              alarm = alarm;
              virtual_alarm = virtual_alarm;
            })).1
    on_slot active (some t) next alarm virtual_alarm i room = i
    on_slot active none next alarm virtual_alarm i room =
        let q = i.table in
        let below : q.count < 2147483647 = subst (λ n. pos_part n < 2147483647) q.next room in
        restart_timers-IsQueue time left _
          (record {
            count = suc q.count;
            next = rw q.next (wrap32-suc q.count below);
            old = λ m h. q.old m (omega arith);
            distinct = q.distinct;
            sorted = q.sorted;
            virtual_old = λ m h. rw q.next (pos-other q.count m h);
            apart = λ id h.
                subst (λ j. lookup j active ≡ none) (sym q.next ∙ eqb_eq next id h)
                  (q.old q.count (omega arith));
          })
          (λ e. refl) (λ e. refl)

-- A table without one of its timers.
smaller-IsTable :
    (s : Timers) (ts : List Timer) (id : ℤ) (a : Alarm)
    → IsTable s
    → IsWithout id s.active_timers ts
    → IsTable (record s { active_timers = ts; alarm = a })
smaller-IsTable s ts id a q w = record {
  count = q.count;
  next = q.next;
  old = λ m h. gone (pos m) (q.old m h);
  distinct = w.distinct;
  sorted = w.sorted;
  virtual_old = q.virtual_old;
  apart = λ j h. gone j (q.apart j h);
}
  where
    gone : (j : ℤ) → lookup j s.active_timers ≡ none → lookup j ts ≡ none
    gone j e =
        w.others j
        ∙ (elim (Bool-cases (eqb_ℤ id j)) [ inl this ↦ rw this refl | inr that ↦ rw that e ])

cancel_timer-IsQueue :
    (time left : ℕ) (id : ℤ) (s : Timers) → IsQueue s → IsQueue (cancel_timer time left id s).1
unfolding cancel_timer stop_timers
cancel_timer-IsQueue time left id s i =
    let q = stop_timers-IsTable time left s i.table in
    elim (Bool-cases (is_timer id s.virtual_timer)) [
      | inl this ↦ rw this (
          restart_timers-IsQueue time left _
            (record {
              count = q.count;
              next = q.next;
              old = q.old;
              distinct = q.distinct;
              sorted = q.sorted;
              virtual_old = λ m h. refl;
              apart = λ j h. cc;
            })
            (λ e. refl) (λ e. refl))
      | inr that ↦ elim (remove-IsWithout id s.active_timers q.distinct q.sorted) [
        | inl (e, absent) ↦
            rw (that, e) (restart_timers-IsQueue time left _ q (λ e. refl) (λ e. refl))
        | inr (ts, e, w) ↦
            rw (that, e)
              (restart_timers-IsQueue time left _ (smaller-IsTable _ ts id off q w) (λ e. refl)
                (λ e. refl))
      ]
    ]

wakeup_call-IsQueue :
    (time left : ℕ) (s : Timers) (r : Option Call × Timers)
    → IsQueue s
    → wakeup_call time left s ≡ some r
    → IsQueue r.1
unfolding wakeup_call
wakeup_call-IsQueue time left s r i e =
    on_list s.active_timers s.virtual_timer s.next_id s.alarm s.virtual_alarm i e
  where
    on_list :
        (active : List Timer) (v : Option Timer) (next : ℤ) (alarm virtual_alarm : Alarm)
        → IsQueue (record {
          active_timers = active;
          virtual_timer = v;
          next_id = next;
          alarm = alarm;
          virtual_alarm = virtual_alarm;
        })
        → wakeup_call time left (record {
          active_timers = active;
          virtual_timer = v;
          next_id = next;
          alarm = alarm;
          virtual_alarm = virtual_alarm;
        })
          ≡ some r
        → IsQueue r.1
    on_list [] v next alarm virtual_alarm i e = cc
    on_list (t ∷ ts) v next alarm virtual_alarm i e =
        subst (λ (x : Option Call × Timers). IsQueue x.1) (some_eq e)
          (restart_timers-IsQueue time left _
            (smaller-IsTable _ ts t.id off i.table
              (first-IsWithout t ts i.table.distinct i.table.sorted))
            (λ h. refl) (λ h. i.virtual_armed ∙ h))

virtual_wakeup_call-IsQueue :
    (time left : ℕ) (s : Timers) (r : Option Call × Timers)
    → IsQueue s
    → virtual_wakeup_call time left s ≡ some r
    → IsQueue r.1
unfolding virtual_wakeup_call
virtual_wakeup_call-IsQueue time left s r i e = elim (Option-cases s.virtual_timer) [
  | inl none_set ↦ absurd (ground (arith, rw (none_set, virtual_wakeup_call) at e))
  | inr (t, set) ↦
      subst (λ (x : Option Call × Timers). IsQueue x.1)
        (some_eq (rw (set, virtual_wakeup_call) at e))
        (record {
          table = record {
            count = i.table.count;
            next = i.table.next;
            old = i.table.old;
            distinct = i.table.distinct;
            sorted = i.table.sorted;
            virtual_old = λ m h. refl;
            apart = λ j h. cc;
          };
          armed = i.armed;
          virtual_armed = refl;
        })
]

-- Whatever sequence of calls and signals there was, with fewer than 2 ^ 31 - 1 timers set: the active
-- timers are in the order of their times, no two of them have the same number, no timer has a number
-- that is yet to be given out, the virtual timer's number is not that of an active timer, and the
-- kernel is asked for a signal exactly if an active, or the virtual, timer is set.
pub Reaches-IsQueue : (s : Timers) → Reaches s → IsQueue s
unfolding step
Reaches-IsQueue s begins = start-IsQueue
Reaches-IsQueue _ (goes_on s s' time left (sets seconds proc data_) r room e) =
    subst IsQueue (some_eq e)
      (set_timer-IsQueue time left seconds proc data_ s (Reaches-IsQueue s r) room)
Reaches-IsQueue _ (goes_on s s' time left (sets_virtual seconds proc data_) r room e) =
    subst IsQueue (some_eq e)
      (set_virtual_timer-IsQueue time left seconds proc data_ s (Reaches-IsQueue s r) room)
Reaches-IsQueue _ (goes_on s s' time left (cancels id) r room e) =
    subst IsQueue (some_eq e) (cancel_timer-IsQueue time left id s (Reaches-IsQueue s r))
Reaches-IsQueue _ (goes_on s s' time left wakes r room e) =
    elim (Option-cases (wakeup_call time left s)) [
      | inl idle ↦ absurd (ground (arith, rw idle at e))
      | inr (c, h) ↦
          subst IsQueue (some_eq (rw h at e))
            (wakeup_call-IsQueue time left s c (Reaches-IsQueue s r) h)
    ]
Reaches-IsQueue _ (goes_on s s' time left wakes_virtual r room e) =
    elim (Option-cases (virtual_wakeup_call time left s)) [
      | inl idle ↦ absurd (ground (arith, rw idle at e))
      | inr (c, h) ↦
          subst IsQueue (some_eq (rw h at e))
            (virtual_wakeup_call-IsQueue time left s c (Reaches-IsQueue s r) h)
    ]
