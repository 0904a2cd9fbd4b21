-- ===== src/Timers/View.antt =====
-- The timers as a table by number, which forgets how the list is kept.
use stunt.Prelude.{
  ℕ, ◌+◌, ◌≤◌, ◌≡◌, refl, ap, subst, ◌∙◌, Bool, true, false, ◌&&◌, ◌||◌, not, Option, none, some,
  List, [], ◌∷◌, arith, if◌then◌else◌, Bool-cases, some_eq, inl, inr, ◌⊎◌,
}
use stunt.Prelude.Int.{ℤ, eqb_ℤ, eqb_eq, eqb_refl}
use stunt.Timers.{
  Timer, Timers, call_of, is_timer, stop_timers, restart_timers, set_timer, wakeup_call,
  cancel_timer,
}
use stunt.Timers.Order.{lookup, Later, Sorted, lookup-insert, first-IsWithout, remove-IsWithout}
use stunt.Timers.Queue.{Reaches, IsTable}
use stunt.Timers.Reached.{is_timer-stopped, Reaches-IsQueue}

abbrev pub is_some : Option Timer → Bool
is_some none = false
is_some (some t) = true

abbrev pub is_pending : ℤ → Timers → Bool
is_pending id s = is_timer id s.virtual_timer || is_some (lookup id s.active_timers)

-- The timer that a signal takes is the one whose time is first.
pub record Fires (time left : ℕ) (s : Timers) : Type 0 where
  pub timer : Timer
  pub next : Timers
  pub answer : wakeup_call time left s ≡ some (call_of timer, next)
  pub was_set : lookup timer.id s.active_timers ≡ some timer
  pub first : (id : ℤ) (t : Timer) → lookup id s.active_timers ≡ some t → timer.when ≤ t.when
  pub others :
      (id : ℤ)
      → lookup id next.active_timers
        ≡ (if eqb_ℤ timer.id id then none else lookup id s.active_timers)

pub record IsTimerTable (time left : ℕ) (s : Timers) : Type 0 where
  pub set_one :
      (seconds proc data_ : ℕ) (id : ℤ)
      → lookup id (set_timer time left seconds proc data_ s).1.active_timers ≡ (
          if eqb_ℤ (set_timer time left seconds proc data_ s).0 id
          then some (record {
            when = time + seconds;
            proc = proc;
            data_ = data_;
            id = (set_timer time left seconds proc data_ s).0;
          })
          else lookup id s.active_timers)
  pub cancel_found : (id : ℤ) → (cancel_timer time left id s).0 ≡ is_pending id s
  pub cancel_one :
      (id j : ℤ)
      → is_pending j (cancel_timer time left id s).1 ≡ (not (eqb_ℤ id j) && is_pending j s)
  pub wakes : ((wakeup_call time left s ≡ none) × (s.active_timers ≡ [])) ⊎ Fires time left s

Later-lookup :
    (when : ℕ) (ts : List Timer) (id : ℤ) (t : Timer)
    → Later when ts
    → lookup id ts ≡ some t
    → when ≤ t.when
unfolding Later lookup
Later-lookup when [] id t l e = cc
Later-lookup when (u ∷ us) id t (first, l) e = elim (Bool-cases (eqb_ℤ u.id id)) [
  | inl this ↦ subst (λ (x : Timer). when ≤ x.when) (some_eq (rw this at e)) first
  | inr that ↦ Later-lookup when us id t l (rw that at e)
]

first-lookup :
    (u : Timer) (us : List Timer) (id : ℤ) (t : Timer)
    → Later u.when us
    → lookup id (u ∷ us) ≡ some t
    → u.when ≤ t.when
unfolding lookup
first-lookup u us id t l e = elim (Bool-cases (eqb_ℤ u.id id)) [
  | inl this ↦ subst (λ (x : Timer). u.when ≤ x.when) (some_eq (rw this at e)) (omega arith)
  | inr that ↦ Later-lookup u.when us id t l (rw that at e)
]

lookup-first : (t : Timer) (ts : List Timer) → lookup t.id (t ∷ ts) ≡ some t
unfolding lookup
lookup-first t ts = rw (eqb_refl t.id) refl

wakes_first :
    (time left : ℕ) (s : Timers)
    → IsTable s
    → ((wakeup_call time left s ≡ none) × (s.active_timers ≡ [])) ⊎ Fires time left s
unfolding wakeup_call restart_timers Sorted
wakes_first time left s q =
    on_list s.active_timers s.virtual_timer s.next_id s.alarm s.virtual_alarm q
  where
    on_list :
        (active : List Timer) (v : Option Timer) (next : ℤ) (alarm virtual_alarm : _)
        → IsTable (record {
          active_timers = active;
          virtual_timer = v;
          next_id = next;
          alarm = alarm;
          virtual_alarm = virtual_alarm;
        })
        → ((wakeup_call time left (record {
          active_timers = active;
          virtual_timer = v;
          next_id = next;
          alarm = alarm;
          virtual_alarm = virtual_alarm;
        })
              ≡ none)
            × (active ≡ []))
          ⊎ Fires time left (record {
            active_timers = active;
            virtual_timer = v;
            next_id = next;
            alarm = alarm;
            virtual_alarm = virtual_alarm;
          })
    on_list [] v next alarm virtual_alarm q = inl (refl, refl)
    on_list (t ∷ ts) v next alarm virtual_alarm q =
        let w = first-IsWithout t ts q.distinct q.sorted in
        inr (record {
          timer = t;
          next = _;
          answer = refl;
          was_set = lookup-first t ts;
          first = λ id u. first-lookup t ts id u q.sorted.0;
          others = w.others;
        })

is_timer-virtual : (id j : ℤ) (v : Option Timer) → is_timer id v ≡ true → is_timer j v ≡ eqb_ℤ id j
is_timer-virtual id j none h = cc
is_timer-virtual id j (some t) h = ap (λ i. eqb_ℤ i j) (eqb_eq t.id id h)

cancels_found :
    (time left : ℕ) (s : Timers) (id : ℤ)
    → IsTable s
    → (cancel_timer time left id s).0 ≡ is_pending id s
unfolding cancel_timer
cancels_found time left s id q = elim (Bool-cases (is_timer id s.virtual_timer)) [
  | inl this ↦ rw this refl
  | inr that ↦ elim (remove-IsWithout id s.active_timers q.distinct q.sorted) [
    | inl (e, absent) ↦ rw (that, e, absent) refl
    | inr (ts, e, w) ↦ rw (that, e, w.was.1) refl
  ]
]

cancels_one :
    (time left : ℕ) (s : Timers) (id j : ℤ)
    → IsTable s
    → is_pending j (cancel_timer time left id s).1 ≡ (not (eqb_ℤ id j) && is_pending j s)
unfolding cancel_timer stop_timers restart_timers
cancels_one time left s id j q = elim (Bool-cases (is_timer id s.virtual_timer)) [
  | inl this ↦ elim (Bool-cases (eqb_ℤ id j)) [
    | inl same ↦ rw (this, same, q.apart j (is_timer-virtual id j s.virtual_timer this ∙ same)) refl
    | inr other ↦ rw (this, other, is_timer-virtual id j s.virtual_timer this ∙ other) refl
  ]
  | inr that ↦ elim (remove-IsWithout id s.active_timers q.distinct q.sorted) [
    | inl (e, absent) ↦
        rw (that, e, is_timer-stopped j left s.virtual_timer) (unchanged that absent)
    | inr (ts, e, w) ↦ elim (Bool-cases (eqb_ℤ id j)) [
      | inl same ↦
          let gone : is_timer j s.virtual_timer ≡ false =
            subst (λ i. is_timer i s.virtual_timer ≡ false) (eqb_eq id j same) that in
          rw (that, e, is_timer-stopped j left s.virtual_timer, w.others j, same, gone) refl
      | inr other ↦ rw (that, e, is_timer-stopped j left s.virtual_timer, w.others j, other) refl
    ]
  ]
]
  where
    unchanged :
        is_timer id s.virtual_timer ≡ false
        → lookup id s.active_timers ≡ none
        → (is_timer j s.virtual_timer || is_some (lookup j s.active_timers))
          ≡ (not (eqb_ℤ id j) && (is_timer j s.virtual_timer || is_some (lookup j s.active_timers)))
    unchanged that absent = elim (Bool-cases (eqb_ℤ id j)) [
      | inl same ↦
          let gone : is_timer j s.virtual_timer ≡ false =
            subst (λ i. is_timer i s.virtual_timer ≡ false) (eqb_eq id j same) that in
          let absent' : lookup j s.active_timers ≡ none =
            subst (λ i. lookup i s.active_timers ≡ none) (eqb_eq id j same) absent in
          rw (same, gone, absent') refl
      | inr other ↦ rw other refl
    ]

-- In every state that calls and signals reach, the timers are a table from numbers to timers:
-- set_timer adds its timer under the number that it returns and changes no other entry; cancel_timer
-- says whether the number had a timer, and takes away this timer alone; a signal finds a timer to take
-- if there is an active one, takes one that no other active timer is due before, and leaves the others.
pub Reaches-IsTimerTable : (time left : ℕ) (s : Timers) → Reaches s → IsTimerTable time left s
unfolding set_timer stop_timers restart_timers
Reaches-IsTimerTable time left s r =
    let q = (Reaches-IsQueue s r).table in
    let fresh : lookup s.next_id s.active_timers ≡ none = rw q.next (q.old q.count (omega arith)) in
    record {
      set_one = λ seconds proc data_ id. lookup-insert _ s.active_timers id fresh;
      cancel_found = λ id. cancels_found time left s id q;
      cancel_one = λ id j. cancels_one time left s id j q;
      wakes = wakes_first time left s q;
    }
