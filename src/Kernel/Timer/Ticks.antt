-- ===== src/Kernel/Timer/Ticks.antt =====
-- The events of src/kernel/timer.c: which of them a tick raises, and which an append forgets.
use redshift.Base.{
  ◌++◌, ℕ, ◌<◌, ◌≡◌, ◌≢◌, refl, ap, Bool, true, false, List, [], ◌∷◌, some, All, length, ne→eqb,
}
use redshift.Libk.String.{kstring_length, kstring_hash32}
use redshift.Kernel.Timer.{TimerEvent, append_event, add_timer_event, due, Returns, comes_back}

-- The time since the event was last raised is shorter than its period.
abbrev pub IsWaiting : TimerEvent → Type 0
IsWaiting e = e.elapsed_time < e.period

append_event-two :
    (e : TimerEvent) (events : List TimerEvent) (event : TimerEvent)
    → (last : TimerEvent) × (append_event (e ∷ events) event ≡ last ∷ event ∷ [])
unfolding append_event
append_event-two e [] event = (e, refl)
append_event-two e (next ∷ rest) event = append_event-two next rest event

-- Where an event is registered already, adding another one with a callback leaves two events
-- in the list, the last of the old ones and the new one, however many there were.
add_timer_event-forgets :
    (name : List ℕ) (period callback arg : ℕ) (e : TimerEvent) (events : List TimerEvent)
    (interrupts : Bool)
    → callback ≢ 0
    → (last event : TimerEvent) × (add_timer_event true name period callback arg
          (record { events = e ∷ events; interrupts = interrupts })
        ≡ some (record { events = last ∷ event ∷ []; interrupts = interrupts }))
      × (event.callback ≡ callback)
      × (event.period ≡ period)
unfolding add_timer_event
add_timer_event-forgets name period callback arg e events interrupts ne =
    let event : TimerEvent = record {
      name = name;
      name_hash = kstring_hash32 name (kstring_length name);
      period = period;
      elapsed_time = 0;
      callback = callback;
      arg = arg;
    } in
    let (last, two) = append_event-two e events event in
    (
      last,
      event,
      rw (ne→eqb callback 0 ne)
          (ap (λ q. some (record { events = q; interrupts = interrupts })) two),
      refl,
      refl,
    )

-- Nothing is behind, or an event that was raised and whose callback did not come back.
abbrev IsStop : Returns → (elapsed : ℕ) → List TimerEvent → Type 0
IsStop returns elapsed [] = Unit
IsStop returns elapsed (e ∷ queue) = (due elapsed e ≡ true) × (comes_back returns e ≡ false)

-- What a tick leaves: the events up to the one whose callback does not come back wait, and that one
-- and those behind it are as they were.
pub record Ticked (returns : Returns) (elapsed : ℕ) (events after : List TimerEvent) : Type 0 where
  pub before : List TimerEvent
  pub served : List TimerEvent
  pub rest : List TimerEvent
  pub split : events ≡ before ++ rest
  pub result : after ≡ served ++ rest
  pub same_count : length served ≡ length before
  pub waiting : All (λ e. IsWaiting e × (0 < e.period)) served
  pub stop : IsStop returns elapsed rest
