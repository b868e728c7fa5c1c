-- ===== src/Worker/Steps.antt =====
-- The invariant across the release of a result, the thread events, `shutdown` and every step.
use herdr_context.Base.{
  ℕ, ◌+◌, ◌≡◌, refl, true, false, List, [], ◌∷◌, arith, inl, inr, subst, sym, Bool-cases,
}
use herdr_context.Base.Map
use herdr_context.Base.KeySet
use herdr_context.Worker.Job.{job_key_eq, RawCompletion}
use herdr_context.Worker.Lane
use herdr_context.Worker.Lane.{Lane}
use herdr_context.Worker.Runtime.{
  WorkerRuntime, outstanding_len, idle_len, accept_completion, shutdown, with_capacities,
}
use herdr_context.Worker.Threads.{
  ThreadEvent, run_event, Step, submits, accepts, pumps, runs, shuts_down, Reach, here, next,
}
use herdr_context.Worker.Load.{Measure, each, one, age, load, result_load, lane_load}
use herdr_context.Worker.Slot.{Inv}
use herdr_context.Worker.Events.{run_event-load, run_event-fields, run_event-queue}
use herdr_context.Worker.Sizes.{idle_len-deactivate}
use herdr_context.Worker.Submits.{submit-Inv}
use herdr_context.Worker.Pumps.{pump_key-Inv}

module _ {T O : Type 0} (w : WorkerRuntime T O) (r : RawCompletion O)
    (rs : List (RawCompletion O)) where
  -- The result is taken from the channel, and its key is no longer active.
  abbrev pub released : WorkerRuntime T O
  released = record w { results = rs; active = KeySet.remove r.key w.active }

  released-load :
      w.results ≡ r ∷ rs → (f : Measure) → load f w ≡ f r.key r.generation + load f released
  unfolding load result_load
  released-load e f = rw e (omega arith)

  pub released_active : Inv w → w.results ≡ r ∷ rs → KeySet.contains r.key w.active ≡ true
  released_active h e = ground (arith, h.slot r.key, released-load e (one r.key))

  pub released-Inv : Inv w → w.results ≡ r ∷ rs → Inv released
  unfolding outstanding_len
  released-Inv h e = record {
    slot = λ k. ground (
      arith,
      h.slot k,
      released-load e (one k),
      released-load e (age k),
      KeySet.contains-remove k r.key w.active,
    );
    total = ground (
      arith,
      h.total,
      released-load e each,
      KeySet.length-remove r.key w.active h.distinct_active,
      released_active h e,
    );
    distinct_active = KeySet.remove-IsDistinct r.key w.active h.distinct_active;
    distinct_pending = h.distinct_pending;
    bounded = ground (
      arith,
      h.bounded,
      KeySet.length-remove r.key w.active h.distinct_active,
      released_active h e,
      idle_len-deactivate r.key w.active w.pending h.distinct_pending,
    );
    matched = h.matched;
    stopped_when_cancelled = h.stopped_when_cancelled;
    no_pending = h.no_pending;
    no_queue = h.no_queue;
  }

  pub accept-Inv :
      Inv w → w.results ≡ r ∷ rs → Inv (accept_completion (record w { results = rs }) r).0
  unfolding accept_completion
  accept-Inv h e =
      pump_key-Inv released r.key (released-Inv h e)
        (ground (arith, KeySet.contains-remove r.key r.key w.active))

module _ {T O : Type 0} where
  run_event-Inv : (e : ThreadEvent O) (w : WorkerRuntime T O) → Inv w → Inv (run_event e w)
  unfolding outstanding_len
  run_event-Inv e w h =
      let fs = run_event-fields e w in
      let same = λ (f : Measure). run_event-load e w f h.no_queue in
      record {
        slot = λ k. ground (arith, fs, same (one k), same (age k), h.slot k);
        total = ground (arith, fs, same each, h.total);
        distinct_active = rw fs.0 h.distinct_active;
        distinct_pending = rw fs.1 h.distinct_pending;
        bounded = ground (arith, fs, h.bounded);
        matched = ground (arith, fs, h.matched);
        stopped_when_cancelled = λ c. ground (arith, fs, h.stopped_when_cancelled);
        no_pending = λ c. ground (arith, fs, h.no_pending);
        no_queue =
            λ c. let empty = h.no_queue (ground (arith, fs)) in run_event-queue e w empty.0 empty.1;
      }

  abbrev pub stopped : WorkerRuntime T O → WorkerRuntime T O
  stopped w = record w {
    shutting_down = true;
    cancelled = true;
    pending = [];
    high_lane = Lane.stop w.high_lane;
    low_lane = Lane.stop w.low_lane;
    results = [];
    active = [];
    latest = [];
  }

  pub shutdown_state : (w : WorkerRuntime T O) → w.shutting_down ≡ false → shutdown w ≡ stopped w
  unfolding shutdown
  shutdown_state w up = ground arith

  stopped-Inv : (w : WorkerRuntime T O) → Inv w → Inv (stopped w)
  unfolding Lane.stop load lane_load result_load outstanding_len idle_len KeySet.contains Map.lookup
  stopped-Inv w h = record {
    slot = λ k. refl;
    total = refl;
    distinct_active = tt;
    distinct_pending = tt;
    bounded = omega arith;
    matched = h.matched;
    stopped_when_cancelled = λ c. refl;
    no_pending = λ c. refl;
    no_queue = λ c. (refl, refl);
  }

  shutdown-Inv : (w : WorkerRuntime T O) → Inv w → Inv (shutdown w)
  unfolding shutdown
  shutdown-Inv w h = elim (Bool-cases w.shutting_down) [
    | inl down ↦ simp down h
    | inr up ↦ subst Inv (sym (shutdown_state w up)) (stopped-Inv w h)
  ]

  pub with_capacities-Inv : (h l : ℕ) → Inv (with_capacities {T = T} {O = O} h l)
  unfolding with_capacities load lane_load result_load outstanding_len idle_len KeySet.contains
      Map.lookup
  with_capacities-Inv h l = record {
    slot = λ k. refl;
    total = refl;
    distinct_active = tt;
    distinct_pending = tt;
    bounded = omega arith;
    matched = refl;
    stopped_when_cancelled = λ c. cc;
    no_pending = λ c. refl;
    no_queue = λ c. (refl, refl);
  }

  -- Every step of the owner (a submission, a received result, a pump of a key that is not active, a
  -- shutdown) and every event of a lane thread keeps the invariant of the runtime.
  pub Step-Inv : {w v : WorkerRuntime T O} → Step w v → Inv w → Inv v
  Step-Inv (submits w job) h = submit-Inv w job h
  Step-Inv (accepts w r rs e) h = accept-Inv w r rs h e
  Step-Inv (pumps w key off) h = pump_key-Inv w key h off
  Step-Inv (runs w e) h = run_event-Inv e w h
  Step-Inv (shuts_down w) h = shutdown-Inv w h

  pub Reach-Inv : {w v : WorkerRuntime T O} → Inv w → Reach w v → Inv v
  Reach-Inv h here = h
  Reach-Inv h (next r s) = Step-Inv s (Reach-Inv h r)
