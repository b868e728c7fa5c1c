-- ===== src/Worker/Waiting.antt =====
-- `try_recv` and `recv_timeout` while the threads run: what they take from the channel and what they
-- give back.
use herdr_context.Base.{
  ◌≡◌, refl, sym, subst, ◌⊎◌, false, Option, none, some, List, [], ◌∷◌, ◌++◌, arith, inl, inr,
  Bool-cases, Option-cases, map, append_assoc, append_nil,
}
use herdr_context.Base.KeySet
use herdr_context.Worker.Job.{JobKey, job_key_eq, RawCompletion, CompletedJob}
use herdr_context.Worker.Runtime.{
  WorkerRuntime, pump_key, pump_keys, pump_pending, accept_completion, recv_loop, try_recv,
}
use herdr_context.Worker.Threads.{
  ThreadEvent, run_event, run_events, first_result, try_recv_during, recv_wait, recv_timeout, Reach,
  here, next, accepts, pumps, runs,
}
use herdr_context.Worker.Polling.{results-accept, emptied}

abbrev pub given : {O : Type 0} → Option (CompletedJob O) → List (CompletedJob O)
given none = []
given (some job) = job ∷ []

module _ {T O : Type 0} where
  -- The steps from one state to another: the events of the threads in their order, and the jobs that
  -- the results taken from the channel have given.
  pub data Trace (w : WorkerRuntime T O)
      : List (ThreadEvent O) → List (CompletedJob O) → WorkerRuntime T O → Type 0 where
    still : Trace w [] [] w
    takes :
        {es : List (ThreadEvent O)} {js : List (CompletedJob O)} {u : WorkerRuntime T O}
        (result : RawCompletion O) (rest : List (RawCompletion O))
        → Trace w es js u
        → u.results ≡ result ∷ rest
        → Trace w es
            (js ++ given (accept_completion (record u { results = rest }) result).1)
            (accept_completion (record u { results = rest }) result).0
    pumped :
        {es : List (ThreadEvent O)} {js : List (CompletedJob O)} {u : WorkerRuntime T O}
        (key : JobKey)
        → Trace w es js u
        → KeySet.contains key u.active ≡ false
        → Trace w es js (pump_key u key)
    ran :
        {es : List (ThreadEvent O)} {js : List (CompletedJob O)} {u : WorkerRuntime T O}
        (e : ThreadEvent O)
        → Trace w es js u
        → Trace w (es ++ e ∷ []) js (run_event e u)

  -- A trace is a sequence of steps.
  pub Trace-Reach :
      {w v : WorkerRuntime T O} {es : List (ThreadEvent O)} {js : List (CompletedJob O)}
      → Trace w es js v
      → Reach w v
  Trace-Reach still = here
  Trace-Reach (takes {u = u} result rest t e) = next (Trace-Reach t) (accepts u result rest e)
  Trace-Reach (pumped {u = u} key t off) = next (Trace-Reach t) (pumps u key off)
  Trace-Reach (ran {u = u} e t) = next (Trace-Reach t) (runs u e)

  pump_keys-Trace :
      {w : WorkerRuntime T O} {es : List (ThreadEvent O)} (keys : List JobKey)
      (u : WorkerRuntime T O)
      → Trace w es [] u
      → Trace w es [] (pump_keys keys u)
  unfolding pump_keys
  pump_keys-Trace [] u t = t
  pump_keys-Trace (key ∷ keys) u t = elim (Bool-cases (KeySet.contains key u.active)) [
    | inl on ↦ rw on (pump_keys-Trace keys u t)
    | inr off ↦ rw off (pump_keys-Trace keys (pump_key u key) (pumped key t off))
  ]

  pump_pending-Trace :
      {w : WorkerRuntime T O} {es : List (ThreadEvent O)} (u : WorkerRuntime T O)
      → Trace w es [] u
      → Trace w es [] (pump_pending u)
  unfolding pump_pending
  pump_pending-Trace u t = pump_keys-Trace (map (λ (k, _). k) u.pending) u t

  run_events-Trace :
      {w : WorkerRuntime T O} (events : List (ThreadEvent O)) (u : WorkerRuntime T O)
      (es : List (ThreadEvent O))
      → Trace w es [] u
      → Trace w (es ++ events) [] (run_events events u)
  unfolding run_events
  run_events-Trace {w} [] u es t = subst (λ l. Trace w l [] u) (sym (append_nil es)) t
  run_events-Trace {w} (e ∷ events) u es t =
      subst (λ l. Trace w l [] (run_events events (run_event e u)))
        (sym (append_assoc es (e ∷ []) events))
        (run_events-Trace events (run_event e u) (es ++ e ∷ []) (ran e t))

  recv_loop-Trace :
      {w : WorkerRuntime T O} {es : List (ThreadEvent O)} (rs : List (RawCompletion O))
      (u : WorkerRuntime T O)
      → Trace w es [] u
      → u.results ≡ rs
      → Trace w es (given (recv_loop rs u).1) (recv_loop rs u).0
  unfolding recv_loop
  recv_loop-Trace {w} {es} [] u t e =
      subst (λ v. Trace w es [] (pump_pending v)) (sym (emptied u e)) (pump_pending-Trace u t)
  recv_loop-Trace {w} {es} (r ∷ rs) u t e =
      let after = accept_completion (record u { results = rs }) r in
      let first : Trace w es (given after.1) after.0 = takes r rs t e in
      elim (Option-cases after.1) [
        | inl dropped ↦
            rw (dropped, recv_loop)
              (recv_loop-Trace rs after.0 (subst (λ d. Trace w es (given d) after.0) dropped first)
                (results-accept u r rs))
        | inr (job, kept) ↦
            rw (kept, recv_loop) (subst (λ d. Trace w es (given d) after.0) kept first)
      ]

  -- What one look at the channel leads to, and the loop from there.
  first_result-Trace :
      {w : WorkerRuntime T O} {es : List (ThreadEvent O)} (u v : WorkerRuntime T O)
      (rs : List (RawCompletion O)) (d : Option (CompletedJob O))
      → Trace w es [] u
      → u.results ≡ rs
      → first_result u rs ≡ some (v, d)
      → Trace w es (given d) v
  first_result-Trace u v [] d t e f = absurd (ground arith)
  first_result-Trace {w} {es} u v (r ∷ rs) d t e f =
      let after = accept_completion (record u { results = rs }) r in
      let same : after ≡ (v, d) = ground (arith, f) in
      subst (λ x. Trace w es (given x.1) x.0) same (takes r rs t e)

  -- What a call gives back is what the results that it took have given, after some events.
  abbrev Gave : WorkerRuntime T O → WorkerRuntime T O × Option (CompletedJob O) → Type 0
  Gave w (v, d) = (es : List (ThreadEvent O)) × Trace w es (given d) v

  try_recv_during-Trace :
      {w : WorkerRuntime T O} (looks : List (List (ThreadEvent O))) (u : WorkerRuntime T O)
      (es : List (ThreadEvent O))
      → Trace w es [] u
      → Gave w (try_recv_during looks u)
  unfolding try_recv_during try_recv
  try_recv_during-Trace {w} [] u es t = (es, recv_loop-Trace u.results u t refl)
  try_recv_during-Trace {w} (events ∷ rest) u es t =
      let u' = run_events events u in
      let t' = run_events-Trace events u es t in
      elim (Option-cases (first_result u' u'.results)) [
        | inl e ↦ rw (e, try_recv_during) (es ++ events, pump_pending-Trace u' t')
        | inr ((v, some job), e) ↦
            rw (e, try_recv_during)
              (es ++ events, first_result-Trace u' v u'.results (some job) t' refl e)
        | inr ((v, none), e) ↦
            rw (e, try_recv_during)
              (try_recv_during-Trace rest v (es ++ events)
                (first_result-Trace u' v u'.results none t' refl e))
      ]

  -- The waits of a schedule have happened, up to one that ended with an empty channel.
  abbrev pub Waited :
      List (List (ThreadEvent O)) → List (ThreadEvent O) → WorkerRuntime T O → Type 0
  Waited [] es v = es ≡ []
  Waited (events ∷ rest) es v =
      (es ≡ events) × (v.results ≡ [])
      ⊎ (later : List (ThreadEvent O)) × (es ≡ events ++ later) × Waited rest later v

  abbrev pub Ended :
      List (List (ThreadEvent O))
      → List (ThreadEvent O)
      → WorkerRuntime T O
      → Option (CompletedJob O)
      → Type 0
  Ended schedule es v (some job) = Unit
  Ended schedule es v none = Waited schedule es v

  no_result :
      (u : WorkerRuntime T O) (rs : List (RawCompletion O)) → first_result u rs ≡ none → rs ≡ []
  no_result u [] e = refl
  no_result u (r ∷ rs) e = absurd (ground (arith, e))

  abbrev Waits :
      WorkerRuntime T O
      → List (ThreadEvent O)
      → List (List (ThreadEvent O))
      → WorkerRuntime T O × Option (CompletedJob O)
      → Type 0
  Waits w before schedule (v, d) =
      (es : List (ThreadEvent O)) × Trace w (before ++ es) (given d) v × Ended schedule es v d

  later-Waits :
      {w : WorkerRuntime T O} (before events : List (ThreadEvent O))
      (schedule : List (List (ThreadEvent O))) (v : WorkerRuntime T O) (d : Option (CompletedJob O))
      → Waits w (before ++ events) schedule (v, d)
      → Waits w before (events ∷ schedule) (v, d)
  later-Waits {w} before events schedule v none (es, t, waited) = (
    events ++ es,
    subst (λ l. Trace w l [] v) (sym (append_assoc before events es)) t,
    inr (es, refl, waited),
  )
  later-Waits {w} before events schedule v (some job) (es, t, ended) = (
    events ++ es,
    subst (λ l. Trace w l (job ∷ []) v) (sym (append_assoc before events es)) t,
    tt,
  )

  recv_wait-Waits :
      {w : WorkerRuntime T O} (schedule : List (List (ThreadEvent O))) (u : WorkerRuntime T O)
      (before : List (ThreadEvent O))
      → Trace w before [] u
      → Waits w before schedule (recv_wait schedule u)
  unfolding recv_wait
  recv_wait-Waits {w} [] u before t =
      ([], subst (λ l. Trace w l [] u) (sym (append_nil before)) t, refl)
  recv_wait-Waits {w} (events ∷ rest) u before t =
      let u' = run_events events u in
      let t' = run_events-Trace events u before t in
      elim (Option-cases (first_result u' u'.results)) [
        | inl e ↦ rw (e, recv_wait) (events, t', inl (refl, no_result u' u'.results e))
        | inr ((v, some job), e) ↦
            rw (e, recv_wait) (events, first_result-Trace u' v u'.results (some job) t' refl e, tt)
        | inr ((v, none), e) ↦
            rw (e, recv_wait)
              (later-Waits before events rest (recv_wait rest v).0 (recv_wait rest v).1 (
                recv_wait-Waits rest v (before ++ events)
                  (first_result-Trace u' v u'.results none t' refl e)))
      ]

  -- `recv_timeout` takes results from the channel, pumps pending jobs and lets the threads run, and
  -- gives back just the job that the results it has taken give: none of them is lost. Where it gives
  -- none, the waits of the schedule have happened, all of them or up to one that ended with an empty
  -- channel.
  pub recv_timeout-Trace :
      (looks schedule : List (List (ThreadEvent O))) (w : WorkerRuntime T O)
      → let (v, delivered) = recv_timeout looks schedule w in
        (before es : List (ThreadEvent O)) × Trace w (before ++ es) (given delivered) v
        × Ended schedule es v delivered
  unfolding recv_timeout
  recv_timeout-Trace looks schedule w =
      let (es, t) = try_recv_during-Trace looks w [] still in
      elim (Option-cases (try_recv_during looks w).1) [
        | inl e ↦
            let (later, t', ended) =
              recv_wait-Waits schedule (try_recv_during looks w).0 es
                (subst (λ d. Trace w es (given d) (try_recv_during looks w).0) e t) in
            rw (e, recv_timeout) (es, later, t', ended)
        | inr (job, e) ↦
            rw (e, recv_timeout)
              (
                es,
                [],
                subst (λ l. Trace w l (job ∷ []) (try_recv_during looks w).0) (sym (append_nil es))
                    (subst (λ d. Trace w es (given d) (try_recv_during looks w).0) e t),
                tt,
              )
      ]

  -- `recv_timeout` is a sequence of steps of the owner and of the threads.
  recv_timeout-Reach :
      (looks schedule : List (List (ThreadEvent O))) (w : WorkerRuntime T O)
      → Reach w (recv_timeout looks schedule w).0
  recv_timeout-Reach looks schedule w =
      let (before, es, t, _) = recv_timeout-Trace looks schedule w in Trace-Reach t
