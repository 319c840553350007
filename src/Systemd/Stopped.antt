-- ===== src/Systemd/Stopped.antt =====
-- When `stop_unit` of src/procs.rs takes a unit for stopped, by `stop_and_wait` of src/systemd/api.rs.
use procstar.Prelude.{
  ◌≡◌, ◌≢◌, ◌⊎◌, ◌↔◌, inl, inr, refl, ◌∙◌, Bool, true, false, String, List, [], ◌∷◌, Option, none,
  some, ok, err, arith, str_eq, eq_iff, Bool-cases, Result-cases,
}
use procstar.Err.{DbusError}
use procstar.Procs.Units.{is_no_such_unit, job_result_ok, stopped}
use procstar.Systemd.{JobRemoved, Signal, Stream, Proxies, await_result, stop_and_wait}

-- The first signal about a job that can be read reports its result.
pub data Reports (job : String) : List Signal → String → Type 0 where
  here :
      {args : JobRemoved} {signals : List Signal} {result : String}
      → job ≡ args.job
      → result ≡ args.result
      → Reports job (ok args ∷ signals) result
  other :
      {args : JobRemoved} {signals : List Signal} {result : String}
      → job ≢ args.job
      → Reports job signals result
      → Reports job (ok args ∷ signals) result
  unread :
      {e : DbusError} {signals : List Signal} {result : String}
      → Reports job signals result
      → Reports job (err e ∷ signals) result

-- A job that has done what was asked.
abbrev pub Succeeds : String → Type 0
Succeeds result = (result ≡ "done") ⊎ (result ≡ "skipped")

job_result_ok_iff : (result : String) → (job_result_ok result ≡ true) ↔ Succeeds result
unfolding job_result_ok
job_result_ok_iff result = ground (arith, eq_iff result "done", eq_iff result "skipped")

some_inj : {a b : String} → some a ≡ some b → a ≡ b
some_inj e = cc

str_ne : (s t : String) → str_eq s t ≡ false → s ≡ t → ⊥
str_ne s t differ same = ground (arith, eq_iff s t)

unknown-fails : (result : String) → ◌≡◌ {A = String} "unknown" result → Succeeds result → ⊥
unknown-fails result e (inl d) = str_ne "unknown" "done" refl (e ∙ d)
unknown-fails result e (inr d) = str_ne "unknown" "skipped" refl (e ∙ d)

-- A stream that has ended gives "unknown", which is no success.
await_result_sound :
    (job : String) (signals : List Signal) (ended : Bool) (result : String)
    → await_result job signals ended ≡ some result
    → Succeeds result
    → Reports job signals result
unfolding await_result
await_result_sound job [] true result e h = absurd (unknown-fails result (some_inj e) h)
await_result_sound job [] false result e h = cc
await_result_sound job (err _ ∷ signals) ended result e h =
    Reports.unread (await_result_sound job signals ended result e h)
await_result_sound job (ok args ∷ signals) ended result e h =
    elim (Bool-cases (str_eq job args.job)) [
      | inl own ↦ Reports.here ((eq_iff job args.job).0 own) (ground (arith, rw own at e))
      | inr foreign ↦
          Reports.other (λ same. cc ((eq_iff job args.job).1 same))
            (await_result_sound job signals ended result (rw foreign at e) h)
    ]

await_result_complete :
    (job : String) (signals : List Signal) (ended : Bool) (result : String)
    → Reports job signals result
    → await_result job signals ended ≡ some result
unfolding await_result
await_result_complete job [] ended result r = elim r [ ]
await_result_complete job (_ ∷ signals) ended result (Reports.here own e) =
    rw ((eq_iff job _).1 own, e) refl
await_result_complete job (ok args ∷ signals) ended result (Reports.other foreign r) =
    ground (arith, eq_iff job args.job, foreign, await_result_complete job signals ended result r)
await_result_complete job (_ ∷ signals) ended result (Reports.unread r) =
    await_result_complete job signals ended result r

module _ (ends_with : String → String → Bool) where
  -- systemd does not know the unit, when the client subscribes or when it asks for the stop.
  pub data IsGone (p : Proxies) (name : String) : Type 0 where
    at_once :
        (e : DbusError)
        → p.receive_job_removed ≡ err e
        → is_no_such_unit ends_with e ≡ true
        → IsGone p name
    at_stop :
        (e : DbusError) (stream : Stream)
        → p.receive_job_removed ≡ ok stream
        → p.stop_unit name "replace" ≡ err e
        → is_no_such_unit ends_with e ≡ true
        → IsGone p name

  -- The stop job is made and, in time, reported to have done what was asked.
  pub record IsStopped (p : Proxies) (name : String) : Type 0 where
    pub stream : Stream
    pub subscribed : p.receive_job_removed ≡ ok stream
    pub job : String
    pub requested : p.stop_unit name "replace" ≡ ok job
    pub result : String
    pub reports : Reports job stream.signals result
    pub succeeds : Succeeds result

  reported :
      (p : Proxies) (name job : String) (stream : Stream)
      → p.receive_job_removed ≡ ok stream
      → p.stop_unit name "replace" ≡ ok job
      → (found : Option String) → await_result job stream.signals stream.ended ≡ found
      → stopped ends_with (ok found) ≡ true
      → IsStopped p name
  unfolding stopped
  reported p name job stream subscribed requested none e h = cc
  reported p name job stream subscribed requested (some result) e h =
      let good = (job_result_ok_iff result).0 h in
      record {
        stream = stream;
        subscribed = subscribed;
        job = job;
        requested = requested;
        result = result;
        reports = await_result_sound job stream.signals stream.ended result e good;
        succeeds = good;
      }

  stopped_sound :
      (p : Proxies) (name : String)
      → stopped ends_with (stop_and_wait p name) ≡ true
      → IsGone p name ⊎ IsStopped p name
  unfolding stop_and_wait stopped
  stopped_sound p name h = elim (Result-cases p.receive_job_removed) [
    | inr (e, gone) ↦ inl (IsGone.at_once e gone (rw (gone, stop_and_wait) at h))
    | inl (stream, subscribed) ↦ elim (Result-cases (p.stop_unit name "replace")) [
      | inr (e, gone) ↦ inl (IsGone.at_stop e stream subscribed gone (rw (subscribed, gone) at h))
      | inl (job, requested) ↦
          inr (
            reported p name job stream subscribed requested _ refl
              (rw (subscribed, requested) at h))
    ]
  ]

  stopped_complete :
      (p : Proxies) (name : String)
      → IsGone p name ⊎ IsStopped p name
      → stopped ends_with (stop_and_wait p name) ≡ true
  unfolding stop_and_wait stopped
  stopped_complete p name (inl (IsGone.at_once e gone h)) = rw gone h
  stopped_complete p name (inl (IsGone.at_stop e stream subscribed gone h)) =
      rw (subscribed, gone) h
  stopped_complete p name (inr s) =
      rw
        (
          s.subscribed,
          s.requested,
          await_result_complete s.job s.stream.signals s.stream.ended s.result s.reports,
        )
        ((job_result_ok_iff s.result).1 s.succeeds)

-- A unit counts as stopped exactly if systemd answers that there is no such unit, when the client
-- subscribes or when it asks for the stop, or if in time the first signal about the stop job that can be
-- read reports that it is done or was skipped; signals of other jobs do not matter.
pub stopped_iff :
    (ends_with : String → String → Bool) (p : Proxies) (name : String)
    → (stopped ends_with (stop_and_wait p name) ≡ true)
      ↔ (IsGone ends_with p name ⊎ IsStopped ends_with p name)
stopped_iff ends_with p name = (stopped_sound ends_with p name, stopped_complete ends_with p name)
