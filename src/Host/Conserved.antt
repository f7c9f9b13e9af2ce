-- ===== src/Host/Conserved.antt =====
-- No delta is lost or doubled by the adapter (internal/harnesshost/adapter.go).
use modeltap.Prelude.{
  ◌+◌, ◌≡◌, refl, sym, ap, ◌∙◌, String, Bool, not, ◌&&◌, List, [], ◌∷◌, ◌++◌, append_assoc, inl,
  inr, Bool-cases, if◌then◌else◌, All, is_empty, append_nil, arith,
}
use mathlib.Core.Path.{subst}
use modeltap.Prelude.Text.{str_eq, str_eq_iff, insert, erase}
use modeltap.Shell.Types.{
  HostEvent, submission_accepted, submission_failed, run_started, run_delta, run_completed,
  run_stopped, run_failed, permission_requested, permission_resolved, preview_loaded, host_status,
  host_info, transcript_clear,
}
use modeltap.Host.Adapter.{
  Delta, Adapter, as_event, detached_of, new_adapter, give, attach, detach, is_detached,
  forward_delta, forward_started, forward_resolved, remove_id, add_id, forward_event,
  forward_events,
}
use modeltap.Host.Counts.{
  record_event, hits, seen, held, seen-append, held-append, seen-replay, held-other,
  detached-insert, detached-erase,
}

abbrev Recording : Type 0
Recording = Adapter (List HostEvent)

All-append-one :
    (k : String) (ds : List Delta) (d : Delta)
    → All (λ d. d.run_id ≡ k) ds
    → d.run_id ≡ k
    → All (λ d. d.run_id ≡ k) (ds ++ d ∷ [])
All-append-one k [] d h e = (e, tt)
All-append-one k (x ∷ ds) d h e = (h.0, All-append-one k ds d h.1 e)

-- Every list of kept deltas is of its own run.
abbrev OwnRuns : List (String × List Delta) → Type 0
OwnRuns m = (k : String) → All (λ d. d.run_id ≡ k) (detached_of k m)

OwnRuns-keep :
    (d : Delta) (m : List (String × List Delta))
    → OwnRuns m
    → OwnRuns (insert d.run_id (detached_of d.run_id m ++ d ∷ []) m)
OwnRuns-keep d m h k =
    subst (All (λ d. d.run_id ≡ k))
      (sym (detached-insert d.run_id k (detached_of d.run_id m ++ d ∷ []) m))
      (elim (Bool-cases (str_eq d.run_id k)) [
        | inr n ↦ rw n (h k)
        | inl e ↦ rw e (
            let p = str_eq_iff d.run_id k e in
            subst (λ j. All (λ d. d.run_id ≡ k) (detached_of j m ++ d ∷ [])) (sym p)
              (All-append-one k (detached_of k m) d (h k) p))
      ])

OwnRuns-erase : (run : String) (m : List (String × List Delta)) → OwnRuns m → OwnRuns (erase run m)
OwnRuns-erase run m h k =
    subst (All (λ d. d.run_id ≡ k)) (sym (detached-erase run k m))
      (elim (Bool-cases (str_eq run k)) [ inr n ↦ rw n (h k) | inl e ↦ rw e tt ])

module _ (r : String) (q : String → Bool) where
  pub record Conserved (given : List HostEvent) (a : Recording) : Type 0 where
    pub total :
        seen r q given
        ≡ seen r q a.shell
          + (held r q a.pause_buffer + held r q (detached_of r a.detached_transcripts))
    pub own : OwnRuns a.detached_transcripts

  give-Conserved :
      (e : HostEvent) (given : List HostEvent) (a : Recording)
      → Conserved given a
      → Conserved (given ++ e ∷ []) (give record_event e a)
  give-Conserved e given a h = record {
    total =
        omega (arith, h.total, seen-append r q given (e ∷ []), seen-append r q a.shell (e ∷ []));
    own = h.own;
  }

  keep-count :
      (d : Delta) (m : List (String × List Delta))
      → held r q (detached_of r (insert d.run_id (detached_of d.run_id m ++ d ∷ []) m))
        ≡ held r q (detached_of r m) + hits r q d.run_id d.delta
  keep-count d m =
      ap (held r q) (detached-insert d.run_id r (detached_of d.run_id m ++ d ∷ []) m)
      ∙ elim (Bool-cases (str_eq d.run_id r)) [
        | inr n ↦ rw n (omega arith)
        | inl e ↦
            let p : detached_of d.run_id m ≡ detached_of r m =
              ap (λ j. detached_of j m) (str_eq_iff d.run_id r e) in
            rw (e, p) (held-append r q (detached_of r m) (d ∷ []) ∙ rw e (omega arith))
      ]

  -- What is given back from the deltas of a run is taken from them.
  erase-count :
      (run : String) (m : List (String × List Delta))
      → OwnRuns m
      → held r q (detached_of run m) + held r q (detached_of r (erase run m))
        ≡ held r q (detached_of r m)
  erase-count run m h =
      ap (λ ds. held r q (detached_of run m) + held r q ds) (detached-erase run r m)
      ∙ elim (Bool-cases (str_eq run r)) [
        | inr n ↦ rw n (omega (arith, held-other r q run (detached_of run m) (h run) n))
        | inl e ↦ rw e (ap (λ j. held r q (detached_of j m) + 0) (str_eq_iff run r e) ∙ omega arith)
      ]

  forward_delta-Conserved :
      (d : Delta) (given : List HostEvent) (a : Recording)
      → Conserved given a
      → Conserved (given ++ as_event d ∷ []) (forward_delta record_event d a)
  forward_delta-Conserved d given a h = elim (Bool-cases (not (is_empty a.pending_permissions))) [
    | inl w ↦ rw w (record {
      total = omega (
        arith,
        h.total,
        seen-append r q given (as_event d ∷ []),
        held-append r q a.pause_buffer (d ∷ []),
      );
      own = h.own;
    })
    | inr w ↦ rw w (elim (Bool-cases (is_detached d.run_id a.attached_run_id)) [
      | inl k ↦ rw k (record {
        total = omega (
          arith,
          h.total,
          seen-append r q given (as_event d ∷ []),
          keep-count d a.detached_transcripts,
        );
        own = OwnRuns-keep d a.detached_transcripts h.own;
      })
      | inr k ↦ rw k (give-Conserved (as_event d) given a h)
    ])
  ]

  forward_started-Conserved :
      (run : String) (e : HostEvent) (given : List HostEvent) (a : Recording)
      → Conserved given a
      → Conserved (given ++ e ∷ []) (forward_started record_event run e a)
  forward_started-Conserved run e given a h =
      let ds = detached_of run a.detached_transcripts in
      elim (Bool-cases (not (str_eq run "") && not (is_empty ds))) [
        | inr n ↦ rw n (give-Conserved e given a h)
        | inl y ↦ rw y (record {
          total = omega (
            arith,
            h.total,
            seen-append r q given (e ∷ []),
            seen-append r q a.shell (e ∷ []),
            seen-replay r q ds (a.shell ++ e ∷ []),
            erase-count run a.detached_transcripts h.own,
          );
          own = OwnRuns-erase run a.detached_transcripts h.own;
        })
      ]

  forward_resolved-Conserved :
      (e : HostEvent) (given : List HostEvent) (a : Recording)
      → Conserved given a
      → Conserved (given ++ e ∷ []) (forward_resolved record_event e a)
  forward_resolved-Conserved e given a h =
      elim (Bool-cases (is_empty a.pending_permissions && not (is_empty a.pause_buffer))) [
        | inr n ↦ rw n (give-Conserved e given a h)
        | inl y ↦ rw y (record {
          total = omega (
            arith,
            h.total,
            seen-append r q given (e ∷ []),
            seen-append r q a.shell (e ∷ []),
            seen-replay r q a.pause_buffer (a.shell ++ e ∷ []),
          );
          own = h.own;
        })
      ]

  forward_event-Conserved :
      (e : HostEvent) (given : List HostEvent) (a : Recording)
      → Conserved given a
      → Conserved (given ++ e ∷ []) (forward_event record_event e a)
  unfolding forward_event
  forward_event-Conserved (submission_accepted id run) given a h =
      give-Conserved (submission_accepted id run) given (attach run a)
        (record { total = h.total; own = h.own })
  forward_event-Conserved (run_started id run label) given a h =
      forward_started-Conserved run (run_started id run label) given (attach run a)
        (record { total = h.total; own = h.own })
  forward_event-Conserved (permission_resolved id outcome message) given a h =
      forward_resolved-Conserved (permission_resolved id outcome message) given
        (record a { pending_permissions = remove_id id a.pending_permissions })
        (record { total = h.total; own = h.own })
  forward_event-Conserved (run_delta run text) given a h =
      forward_delta-Conserved (record { run_id = run; delta = text }) given a h
  forward_event-Conserved (permission_requested p) given a h =
      give-Conserved (permission_requested p) given
        (record a {
          pending_permissions =
              if str_eq p.id "" then a.pending_permissions else add_id p.id a.pending_permissions;
        })
        (record { total = h.total; own = h.own })
  forward_event-Conserved (run_completed run) given a h =
      give-Conserved (run_completed run) given (detach run a)
        (record { total = h.total; own = h.own })
  forward_event-Conserved (run_stopped run reason message) given a h =
      give-Conserved (run_stopped run reason message) given (detach run a)
        (record { total = h.total; own = h.own })
  forward_event-Conserved (run_failed run message) given a h =
      give-Conserved (run_failed run message) given (detach run a)
        (record { total = h.total; own = h.own })
  forward_event-Conserved (submission_failed id message) given a h =
      give-Conserved (submission_failed id message) given a h
  forward_event-Conserved (preview_loaded target preview) given a h =
      give-Conserved (preview_loaded target preview) given a h
  forward_event-Conserved (host_status s kind) given a h =
      give-Conserved (host_status s kind) given a h
  forward_event-Conserved (host_info text) given a h = give-Conserved (host_info text) given a h
  forward_event-Conserved transcript_clear given a h = give-Conserved transcript_clear given a h

  forward_events-Conserved :
      (es given : List HostEvent) (a : Recording)
      → Conserved given a
      → Conserved (given ++ es) (forward_events record_event es a)
  unfolding forward_events
  forward_events-Conserved [] given a h = rw (append_nil given) h
  forward_events-Conserved (e ∷ es) given a h =
      subst (λ g. Conserved g (forward_events record_event es (forward_event record_event e a)))
        (append_assoc given (e ∷ []) es)
        (forward_events-Conserved es (given ++ e ∷ []) (forward_event record_event e a)
          (forward_event-Conserved e given a h))

-- Whatever events a new adapter forwards, every delta reaches the shell once or is still held: for
-- each run and each test of a text, as many deltas that pass came in as went to the shell, wait
-- for a permission, or are kept until the run starts.
pub forward_events-conserve :
    (r : String) (q : String → Bool) (es : List HostEvent)
    → let a : Recording = forward_events record_event es (new_adapter []) in
      seen r q es
      ≡ seen r q a.shell
        + (held r q a.pause_buffer + held r q (detached_of r a.detached_transcripts))
forward_events-conserve r q es =
    (forward_events-Conserved r q es [] (new_adapter [])
      (record { total = refl; own = λ k. tt })).total
