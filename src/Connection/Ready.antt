-- ===== src/Connection/Ready.antt =====
-- A run of the connect flow to which the environment answers well.
use modeltap.Prelude.{
  ◌⊎◌, ◌&&◌, not, ◌≡◌, refl, sym, ap, ◌∙◌, Bool, true, false, none, some, if◌then◌else◌, Bool-cases,
  inl, inr, arith, ℕ,
}
use mathlib.Core.Path.{subst}
use modeltap.Prelude.Text.{str_eq}
use modeltap.Connection.Types.{ConnState, ConnectionConfig, ConnectionManager, Attempt, DialResult}
use modeltap.Connection.Transition.{is_same, moves, transition}
use modeltap.Connection.Connect.{
  Outcome, connect_sync, start_server, after_start, dial_server, after_dial, register_client,
  after_register, become_ready, authenticate_unless, needs_start, dial,
}

-- The server answers or is started, the dial gives the client, and the registration succeeds.
pub record Succeeds (a : Attempt) (config : ConnectionConfig) (c : ℕ) : Type 0 where
  pub started :
      (config.auto_start ≡ true) × (a.start_error ≡ none)
      ⊎ ((str_eq config.socket_path "" ≡ true) ⊎ (a.answers ≡ true))
  pub dials : dial a config ≡ DialResult.dialled c
  pub registered : (config.registers ≡ false) ⊎ (a.register_error ≡ none)

if_true {ℓ} : {A : Type ℓ} (b : Bool) (x y : A) → b ≡ true → (if b then x else y) ≡ x
if_true b x y e = ap (λ b. if b then x else y) e

if_false {ℓ} : {A : Type ℓ} (b : Bool) (x y : A) → b ≡ false → (if b then x else y) ≡ y
if_false b x y e = ap (λ b. if b then x else y) e

-- The manager on the way to the client, after the states that were passed.
abbrev dialled_by : ConnectionManager → ℕ → ConnectionManager
dialled_by m c = record (transition ConnState.connecting "dialing" m) { client = some c }

abbrev registering_by : Bool → ConnectionManager → ConnectionManager
registering_by b m =
    transition ConnState.registering "registering capabilities" (authenticate_unless b m)

-- The states passed before the dial.
abbrev approached : Bool → ConnectionManager → ConnectionManager
approached true m =
    transition ConnState.starting "auto-starting modeltap server"
      (transition ConnState.discovering "checking server" m)
approached false m = transition ConnState.discovering "checking server" m

module _ (a : Attempt) (c : ℕ) where
  register_client-succeeds :
      (m : ConnectionManager)
      → (m.config.registers ≡ false) ⊎ (a.register_error ≡ none)
      → register_client a m
        ≡ (none, become_ready (registering_by (str_eq m.config.tls_address "") m))
  unfolding register_client after_register
  register_client-succeeds m (inl e) = if_false m.config.registers _ _ e
  register_client-succeeds m (inr e) =
      let m₁ = registering_by (str_eq m.config.tls_address "") m in
      elim (Bool-cases m.config.registers) [
        | inl t ↦ if_true m.config.registers _ _ t ∙ ap (λ e. after_register e m₁) e
        | inr f ↦ if_false m.config.registers _ _ f
      ]

  dial_server-succeeds :
      (m : ConnectionManager)
      → dial a m.config ≡ DialResult.dialled c
      → (m.config.registers ≡ false) ⊎ (a.register_error ≡ none)
      → dial_server a m
        ≡ (none, become_ready (registering_by (str_eq m.config.tls_address "") (dialled_by m c)))
  unfolding dial_server after_dial transition
  dial_server-succeeds m e r =
      ap (λ d. after_dial a d (transition ConnState.connecting "dialing" m)) e
      ∙ register_client-succeeds (dialled_by m c) r

  start_server-succeeds :
      (m : ConnectionManager)
      → m.config.auto_start ≡ true
      → a.start_error ≡ none
      → start_server a m
        ≡ dial_server a (transition ConnState.starting "auto-starting modeltap server" m)
  unfolding start_server after_start
  start_server-succeeds m t e =
      if_true m.config.auto_start _ _ t
      ∙ ap (λ e. after_start a e (transition ConnState.starting "auto-starting modeltap server" m))
          e

  answering :
      (m : ConnectionManager)
      → (str_eq m.config.socket_path "" ≡ true) ⊎ (a.answers ≡ true)
      → needs_start a m ≡ false
  answering m (inl e) = ap (λ b. not b && not a.answers) e
  answering m (inr e) = ground (arith, e)

  connect_sync-Succeeds :
      (m : ConnectionManager)
      → m.closed ≡ false
      → Succeeds a m.config c
      → (b : Bool) × (connect_sync a m ≡ (
        none,
        become_ready
            (registering_by (str_eq m.config.tls_address "") (dialled_by (approached b m) c)),
      ))
  unfolding connect_sync transition
  connect_sync-Succeeds m opened g =
      let m₁ = transition ConnState.discovering "checking server" m in
      let direct = dial_server-succeeds m₁ g.dials g.registered in
      elim g.started [
        | inr e ↦ (
          false,
          if_false m.closed _ _ opened ∙ (if_false (needs_start a m) _ _ (answering m e) ∙ direct),
        )
        | inl (t, e) ↦ elim (Bool-cases (needs_start a m)) [
          | inr n ↦
              (false, if_false m.closed _ _ opened ∙ (if_false (needs_start a m) _ _ n ∙ direct))
          | inl n ↦ (
            true,
            if_false m.closed _ _ opened
                ∙ (if_true (needs_start a m) _ _ n
                    ∙ (start_server-succeeds m₁ t e
                        ∙ dial_server-succeeds (approached true m) g.dials g.registered)),
          )
        ]
      ]

-- The next state of a transition.
abbrev next : ConnState → ConnState → ConnState
next to s = if moves s to then to else s

abbrev on_dial : Bool → ConnState → ConnState
on_dial true s = next ConnState.connecting (next ConnState.starting s)
on_dial false s = next ConnState.connecting s

abbrev on_register : Bool → ConnState → ConnState
on_register true s = next ConnState.registering s
on_register false s = next ConnState.registering (next ConnState.authenticating s)

abbrev last_states : Bool → Bool → ConnState → ConnState
last_states b t s = next ConnState.ready (on_register t (on_dial b (next ConnState.discovering s)))

last_states_lem :
    (b t : Bool) (s : ConnState)
    → last_states b t s ≡ (if is_same s ConnState.failed then ConnState.failed else ConnState.ready)
last_states_lem false false s = ground arith
last_states_lem false true s = ground arith
last_states_lem true false s = ground arith
last_states_lem true true s = ground arith

-- What the manager is left with: no error, the client watched and pinged by a heartbeat, the counts
-- at zero, and the state.
pub record Connected (o : Outcome) (c : ℕ) (s : ConnState) : Type 0 where
  pub no_error : o.0 ≡ none
  pub current : o.1.client ≡ some c
  pub watched : o.1.loop_cancel ≡ some c
  pub no_missed : o.1.missed_pongs ≡ 0
  pub no_attempt : o.1.reconnect_attempt ≡ 0
  pub in_state : o.1.state ≡ s

become_ready-Connected :
    (b t : Bool) (m : ConnectionManager) (c : ℕ)
    → Connected
        (none, become_ready (registering_by t (dialled_by (approached b m) c)))
        c
        (if is_same m.state ConnState.failed then ConnState.failed else ConnState.ready)
unfolding become_ready transition
become_ready-Connected false false m c = record {
  no_error = refl;
  current = refl;
  watched = refl;
  no_missed = refl;
  no_attempt = refl;
  in_state = last_states_lem false false m.state;
}
become_ready-Connected false true m c = record {
  no_error = refl;
  current = refl;
  watched = refl;
  no_missed = refl;
  no_attempt = refl;
  in_state = last_states_lem false true m.state;
}
become_ready-Connected true false m c = record {
  no_error = refl;
  current = refl;
  watched = refl;
  no_missed = refl;
  no_attempt = refl;
  in_state = last_states_lem true false m.state;
}
become_ready-Connected true true m c = record {
  no_error = refl;
  current = refl;
  watched = refl;
  no_missed = refl;
  no_attempt = refl;
  in_state = last_states_lem true true m.state;
}

-- When the server answers or is started, the dial gives a client and the registration succeeds, the
-- connect flow of an open manager ends without an error, whatever its state: the client is
-- current and watched, and the counts of missed answers and of attempts are zero. The state is then
-- ready, except that a failed manager stays failed.
pub connect_sync-Connected :
    (a : Attempt) (c : ℕ) (m : ConnectionManager)
    → m.closed ≡ false
    → Succeeds a m.config c
    → Connected
        (connect_sync a m)
        c
        (if is_same m.state ConnState.failed then ConnState.failed else ConnState.ready)
connect_sync-Connected a c m opened g =
    let (b, e) = connect_sync-Succeeds a c m opened g in
    subst
      (λ o.
        Connected o c
          (if is_same m.state ConnState.failed then ConnState.failed else ConnState.ready))
      (sym e) (become_ready-Connected b (str_eq m.config.tls_address "") m c)
