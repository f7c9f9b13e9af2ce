-- ===== src/Models/Switch.antt =====
-- internal/runtime/routing.go: model.switch, and what the next turn is routed to.
use modeltap.Prelude.{
  ◌≡◌, refl, ap, sym, ◌∙◌, inl, inr, String, Bool, true, false, not, ◌&&◌, ◌||◌, List, [], ◌∷◌,
  Option, none, some, arith, Option-cases, if◌then◌else◌,
}
use modeltap.Prelude.Text.{str_eq, lookup, insert, lookup-insert}
use text.Mathlib.TextPositions.{eq_refl}
use text.Mathlib.TextEquality.{eq_iff}
use modeltap.Models.Registry.{ModelRegistry, get_model, has_model}
use modeltap.Models.Routing.{Tree, resolve_for_turn}

-- The fields of a stored session that model.switch reads or writes.
pub record Session : Type 0 where
  pub id : String
  pub user_id : String
  pub model_override : Option String

-- The override of an active session is empty where there is none.
pub record ActiveSession : Type 0 where
  pub id : String
  pub model_override : String

pub record Server : Type 0 where
  pub sessions : List Session
  pub active : List (String × ActiveSession)
  pub models : Option ModelRegistry
  pub routing : Tree

pub record ModelSwitch : Type 0 where
  pub session_id : String
  pub model : String

pub data SwitchReply : Type 0 where
  invalid_params session_not_found model_unavailable : SwitchReply
  override_cleared : SwitchReply
  -- The notification model.selected names the model and its provider.
  override_applied : (model provider : String) → SwitchReply

unfoldable pub get_session : String → List Session → Option Session
get_session id [] = none
get_session id (s ∷ ss) = if str_eq s.id id then some s else get_session id ss

-- `UpdateSession`, on a session that is there.
unfoldable pub update_session : Session → List Session → List Session
update_session s [] = []
update_session s (r ∷ rs) =
    if str_eq r.id s.id then s ∷ update_session s rs else r ∷ update_session s rs

-- `user` is the connection's.
unfoldable pub verify_session_access : String → Session → Bool
verify_session_access user s =
    not (not (str_eq s.user_id "") && (not (str_eq user "") && not (str_eq s.user_id user)))

abbrev pub set_active :
    String → String → List (String × ActiveSession) → List (String × ActiveSession)
set_active id override active = elim (lookup id active) [
  | none ↦ active
  | some a ↦ insert id (record a { model_override = override }) active
]

abbrev pub is_known : String → Option ModelRegistry → Bool
is_known model none = false
is_known model (some r) = has_model model r

abbrev pub provider_of : String → Option ModelRegistry → String
provider_of model none = ""
provider_of model (some r) = elim (get_model model r) [ none ↦ "" | some e ↦ e.provider ]

abbrev pub with_override : Session → Option String → String → Server → Server
with_override sess stored override srv = record srv {
  sessions = update_session (record sess { model_override = stored }) srv.sessions;
  active = set_active sess.id override srv.active;
}

abbrev pub apply_switch : ModelSwitch → Session → Server → SwitchReply × Server
apply_switch req sess srv =
    if str_eq req.model "auto"
    then (override_cleared, with_override sess none "" srv)
    else if is_known req.model srv.models
    then (
      override_applied req.model (provider_of req.model srv.models),
      with_override sess (some req.model) req.model srv,
    )
    else (model_unavailable, srv)

unfoldable pub handle_model_switch : String → ModelSwitch → Server → SwitchReply × Server
unfolding get_session update_session verify_session_access
handle_model_switch user req srv =
    if str_eq req.session_id ""
    then (invalid_params, srv)
    else if str_eq req.model ""
    then (invalid_params, srv)
    else elim (get_session req.session_id srv.sessions) [
      | none ↦ (session_not_found, srv)
      | some sess ↦
          if verify_session_access user sess
          then apply_switch req sess srv
          else (session_not_found, srv)
    ]

abbrev pub is_switched : SwitchReply → Bool
is_switched override_cleared = true
is_switched (override_applied m p) = true
is_switched _ = false

-- The override that a turn of the session is routed by.
abbrev pub override_of : String → Server → String
override_of id srv = elim (lookup id srv.active) [ none ↦ "" | some a ↦ a.model_override ]

get_session-id :
    (id : String) (ss : List Session) (s : Session) → get_session id ss ≡ some s → s.id ≡ id
unfolding get_session
get_session-id id [] s h = ground arith
get_session-id id (r ∷ rs) s h = ground (arith, h, eq_iff r.id id, get_session-id id rs s)

override-set_active :
    (id override : String) (active : List (String × ActiveSession)) (a : ActiveSession)
    → lookup id active ≡ some a
    → lookup id (set_active id override active) ≡ some (record a { model_override = override })
override-set_active id override active a h =
    rw (set_active, h)
      (lookup-insert id id (record a { model_override = override }) active ∙ rw eq_refl refl)

resolve_for_turn-if :
    (b : Bool) (model mode : String) (tree : Tree)
    → str_eq model "" ≡ false
    → resolve_for_turn (if b then "" else model) mode tree
      ≡ (if b then resolve_for_turn "" mode tree else (model ∷ [], false))
unfolding resolve_for_turn
resolve_for_turn-if true model mode tree h = refl
resolve_for_turn-if false model mode tree h = rw (resolve_for_turn, h) refl

get_session-update_session :
    (id : String) (new old : Session) (ss : List Session)
    → str_eq new.id id ≡ true
    → get_session id ss ≡ some old
    → get_session id (update_session new ss) ≡ some new
unfolding get_session update_session
get_session-update_session id new old [] same h = ground (arith, h)
get_session-update_session id new old (r ∷ rs) same h = ground (
  arith,
  h,
  same,
  eq_iff r.id id,
  eq_iff r.id new.id,
  eq_iff new.id id,
  get_session-update_session id new old rs same,
)

module _ (user : String) (req : ModelSwitch) (srv : Server) where
  -- A switch that is answered as one was applied to the stored session.
  switched-session :
      is_switched (handle_model_switch user req srv).0 ≡ true
      → (sess : Session) × get_session req.session_id srv.sessions ≡ some sess
        × str_eq req.model "" ≡ false
        × handle_model_switch user req srv ≡ apply_switch req sess srv
  unfolding handle_model_switch
  switched-session h = elim (Option-cases (get_session req.session_id srv.sessions)) [
    | inl missing ↦ absurd (ground (arith, h, missing))
    | inr (sess, found) ↦ (sess, found, ground (arith, h), ground (arith, h, found))
  ]

  applied-override :
      (sess : Session) (a : ActiveSession)
      → sess.id ≡ req.session_id
      → lookup req.session_id srv.active ≡ some a
      → is_switched (apply_switch req sess srv).0 ≡ true
      → override_of req.session_id (apply_switch req sess srv).1
          ≡ (if str_eq req.model "auto" then "" else req.model)
        × (str_eq req.model "auto" || is_known req.model srv.models) ≡ true
  applied-override sess a same at h = ground (
    arith,
    h,
    same,
    override-set_active req.session_id "" srv.active a at,
    override-set_active req.session_id req.model srv.active a at,
  )

  -- What the stored row has after a switch.
  abbrev pub switched : Session → Session
  switched sess = record sess {
    model_override = if str_eq req.model "auto" then none else some req.model;
  }

  applied-stored :
      (sess : Session)
      → str_eq sess.id req.session_id ≡ true
      → get_session req.session_id srv.sessions ≡ some sess
      → is_switched (apply_switch req sess srv).0 ≡ true
      → get_session req.session_id (apply_switch req sess srv).1.sessions ≡ some (switched sess)
  applied-stored sess same found h = ground (
    arith,
    h,
    get_session-update_session req.session_id (record sess { model_override = none }) sess
        srv.sessions same found,
    get_session-update_session req.session_id (record sess { model_override = some req.model }) sess
        srv.sessions same found,
  )

  -- A model.switch that is accepted, on a session that is active, is what the next turn is routed by
  -- while the session stays active: to the named model alone, which the catalog has, or, after "auto",
  -- to what the routing tree gives without an override. The stored row has the new override, and is
  -- otherwise as it was.
  pub handle_model_switch-routes :
      (a : ActiveSession) (mode : String)
      → lookup req.session_id srv.active ≡ some a
      → is_switched (handle_model_switch user req srv).0 ≡ true
      → resolve_for_turn
            (override_of req.session_id (handle_model_switch user req srv).1)
            mode
            srv.routing
          ≡ (if str_eq req.model "auto"
              then resolve_for_turn "" mode srv.routing
              else (req.model ∷ [], false))
        × (str_eq req.model "auto" || is_known req.model srv.models) ≡ true
        × ((sess : Session) × get_session req.session_id srv.sessions ≡ some sess
            × get_session req.session_id (handle_model_switch user req srv).1.sessions
              ≡ some (switched sess))
  handle_model_switch-routes a mode at h =
      let (sess, found, named, did) = switched-session h in
      let same = get_session-id req.session_id srv.sessions sess found in
      let ok = sym (ap (λ o. is_switched o.0) did) ∙ h in
      let (to, known) = applied-override sess a same at ok in
      let routed : override_of req.session_id (handle_model_switch user req srv).1
          ≡ (if str_eq req.model "auto" then "" else req.model) =
        ap (λ o. override_of req.session_id o.1) did ∙ to in
      (
        ap (λ o. resolve_for_turn o mode srv.routing) routed
            ∙ resolve_for_turn-if (str_eq req.model "auto") req.model mode srv.routing named,
        known,
        (
          sess,
          found,
          ap (λ o. get_session req.session_id o.1.sessions) did
              ∙ applied-stored sess ((eq_iff sess.id req.session_id).1 same) found ok,
        ),
      )
