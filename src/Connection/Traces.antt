-- ===== src/Connection/Traces.antt =====
-- The states that a manager announces (internal/harness/connection.go).
use modeltap.Prelude.{
  ◌≡◌, ◌⊎◌, any, refl, ap, ◌∙◌, String, Bool, true, false, ◌&&◌, List, [], ◌∷◌, ◌++◌, Option, none,
  some, if◌then◌else◌, Bool-cases, inl, inr, arith,
}
use modeltap.Connection.Types.{ConnState, ConnStateInfo, ConnectionConfig, ConnectionManager}
use modeltap.Connection.Transition.{
  is_same, can_harness_transition, valid_harness_transitions, moves, transition, info,
  new_connection_manager,
}
use modeltap.Connection.Heartbeat.{ConnectionEvent, run}
use modeltap.Connection.Keeps.{run-Holds}

abbrev Listed : ConnState → List ConnState → Type 0
Listed to [] = ⊥
Listed to (a ∷ allowed) = (a ≡ to) ⊎ Listed to allowed

abbrev Edge : ConnState → Option (List ConnState) → Type 0
Edge to none = ⊥
Edge to (some allowed) = Listed to allowed

-- One state twice, or an edge of the graph.
abbrev pub Follows : ConnState → ConnState → Type 0
Follows from to = (from ≡ to) ⊎ Edge to (valid_harness_transitions from)

is_same-eq : (a b : ConnState) → is_same a b ≡ true → a ≡ b
is_same-eq a b h = ground arith

any-Listed :
    (to : ConnState) (allowed : List ConnState)
    → any (λ a. is_same a to) allowed ≡ true
    → Listed to allowed
any-Listed to [] h = cc h
any-Listed to (a ∷ allowed) h = elim (Bool-cases (is_same a to)) [
  | inl e ↦ inl (is_same-eq a to e)
  | inr n ↦ inr (any-Listed to allowed (ground arith))
]

abbrev has_edge : ConnState → Option (List ConnState) → Bool
has_edge to o = elim o [ none ↦ false | some allowed ↦ any (λ a. is_same a to) allowed ]

Edge-of : (to : ConnState) (o : Option (List ConnState)) → has_edge to o ≡ true → Edge to o
Edge-of to none h = cc h
Edge-of to (some allowed) h = any-Listed to allowed h

moves-Follows : (from to : ConnState) → moves from to ≡ true → Follows from to
moves-Follows from to h = elim (Bool-cases (can_harness_transition from to)) [
  | inl e ↦ inr (Edge-of to (valid_harness_transitions from) e)
  | inr n ↦ inl (is_same-eq from to (ground arith))
]

-- Messages lead from one state to another along the graph, each to the state it announces.
abbrev pub Walk : ConnState → List ConnStateInfo → ConnState → Type 0
Walk from [] to = from ≡ to
Walk from (i ∷ is) to = Follows from i.state × Walk i.state is to

Walk-snoc :
    (from : ConnState) (is : List ConnStateInfo) (to : ConnState) (i : ConnStateInfo)
    → Walk from is to
    → Follows to i.state
    → Walk from (is ++ i ∷ []) i.state
Walk-snoc from [] to i h e = (rw h e, refl)
Walk-snoc from (j ∷ is) to i h e = (h.0, Walk-snoc j.state is to i h.1 e)

abbrev Announced : ConnState → List ConnStateInfo → Bool → Type 0
Announced s sent sender = Walk ConnState.discovering sent s × (sender ≡ true)

transition-Announced :
    (to : ConnState) (detail : String) (m : ConnectionManager)
    → Announced m.state m.sent m.has_sender
    → Announced (transition to detail m).state (transition to detail m).sent m.has_sender
unfolding transition
transition-Announced to detail m h = (pick (moves m.state to) m.has_sender refl h.1 h.0, h.1)
  where
    pick :
        (b s : Bool)
        → moves m.state to ≡ b
        → s ≡ true
        → Walk ConnState.discovering m.sent m.state
        → Walk ConnState.discovering
            (if b && s then m.sent ++ info to detail m ∷ [] else m.sent)
            (if b then to else m.state)
    pick true true e e' w =
        Walk-snoc ConnState.discovering m.sent m.state (info to detail m) w
          (moves-Follows m.state to e)
    pick true false e e' w = absurd (ground arith)
    pick false s e e' w = w

-- Whatever happens to a new manager with a program to tell, every state that it announces is
-- announced again or follows from the one announced before by the graph of transitions, starting
-- from discovering, and the last one announced is the state it is in.
pub run-Walk :
    (es : List ConnectionEvent) (config : ConnectionConfig)
    → let m : ConnectionManager = run es (new_connection_manager config true) in
      Walk ConnState.discovering m.sent m.state
unfolding transition
run-Walk es config =
    (run-Holds Announced transition-Announced es (new_connection_manager config true)
      (refl, refl)).0

IsFailed : ConnState → List ConnStateInfo → Bool → Type 0
IsFailed s sent sender = s ≡ ConnState.failed

next-failed :
    (to : ConnState)
    → (if moves ConnState.failed to then to else ConnState.failed) ≡ ConnState.failed
next-failed to = ground arith

transition-failed :
    (to : ConnState) (detail : String) (m : ConnectionManager)
    → m.state ≡ ConnState.failed
    → (transition to detail m).state ≡ ConnState.failed
unfolding transition
transition-failed to detail m h = ap (λ s. if moves s to then to else s) h ∙ next-failed to

-- A failed manager stays failed, whatever happens to it.
pub run-failed :
    (es : List ConnectionEvent) (m : ConnectionManager)
    → m.state ≡ ConnState.failed
    → (run es m).state ≡ ConnState.failed
unfolding IsFailed
run-failed es m h = run-Holds IsFailed transition-failed es m h
