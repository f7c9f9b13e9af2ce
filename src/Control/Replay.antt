-- ===== src/Control/Replay.antt =====
-- internal/runtime/run_controls.go: what run.events answers over dense logs.
use modeltap.Prelude.{
  ℕ, zero, suc, ◌+◌, ◌-◌, ◌≤◌, ◌<◌, ◌≡◌, refl, ◌∙◌, true, false, List, [], ◌∷◌, some, length, take,
  drop, is_empty, ltb, leb, ◌==◌, if◌then◌else◌, arith,
}
use modeltap.Prelude.Int.{ℤ, pos, negsuc, ◌+ℤ◌}
use modeltap.Runs.Types.{Run, RunEvent}
use modeltap.Runs.Store.{find_run}
use modeltap.Runs.Append.{page_limit}
use modeltap.Runs.Log.{events_of, IsDense, HasLogs}
use modeltap.Runs.Paging.{page_IsDense, list_run_events_lem}
use modeltap.Control.Types.{Server, events_page}
use modeltap.Control.Answers.{
  replay_available, replay_fidelity, has_more, get_latest_run_checkpoint,
}
use modeltap.Control.Handlers.{handle_run_events}

page_limit-positive : (limit : ℤ) → 0 < page_limit limit
page_limit-positive (negsuc n) = omega arith
page_limit-positive (pos n) = ground arith

length-drop : (k : ℕ) (es : List RunEvent) → length (drop k es) ≡ length es - k
length-drop zero es = omega arith
length-drop (suc k) [] = omega arith
length-drop (suc k) (e ∷ es) = omega (arith, length-drop k es)

length-take :
    (n : ℕ) (es : List RunEvent) → length (take n es) ≡ (if leb n (length es) then n else length es)
length-take zero es = ground arith
length-take (suc n) [] = ground arith
length-take (suc n) (e ∷ es) = ground (arith, length-take n es)

is_empty-length : (es : List RunEvent) → is_empty es ≡ (length es == 0)
is_empty-length [] = ground arith
is_empty-length (e ∷ es) = ground arith

has_more_lem :
    (es : List RunEvent) (k latest : ℕ)
    → has_more es (pos k) latest ≡ (if length es == 0 then false else ltb (length es + k) latest)
unfolding has_more ◌+ℤ◌
has_more_lem es k latest = ground (arith, is_empty-length es)

available :
    (k n : ℕ) (es : List RunEvent) → IsDense k es → replay_available (take n es) (pos k) ≡ true
unfolding replay_available ◌+ℤ◌
available k zero es d = refl
available k (suc n) [] d = refl
available k (suc n) (e ∷ es) d = ground arith

fidelity_full :
    (es : List RunEvent) (k latest : ℕ)
    → replay_available es (pos k) ≡ true
    → ((length es ≡ 0) → latest ≤ k)
    → replay_fidelity es (pos k) latest ≡ "full"
unfolding replay_fidelity
fidelity_full es k latest available all_read = ground (arith, is_empty-length es)

-- Over dense logs `run.events` after number k answers the events of the run from position k, up to
-- the limit, says that there are more exactly when the log goes on beyond that page, and calls the
-- replay available and full. It changes nothing.
pub handle_run_events_lem :
    (k : ℕ) (limit : ℤ) (r : Run) (srv : Server)
    → HasLogs srv.db
    → find_run r.id srv.db.runs ≡ some r
    → handle_run_events (pos k) limit r srv ≡ (
      events_page r.last_event_seq (ltb (k + page_limit limit) r.last_event_seq) (record {
        events = take (page_limit limit) (drop k (events_of r.id srv.db));
        replay_available = true;
        fidelity = "full";
        checkpoint = get_latest_run_checkpoint r.id srv.db;
      }),
      srv,
    )
unfolding handle_run_events
handle_run_events_lem k limit r srv logs found =
    let log = rw found at (logs r.id) in
    let rest = drop k (events_of r.id srv.db) in
    let page = take (page_limit limit) rest in
    let size : length page
        ≡ (if leb (page_limit limit) (length rest) then page_limit limit else length rest) =
      length-take (page_limit limit) rest in
    let left = length-drop k (events_of r.id srv.db) in
    let positive = page_limit-positive limit in
    let is_available =
      available k (page_limit limit) rest (page_IsDense r.id k srv.db r logs found) in
    let more : has_more page (pos k) r.last_event_seq
        ≡ ltb (k + page_limit limit) r.last_event_seq =
      has_more_lem page k r.last_event_seq ∙ ground arith in
    let full = fidelity_full page k r.last_event_seq is_available (λ empty. ground arith) in
    rw
      (
        list_run_events_lem r.id k limit srv.db r logs found,
        more,
        is_available,
        full,
        handle_run_events,
      )
      refl
