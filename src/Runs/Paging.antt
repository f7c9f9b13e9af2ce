-- ===== src/Runs/Paging.antt =====
-- Reading a dense log: a page after number k is the log from position k, cut at the limit.
use modeltap.Prelude.{
  ℕ, zero, suc, ◌+◌, ◌≤◌, ◌≡◌, refl, ap, ◌∙◌, String, Bool, List, [], ◌∷◌, some, take, drop, select,
  ltb, arith,
}
use modeltap.Prelude.Int.{ℤ, pos}
use mathlib.Core.Path.{subst}
use modeltap.Runs.Types.{Run, RunEvent}
use modeltap.Runs.Store.{Db, find_run}
use modeltap.Runs.Append.{sort_by_seq, is_later_event, page_limit, list_run_events, insert_by_seq}
use modeltap.Runs.Log.{is_event_of, events_of, IsDense, HasLogs}

abbrev is_later : ℕ → RunEvent → Bool
is_later k e = ltb k e.seq

select-later :
    (id : String) (k : ℕ) (es : List RunEvent)
    → select (is_later_event id (pos k)) es ≡ select (is_later k) (select (is_event_of id) es)
select-later id k [] = refl
select-later id k (e ∷ es) = ground (arith, select-later id k es)

later_all : (k n : ℕ) (es : List RunEvent) → k ≤ n → IsDense n es → select (is_later k) es ≡ es
later_all k n [] h d = refl
later_all k n (e ∷ es) h d = ground (arith, later_all k (n + 1) es (omega arith) d.1)

later_drop :
    (m k n : ℕ) (es : List RunEvent) → IsDense n es → m ≡ k + n → select (is_later m) es ≡ drop k es
later_drop m zero n es d p = later_all m n es (omega arith) d
later_drop m (suc k) n [] d p = refl
later_drop m (suc k) n (e ∷ es) d p = ground (arith, later_drop m k (n + 1) es d.1 (omega arith))

IsDense-drop : (m k n : ℕ) (es : List RunEvent) → IsDense n es → m ≡ k + n → IsDense m (drop k es)
IsDense-drop m zero n es d p = let same : n ≡ m = omega arith in subst (λ i. IsDense i es) same d
IsDense-drop m (suc k) n [] d p = tt
IsDense-drop m (suc k) n (e ∷ es) d p = IsDense-drop m k (n + 1) es d.1 (omega arith)

insert_first :
    (n : ℕ) (e : RunEvent) (es : List RunEvent)
    → e.seq ≡ n
    → IsDense n es
    → insert_by_seq e es ≡ e ∷ es
unfolding insert_by_seq
insert_first n e [] h d = refl
insert_first n e (x ∷ es) h d = ground arith

sort-IsDense : (n : ℕ) (es : List RunEvent) → IsDense n es → sort_by_seq es ≡ es
unfolding sort_by_seq
sort-IsDense n [] d = refl
sort-IsDense n (e ∷ es) d =
    ap (insert_by_seq e) (sort-IsDense (n + 1) es d.1) ∙ insert_first (n + 1) e es d.0 d.1

pub page_IsDense :
    (id : String) (k : ℕ) (db : Db) (r : Run)
    → HasLogs db
    → find_run id db.runs ≡ some r
    → IsDense k (drop k (events_of id db))
page_IsDense id k db r logs found =
    let log = rw found at (logs id) in IsDense-drop k k 0 (events_of id db) log.0 (omega arith)

-- Over dense logs a page of a stored run's events after number k is its log without the first k
-- events, up to the limit: complete, in order, and without repeats.
pub list_run_events_lem :
    (id : String) (k : ℕ) (limit : ℤ) (db : Db) (r : Run)
    → HasLogs db
    → find_run id db.runs ≡ some r
    → list_run_events id (pos k) limit db ≡ take (page_limit limit) (drop k (events_of id db))
unfolding list_run_events
list_run_events_lem id k limit db r logs found =
    let log = rw found at (logs id) in
    rw
      (
        select-later id k db.events,
        later_drop k k 0 (events_of id db) log.0 (omega arith),
        sort-IsDense k (drop k (events_of id db)) (page_IsDense id k db r logs found),
        list_run_events,
      )
      refl
