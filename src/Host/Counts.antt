-- ===== src/Host/Counts.antt =====
-- The deltas among events, counted, and those that the adapter holds back.
use modeltap.Prelude.{
  ℕ, ◌+◌, ◌≡◌, refl, String, Bool, false, ◌&&◌, List, [], ◌∷◌, ◌++◌, if◌then◌else◌, All, arith,
}
use modeltap.Prelude.Text.{str_eq, insert, erase, lookup-insert, lookup-erase}
use modeltap.Shell.Types.{HostEvent, run_delta}
use modeltap.Host.Adapter.{Delta, as_event, detached_of, replay}

-- A shell that keeps the events it is given, in order.
abbrev pub record_event : HostEvent → List HostEvent → List HostEvent
record_event e s = s ++ e ∷ []

-- For the deltas of one run whose texts pass a test.
module _ (r : String) (q : String → Bool) where
  abbrev pub hits : String → String → ℕ
  hits run text = if str_eq run r && q text then 1 else 0

  abbrev pub hit : HostEvent → ℕ
  hit (run_delta run text) = hits run text
  hit _ = 0

  abbrev pub seen : List HostEvent → ℕ
  seen [] = 0
  seen (e ∷ es) = hit e + seen es

  abbrev pub held : List Delta → ℕ
  held [] = 0
  held (d ∷ ds) = hits d.run_id d.delta + held ds

  pub seen-append : (s t : List HostEvent) → seen (s ++ t) ≡ seen s + seen t
  seen-append [] t = omega arith
  seen-append (e ∷ s) t = omega (arith, seen-append s t)

  pub held-append : (s t : List Delta) → held (s ++ t) ≡ held s + held t
  held-append [] t = omega arith
  held-append (e ∷ s) t = omega (arith, held-append s t)

  pub seen-replay :
      (ds : List Delta) (s : List HostEvent) → seen (replay record_event ds s) ≡ seen s + held ds
  unfolding replay
  seen-replay [] s = omega arith
  seen-replay (d ∷ ds) s =
      omega (arith, seen-replay ds (s ++ as_event d ∷ []), seen-append s (as_event d ∷ []))

  -- Deltas of another run do not count.
  pub held-other :
      (k : String) (ds : List Delta) → All (λ d. d.run_id ≡ k) ds → str_eq k r ≡ false → held ds ≡ 0
  held-other k [] h n = refl
  held-other k (d ∷ ds) h n = ground (arith, held-other k ds h.1 n)

pub detached-insert :
    (k j : String) (ds : List Delta) (m : List (String × List Delta))
    → detached_of j (insert k ds m) ≡ (if str_eq k j then ds else detached_of j m)
detached-insert k j ds m = ground (arith, lookup-insert k j ds m)

pub detached-erase :
    (k j : String) (m : List (String × List Delta))
    → detached_of j (erase k m) ≡ (if str_eq k j then [] else detached_of j m)
detached-erase k j m = ground (arith, lookup-erase k j m)
