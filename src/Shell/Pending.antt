-- ===== src/Shell/Pending.antt =====
-- The permission that is active among those pending.
use modeltap.Prelude.{
  ℕ, zero, suc, ◌-◌, ◌<◌, ◌≡◌, refl, ◌⊎◌, inl, inr, List, [], ◌∷◌, none, some, length, get_elem?,
  arith, leb, Bool-cases,
}
use modeltap.Prelude.Int.{ℤ, pos, negsuc, get_at?}
use modeltap.Shell.State.{State, PendingPermission}
use modeltap.Shell.Permissions.{clamp_index, current_pending_permission}

get_elem?_lt {ℓ} :
    {A : Type ℓ} (xs : List A) (i : ℕ) → i < length xs → (a : A) × (get_elem? xs i ≡ some a)
get_elem?_lt [] i h = absurd (omega arith)
get_elem?_lt (x ∷ xs) zero h = (x, refl)
get_elem?_lt (x ∷ xs) (suc i) h = get_elem?_lt xs i (omega arith)

-- A clamped index names an entry of a non-empty list.
pub get_at?-clamp {ℓ} :
    {A : Type ℓ} (x : A) (xs : List A) (i : ℤ)
    → (a : A) × (get_at? (x ∷ xs) (clamp_index (length (x ∷ xs)) i) ≡ some a)
get_at?-clamp x xs (negsuc k) = (x, refl)
get_at?-clamp x xs (pos k) = elim (Bool-cases (leb (suc (length xs)) k)) [
  | inl e ↦ rw e (get_elem?_lt (x ∷ xs) (suc (length xs) - 1) (omega arith))
  | inr e ↦ rw e (get_elem?_lt (x ∷ xs) k (ground arith))
]

-- The answer of `currentPendingPermission`: nothing where none is pending, else an entry, with at
-- most the active index changed.
abbrev pub ActiveEntry : {Area Cmd : Type 0} → State Area Cmd → Type 0
ActiveEntry s =
    ((s.pending_permissions ≡ []) × (current_pending_permission s ≡ (none, s)))
    ⊎ ((p : PendingPermission) × (i : ℤ) × (current_pending_permission s
          ≡ (some p, record s { active_permission_index = i })))

ActiveEntry-of_list :
    {Area Cmd : Type 0} (s : State Area Cmd) (ps : List PendingPermission)
    → s.pending_permissions ≡ ps
    → ActiveEntry s
unfolding current_pending_permission
ActiveEntry-of_list s [] e = inl (e, ground arith)
ActiveEntry-of_list s (x ∷ xs) e =
    let (p, h) = get_at?-clamp x xs s.active_permission_index in
    inr (p, clamp_index (length (x ∷ xs)) s.active_permission_index, ground (arith, h))

pub ActiveEntry-of_state : {Area Cmd : Type 0} (s : State Area Cmd) → ActiveEntry s
ActiveEntry-of_state s = ActiveEntry-of_list s s.pending_permissions refl
