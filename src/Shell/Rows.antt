-- ===== src/Shell/Rows.antt =====
-- Optimistic rows: a user row is never without the assistant row of its submission.
use modeltap.Prelude.{
  ℕ, zero, suc, ◌≡◌, refl, ap, inl, inr, String, Bool, true, false, not, ◌&&◌, List, [], ◌∷◌, ◌++◌,
  map, Option, none, some, if◌then◌else◌, Bool-cases, any, All, All-append, modify, select, arith,
}
use modeltap.Prelude.Text.{str_eq}
use text.Mathlib.TextEquality.{eq_iff}
use modeltap.Shell.State.{Role, TranscriptItem}
use modeltap.Shell.Events.{is_assistant, modify_found}

abbrev pub is_user : Role → Bool
is_user Role.user = true
is_user _ = false

-- Who speaks in a row, and for which submission.
abbrev pub Key : Type 0
Key = Role × String

abbrev pub key : TranscriptItem → Key
key r = (r.role, r.submission_id)

abbrev pub is_reply_to : String → Key → Bool
is_reply_to id k = is_assistant k.0 && str_eq k.1 id

abbrev pub IsPaired : List Key → Key → Type 0
IsPaired ks k = (if is_user k.0 then any (is_reply_to k.1) ks else true) ≡ true

-- Every user row has an assistant row with the same submission ID.
abbrev pub Paired : List TranscriptItem → Type 0
Paired items = All (IsPaired (map key items)) (map key items)

any-append_left : (p : Key → Bool) (xs ys : List Key) → any p xs ≡ true → any p (xs ++ ys) ≡ true
any-append_left p [] ys h = cc
any-append_left p (x ∷ xs) ys h = ground (arith, any-append_left p xs ys)

any-append_right : (p : Key → Bool) (xs ys : List Key) → any p ys ≡ true → any p (xs ++ ys) ≡ true
any-append_right p [] ys h = h
any-append_right p (x ∷ xs) ys h = ground (arith, any-append_right p xs ys h)

IsPaired-append : (ks ls : List Key) (k : Key) → IsPaired ks k → IsPaired (ks ++ ls) k
IsPaired-append ks ls (Role.user, id) h = any-append_left (is_reply_to id) ks ls h
IsPaired-append ks ls (Role.assistant, id) h = refl
IsPaired-append ks ls (Role.system, id) h = refl
IsPaired-append ks ls (Role.event, id) h = refl
IsPaired-append ks ls (Role.host_info, id) h = refl

All-IsPaired-append : (ks ls xs : List Key) → All (IsPaired ks) xs → All (IsPaired (ks ++ ls)) xs
All-IsPaired-append ks ls [] h = tt
All-IsPaired-append ks ls (x ∷ xs) h =
    (IsPaired-append ks ls x h.0, All-IsPaired-append ks ls xs h.1)

map-append_key : (xs ys : List TranscriptItem) → map key (xs ++ ys) ≡ map key xs ++ map key ys
map-append_key [] ys = refl
map-append_key (x ∷ xs) ys = ap (◌∷◌ (key x)) (map-append_key xs ys)

-- A row that is no user's keeps the pairing.
pub Paired-append_row :
    (items : List TranscriptItem) (r : TranscriptItem)
    → is_user r.role ≡ false
    → Paired items
    → Paired (items ++ r ∷ [])
Paired-append_row items r e h = rw map-append_key (
    All-append (IsPaired (map key items ++ key r ∷ [])) (map key items) (key r ∷ [])
      (All-IsPaired-append (map key items) (key r ∷ []) (map key items) h) (rw e refl, tt))

-- A user row and the assistant row of its submission together keep it.
pub Paired-append_pair :
    (items : List TranscriptItem) (u a : TranscriptItem)
    → u.role ≡ Role.user
    → a.role ≡ Role.assistant
    → u.submission_id ≡ a.submission_id
    → Paired items
    → Paired (items ++ u ∷ a ∷ [])
Paired-append_pair items u a eu ea es h = rw map-append_key (
    All-append (IsPaired (map key items ++ key u ∷ key a ∷ [])) (map key items) (key u ∷ key a ∷ [])
      (All-IsPaired-append (map key items) (key u ∷ key a ∷ []) (map key items) h)
      (ground (arith, reply), (ground arith, tt)))
  where
    reply : any (is_reply_to u.submission_id) (map key items ++ key u ∷ key a ∷ []) ≡ true
    reply =
        any-append_right (is_reply_to u.submission_id) (map key items) (key u ∷ key a ∷ [])
          (ground (arith, eq_iff a.submission_id u.submission_id))

key-modify :
    (items : List TranscriptItem) (i : ℕ) (f : TranscriptItem → TranscriptItem)
    → ((r : TranscriptItem) → key (f r) ≡ key r)
    → map key (modify items i f) ≡ map key items
key-modify [] i f h = refl
key-modify (x ∷ xs) zero f h = ap (λ k. k ∷ map key xs) (h x)
key-modify (x ∷ xs) (suc i) f h = ap (◌∷◌ (key x)) (key-modify xs i f h)

-- Changing one row's other fields keeps it.
pub Paired-modify :
    (items : List TranscriptItem) (i : Option ℕ) (f : TranscriptItem → TranscriptItem)
    → ((r : TranscriptItem) → key (f r) ≡ key r)
    → Paired items
    → Paired (modify_found i f items)
Paired-modify items none f h p = p
Paired-modify items (some i) f h p = rw (key-modify items i f h) p

-- The rows that a rejected submission leaves.
abbrev pub is_other : String → Key → Bool
is_other id k = not (str_eq k.1 id)

key-select :
    (id : String) (items : List TranscriptItem)
    → map key (select (λ r. not (str_eq r.submission_id id)) items)
      ≡ select (is_other id) (map key items)
key-select id [] = refl
key-select id (x ∷ xs) = ground (arith, key-select id xs)

any-select :
    (id sub : String) (ks : List Key)
    → str_eq sub id ≡ false
    → any (is_reply_to sub) ks ≡ true
    → any (is_reply_to sub) (select (is_other id) ks) ≡ true
any-select id sub [] e h = h
any-select id sub (k ∷ ks) e h =
    ground (arith, any-select id sub ks e, eq_iff k.1 sub, eq_iff k.1 id, eq_iff sub id)

IsPaired-select :
    (id : String) (ks : List Key) (k : Key)
    → is_other id k ≡ true
    → IsPaired ks k
    → IsPaired (select (is_other id) ks) k
IsPaired-select id ks (Role.user, sub) e h = any-select id sub ks (ground arith) h
IsPaired-select id ks (Role.assistant, sub) e h = refl
IsPaired-select id ks (Role.system, sub) e h = refl
IsPaired-select id ks (Role.event, sub) e h = refl
IsPaired-select id ks (Role.host_info, sub) e h = refl

All-IsPaired-select :
    (id : String) (ks xs : List Key)
    → All (IsPaired ks) xs
    → All (IsPaired (select (is_other id) ks)) (select (is_other id) xs)
All-IsPaired-select id ks [] h = tt
All-IsPaired-select id ks (x ∷ xs) h = elim (Bool-cases (is_other id x)) [
  | inl e ↦ rw e (IsPaired-select id ks x e h.0, All-IsPaired-select id ks xs h.1)
  | inr e ↦ rw e (All-IsPaired-select id ks xs h.1)
]

-- Removing both rows of one submission keeps it.
pub Paired-remove :
    (id : String) (items : List TranscriptItem)
    → Paired items
    → Paired (select (λ r. not (str_eq r.submission_id id)) items)
Paired-remove id items h = rw (key-select id items) (All-IsPaired-select id _ _ h)
