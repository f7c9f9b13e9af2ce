-- ===== src/Tools/Listing.antt =====
-- What `All` lists: the tools that are left of the calls, in the order of their registration
-- (internal/harness/tools/framework.go).
use modeltap.Prelude.{
  ◌≡◌, refl, ap, sym, ◌∙◌, true, false, not, List, [], ◌∷◌, ◌++◌, map, Option, none, some, inl, inr,
  All, All-append, select, arith, Bool-cases, Option-cases,
}
use modeltap.Prelude.Text.{
  str_eq, text_mem, lookup, insert, erase, lookup-insert, lookup-erase, is_distinct,
}
use Prim.Native.String.{String}
use mathlib.Core.Path.{subst}
use text.Mathlib.TextEquality.{eq_iff}
use text.Mathlib.TextPositions.{eq_refl}
use modeltap.Tools.Permission.{Tool}
use modeltap.Tools.Framework.{
  Registry, new_registry, register, remove_first, deregister, definition_of, definitions, all,
}
use modeltap.Tools.Catalog.{
  IsCatalog, new_registry-IsCatalog, is_known, register-cases, deregister-known, deregister-unknown,
  register-IsCatalog, deregister-IsCatalog,
}

-- The calls that change a registry.
pub data Change : Type 0 where
  registers : Tool → Change
  deregisters : String → Change

-- A registry after some calls; `none` where one of them panics.
unfoldable pub changed : List Change → Registry → Option Registry
unfolding register deregister
changed [] r = some r
changed (registers t ∷ cs) r = elim (register (some t) r) [ none ↦ none | some r' ↦ changed cs r' ]
changed (deregisters n ∷ cs) r = changed cs (deregister n r).1

abbrev pub without : String → List Tool → List Tool
without n ts = select (λ t. not (str_eq t.name n)) ts

-- The tools that are left, the oldest registration first, read off the calls alone.
unfoldable pub left_after : List Change → List Tool → List Tool
left_after [] ts = ts
left_after (registers t ∷ cs) ts = left_after cs (ts ++ t ∷ [])
left_after (deregisters n ∷ cs) ts = left_after cs (without n ts)

abbrev names : List Tool → List String
names ts = map (λ t. t.name) ts

abbrev Stores : List (String × Tool) → Tool → Type 0
Stores tools t = lookup t.name tools ≡ some t

-- A registry that has just these tools.
record Lists (r : Registry) (ts : List Tool) : Type 0 where
  catalog : IsCatalog r
  ordered : r.order ≡ names ts
  stored : All (Stores r.tools) ts

names-snoc : (ts : List Tool) (t : Tool) → names (ts ++ t ∷ []) ≡ names ts ++ t.name ∷ []
names-snoc [] t = refl
names-snoc (u ∷ ts) t = ap (λ l. u.name ∷ l) (names-snoc ts t)

without-absent : (n : String) (ts : List Tool) → text_mem n (names ts) ≡ false → without n ts ≡ ts
without-absent n [] h = refl
without-absent n (t ∷ ts) h = ground (arith, h, without-absent n ts)

without-names :
    (n : String) (ts : List Tool)
    → is_distinct (names ts) ≡ true
    → remove_first n (names ts) ≡ names (without n ts)
without-names n [] h = refl
without-names n (t ∷ ts) h = elim (Bool-cases (str_eq t.name n)) [
  | inl here ↦
      let absent : text_mem n (names ts) ≡ false = ground (arith, here, h, eq_iff t.name n) in
      rw (here, without-absent n ts absent) refl
  | inr there ↦ rw there (ap (λ l. t.name ∷ l) (without-names n ts (ground (arith, h))))
]

stored-insert :
    (t : Tool) (tools : List (String × Tool)) (ts : List Tool)
    → lookup t.name tools ≡ none
    → All (Stores tools) ts
    → All (Stores (insert t.name t tools)) ts
stored-insert t tools [] fresh h = tt
stored-insert t tools (u ∷ ts) fresh h = (
  ground (arith, fresh, h.0, eq_iff t.name u.name, lookup-insert t.name u.name t tools),
  stored-insert t tools ts fresh h.1,
)

stored-erase :
    (n : String) (tools : List (String × Tool)) (ts : List Tool)
    → All (Stores tools) ts
    → All (Stores (erase n tools)) (without n ts)
stored-erase n tools [] h = tt
stored-erase n tools (u ∷ ts) h = elim (Bool-cases (str_eq u.name n)) [
  | inl same ↦ rw same (stored-erase n tools ts h.1)
  | inr other ↦
      let still : Stores (erase n tools) u =
        ground (arith, h.0, other, eq_iff u.name n, eq_iff n u.name, lookup-erase n u.name tools) in
      rw other (still, stored-erase n tools ts h.1)
]

register-Lists :
    (t : Tool) (r r' : Registry) (ts : List Tool)
    → Lists r ts
    → register (some t) r ≡ some r'
    → Lists r' (ts ++ t ∷ [])
register-Lists t r r' ts ok h =
    let did = register-cases t r r' h in
    let kept = stored-insert t r.tools ts did.fresh ok.stored in
    let here : Stores (insert t.name t r.tools) t =
      lookup-insert t.name t.name t r.tools ∙ rw eq_refl refl in
    record {
      catalog = register-IsCatalog t r r' ok.catalog h;
      ordered =
          ap (λ x. x.order) did.after
          ∙ (ap (λ l. l ++ t.name ∷ []) ok.ordered ∙ sym (names-snoc ts t));
      stored =
          rw did.after (All-append (Stores (insert t.name t r.tools)) ts (t ∷ []) kept (here, tt));
    }

deregister-Lists :
    (n : String) (r : Registry) (ts : List Tool)
    → Lists r ts
    → Lists (deregister n r).1 (without n ts)
deregister-Lists n r ts ok = elim (Bool-cases (is_known (lookup n r.tools))) [
  | inl known ↦
      let did = deregister-known n r known in
      record {
        catalog = deregister-IsCatalog n r ok.catalog;
        ordered =
            ap (λ o. o.1.order) did
            ∙ (ap (remove_first n) ok.ordered
                ∙ without-names n ts (ap is_distinct (sym ok.ordered) ∙ ok.catalog.once));
        stored = rw did (stored-erase n r.tools ts ok.stored);
      }
  | inr unknown ↦
      let absent : text_mem n (names ts) ≡ false =
        ap (text_mem n) (sym ok.ordered) ∙ (ok.catalog.listed n ∙ unknown) in
      rw (deregister-unknown n r unknown, without-absent n ts absent) ok
]

changed-Lists :
    (cs : List Change) (r r' : Registry) (ts : List Tool)
    → Lists r ts
    → changed cs r ≡ some r'
    → Lists r' (left_after cs ts)
unfolding changed left_after
changed-Lists [] r r' ts ok h =
    let same : r ≡ r' = ground (arith, h) in subst (λ x. Lists x ts) same ok
changed-Lists (registers t ∷ cs) r r' ts ok h = elim (Option-cases (register (some t) r)) [
  | inl panics ↦ absurd (ground (arith, h, panics))
  | inr (r'', did) ↦
      changed-Lists cs r'' r' (ts ++ t ∷ []) (register-Lists t r r'' ts ok did)
        (sym (rw (changed, did) refl) ∙ h)
]
changed-Lists (deregisters n ∷ cs) r r' ts ok h =
    changed-Lists cs (deregister n r).1 r' (without n ts) (deregister-Lists n r ts ok) h

definitions-stored :
    (tools : List (String × Tool)) (ts : List Tool)
    → All (Stores tools) ts
    → definitions tools (names ts) ≡ some (map definition_of ts)
unfolding definitions
definitions-stored tools [] h = refl
definitions-stored tools (t ∷ ts) h = rw (definitions, h.0, definitions-stored tools ts h.1) refl

-- After any sequence of registrations and deregistrations that do not panic, starting from the empty
-- registry, the listing of all tools does not panic either: it is the definitions of the tools that
-- were registered and not taken out since, each once, in the order of their registration.
pub all-changed :
    (cs : List Change) (r : Registry)
    → changed cs new_registry ≡ some r
    → all r ≡ some (map definition_of (left_after cs []))
      × is_distinct (map (λ t. t.name) (left_after cs [])) ≡ true
unfolding all
all-changed cs r h =
    let ok =
      changed-Lists cs new_registry r []
        (record { catalog = new_registry-IsCatalog; ordered = refl; stored = tt }) h in
    (
      ap (definitions r.tools) ok.ordered ∙ definitions-stored r.tools (left_after cs []) ok.stored,
      ap is_distinct (sym ok.ordered) ∙ ok.catalog.once,
    )
