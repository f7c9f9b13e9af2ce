-- ===== src/Tools/Catalog.antt =====
-- The registry of tools: what register and deregister keep.
use modeltap.Prelude.{
  ◌≡◌, refl, ap, ◌∙◌, Bool, true, false, ◌||◌, List, [], ◌∷◌, ◌++◌, Option, none, some, inl, inr,
  if◌then◌else◌, arith, Bool-cases,
}
use modeltap.Prelude.Text.{
  str_eq, text_mem, lookup, insert, erase, lookup-insert, lookup-erase, is_distinct,
}
use Prim.Native.String.{String}
use mathlib.Core.Path.{subst}
use text.Mathlib.TextEquality.{eq_iff}
use text.Mathlib.TextPositions.{eq_refl}
use modeltap.Tools.Permission.{Tool}
use modeltap.Tools.Framework.{
  is_valid_risk, Registry, new_registry, register, remove_first, deregister,
}

abbrev pub is_known : Option Tool → Bool
is_known none = false
is_known (some t) = true

abbrev pub IsFit : String → Tool → Type 0
IsFit n t = t.name ≡ n × is_valid_risk t.risk_level ≡ true × str_eq n "" ≡ false

pub record IsCatalog (r : Registry) : Type 0 where
  pub listed : (n : String) → text_mem n r.order ≡ is_known (lookup n r.tools)
  pub once : is_distinct r.order ≡ true
  pub fit : (n : String) (t : Tool) → lookup n r.tools ≡ some t → IsFit n t

pub new_registry-IsCatalog : IsCatalog new_registry
new_registry-IsCatalog = record { listed = λ n. refl; once = refl; fit = λ n t h. ground arith }

mem-snoc :
    (k n : String) (ns : List String) → text_mem k (ns ++ n ∷ []) ≡ (text_mem k ns || str_eq n k)
mem-snoc k n [] = ground arith
mem-snoc k n (m ∷ ns) = ground (arith, mem-snoc k n ns)

distinct-snoc :
    (n : String) (ns : List String)
    → text_mem n ns ≡ false
    → is_distinct ns ≡ true
    → is_distinct (ns ++ n ∷ []) ≡ true
distinct-snoc n [] out h = refl
distinct-snoc n (m ∷ ns) out h =
    ground (arith, distinct-snoc n ns, mem-snoc m n ns, eq_iff m n, eq_iff n m)

mem-remove_first :
    (k n : String) (ns : List String)
    → is_distinct ns ≡ true
    → text_mem k (remove_first n ns) ≡ (if str_eq n k then false else text_mem k ns)
mem-remove_first k n [] h = ground arith
mem-remove_first k n (m ∷ ns) h =
    ground (arith, mem-remove_first k n ns, eq_iff m n, eq_iff n k, eq_iff m k)

distinct-remove_first :
    (n : String) (ns : List String) → is_distinct ns ≡ true → is_distinct (remove_first n ns) ≡ true
distinct-remove_first n [] h = refl
distinct-remove_first n (m ∷ ns) h =
    ground (arith, distinct-remove_first n ns, mem-remove_first m n ns, eq_iff m n)

remove_first-snoc :
    (n : String) (ns : List String) → text_mem n ns ≡ false → remove_first n (ns ++ n ∷ []) ≡ ns
remove_first-snoc n [] h = rw eq_refl refl
remove_first-snoc n (m ∷ ns) h = ground (arith, remove_first-snoc n ns)

erase-insert :
    (n : String) (t : Tool) (m : List (String × Tool))
    → lookup n m ≡ none
    → erase n (insert n t m) ≡ m
erase-insert n t [] h = rw eq_refl refl
erase-insert n t ((k, u) ∷ m) h = ground (arith, erase-insert n t m)

known-some : (o : Option Tool) → is_known o ≡ true → (t : Tool) × o ≡ some t
known-some none h = ground arith
known-some (some t) h = (t, refl)

-- What an accepted registration does.
pub record Registered (t : Tool) (r r' : Registry) : Type 0 where
  pub named : str_eq t.name "" ≡ false
  pub valid : is_valid_risk t.risk_level ≡ true
  pub fresh : lookup t.name r.tools ≡ none
  pub after : r' ≡ record { tools = insert t.name t r.tools; order = r.order ++ t.name ∷ [] }

pub register-cases :
    (t : Tool) (r r' : Registry) → register (some t) r ≡ some r' → Registered t r r'
unfolding register
register-cases t r r' h = record {
  named = ground arith;
  valid = ground arith;
  fresh = ground arith;
  after = ground arith;
}

absent-order :
    (t : Tool) (r : Registry)
    → IsCatalog r
    → lookup t.name r.tools ≡ none
    → text_mem t.name r.order ≡ false
absent-order t r ok fresh = ok.listed t.name ∙ ap is_known fresh

insert-IsFit :
    (k n : String) (t u : Tool) (m : List (String × Tool))
    → IsFit k t
    → (lookup n m ≡ some u → IsFit n u)
    → lookup n (insert k t m) ≡ some u
    → IsFit n u
insert-IsFit k n t u m new old at = elim (Bool-cases (str_eq k n)) [
  | inl same ↦
      let e : t ≡ u = ground (arith, at, lookup-insert k n t m) in
      subst (λ x. IsFit n x) e (subst (λ x. IsFit x t) ((eq_iff k n).0 same) new)
  | inr other ↦ old (ground (arith, at, lookup-insert k n t m))
]

-- A registration that is accepted keeps the registry a catalog.
pub register-IsCatalog :
    (t : Tool) (r r' : Registry) → IsCatalog r → register (some t) r ≡ some r' → IsCatalog r'
register-IsCatalog t r r' ok h =
    let did = register-cases t r r' h in
    let out = absent-order t r ok did.fresh in
    rw did.after (record {
      listed = λ n.
          grind (arith, ok.listed n, mem-snoc n t.name r.order, lookup-insert t.name n t r.tools);
      once = distinct-snoc t.name r.order out ok.once;
      fit =
          λ n u at. insert-IsFit t.name n t u r.tools (refl, did.valid, did.named) (ok.fit n u) at;
    })

pub deregister-known :
    (n : String) (r : Registry)
    → is_known (lookup n r.tools) ≡ true
    → deregister n r ≡ (true, record { tools = erase n r.tools; order = remove_first n r.order })
unfolding deregister
deregister-known n r h = ground arith

pub deregister-unknown :
    (n : String) (r : Registry) → is_known (lookup n r.tools) ≡ false → deregister n r ≡ (false, r)
unfolding deregister
deregister-unknown n r h = ground arith

removed-IsCatalog :
    (n : String) (r : Registry)
    → IsCatalog r
    → IsCatalog (record { tools = erase n r.tools; order = remove_first n r.order })
removed-IsCatalog n r ok = record {
  listed = λ k.
      grind (arith, ok.listed k, mem-remove_first k n r.order ok.once, lookup-erase n k r.tools);
  once = distinct-remove_first n r.order ok.once;
  fit = λ k u at. ok.fit k u (grind (arith, at, lookup-erase n k r.tools));
}

pub deregister-IsCatalog : (n : String) (r : Registry) → IsCatalog r → IsCatalog (deregister n r).1
deregister-IsCatalog n r ok = elim (Bool-cases (is_known (lookup n r.tools))) [
  | inl known ↦ rw (deregister-known n r known) (removed-IsCatalog n r ok)
  | inr unknown ↦ rw (deregister-unknown n r unknown) ok
]

-- Taking a tool out right after it was registered gives the registry back.
pub deregister-register :
    (t : Tool) (r r' : Registry)
    → IsCatalog r
    → register (some t) r ≡ some r'
    → deregister t.name r' ≡ (true, r)
deregister-register t r r' ok h =
    let did = register-cases t r r' h in
    let out = absent-order t r ok did.fresh in
    rw did.after (
      deregister-known t.name
        (record { tools = insert t.name t r.tools; order = r.order ++ t.name ∷ [] })
        (rw (lookup-insert t.name t.name t r.tools, eq_refl t.name) refl)
      ∙ rw (erase-insert t.name t r.tools did.fresh, remove_first-snoc t.name r.order out) refl)
