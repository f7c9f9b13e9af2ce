-- ===== src/Tools/Danger.antt =====
-- A command that the catalog knows is found wherever it stands in the text.
use modeltap.Prelude.{
  ℕ, ◌≡◌, refl, ap, Bool, true, List, [], ◌∷◌, ◌++◌, Option, none, some, any, arith, suc, zero,
  get_elem?,
}
use modeltap.Prelude.Text.{codes, has_visible, trim_space-visible, is_space, ◌<>◌}
use Prim.Native.Char.{code}
use Prim.Native.String.{String}
use text.Mathlib.TextLemmas.{nil-append, cons-append}
use text.Mathlib.TextPositions.{eq_refl}
use modeltap.Tools.Regex.{Regex, search_from, match_string}
use modeltap.Tools.Dangerous.{
  DangerousPattern, delete_from_root, dangerous_patterns, first_match, is_some, is_dangerous,
}
use modeltap.Tools.Json.{Input, text_field}
use modeltap.Tools.Permission.{
  Tool, PermissionEnforcer, Library, perm_prompt, tool_name_bash, always_prompt, check,
}

codes-append : (s t : String) → codes (s <> t) ≡ codes s ++ codes t
codes-append String.[] t = rw nil-append refl
codes-append (String.◌∷◌ c s) t = rw cons-append (ap (λ l. code c ∷ l) (codes-append s t))

-- A match in what follows is a match of the whole.
search-append :
    (r : Regex) (before : Option ℕ) (pre s : List ℕ)
    → ((b : Option ℕ) → search_from r b s ≡ true)
    → search_from r before (pre ++ s) ≡ true
unfolding search_from
search-append r before [] s h = h before
search-append r before (c ∷ pre) s h = ground (arith, search-append r (some c) pre s h)

has_visible-append : (s t : String) → has_visible t ≡ true → has_visible (s <> t) ≡ true
has_visible-append String.[] t h = rw nil-append h
has_visible-append (String.◌∷◌ c s) t h = rw cons-append (ground (arith, has_visible-append s t h))

-- The text from the command on; what follows it is any text.
finds_delete :
    (b : Option ℕ) (suf : List ℕ) → search_from delete_from_root b (codes "rm -rf /" ++ suf) ≡ true
unfolding search_from
finds_delete b [] = refl
finds_delete b (c ∷ suf) = refl

matches_delete :
    (pre suf : String) → match_string delete_from_root (pre <> ("rm -rf /" <> suf)) ≡ true
unfolding match_string
matches_delete pre suf =
    rw (codes-append pre ("rm -rf /" <> suf), codes-append "rm -rf /" suf)
      (search-append delete_from_root none (codes pre) (codes "rm -rf /" ++ codes suf)
        (λ b. finds_delete b (codes suf)))

first_match-any :
    (c : String) (ps : List DangerousPattern)
    → any (λ p. match_string p.pattern c) ps ≡ true
    → is_some (first_match c ps) ≡ true
unfolding first_match
first_match-any c [] h = h
first_match-any c (p ∷ ps) h = ground (arith, first_match-any c ps)

any-at :
    (f : DangerousPattern → Bool) (ps : List DangerousPattern) (n : ℕ) (p : DangerousPattern)
    → get_elem? ps n ≡ some p
    → f p ≡ true
    → any f ps ≡ true
any-at f [] n p at h = ground arith
any-at f (q ∷ ps) zero p at h = ground arith
any-at f (q ∷ ps) (suc n) p at h = ground (arith, any-at f ps n p at h)

visible_delete : (pre suf : String) → has_visible (pre <> ("rm -rf /" <> suf)) ≡ true
unfolding is_space
visible_delete pre suf = has_visible-append pre ("rm -rf /" <> suf) (rw cons-append refl)

is_dangerous-delete : (pre suf : String) → is_dangerous (pre <> ("rm -rf /" <> suf)) ≡ true
unfolding is_dangerous
is_dangerous-delete pre suf =
    let c = pre <> ("rm -rf /" <> suf) in
    let found = first_match-any c dangerous_patterns (
      any-at (λ p. match_string p.pattern c) dangerous_patterns 3
        (record { pattern = delete_from_root; desc = "recursive force delete from root" }) refl
        (matches_delete pre suf)) in
    rw (trim_space-visible c (visible_delete pre suf)) found

-- Whatever the level and whatever was approved, a Bash command with `rm -rf /` anywhere in it is not
-- run without asking.
pub check-delete :
    (lib : Library) (tool : Tool) (input : Input) (p : PermissionEnforcer) (pre suf : String)
    → tool.name ≡ tool_name_bash
    → text_field "command" input ≡ some (pre <> ("rm -rf /" <> suf))
    → check lib (some tool) input p ≡ perm_prompt
unfolding check always_prompt
check-delete lib tool input p pre suf named given =
    let found : always_prompt lib tool input ≡ true =
      rw (named, given, eq_refl tool_name_bash, always_prompt) (is_dangerous-delete pre suf) in
    rw (found, check) refl
