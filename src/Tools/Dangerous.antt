-- ===== src/Tools/Dangerous.antt =====
-- internal/harness/tools/dangerous.go: the catalogs of dangerous commands.
use modeltap.Prelude.{Bool, true, false, List, [], ◌∷◌, Option, none, some, if◌then◌else◌}
use modeltap.Prelude.Text.{str_eq, trim_space}
use Prim.Native.String.{String}
use modeltap.Tools.Regex.{
  Regex, one, many, empty, alt, edge, no_edge, at_start, at_end, match_string, lit, lit_i, blank,
  letter_i, blanks1, anything, ◌⨟◌, one_of,
}

pub record DangerousPattern : Type 0 where
  pub pattern : Regex
  pub desc : String

abbrev pattern_of : Regex → String → DangerousPattern
pattern_of r d = record { pattern = r; desc = d }

abbrev shells_and_interpreters : Regex
shells_and_interpreters =
    one_of (
      "sh" ∷ "bash" ∷ "zsh" ∷ "ksh" ∷ "fish" ∷ "python" ∷ "python3" ∷ "node" ∷ "ruby" ∷ "perl" ∷ [])

abbrev blanks : Regex
blanks = many blank

-- `rm\s+-rf?\s+/` under `(?i)`.
abbrev pub delete_from_root : Regex
delete_from_root = lit_i "rm" ⨟ blanks1 ⨟ lit_i "-r" ⨟ alt (lit_i "f") empty ⨟ blanks1 ⨟ lit "/"

-- `chmod\s+.*777\b`, and so on: one pattern to a line, in the order of the source.
abbrev pub dangerous_patterns : List DangerousPattern
dangerous_patterns =
    pattern_of
      (lit_i "rm"
        ⨟ blanks1
        ⨟ alt (lit "-" ⨟ many letter_i ⨟ lit_i "r" ⨟ many letter_i ⨟ lit_i "f")
            (lit "-" ⨟ many letter_i ⨟ lit_i "f" ⨟ many letter_i ⨟ lit_i "r")
        ⨟ edge)
      "recursive force delete"
    ∷ pattern_of
        (lit_i "rm"
          ⨟ blanks1
          ⨟ anything
          ⨟ no_edge
          ⨟ lit_i "-r"
          ⨟ edge
          ⨟ anything
          ⨟ no_edge
          ⨟ lit_i "-f"
          ⨟ edge)
        "recursive force delete (split flags)"
    ∷ pattern_of
        (lit_i "rm" ⨟ blanks1 ⨟ anything ⨟ lit_i "--recursive" ⨟ anything ⨟ lit_i "--force")
        "recursive force delete (long flags)"
    ∷ pattern_of delete_from_root "recursive force delete from root"
    ∷ pattern_of (edge ⨟ lit_i "find" ⨟ blanks1 ⨟ anything ⨟ lit_i "-delete" ⨟ edge) "find -delete"
    ∷ pattern_of (edge ⨟ lit "shred" ⨟ edge) "overwrite and delete"
    ∷ pattern_of (lit ">" ⨟ blanks ⨟ lit "/dev/") "redirect to device"
    ∷ pattern_of (lit "chmod" ⨟ blanks1 ⨟ anything ⨟ lit "777" ⨟ edge) "world-writable permissions"
    ∷ pattern_of (lit "chown" ⨟ blanks1 ⨟ lit "-R" ⨟ edge) "recursive ownership change"
    ∷ pattern_of (lit "mkfs" ⨟ edge) "format filesystem"
    ∷ pattern_of (edge ⨟ lit "dd" ⨟ blanks1) "disk/device write"
    ∷ pattern_of (lit "curl" ⨟ blanks1 ⨟ anything ⨟ lit "-d" ⨟ edge) "curl with data (POST)"
    ∷ pattern_of
        (edge ⨟ lit "curl" ⨟ edge ⨟ anything ⨟ lit "|" ⨟ blanks ⨟ shells_and_interpreters ⨟ edge)
        "curl | shell"
    ∷ pattern_of
        (edge ⨟ lit "wget" ⨟ edge ⨟ anything ⨟ lit "|" ⨟ blanks ⨟ shells_and_interpreters ⨟ edge)
        "wget | shell"
    ∷ pattern_of (edge ⨟ lit "wget" ⨟ edge) "download"
    ∷ pattern_of
        (edge ⨟ one_of ("bash" ∷ "sh" ∷ "zsh" ∷ "ksh" ∷ "fish" ∷ []) ⨟ blanks1 ⨟ lit "-c" ⨟ edge)
        "shell -c"
    ∷ pattern_of (edge ⨟ one_of ("python" ∷ "python3" ∷ []) ⨟ blanks1 ⨟ lit "-c" ⨟ edge) "python -c"
    ∷ pattern_of (edge ⨟ lit "node" ⨟ blanks1 ⨟ lit "-e" ⨟ edge) "node -e"
    ∷ pattern_of (edge ⨟ one_of ("ruby" ∷ "perl" ∷ []) ⨟ blanks1 ⨟ lit "-e" ⨟ edge) "interpreter -e"
    ∷ pattern_of (edge ⨟ lit "eval" ⨟ blanks1) "eval"
    ∷ pattern_of (edge ⨟ one_of ("nc" ∷ "ncat" ∷ "netcat" ∷ []) ⨟ one blank) "netcat"
    ∷ pattern_of (edge ⨟ lit "ssh" ⨟ blanks1 ⨟ anything ⨟ lit "@") "ssh to remote host"
    ∷ pattern_of (edge ⨟ one_of ("scp" ∷ "rsync" ∷ []) ⨟ blanks1 ⨟ anything ⨟ lit "@")
        "file transfer to remote host"
    ∷ pattern_of (lit "export" ⨟ blanks1 ⨟ lit "LD_PRELOAD") "LD_PRELOAD injection"
    ∷ pattern_of (lit "export" ⨟ blanks1 ⨟ lit "PATH=") "PATH modification"
    ∷ pattern_of
        (lit ":()"
          ⨟ blanks
          ⨟ lit "{"
          ⨟ blanks
          ⨟ lit ":|:&"
          ⨟ blanks
          ⨟ lit "}"
          ⨟ blanks
          ⨟ lit ";"
          ⨟ blanks
          ⨟ lit ":")
        "fork bomb"
    ∷ []

abbrev pub dangerous_git_patterns : List DangerousPattern
dangerous_git_patterns =
    pattern_of (edge ⨟ lit "push" ⨟ edge ⨟ anything ⨟ lit "--force" ⨟ edge) "force push"
    ∷ pattern_of
        (edge
          ⨟ lit "push"
          ⨟ edge
          ⨟ anything
          ⨟ alt at_start (one blank)
          ⨟ lit "-f"
          ⨟ alt (one blank) at_end)
        "force push (short flag)"
    ∷ pattern_of (edge ⨟ lit "reset" ⨟ blanks1 ⨟ lit "--hard" ⨟ edge) "hard reset"
    ∷ pattern_of (edge ⨟ lit "clean" ⨟ blanks1 ⨟ anything ⨟ lit "-f") "force clean"
    ∷ pattern_of (edge ⨟ lit "checkout" ⨟ blanks1 ⨟ anything ⨟ lit "--" ⨟ blanks1 ⨟ lit ".")
        "discard all changes"
    ∷ pattern_of (edge ⨟ lit "branch" ⨟ blanks1 ⨟ anything ⨟ lit "-D" ⨟ edge) "force delete branch"
    ∷ []

-- The description of the first pattern that matches.
unfoldable pub first_match : String → List DangerousPattern → Option String
unfolding match_string
first_match command [] = none
first_match command (p ∷ ps) =
    let later = first_match command ps in
    if match_string p.pattern command then some p.desc else later

abbrev pub is_some : Option String → Bool
is_some none = false
is_some (some d) = true

abbrev or_empty : Option String → String
or_empty none = ""
or_empty (some d) = d

unfoldable pub is_dangerous : String → Bool
unfolding first_match
is_dangerous command =
    if str_eq (trim_space command) ""
    then false
    else is_some (first_match command dangerous_patterns)

unfoldable pub danger_reason : String → String
unfolding first_match
danger_reason command =
    if str_eq (trim_space command) "" then "" else or_empty (first_match command dangerous_patterns)

unfoldable pub is_dangerous_git : String → Bool
unfolding first_match
is_dangerous_git command =
    if str_eq (trim_space command) ""
    then false
    else is_some (first_match command dangerous_git_patterns)

unfoldable pub danger_reason_git : String → String
unfolding first_match
danger_reason_git command =
    if str_eq (trim_space command) ""
    then ""
    else or_empty (first_match command dangerous_git_patterns)
