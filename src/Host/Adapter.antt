-- ===== src/Host/Adapter.antt =====
-- internal/harnesshost/adapter.go: the adapter between the shell and the runtime.
use modeltap.Prelude.{
  String, Bool, not, ◌&&◌, ◌||◌, List, [], ◌∷◌, ◌++◌, none, some, is_empty, select, if◌then◌else◌,
}
use modeltap.Prelude.Text.{str_eq, lookup, insert, erase, text_mem}
use modeltap.Shell.Types.{
  HostEvent, submission_accepted, submission_failed, run_started, run_delta, run_completed,
  run_stopped, run_failed, permission_requested, permission_resolved, preview_loaded, host_status,
  host_info, transcript_clear, InputToken, TokenKind, paste, file,
}

-- A `RunDeltaEvent`.
pub record Delta : Type 0 where
  pub run_id : String
  pub delta : String

abbrev pub as_event : Delta → HostEvent
as_event d = run_delta d.run_id d.delta

pub record Attachment : Type 0 where
  pub token_id : String
  pub kind : TokenKind
  pub label : String
  pub path : String
  pub payload : String

-- The maps are association lists, the set of pending permissions a list of distinct IDs. The
-- commands that the shell returns are in its own state.
pub record Adapter (S : Type 0) : Type 0 where
  pub shell : S
  pub submission_to_run : List (String × String)
  pub run_to_submission : List (String × String)
  pub attached_run_id : String
  pub pending_permissions : List String
  pub pause_buffer : List Delta
  pub detached_transcripts : List (String × List Delta)
  pub token_attachments : List (String × Attachment)

abbrev pub detached_of : String → List (String × List Delta) → List Delta
detached_of run_id m = elim (lookup run_id m) [ none ↦ [] | some ds ↦ ds ]

-- A set's `m[id] = struct{}{}`.
abbrev pub add_id : String → List String → List String
add_id id ids = if text_mem id ids then ids else id ∷ ids

abbrev pub remove_id : String → List String → List String
remove_id id ids = select (λ j. not (str_eq j id)) ids

-- `defaultAttachmentResolver`.
unfoldable pub default_attachment_resolver : InputToken → Attachment
default_attachment_resolver tok = record {
  token_id = tok.id;
  kind = tok.kind;
  label = tok.label;
  path = elim tok.kind [ file ↦ tok.payload | paste ↦ "" ];
  payload = elim tok.kind [ file ↦ "" | paste ↦ tok.payload ];
}

abbrev pub is_detached : String → String → Bool
is_detached run_id attached =
    not (str_eq run_id "") && (str_eq attached "" || not (str_eq run_id attached))

module _ {S : Type 0} where
  -- `New`.
  abbrev pub new_adapter : S → Adapter S
  new_adapter s = record {
    shell = s;
    submission_to_run = [];
    run_to_submission = [];
    attached_run_id = "";
    pending_permissions = [];
    pause_buffer = [];
    detached_transcripts = [];
    token_attachments = [];
  }

  abbrev pub attach : String → Adapter S → Adapter S
  attach run_id a = record a {
    attached_run_id = if str_eq run_id "" then a.attached_run_id else run_id;
  }

  abbrev pub detach : String → Adapter S → Adapter S
  detach run_id a = record a {
    attached_run_id = if str_eq run_id a.attached_run_id then "" else a.attached_run_id;
  }

  -- A delta of a run that is not attached is kept for later.
  abbrev pub keep_detached : Delta → Adapter S → Adapter S
  keep_detached d a = record a {
    detached_transcripts =
        insert d.run_id (detached_of d.run_id a.detached_transcripts ++ d ∷ [])
          a.detached_transcripts;
  }

-- `update` is the shell's `Update` on an event.
module _ {S : Type 0} (update : HostEvent → S → S) where
  -- One event for the shell, and a list of deltas in turn.
  abbrev pub give : HostEvent → Adapter S → Adapter S
  give e a = record a { shell = update e a.shell }

  unfoldable pub replay : List Delta → S → S
  replay [] s = s
  replay (d ∷ ds) s = replay ds (update (as_event d) s)

  abbrev pub forward_delta : Delta → Adapter S → Adapter S
  forward_delta d a =
      if not (is_empty a.pending_permissions)
      then record a { pause_buffer = a.pause_buffer ++ d ∷ [] }
      else if is_detached d.run_id a.attached_run_id
      then keep_detached d a
      else give (as_event d) a

  abbrev pub forward_started : String → HostEvent → Adapter S → Adapter S
  forward_started run_id e a =
      let ds = detached_of run_id a.detached_transcripts in
      if not (str_eq run_id "") && not (is_empty ds)
      then record a {
        shell = replay ds (update e a.shell);
        detached_transcripts = erase run_id a.detached_transcripts;
      }
      else give e a

  abbrev pub forward_resolved : HostEvent → Adapter S → Adapter S
  forward_resolved e a =
      if is_empty a.pending_permissions && not (is_empty a.pause_buffer)
      then record a { shell = replay a.pause_buffer (update e a.shell); pause_buffer = [] }
      else give e a

  unfoldable pub forward_event : HostEvent → Adapter S → Adapter S
  unfolding replay
  forward_event (submission_accepted id run) a = give (submission_accepted id run) (attach run a)
  forward_event (run_started id run label) a =
      forward_started run (run_started id run label) (attach run a)
  forward_event (permission_requested r) a = give (permission_requested r) (record a {
    pending_permissions =
        if str_eq r.id "" then a.pending_permissions else add_id r.id a.pending_permissions;
  })
  forward_event (permission_resolved id outcome message) a =
      forward_resolved (permission_resolved id outcome message)
        (record a { pending_permissions = remove_id id a.pending_permissions })
  forward_event (run_delta run delta) a = forward_delta (record { run_id = run; delta = delta }) a
  forward_event (run_completed run) a = give (run_completed run) (detach run a)
  forward_event (run_stopped run reason message) a =
      give (run_stopped run reason message) (detach run a)
  forward_event (run_failed run message) a = give (run_failed run message) (detach run a)
  forward_event (submission_failed id message) a = give (submission_failed id message) a
  forward_event (preview_loaded target preview) a = give (preview_loaded target preview) a
  forward_event (host_status s kind) a = give (host_status s kind) a
  forward_event (host_info text) a = give (host_info text) a
  forward_event transcript_clear a = give transcript_clear a

  unfoldable pub forward_events : List HostEvent → Adapter S → Adapter S
  forward_events [] a = a
  forward_events (e ∷ es) a = forward_events es (forward_event e a)
