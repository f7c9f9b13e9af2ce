-- ===== src/Host/Previews.antt =====
-- The file that a preview asks for (internal/harnesshost/adapter.go).
use modeltap.Prelude.{
  ◌≡◌, refl, ap, ◌∙◌, String, List, [], ◌∷◌, inl, inr, Bool-cases, if◌then◌else◌,
}
use modeltap.Prelude.Text.{str_eq, lookup, lookup-insert}
use modeltap.Shell.Types.{InputToken, Submission, PreviewTarget, paste, file}
use modeltap.Host.Adapter.{Attachment, Adapter, default_attachment_resolver}
use modeltap.Host.Dispatch.{
  Answer, ok, Runtime, dispatch_submit, resolve_tokens, record_attachment, path_of, preview_request,
}

-- The path that the default resolver gives a token.
abbrev path_of_token : InputToken → String
path_of_token tok = elim tok.kind [ file ↦ tok.payload | paste ↦ "" ]

-- The path of the last token with an ID, or the one recorded before.
abbrev pub last_path : String → List InputToken → String → String
last_path id [] old = old
last_path id (tok ∷ toks) old =
    last_path id toks
      (if str_eq tok.id "" then old else if str_eq tok.id id then path_of_token tok else old)

abbrev pub default_resolver : InputToken → Answer Attachment
default_resolver tok = ok (default_attachment_resolver tok)

module _ {S : Type 0} where
  recorded-path :
      (id : String) (tok : InputToken) (a : Adapter S)
      → path_of
          (lookup id (record_attachment (default_attachment_resolver tok) a).token_attachments)
        ≡ (if str_eq tok.id ""
            then path_of (lookup id a.token_attachments)
            else if str_eq tok.id id
            then path_of_token tok
            else path_of (lookup id a.token_attachments))
  unfolding default_attachment_resolver
  recorded-path id tok a = elim (Bool-cases (str_eq tok.id "")) [
    | inl e ↦ rw e
    | inr n ↦
        rw (n, lookup-insert tok.id id (default_attachment_resolver tok) a.token_attachments)
          (elim (Bool-cases (str_eq tok.id id)) [ inl e ↦ rw e | inr f ↦ rw f ])
  ]

  resolve_tokens-path :
      (id : String) (toks : List InputToken) (a : Adapter S)
      → path_of (lookup id (resolve_tokens default_resolver toks a).1.token_attachments)
        ≡ last_path id toks (path_of (lookup id a.token_attachments))
  unfolding resolve_tokens default_attachment_resolver
  resolve_tokens-path id [] a = refl
  resolve_tokens-path id (tok ∷ toks) a =
      resolve_tokens-path id toks (record_attachment (default_attachment_resolver tok) a)
      ∙ ap (last_path id toks) (recorded-path id tok a)

-- A submission that the default resolver resolves makes the adapter ask, in a later preview, for
-- the path of the last token with the target's ID in the submission, whatever the source of the
-- target; an ID that the submission does not have keeps the path it had.
pub preview-dispatch_submit :
    {S : Type 0} (rt : Runtime) (sub : Submission) (target : PreviewTarget) (a : Adapter S)
    → (preview_request target (dispatch_submit rt default_resolver sub a).1).path
      ≡ last_path target.token_id sub.tokens (preview_request target a).path
unfolding dispatch_submit
preview-dispatch_submit rt sub target a = resolve_tokens-path target.token_id sub.tokens a
