-- ===== src/Conversation/Samples.antt =====
-- A codec that keeps the promises of encoding/json: texts packed into a text.
use modeltap.Prelude.{
  ℕ, ◌≡◌, refl, ap, ◌∙◌, inl, inr, String, false, List, [], ◌∷◌, Option, none, some, map, arith,
  Bool-cases, ◌≢◌, if◌then◌else◌, ◌==◌,
}
use modeltap.Prelude.Text.{str_eq, str_eq_iff}
use mathlib.Core.Path.{subst}
use Prim.Native.Char.{Char, code}
use modeltap.Truncation.Types.{ToolCall, ToolResult, Attachment}
use modeltap.Conversation.Types.{Message, zero_message, Codec, IsCodec, kept, compacted_call}

pack_text : String → String → String
pack_text String.[] rest = String.◌∷◌ "e" (String.◌∷◌ "e" rest)
pack_text (String.◌∷◌ c s) rest = String.◌∷◌ "x" (String.◌∷◌ c (pack_text s rest))

unfoldable pub pack : List String → String
unfolding pack_text
pack [] = ""
pack (t ∷ ts) = pack_text t (pack ts)

abbrev push : Char → List String → List String
push c [] = String.◌∷◌ c "" ∷ []
push c (t ∷ ts) = String.◌∷◌ c t ∷ ts

unfoldable pub unpack : String → List String
unpack String.[] = []
unpack (String.◌∷◌ a String.[]) = []
unpack (String.◌∷◌ a (String.◌∷◌ c s)) =
    let rest = unpack s in if code a == b'x' then push c rest else "" ∷ rest

unpack-pack_text : (t s : String) → unpack (pack_text t s) ≡ t ∷ unpack s
unfolding pack_text unpack
unpack-pack_text String.[] s = refl
unpack-pack_text (String.◌∷◌ c t) s = ap (push c) (unpack-pack_text t s)

unpack-pack : (ts : List String) → unpack (pack ts) ≡ ts
unfolding pack unpack
unpack-pack [] = refl
unpack-pack (t ∷ ts) = unpack-pack_text t (pack ts) ∙ ap (λ l. t ∷ l) (unpack-pack ts)

abbrev pack_call : ToolCall → String
pack_call t = pack (t.id ∷ t.name ∷ t.input ∷ [])

abbrev call_from : List String → ToolCall
call_from (a ∷ b ∷ c ∷ []) = record { id = a; name = b; input = c }
call_from _ = record { id = ""; name = ""; input = "" }

abbrev pack_result : ToolResult → String
pack_result r = pack (r.tool_call_id ∷ r.output ∷ r.status ∷ r.error ∷ r.reason ∷ [])

abbrev result_from : List String → ToolResult
result_from (a ∷ b ∷ c ∷ d ∷ e ∷ []) = record {
  tool_call_id = a;
  output = b;
  status = c;
  error = d;
  reason = e;
}
result_from _ = record { tool_call_id = ""; output = ""; status = ""; error = ""; reason = "" }

abbrev pack_attachment : Attachment → String
pack_attachment r = pack (r.path ∷ r.raw ∷ r.content ∷ r.content_type ∷ r.transform ∷ [])

abbrev attachment_from : List String → Attachment
attachment_from (a ∷ b ∷ c ∷ d ∷ e ∷ []) = record {
  path = a;
  raw = b;
  content = c;
  content_type = d;
  transform = e;
}
attachment_from _ = record { path = ""; raw = ""; content = ""; content_type = ""; transform = "" }

abbrev pack_pair : String × String → String
pack_pair p = pack (p.0 ∷ p.1 ∷ [])

abbrev pair_from : List String → String × String
pair_from (a ∷ b ∷ []) = (a, b)
pair_from _ = ("", "")

abbrev pack_list : {A : Type 0} → (A → String) → List A → String
pack_list f xs = pack (map f xs)

abbrev list_from : {A : Type 0} → (List String → A) → String → List A
list_from g s = map (λ t. g (unpack t)) (unpack s)

list_from-pack_list :
    {A : Type 0} (f : A → String) (g : List String → A) (xs : List A)
    → ((x : A) → g (unpack (f x)) ≡ x)
    → map (λ t. g (unpack t)) (map f xs) ≡ xs
list_from-pack_list f g [] h = refl
list_from-pack_list f g (x ∷ xs) h = rw (h x, list_from-pack_list f g xs h) refl

abbrev pack_message : Message → String
pack_message m = pack (
    m.role
    ∷ m.content
    ∷ pack_list pack_call m.tool_calls
    ∷ pack_list pack_result m.tool_results
    ∷ pack_list pack_attachment m.attachments
    ∷ pack_list pack_pair m.metadata
    ∷ [])

abbrev message_from : List String → Option Message
message_from (a ∷ b ∷ c ∷ d ∷ e ∷ f ∷ []) = some (record {
  role = a;
  content = b;
  tool_calls = list_from call_from c;
  tool_results = list_from result_from d;
  attachments = list_from attachment_from e;
  metadata = list_from pair_from f;
})
message_from _ = none

abbrev pub a_codec : Codec
a_codec = record {
  marshal = λ m. some (pack_message m);
  marshal_calls = λ calls. some (pack_list pack_call calls);
  unmarshal = λ raw. if str_eq raw "null" then some zero_message else message_from (unpack raw);
  compact = λ raw. raw;
}

packed :
    {A : Type 0} (f : A → String) (g : List String → A) (xs : List A)
    → ((x : A) → g (unpack (f x)) ≡ x)
    → list_from g (pack_list f xs) ≡ xs
packed f g xs h =
    ap (map (λ t. g (unpack t))) (unpack-pack (map f xs)) ∙ list_from-pack_list f g xs h

call-packed : (t : ToolCall) → call_from (unpack (pack_call t)) ≡ t
call-packed t = rw (unpack-pack (t.id ∷ t.name ∷ t.input ∷ [])) refl

result-packed : (r : ToolResult) → result_from (unpack (pack_result r)) ≡ r
result-packed r =
    rw (unpack-pack (r.tool_call_id ∷ r.output ∷ r.status ∷ r.error ∷ r.reason ∷ [])) refl

attachment-packed : (r : Attachment) → attachment_from (unpack (pack_attachment r)) ≡ r
attachment-packed r =
    rw (unpack-pack (r.path ∷ r.raw ∷ r.content ∷ r.content_type ∷ r.transform ∷ [])) refl

pair-packed : (p : String × String) → pair_from (unpack (pack_pair p)) ≡ p
pair-packed p = rw (unpack-pack (p.0 ∷ p.1 ∷ [])) refl

message-packed : (m : Message) → message_from (unpack (pack_message m)) ≡ some m
message-packed m =
    rw
      (
        unpack-pack,
        packed pack_call call_from m.tool_calls call-packed,
        packed pack_result result_from m.tool_results result-packed,
        packed pack_attachment attachment_from m.attachments attachment-packed,
        packed pack_pair pair_from m.metadata pair-packed,
      )
      refl

abbrev head_code : String → ℕ
head_code String.[] = 0
head_code (String.◌∷◌ c s) = code c

not_n : (t : String) (ts : List String) → head_code (pack (t ∷ ts)) ≢ 110
unfolding pack pack_text
not_n String.[] ts h = omega (arith, h)
not_n (String.◌∷◌ c t) ts h = omega (arith, h)

pack-not_null : (t : String) (ts : List String) → str_eq (pack (t ∷ ts)) "null" ≡ false
unfolding pack pack_text
pack-not_null t ts = elim (Bool-cases (str_eq (pack (t ∷ ts)) "null")) [
  | inl e ↦ absurd (not_n t ts (ap head_code (str_eq_iff (pack (t ∷ ts)) "null" e)))
  | inr e ↦ e
]

map-id : (calls : List ToolCall) → map (compacted_call a_codec) calls ≡ calls
map-id [] = refl
map-id (t ∷ ts) = ap (λ l. t ∷ l) (map-id ts)

some_raw : (m : Message) (raw : String) → a_codec.marshal m ≡ some raw → pack_message m ≡ raw
some_raw m raw h = ground (arith, h)

kept_same : (m : Message) → kept a_codec m ≡ m
kept_same m = ap (λ calls. record m { tool_calls = calls }) (map-id m.tool_calls)

unmarshal-packed : (m : Message) → a_codec.unmarshal (pack_message m) ≡ some (kept a_codec m)
unmarshal-packed m = rw (pack-not_null, message-packed m, kept_same m) refl

pub a_codec-IsCodec : IsCodec a_codec
unfolding unpack
a_codec-IsCodec = record {
  round_trip = λ m raw h.
      subst (λ r. a_codec.unmarshal r ≡ some (kept a_codec m)) (some_raw m raw h)
        (unmarshal-packed m);
  plain = λ m h e. ground (arith, e);
  null = refl;
  no_bytes = refl;
}
