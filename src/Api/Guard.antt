-- ===== src/Api/Guard.antt =====
-- internal/api/server.go: the three wrappers of a handler. What jwt.Parse makes of a token with a secret
-- is an argument: `none` unless it is valid and signed by HMAC, or else its subject, which may be empty.
use olsr_go.Base.{
  ◌+◌, Option, none, some, List, [], ◌∷◌, ◌++◌, nat_beq, ◌==◌, if◌then◌else◌, Text, codes, text_eq,
  split_on, to_lower,
}
use olsr_go.Base.Int.{pos, pos_part, neg_part, sub_ℕ}
use olsr_go.Base.Map.{lookup, insert}
use olsr_go.Net.{Time, Duration}
use olsr_go.Packet.TimeVal.{Float64}
use olsr_go.Config.{get}
use olsr_go.Api.{Request, ClientBucket, ApiServer, AuditEntry, Handler, answer, error_text}

-- strings.ReplaceAll, of the line breaks
unfoldable pub sanitize_log_field : Text → Text
sanitize_log_field [] = []
sanitize_log_field (c ∷ cs) =
    let rest = sanitize_log_field cs in
    if nat_beq c 10 then rest else if nat_beq c 13 then rest else c ∷ rest

abbrev pub client_ip_of : Request → Text
client_ip_of r = if r.host == [] then r.remote_addr else r.host

abbrev pub user_of : Request → Text
user_of r = if r.audit_user == [] then codes "anonymous" else r.audit_user

abbrev pub audit_entry : Request → AuditEntry
audit_entry r = record {
  client_ip = sanitize_log_field (client_ip_of r);
  user = sanitize_log_field (user_of r);
  method_name = sanitize_log_field r.method_text;
  logged_path = sanitize_log_field r.path;
}

-- The entry is made of the request as it came in, before the next handler changes its header.
abbrev pub audit_log : {C : Type 0} → Handler C → Handler C
audit_log next r s =
    let reply = next r s in record reply { audit = reply.audit ++ audit_entry r ∷ [] }

-- now.Sub(last)
abbrev elapsed : Time → Time → Duration
elapsed last now = sub_ℕ (pos_part now + neg_part last) (neg_part now + pos_part last)

module _ (F : Float64) (seconds : Duration → F.Carrier) where
  -- limitRate is 10.0 and limitBurst 20; `seconds` is Duration.Seconds.
  abbrev burst : F.Carrier
  burst = F.of_int (pos 20)

  abbrev bucket_of : Time → Option (ClientBucket F.Carrier) → ClientBucket F.Carrier
  bucket_of now (some b) = b
  bucket_of now none = record { tokens = burst; last_update = now }

  abbrev refilled : Time → ClientBucket F.Carrier → F.Carrier
  refilled now b =
      let tokens = F.add b.tokens (F.mul (seconds (elapsed b.last_update now)) F.ten) in
      if F.lt burst tokens then burst else tokens

  abbrev with_bucket : Text → Time → F.Carrier → ApiServer F.Carrier → ApiServer F.Carrier
  with_bucket ip now tokens s = record s {
    rate_limits = insert ip (record { tokens = tokens; last_update = now }) s.rate_limits;
  }

  -- The two clock readings are that of a new bucket and that of the request.
  unfoldable pub rate_limit : Time → Time → Handler F.Carrier → Handler F.Carrier
  rate_limit made now next r s =
      let ip = client_ip_of r in
      let tokens = refilled now (bucket_of made (lookup ip s.rate_limits)) in
      if F.lt tokens F.one
      then answer 429 (error_text (codes "Too Many Requests")) r (with_bucket ip now tokens s)
      else next r (with_bucket ip now (F.sub tokens F.one) s)

-- The token of an Authorization header of the form "bearer token".
abbrev bearer : Text → List Text → Option Text
bearer scheme (token ∷ []) = if to_lower scheme == codes "bearer" then some token else none
bearer scheme _ = none

unfoldable pub token_of : Text → Option Text
unfolding split_on to_lower
token_of header = let (scheme, parts) = split_on 32 header in bearer scheme parts

-- The subject of a request whose token is accepted.
unfoldable pub subject_of : (Text → Text → Option Text) → Text → Text → Option Text
unfolding token_of
subject_of parse_token secret header = elim (token_of header) [
  | none ↦ none
  | some token ↦ parse_token token secret
]

abbrev refusal : Text → Option Text → Text
refusal header token = if header == [] then codes "Missing authorization token" else elim token [
  | none ↦ codes "Invalid authorization header format"
  | some t ↦ codes "Invalid or expired token"
]

-- The header gets the subject, unless it is empty.
abbrev pub authorized : {C : Type 0} → Option Text → Handler C → Handler C
authorized none next r s =
    answer 401 (error_text (refusal r.authorization (token_of r.authorization))) r s
authorized (some []) next r s = next r s
authorized (some (c ∷ cs)) next r s = next (record r { audit_user = c ∷ cs }) s

abbrev pub jwt_auth : {C : Type 0} → (Text → Text → Option Text) → Handler C → Handler C
jwt_auth parse_token next r s =
    authorized (subject_of parse_token (get s.daemon.cfg_mgr).jwt_secret r.authorization) next r s
