-- ===== src/Api/Laws.antt =====
-- internal/api: what a request may change, and what the audit log says of it.
use olsr_go.Base.{
  ◌≡◌, ◌≢◌, refl, inl, inr, ◌⊎◌, Bool, true, false, Option, none, some, [], ◌∷◌, All, if◌then◌else◌,
  Text, text_eq,
}
use olsr_go.Base.Map.{lookup, Entries-lookup}
use olsr_go.Net.{Time, Duration}
use olsr_go.Packet.TimeVal.{Float64}
use olsr_go.Config.{get}
use olsr_go.Daemon.{Daemon}
use olsr_go.Api.{Method, Request, ApiServer, Reply, Handler}
use olsr_go.Api.Guard.{rate_limit, subject_of, authorized, jwt_auth}
use olsr_go.Api.Serve.{secured_handlers, Clock, serve}
use olsr_go.Api.Quiet.{IsWrite, Keeps, IsQuiet, secured_handlers-IsQuiet}

if_either {ℓ} :
    {A : Type 0} (P : A → Type ℓ) (b : Bool) (x y : A) → P x → P y → P (if b then x else y)
if_either P true x y px py = px
if_either P false x y px py = py

-- What the wrappers keep to, for the reply to a request with this method and with this subject of its token.
record IsGuarded {C : Type 0} (d : Daemon) (m : Method) (subject : Option Text) (reply : Reply C)
    : Type 0 where
  silent : reply.audit ≡ []
  guarded : Keeps d reply ⊎ (IsWrite m × ((sub : Text) × (subject ≡ some sub)))
  rejected : subject ≡ none → (reply.status ≡ 401) ⊎ (reply.status ≡ 429)

allowed-IsGuarded :
    {C : Type 0} {d : Daemon} {m : Method} {reply : Reply C} (sub : Text)
    → (reply.audit ≡ []) × (IsWrite m ⊎ Keeps d reply)
    → IsGuarded d m (some sub) reply
allowed-IsGuarded sub (silent, inl writes) = record {
  silent = silent;
  guarded = inr (writes, (sub, refl));
  rejected = λ e. absurd (cc);
}
allowed-IsGuarded sub (silent, inr keeps) = record {
  silent = silent;
  guarded = inl keeps;
  rejected = λ e. absurd (cc);
}

authorized-IsGuarded :
    {C : Type 0} (path : Text) (subject : Option Text) (next : Handler C) (r : Request)
    (s : ApiServer C)
    → IsQuiet path next
    → IsGuarded s.daemon r.method subject (authorized subject next r s)
authorized-IsGuarded path none next r s h = record {
  silent = refl;
  guarded = inl (refl, refl);
  rejected = λ e. inl refl;
}
authorized-IsGuarded path (some []) next r s h = allowed-IsGuarded [] (h r s)
authorized-IsGuarded path (some (c ∷ cs)) next r s h =
    allowed-IsGuarded (c ∷ cs) (h (record r { audit_user = c ∷ cs }) s)

module _ (F : Float64) (seconds : Duration → F.Carrier)
    (parse_token : Text → Text → Option Text) where
  -- The subject of the token of a request, by the secret of the configuration.
  abbrev pub subject_in : Request → ApiServer F.Carrier → Option Text
  subject_in r s = subject_of parse_token (get s.daemon.cfg_mgr).jwt_secret r.authorization

  rate_limit-IsGuarded :
      (path : Text) (made now : Time) (next : Handler F.Carrier) (r : Request)
      (s : ApiServer F.Carrier)
      → IsQuiet path next
      → IsGuarded s.daemon r.method
          (subject_in r s)
          (rate_limit F seconds made now (jwt_auth parse_token next) r s)
  unfolding rate_limit
  rate_limit-IsGuarded path made now next r s h =
      if_either (IsGuarded s.daemon r.method (subject_in r s)) _ _ _
        (record { silent = refl; guarded = inl (refl, refl); rejected = λ e. inr refl })
        (authorized-IsGuarded path (subject_in r s) next r _ h)

abbrev pub NoBreak : Text → Type 0
NoBreak s = All (λ c. (c ≢ 10) × (c ≢ 13)) s

module _ (F : Float64) (seconds : Duration → F.Carrier) (parse_token : Text → Text → Option Text)
    (others : Handler F.Carrier) where
  -- A request of a path below /api/v1 changes nothing in the daemon and publishes nothing, unless it is a
  -- POST or a DELETE with a token that is accepted by the secret of the configuration. Without such a token
  -- the answer is 401, or 429 from the rate limit.
  pub serve_guards :
      (clock : Clock) (r : Request) (s : ApiServer F.Carrier) (next : Handler F.Carrier)
      → lookup r.path (secured_handlers clock.acted) ≡ some next
      → let reply = serve F seconds parse_token others clock r s in
        let subject = subject_in F seconds parse_token r s in
        (Keeps s.daemon reply ⊎ (IsWrite r.method × ((sub : Text) × (subject ≡ some sub))))
        × (subject ≡ none → (reply.status ≡ 401) ⊎ (reply.status ≡ 429))
  unfolding serve
  serve_guards clock r s next e =
      let quiet =
        Entries-lookup IsQuiet r.path next (secured_handlers clock.acted)
          (secured_handlers-IsQuiet F.Carrier clock.acted) e in
      let g =
        rate_limit-IsGuarded F seconds parse_token r.path clock.made clock.refill next r s quiet in
      rw (e, serve) (g.guarded, g.rejected)
