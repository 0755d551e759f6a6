-- ===== src/Api/Quiet.antt =====
-- internal/api: the handlers log nothing, and only two of the methods change something.
use olsr_go.Base.{
  ◌≡◌, refl, inl, inr, ◌⊎◌, ◌&&◌, Option, none, some, [], Text, text_eq, Bool-cases, Option-cases,
}
use olsr_go.Base.Map.{Entries}
use olsr_go.Net.{Time}
use olsr_go.Net.Parse.{parse_cidr}
use olsr_go.Net.Cidr.{IpNet}
use olsr_go.Daemon.{Daemon}
use olsr_go.Api.{
  Method, SourceClaimPayload, ConfirmParentPayload, post, delete_method, other_method, Request,
  ApiServer, Reply, Handler, Body,
}
use olsr_go.Api.Handlers.{
  get_only, with_prefix, hna_by, is_address, add_claim, delete_claim, claims_by, add_parent,
  delete_parent, parents_by,
}
use olsr_go.Api.Serve.{secured_handlers}

-- The methods that may change something.
abbrev pub IsWrite : Method → Type 0
IsWrite m = (m ≡ post) ⊎ (m ≡ delete_method)

abbrev pub Keeps : {C : Type 0} → Daemon → Reply C → Type 0
Keeps d reply = (reply.server.daemon ≡ d) × (reply.events ≡ [])

-- A handler logs nothing itself, and changes the daemon only for a method that writes.
abbrev pub IsQuiet : {C : Type 0} → Text → Handler C → Type 0
IsQuiet {C = C} path h =
    (r : Request) (s : ApiServer C)
    → ((h r s).audit ≡ []) × (IsWrite r.method ⊎ Keeps s.daemon (h r s))

by_method :
    (P : Method → Type 0) (m : Method)
    → P Method.get
    → P post
    → P delete_method
    → P other_method
    → P m
by_method P Method.get a b c d = a
by_method P post a b c d = b
by_method P delete_method a b c d = c
by_method P other_method a b c d = d

module _ {C : Type 0} (r : Request) (s : ApiServer C) where
  -- What IsQuiet says of one reply, to a request of this method.
  abbrev QuietReply : Method → Reply C → Type 0
  QuietReply m reply = (reply.audit ≡ []) × (IsWrite m ⊎ Keeps s.daemon reply)

  get_only-QuietReply : (m : Method) (body : Body) → QuietReply m (get_only m body r s)
  get_only-QuietReply m body =
      by_method (λ k. QuietReply k (get_only k body r s)) m (refl, inr (refl, refl))
        (refl, inr (refl, refl)) (refl, inr (refl, refl)) (refl, inr (refl, refl))

  with_prefix_audit :
      (p : Option Text) (change : IpNet → Handler C)
      → ((n : IpNet) → (change n r s).audit ≡ [])
      → (with_prefix p change r s).audit ≡ []
  with_prefix_audit none change h = refl
  with_prefix_audit (some prefix) change h = elim (Option-cases (parse_cidr prefix)) [
    | inl bad ↦ rw (bad, with_prefix) refl
    | inr (n, e) ↦ rw (e, with_prefix) (h n)
  ]

  hna_by-QuietReply : (m : Method) → QuietReply m (hna_by m r s)
  hna_by-QuietReply m =
      by_method (λ k. QuietReply k (hna_by k r s)) m (refl, inr (refl, refl))
        (with_prefix_audit r.hna_payload _ (λ n. refl), inl (inl refl))
        (with_prefix_audit r.hna_payload _ (λ n. refl), inl (inr refl)) (refl, inr (refl, refl))

  add_claim_audit : (now : Time) (p : Option SourceClaimPayload) → (add_claim now p r s).audit ≡ []
  add_claim_audit now none = refl
  add_claim_audit now (some p) = elim (Bool-cases (is_address p.source && is_address p.group)) [
    | inl good ↦ rw (good, add_claim) refl
    | inr bad ↦ rw (bad, add_claim) refl
  ]

  delete_claim_audit : (p : Option SourceClaimPayload) → (delete_claim p r s).audit ≡ []
  delete_claim_audit none = refl
  delete_claim_audit (some p) = refl

  claims_by-QuietReply : (now : Time) (m : Method) → QuietReply m (claims_by now m r s)
  claims_by-QuietReply now m =
      by_method (λ k. QuietReply k (claims_by now k r s)) m (refl, inr (refl, refl))
        (add_claim_audit now r.claim_payload, inl (inl refl))
        (delete_claim_audit r.claim_payload, inl (inr refl)) (refl, inr (refl, refl))

  add_parent_audit :
      (now : Time) (p : Option ConfirmParentPayload) → (add_parent now p r s).audit ≡ []
  add_parent_audit now none = refl
  add_parent_audit now (some p) =
      elim (Bool-cases (
        (is_address p.source && is_address p.group)
        && (is_address p.parent && is_address p.child))) [
          | inl good ↦ rw (good, add_parent) refl
          | inr bad ↦ rw (bad, add_parent) refl
        ]

  delete_parent_audit : (p : Option ConfirmParentPayload) → (delete_parent p r s).audit ≡ []
  delete_parent_audit none = refl
  delete_parent_audit (some p) = refl

  parents_by-QuietReply : (now : Time) (m : Method) → QuietReply m (parents_by now m r s)
  parents_by-QuietReply now m =
      by_method (λ k. QuietReply k (parents_by now k r s)) m (refl, inr (refl, refl))
        (add_parent_audit now r.parent_payload, inl (inl refl))
        (delete_parent_audit r.parent_payload, inl (inr refl)) (refl, inr (refl, refl))

pub secured_handlers-IsQuiet :
    (C : Type 0) (now : Time) → Entries (IsQuiet {C = C}) (secured_handlers now)
secured_handlers-IsQuiet C now = (
  (λ r s. get_only-QuietReply r s r.method _),
  (
    (λ r s. get_only-QuietReply r s r.method _),
    (
      (λ r s. get_only-QuietReply r s r.method _),
      (
        (λ r s. get_only-QuietReply r s r.method _),
        (
          (λ r s. hna_by-QuietReply r s r.method),
          (
            (λ r s. claims_by-QuietReply r s now r.method),
            ((λ r s. parents_by-QuietReply r s now r.method), tt),
          ),
        ),
      ),
    ),
  ),
)
