-- ===== src/Config/Valid.antt =====
-- internal/config/config.go: the configurations that pass the validation.
use mathlib.Core.Logic.{◌↔◌}
use olsr_go.Base.{
  ◌≡◌, ◌≢◌, refl, inl, inr, Bool, true, false, not, Option, none, some, List, [], ◌∷◌, arith,
  if◌then◌else◌, Text, text_eq, ◌==◌, Bool-cases, Option-cases, ◌⊎◌,
}
use olsr_go.Base.Map.{GoMap, lookup, insert, lookup-insert}
use olsr_go.Neighbor.Mpr.{holds}
use olsr_go.Topology.Laws.{member}
use olsr_go.Config.{
  hello_interval_not_positive, tc_interval_not_positive, bad_metrics_type, bad_loop_prevention,
  unreadable, no_interface, Config, ConfigError, default_config, is_ipv4, check_interfaces,
  is_positive, is_metrics_type, is_loop_prevention, check_rest, or_else, validate, File,
  load_and_validate, Manager, reload,
}

-- Every name stands once, and none is empty.
abbrev pub AreNames : List Text → Type 0
AreNames [] = Unit
AreNames (n ∷ ns) = (n ≢ []) × ((member n ns ≡ false) × AreNames ns)

pub record IsValid (cfg : Config) : Type 0 where
  pub router_is_ipv4 : is_ipv4 cfg.router_id ≡ true
  pub router_named : cfg.router_id ≢ []
  pub some_interface : cfg.interfaces ≢ []
  pub names : AreNames cfg.interfaces
  pub hello_positive : is_positive cfg.hello_interval ≡ true
  pub tc_positive : is_positive cfg.tc_interval ≡ true
  pub metrics : is_metrics_type cfg.metrics_type ≡ true
  pub loop_prevention : is_loop_prevention cfg.multicast_loop_prevention ≡ true

-- No name of the list has been seen.
abbrev Unseen : GoMap Text Bool → List Text → Type 0
Unseen seen [] = Unit
Unseen seen (n ∷ ns) = (holds (lookup n seen) ≡ false) × Unseen seen ns

Unseen-insert :
    (n : Text) (seen : GoMap Text Bool) (ns : List Text)
    → Unseen (insert n true seen) ns ↔ ((member n ns ≡ false) × Unseen seen ns)
Unseen-insert n seen [] = (λ u. (refl, tt), λ u. tt)
Unseen-insert n seen (m ∷ ns) =
    let ih = Unseen-insert n seen ns in
    let at = lookup-insert n m true seen in
    elim (Bool-cases (n == m)) [
      | inl same ↦
          let back : (m == n) ≡ true = ground (arith, text_eq.beq_iff n m, text_eq.beq_iff m n) in
          (
            λ u. absurd (let h = rw (at, same) at u.0 in cc),
            λ u. absurd (let h = rw back at u.0 in cc),
          )
      | inr other ↦
          let back : (m == n) ≡ false = ground (arith, text_eq.beq_iff n m, text_eq.beq_iff m n) in
          (
            λ u. (let h = rw (at, other) at u.0 in let r = ih.0 u.1 in (rw back r.0, (h, r.1))),
            λ (not_in, (h, rest)). (rw (at, other) h, ih.1 (rw back at not_in, rest)),
          )
    ]

check_interfaces-none :
    (ns : List Text) (seen : GoMap Text Bool)
    → (check_interfaces ns seen ≡ none) ↔ (AreNames ns × Unseen seen ns)
unfolding check_interfaces
check_interfaces-none [] seen = (λ e. (tt, tt), λ u. refl)
check_interfaces-none (n ∷ ns) seen =
    let ih = check_interfaces-none ns (insert n true seen) in
    let step = Unseen-insert n seen ns in
    elim (Bool-cases (n == [])) [
      | inl empty ↦ (
        λ e. absurd (ground (arith, e, empty)),
        λ u. absurd (u.0.0 ((text_eq.beq_iff n []).0 empty)),
      )
      | inr named ↦ elim (Bool-cases (holds (lookup n seen))) [
        | inl twice ↦ (
          λ e. absurd (ground (arith, e, named, twice)),
          λ u. absurd (let s = u.1.0 in ground (arith, s, twice)),
        )
        | inr fresh ↦ (
          λ e.
              let more : check_interfaces ns (insert n true seen) ≡ none =
                ground (arith, e, named, fresh) in
              let (names, unseen) = ih.0 more in
              let (single, rest) = step.0 unseen in
              let nonempty : n ≢ [] = λ p. ground (arith, (text_eq.beq_iff n []).1 p, named) in
              ((nonempty, (single, names)), (fresh, rest)),
          λ ((nonempty, (single, names)), (unseen, rest)).
              let more = ih.1 (names, step.1 (single, rest)) in ground (arith, more, named, fresh),
        )
      ]
    ]

Unseen-empty : (ns : List Text) → Unseen [] ns
unfolding lookup
Unseen-empty [] = tt
Unseen-empty (n ∷ ns) = (refl, Unseen-empty ns)

rest_lem :
    (a b c d : Bool)
    → ((if not a
          then some hello_interval_not_positive
          else if not b
          then some tc_interval_not_positive
          else if not c
          then some bad_metrics_type
          else if not d
          then some bad_loop_prevention
          else none)
        ≡ none)
      ↔ ((a ≡ true) × ((b ≡ true) × ((c ≡ true) × (d ≡ true))))
rest_lem true true true true = (λ e. (refl, (refl, (refl, refl))), λ u. refl)
rest_lem false b c d =
    (λ e. absurd (ground (arith, e)), λ u. absurd (let h = u.0 in ground (arith, h)))
rest_lem true false c d =
    (λ e. absurd (ground (arith, e)), λ u. absurd (let h = u.1.0 in ground (arith, h)))
rest_lem true true false d =
    (λ e. absurd (ground (arith, e)), λ u. absurd (let h = u.1.1.0 in ground (arith, h)))
rest_lem true true true false =
    (λ e. absurd (ground (arith, e)), λ u. absurd (let h = u.1.1.1 in ground (arith, h)))

check_rest-none :
    (cfg : Config)
    → (check_rest cfg ≡ none) ↔ (
        (is_positive cfg.hello_interval ≡ true)
        × ((is_positive cfg.tc_interval ≡ true)
            × ((is_metrics_type cfg.metrics_type ≡ true)
                × (is_loop_prevention cfg.multicast_loop_prevention ≡ true))))
check_rest-none cfg =
    rest_lem (is_positive cfg.hello_interval) (is_positive cfg.tc_interval)
      (is_metrics_type cfg.metrics_type) (is_loop_prevention cfg.multicast_loop_prevention)

-- The checks that follow those of the router ID.
abbrev checks_of : Config → List Text → Option ConfigError
checks_of cfg ns = elim ns [
  | [] ↦ some no_interface
  | iface ∷ ifaces ↦ or_else (check_interfaces (iface ∷ ifaces) []) (check_rest cfg)
]

interfaces_checked :
    (cfg : Config) (ns : List Text)
    → checks_of cfg ns ≡ none
    → (ns ≢ []) × ((check_interfaces ns [] ≡ none) × (check_rest cfg ≡ none))
interfaces_checked cfg [] e = absurd (ground (arith, e))
interfaces_checked cfg (n ∷ ns) e = elim (Option-cases (check_interfaces (n ∷ ns) [])) [
  | inl ok ↦ (λ p. ground (arith, p), (ok, (rw ok at e)))
  | inr (x, bad) ↦ absurd (let h = rw bad at e in ground (arith, h))
]

check_listed :
    (cfg : Config) (ns : List Text)
    → ns ≢ []
    → check_interfaces ns [] ≡ none
    → check_rest cfg ≡ none
    → checks_of cfg ns ≡ none
check_listed cfg [] some_ns ifs rest = absurd (some_ns refl)
check_listed cfg (n ∷ ns) some_ns ifs rest = rw ifs rest

-- validate reports no error exactly when the configuration is valid: an IPv4 router ID, at least one
-- interface, no interface name that is empty or stands twice, positive HELLO and TC intervals, and a
-- known metric and loop prevention.
pub validate-none_iff : (cfg : Config) → (validate cfg ≡ none) ↔ IsValid cfg
unfolding validate
validate-none_iff cfg = (
  λ e. elim (Bool-cases (cfg.router_id == [])) [
    | inl empty ↦ absurd (ground (arith, e, empty))
    | inr named ↦ elim (Bool-cases (is_ipv4 cfg.router_id)) [
      | inr other ↦ absurd (ground (arith, e, named, other))
      | inl ipv4 ↦
          let checks = interfaces_checked cfg cfg.interfaces (rw (named, ipv4) at e) in
          let ifs = (check_interfaces-none cfg.interfaces []).0 checks.1.0 in
          let rest = (check_rest-none cfg).0 checks.1.1 in
          record {
            router_is_ipv4 = ipv4;
            router_named = λ p. ground (arith, (text_eq.beq_iff cfg.router_id []).1 p, named);
            some_interface = checks.0;
            names = ifs.0;
            hello_positive = rest.0;
            tc_positive = rest.1.0;
            metrics = rest.1.1.0;
            loop_prevention = rest.1.1.1;
          }
    ]
  ],
  λ v.
      let named : (cfg.router_id == []) ≡ false = elim (Bool-cases (cfg.router_id == [])) [
        | inl empty ↦ absurd (v.router_named ((text_eq.beq_iff cfg.router_id []).0 empty))
        | inr named ↦ named
      ] in
      let ifs =
        (check_interfaces-none cfg.interfaces []).1 (v.names, Unseen-empty cfg.interfaces) in
      let rest =
        (check_rest-none cfg).1
          (v.hello_positive, (v.tc_positive, (v.metrics, v.loop_prevention))) in
      rw (named, v.router_is_ipv4) (check_listed cfg cfg.interfaces v.some_interface ifs rest),
)

-- A reload of a file that parses to a valid configuration stores that configuration and reports no
-- error. A reload of any other file (unreadable, or one that parses to a configuration that is not
-- valid) reports an error and keeps the configuration that was there.
pub reload_keeps :
    (file : File) (m : Manager)
    → ((cfg : Config) × ((file default_config ≡ some cfg)
          × (IsValid cfg × (reload file m ≡ (some cfg, none)))))
      ⊎ (((cfg : Config) → file default_config ≡ some cfg → ¬ IsValid cfg)
          × ((e : ConfigError) × (reload file m ≡ (m, some e))))
unfolding reload load_and_validate
reload_keeps file m = elim (Option-cases (file default_config)) [
  | inl nothing ↦ inr (
    (λ cfg p v. ground (arith, p, nothing)),
    (unreadable, (rw (nothing, reload, load_and_validate) refl)),
  )
  | inr (cfg, parsed) ↦ elim (Option-cases (validate cfg)) [
    | inl accepted ↦ inl (
      cfg,
      (
        parsed,
        (
          (validate-none_iff cfg).0 accepted,
          (rw (parsed, reload, load_and_validate) (rw accepted refl)),
        ),
      ),
    )
    | inr (e, refused) ↦ inr (
      (λ cfg' p v.
          let same : cfg' ≡ cfg = ground (arith, p, parsed) in
          let accepted = (validate-none_iff cfg').1 v in ground (arith, accepted, refused, same)),
      (e, (rw (parsed, reload, load_and_validate) (rw refused refl))),
    )
  ]
]
