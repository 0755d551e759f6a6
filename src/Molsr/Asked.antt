-- ===== src/Molsr/Asked.antt =====
-- internal/olsr/molsr.go: which entries buildNewMFC makes of the confirmations, and what stands in them.
use olsr_go.Base.{
  ◌≡◌, refl, sym, ap, ◌∙◌, inl, inr, ◌⊎◌, true, false, not, ◌&&◌, Option, none, some, [], ◌∷◌, ◌++◌,
  if◌then◌else◌, Bool-cases, Text, text_eq, ◌==◌, ==_refl,
}
use olsr_go.Base.Int.{ℤ, int_eq}
use olsr_go.Base.Map.{GoMap, lookup, insert, lookup-insert, Entries, insert-Entries}
use olsr_go.Base.Nested.{is_empty}
use olsr_go.Molsr.{ConfirmParentEntry, MulticastForwardingEntry, MolsrManager}
use olsr_go.Molsr.Mroutes.{
  NextHop, mfc_key, add_source, build_sources, build_groups, build_new_mfc, recalculate_mroutes,
}
use olsr_go.Molsr.Oifs.{count, leads, count-find_oifs}

-- The map has this entry.
abbrev pub HasEntry : {K V : Type 0} → K → V → GoMap K V → Type 0
HasEntry k v [] = ⊥
HasEntry k v ((j, w) ∷ m) = ((k ≡ j) × (v ≡ w)) ⊎ HasEntry k v m

abbrev Confirmations : Type 0
Confirmations = GoMap Text (GoMap Text (GoMap Text ConfirmParentEntry))

-- An entry under "source:group" for a group and a source of which some child has confirmed this router:
-- the incoming interface is on the way to the source, and the outgoing ones are the others that are on
-- the way to a child, each listed once.
pub record IsAskedFor (next_hop : NextHop) (groups : Confirmations) (k : Text)
    (e : MulticastForwardingEntry) : Type 0 where
  pub sources : GoMap Text (GoMap Text ConfirmParentEntry)
  pub children : GoMap Text ConfirmParentEntry
  pub hop : Text
  pub of_group : HasEntry e.group_id sources groups
  pub of_source : HasEntry e.source_ip children sources
  pub some_child : is_empty children ≡ false
  pub key : k ≡ e.source_ip ++ b':' ∷ e.group_id
  pub to_source : next_hop e.source_ip ≡ some (hop, e.iif)
  pub to_children :
      (v : ℤ) → count v e.oifs ≡ (if not (v == e.iif) && leads next_hop v children then 1 else 0)

IsPresent : Text → GoMap Text MulticastForwardingEntry → Type 0
IsPresent k t = (entry : MulticastForwardingEntry) × (lookup k t ≡ some entry)

insert-IsPresent :
    (j k : Text) (e : MulticastForwardingEntry) (t : GoMap Text MulticastForwardingEntry)
    → IsPresent k t
    → IsPresent k (insert j e t)
unfolding IsPresent
insert-IsPresent j k e t (old, found) = elim (Bool-cases (j == k)) [
  | inl same ↦ (e, lookup-insert j k e t ∙ rw same refl)
  | inr other ↦ (old, lookup-insert j k e t ∙ rw other found)
]

inserted-IsPresent :
    (k : Text) (e : MulticastForwardingEntry) (t : GoMap Text MulticastForwardingEntry)
    → IsPresent k (insert k e t)
unfolding IsPresent
inserted-IsPresent k e t = (e, lookup-insert k k e t ∙ rw (==_refl k) refl)

module _ (next_hop : NextHop) (groups : Confirmations) where
  abbrev AreAsked : GoMap Text MulticastForwardingEntry → Type 0
  AreAsked t = Entries (IsAskedFor next_hop groups) t

  add_source-AreAsked :
      (grp src : Text) (sources : GoMap Text (GoMap Text ConfirmParentEntry))
      (children : GoMap Text ConfirmParentEntry) (way : Option (Text × ℤ))
      (t : GoMap Text MulticastForwardingEntry)
      → HasEntry grp sources groups
      → HasEntry src children sources
      → next_hop src ≡ way
      → AreAsked t
      → AreAsked (add_source next_hop grp src children way t)
  unfolding add_source lookup count
  add_source-AreAsked grp src sources children none t hg hs e h = h
  add_source-AreAsked grp src sources children (some (hop, iif)) t hg hs e h =
      elim (Bool-cases (is_empty children)) [
        | inl empty ↦ rw empty h
        | inr full ↦ rw full (
            insert-Entries (IsAskedFor next_hop groups) (mfc_key src grp) _ t
              (record {
                sources = sources;
                children = children;
                hop = hop;
                of_group = hg;
                of_source = hs;
                some_child = full;
                key = refl;
                to_source = e;
                to_children = λ v. count-find_oifs next_hop iif children [] [] (λ w. refl) v;
              })
              h)
      ]

  build_sources-AreAsked :
      (grp : Text) (all rest : GoMap Text (GoMap Text ConfirmParentEntry))
      (t : GoMap Text MulticastForwardingEntry)
      → HasEntry grp all groups
      → ((src : Text) (children : GoMap Text ConfirmParentEntry)
          → HasEntry src children rest
          → HasEntry src children all)
      → AreAsked t
      → AreAsked (build_sources next_hop grp rest t)
  unfolding build_sources
  build_sources-AreAsked grp all [] t hg part h = h
  build_sources-AreAsked grp all ((src, children) ∷ rest) t hg part h =
      build_sources-AreAsked grp all rest _ hg (λ s c x. part s c (inr x))
        (add_source-AreAsked grp src all children (next_hop src) t hg
          (part src children (inl (refl, refl))) refl h)

  build_groups-AreAsked :
      (rest : Confirmations) (t : GoMap Text MulticastForwardingEntry)
      → ((grp : Text) (sources : GoMap Text (GoMap Text ConfirmParentEntry))
          → HasEntry grp sources rest
          → HasEntry grp sources groups)
      → AreAsked t
      → AreAsked (build_groups next_hop rest t)
  unfolding build_groups
  build_groups-AreAsked [] t part h = h
  build_groups-AreAsked ((grp, sources) ∷ rest) t part h =
      build_groups-AreAsked rest _ (λ g s x. part g s (inr x))
        (build_sources-AreAsked grp sources sources t (part grp sources (inl (refl, refl)))
          (λ s c x. x) h)

-- What is in the table stays in it.
module _ (next_hop : NextHop) (k : Text) where
  add_source-IsPresent :
      (grp src : Text) (children : GoMap Text ConfirmParentEntry) (way : Option (Text × ℤ))
      (t : GoMap Text MulticastForwardingEntry)
      → IsPresent k t
      → IsPresent k (add_source next_hop grp src children way t)
  unfolding add_source
  add_source-IsPresent grp src children none t h = h
  add_source-IsPresent grp src children (some (hop, iif)) t h =
      elim (Bool-cases (is_empty children)) [
        | inl empty ↦ rw empty h
        | inr full ↦ rw full (insert-IsPresent (mfc_key src grp) k _ t h)
      ]

  build_sources-IsPresent :
      (grp : Text) (sources : GoMap Text (GoMap Text ConfirmParentEntry))
      (t : GoMap Text MulticastForwardingEntry)
      → IsPresent k t
      → IsPresent k (build_sources next_hop grp sources t)
  unfolding build_sources
  build_sources-IsPresent grp [] t h = h
  build_sources-IsPresent grp ((src, children) ∷ rest) t h =
      build_sources-IsPresent grp rest _ (add_source-IsPresent grp src children (next_hop src) t h)

  build_groups-IsPresent :
      (groups : Confirmations) (t : GoMap Text MulticastForwardingEntry)
      → IsPresent k t
      → IsPresent k (build_groups next_hop groups t)
  unfolding build_groups
  build_groups-IsPresent [] t h = h
  build_groups-IsPresent ((grp, sources) ∷ rest) t h =
      build_groups-IsPresent rest _ (build_sources-IsPresent grp sources t h)

module _ (next_hop : NextHop) (grp src hop child : Text) (iif : ℤ) (entry : ConfirmParentEntry)
    (way : next_hop src ≡ some (hop, iif)) where
  abbrev wanted : Text
  wanted = src ++ b':' ∷ grp

  child_given :
      (children : GoMap Text ConfirmParentEntry)
      → HasEntry child entry children
      → is_empty children ≡ false
  child_given [] h = absurd h
  child_given (c ∷ cs) h = refl

  build_sources_finds :
      (sources : GoMap Text (GoMap Text ConfirmParentEntry))
      (children : GoMap Text ConfirmParentEntry) (t : GoMap Text MulticastForwardingEntry)
      → HasEntry src children sources
      → HasEntry child entry children
      → IsPresent wanted (build_sources next_hop grp sources t)
  unfolding build_sources add_source
  build_sources_finds [] children t h c = absurd h
  build_sources_finds ((s, cs) ∷ rest) children t (inl (p, q)) c =
      let full : is_empty cs ≡ false = ap is_empty (sym q) ∙ child_given children c in
      let here : IsPresent wanted (add_source next_hop grp s cs (next_hop s) t) =
        rw (sym p) (rw (way, add_source) (rw full (inserted-IsPresent wanted _ t))) in
      build_sources-IsPresent next_hop wanted grp rest _ here
  build_sources_finds ((s, cs) ∷ rest) children t (inr h) c =
      build_sources_finds rest children _ h c

  build_groups_finds :
      (groups : Confirmations) (sources : GoMap Text (GoMap Text ConfirmParentEntry))
      (children : GoMap Text ConfirmParentEntry) (t : GoMap Text MulticastForwardingEntry)
      → HasEntry grp sources groups
      → HasEntry src children sources
      → HasEntry child entry children
      → IsPresent wanted (build_groups next_hop groups t)
  unfolding build_groups
  build_groups_finds [] sources children t h hs c = absurd h
  build_groups_finds ((g, ss) ∷ rest) sources children t (inl (p, q)) hs c =
      let here : IsPresent wanted (build_sources next_hop g ss t) =
        rw (sym p) (rw (sym q) (build_sources_finds sources children t hs c)) in
      build_groups-IsPresent next_hop wanted rest _ here
  build_groups_finds ((g, ss) ∷ rest) sources children t (inr h) hs c =
      build_groups_finds rest sources children _ h hs c

-- Whatever source a child has confirmed this router for, and however the source is reached, the table has
-- an entry for it.
abbrev pub IsComplete : NextHop → Confirmations → GoMap Text MulticastForwardingEntry → Type 0
IsComplete next_hop groups table =
    (grp src child : Text) (entry : ConfirmParentEntry)
    (sources : GoMap Text (GoMap Text ConfirmParentEntry))
    (children : GoMap Text ConfirmParentEntry) (hop : Text) (iif : ℤ)
    → HasEntry grp sources groups
    → HasEntry src children sources
    → HasEntry child entry children
    → next_hop src ≡ some (hop, iif)
    → (found : MulticastForwardingEntry) × (lookup (src ++ b':' ∷ grp) table ≡ some found)

-- Where the interfaces can be looked up, RecalculateMroutes leaves exactly the entries that are asked
-- for. Each is one for a group and a source of which some child has confirmed this router: it stands
-- under "source:group", its incoming interface is on the way to the source, and its outgoing interfaces
-- are the others that are on the way to a child, each listed once. And for each confirmation of a group
-- and a source to which there is a way, the table has an entry under "source:group".
pub recalculate_mroutes-IsComplete :
    (next_hop : NextHop) (m : MolsrManager)
    → m.has_iface_index_lookup ≡ true
    → let table = (recalculate_mroutes next_hop m).0.active_mfc in
      Entries (IsAskedFor next_hop m.confirm_parents) table
      × IsComplete next_hop m.confirm_parents table
unfolding recalculate_mroutes build_new_mfc IsPresent
recalculate_mroutes-IsComplete next_hop m there =
    rw (there, recalculate_mroutes)
      (
        build_groups-AreAsked next_hop m.confirm_parents m.confirm_parents [] (λ g s x. x) tt,
        λ grp src child entry sources children hop iif hg hs hc way.
            build_groups_finds next_hop grp src hop child iif entry way m.confirm_parents sources
              children [] hg hs hc,
      )
