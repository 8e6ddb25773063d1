-- ===== src/Triage/Asset/Record.antt =====
-- What of an asset's context in backend/apps/agentic/triage/asset.py is read off which source.
use soc_one.Base.{
  ◌≡◌, refl, sym, subst, ◌⊎◌, inl, inr, Bool, true, false, ◌&&◌, ◌||◌, not, Option, none, some,
  List, [], ◌∷◌, In, any, arith, if-cases,
}
use soc_one.Base.Texts.{codes, same_codes, strip, is_blank}
use soc_one.Triage.Suppression.{Text}
use soc_one.Triage.Asset.{
  or_text, part_or, no_asset, no_business, is_unknown, Asset, Business, directory, naming_rule,
  AssetContext, unknown, clean, CmdbResult, is_ignored, context_of, Computer, NamingRule, hinted,
  Records,
}

-- The providers that make their answers up.
abbrev pub is_mock : Text → Bool
is_mock provider =
    any (λ name. same_codes name provider)
      (codes "MockCMDBProvider" ∷ codes "Mock" ∷ codes "MockTIProvider" ∷ [])

pub kept-is_mock : (r : CmdbResult) → is_ignored r ≡ false → is_mock r.provider ≡ false
unfolding is_ignored
kept-is_mock r h = ground (arith, h)

-- The value is the first of the sources that is not empty, stripped: unknown where there is none, or where it is blank.
abbrev pub IsRead : Text → List Text → Type 0
IsRead value [] = value ≡ unknown
IsRead value ([] ∷ sources) = IsRead value sources
IsRead value ((c ∷ cs) ∷ sources) =
    (value ≡ strip (c ∷ cs)) ⊎ ((strip (c ∷ cs) ≡ []) × (value ≡ unknown))

-- A field of a part that a result may lack.
abbrev pub field : {A : Type 0} → (A → Text) → Option A → Text
field f none = []
field f (some a) = f a

or_unknown : (u : Text) → (or_text u unknown ≡ u) ⊎ ((u ≡ []) × (or_text u unknown ≡ unknown))
or_unknown [] = inr (refl, refl)
or_unknown (c ∷ cs) = inl refl

pub clean-IsRead : (t : Text) → IsRead (clean t) (t ∷ [])
unfolding clean strip
clean-IsRead [] = refl
clean-IsRead (c ∷ cs) = or_unknown (strip (c ∷ cs))

pub clean-or_text-IsRead : (a b : Text) → IsRead (clean (or_text a b)) (a ∷ b ∷ [])
unfolding clean
clean-or_text-IsRead [] b = clean-IsRead b
clean-or_text-IsRead (c ∷ cs) b = or_unknown (strip (c ∷ cs))

-- What an authoritative result of the CMDB holds. The hint is the other source of the operating system.
abbrev pub IsRecorded : List CmdbResult → Text → AssetContext → Type 0
IsRecorded results os_hint c =
    (r : CmdbResult) × In r results
    × (is_mock r.provider ≡ false)
    × (c.cmdb_matched ≡ true)
    × (c.provider ≡ r.provider)
    × IsRead c.environment (field (λ (a : Asset). a.environment) r.asset ∷ [])
    × IsRead c.location (field (λ (a : Asset). a.location) r.asset ∷ [])
    × IsRead c.network_zone (field (λ (a : Asset). a.network_zone) r.asset ∷ [])
    × IsRead c.criticality (
        field (λ (b : Business). b.criticality) r.business
        ∷ field (λ (b : Business). b.business_criticality) r.business
        ∷ [])
    × IsRead c.owner (
        field (λ (b : Business). b.owner) r.business
        ∷ field (λ (b : Business). b.owner_team) r.business
        ∷ [])
    × IsRead c.business_service (
        field (λ (b : Business). b.service_name) r.business
        ∷ field (λ (b : Business). b.service_id) r.business
        ∷ [])
    × (IsRead c.os (field (λ (a : Asset). a.os) r.asset ∷ []) ⊎ IsRead c.os (os_hint ∷ []))

-- What a configured rule holds that the name matches.
abbrev pub IsByRule : Records → Text → AssetContext → Type 0
IsByRule records hostname c =
    (rule : NamingRule) × In rule records.naming_rules
    × (records.search_for (strip rule.pattern) (strip hostname) ≡ true)
    × (c.asset_context_source ≡ naming_rule)
    × IsRead c.environment (rule.environment ∷ [])
    × IsRead c.criticality (rule.criticality ∷ [])
    × IsRead c.owner (rule.owner ∷ [])
    × (c.location ≡ unknown)

-- What the directory's object of the host holds.
abbrev pub IsByDirectory : Records → Text → AssetContext → Type 0
IsByDirectory records hostname c =
    (computer : Computer) × (records.fetch_computer_object hostname ≡ some computer)
    × (c.asset_context_source ≡ directory)
    × (c.environment ≡ unknown)
    × (c.criticality ≡ unknown)
    × IsRead c.owner (computer.managed_by ∷ computer.ou ∷ [])
    × IsRead c.location (computer.location ∷ [])

abbrev pub IsUnplaced : AssetContext → Type 0
IsUnplaced c =
    (c.environment ≡ unknown)
    × (c.criticality ≡ unknown)
    × (c.owner ≡ unknown)
    × (c.location ≡ unknown)

-- Without a record of the CMDB there is no business service and no zone, and the rest has one of the sources
-- left, or none.
abbrev pub IsUnrecorded : Records → Text → AssetContext → Type 0
IsUnrecorded records hostname c =
    (c.cmdb_matched ≡ false)
    × (c.business_service ≡ unknown)
    × (c.network_zone ≡ unknown)
    × (IsUnplaced c ⊎ (IsByDirectory records hostname c ⊎ IsByRule records hostname c))

part-IsRead :
    {A : Type 0} (f : A → Text) (a : A) (part : Option A)
    → f a ≡ []
    → f (part_or a part) ≡ field f part
part-IsRead f a none h = h
part-IsRead f a (some b) h = refl

hinted-os :
    (os_hint : Text) (c : AssetContext) (sources : List Text)
    → IsRead c.os sources
    → IsRead (hinted os_hint c).os sources ⊎ IsRead (hinted os_hint c).os (os_hint ∷ [])
unfolding hinted
hinted-os os_hint c sources h =
    let test = (is_unknown c.os || is_blank c.os) && not (is_blank os_hint) in
    elim (if-cases test (clean os_hint) c.os) [
      | inl (_, e) ↦ inr (subst (λ t. IsRead t (os_hint ∷ [])) (sym e) (clean-IsRead os_hint))
      | inr (_, e) ↦ inl (subst (λ t. IsRead t sources) (sym e) h)
    ]

pub context_of-IsRecorded :
    (results : List CmdbResult) (os_hint : Text) (r : CmdbResult)
    → In r results
    → is_mock r.provider ≡ false
    → IsRecorded results os_hint (hinted os_hint (context_of r))
unfolding hinted context_of
context_of-IsRecorded results os_hint r i m = (
  r,
  i,
  m,
  refl,
  refl,
  asset_read (λ a. a.environment) refl,
  asset_read (λ a. a.location) refl,
  asset_read (λ a. a.network_zone) refl,
  business_read (λ b. b.criticality) (λ b. b.business_criticality) refl refl,
  business_read (λ b. b.owner) (λ b. b.owner_team) refl refl,
  business_read (λ b. b.service_name) (λ b. b.service_id) refl refl,
  hinted-os os_hint (context_of r) (field (λ (a : Asset). a.os) r.asset ∷ [])
      (asset_read (λ a. a.os) refl),
)
  where
    asset_read :
        (f : Asset → Text)
        → f no_asset ≡ []
        → IsRead (clean (f (part_or no_asset r.asset))) (field f r.asset ∷ [])
    asset_read f e = rw (part-IsRead f no_asset r.asset e) (clean-IsRead (field f r.asset))

    business_read :
        (f g : Business → Text)
        → f no_business ≡ []
        → g no_business ≡ []
        → IsRead
            (clean
              (or_text (f (part_or no_business r.business)) (g (part_or no_business r.business))))
            (field f r.business ∷ field g r.business ∷ [])
    business_read f g e d =
        rw (part-IsRead f no_business r.business e, part-IsRead g no_business r.business d)
          (clean-or_text-IsRead (field f r.business) (field g r.business))
