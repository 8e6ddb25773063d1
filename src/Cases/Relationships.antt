-- ===== src/Cases/Relationships.antt =====
-- Links between Cases: backend/apps/cases/services.py (`validate_relationship` and its helpers),
-- the table of backend/apps/cases/models.py (`CaseRelationship`, with its constraints), and the
-- serializer of backend/apps/cases/serializers.py. A Case's id is a number, in the order of its
-- text; the table is the list of its rows, newest first, as the model orders it.
pub mod Ancestry
pub mod Walk
pub mod Keeps
pub mod Rows
pub mod Requests
pub mod History
pub mod Tests
use soc_one.Base.{
  ℕ, zero, suc, ◌+◌, Bool, true, false, ◌&&◌, ◌||◌, not, Option, none, some, List, [], ◌∷◌, min,
  max, ◌==◌, ltb, if◌then◌else◌, keep, any, first, length, map,
}

pub data Kind : Type 0 where
  related duplicate_of parent_of : Kind

pub record Row : Type 0 where
  pub id : ℕ
  pub source : ℕ
  pub target : ℕ
  pub kind : Kind

pub data Error : Type 0 where
  source_required target_required related_case_fixed self_relation pair_taken : Error
  has_parent would_cycle has_canonical canonical_is_duplicate is_canonical conflict : Error

pub data Result {ℓ} (A : Type ℓ) : Type ℓ where
  ok : A → Result A
  err : Error → Result A
  -- the climb ran out of fuel
  unfinished : Result A

-- A check that raises: what follows it runs only where it passes.
infixl 5 ◌>>◌
abbrev pub ◌>>◌ {ℓ} : {R : Type ℓ} → Result (Unit {0}) → Result R → Result R
check >> after = elim check [ ok _ ↦ after | err reason ↦ err reason | unfinished ↦ unfinished ]

-- The same for a step whose value is used.
infixl 5 ◌>>=◌
abbrev pub ◌>>=◌ {ℓ κ} : {R : Type ℓ} {S : Type κ} → Result R → (R → Result S) → Result S
◌>>=◌ step after = elim step [ ok r ↦ after r | err reason ↦ err reason | unfinished ↦ unfinished ]

-- `if queryset.exists(): raise ValidationError(...)`
abbrev pub refuse_if : Bool → Error → Result (Unit {0})
refuse_if found reason = if found then err reason else ok tt

unfoldable pub is_parent : Row → Bool
is_parent r = elim r.kind [ parent_of ↦ true | _ ↦ false ]

unfoldable pub is_duplicate : Row → Bool
is_duplicate r = elim r.kind [ duplicate_of ↦ true | _ ↦ false ]

-- The two ids in order, as `sorted` puts them into the key.
abbrev pub PairKey : Type 0
PairKey = ℕ × ℕ

unfoldable pub build_pair_key : ℕ → ℕ → PairKey
build_pair_key a b = (min a b, max a b)

unfoldable pub same_pair : Row → ℕ → ℕ → Bool
unfolding build_pair_key
same_pair r a b =
    let (lo, hi) = build_pair_key r.source r.target in
    let (lo', hi') = build_pair_key a b in lo == lo' && hi == hi'

unfoldable pub excluding : Option ℕ → List Row → List Row
excluding none rows = rows
excluding (some id) rows = keep (λ r. not (r.id == id)) rows

-- `.filter(relationship_type=PARENT_OF, target_case_id=c).values_list("source_case_id").first()`
unfoldable pub parent_id : List Row → ℕ → Option ℕ
unfolding is_parent
parent_id rows c = elim (first (λ r. is_parent r && r.target == c) rows) [
  | none ↦ none
  | some r ↦ some r.source
]

-- The loop that climbs from the source; `some true` is the refusal inside it.
unfoldable pub climb : ℕ → List Row → ℕ → ℕ → List ℕ → Option Bool
climb zero rows target current visited = none
climb (suc fuel) rows target current visited =
    if any (λ v. v == current) visited
    then some false
    else if current == target
    then some true
    else elim (parent_id rows current) [
      | none ↦ some false
      | some parent ↦ climb fuel rows target parent (current ∷ visited)
    ]

unfoldable pub refuse_cycle : Option Bool → Result (Unit {0})
refuse_cycle none = unfinished
refuse_cycle (some true) = err would_cycle
refuse_cycle (some false) = ok tt

unfoldable pub validate_parent : List Row → ℕ → ℕ → Result (Unit {0})
unfolding is_parent refuse_cycle
validate_parent rows source target = do
  refuse_if (any (λ r. is_parent r && r.target == target) rows) has_parent
  refuse_cycle (climb (suc (length rows)) rows target source [])

unfoldable pub validate_duplicate : List Row → ℕ → ℕ → Result (Unit {0})
unfolding is_duplicate
validate_duplicate rows source target = do
  refuse_if (any (λ r. is_duplicate r && r.source == source) rows) has_canonical
  refuse_if (any (λ r. is_duplicate r && r.source == target) rows) canonical_is_duplicate
  refuse_if (any (λ r. is_duplicate r && r.target == source) rows) is_canonical

unfoldable pub validate_kind : List Row → ℕ → ℕ → Kind → Result (Unit {0})
unfolding validate_parent validate_duplicate
validate_kind rows source target parent_of = validate_parent rows source target
validate_kind rows source target duplicate_of = validate_duplicate rows source target
validate_kind rows source target related = ok tt

unfoldable pub validate_relationship : List Row → ℕ → ℕ → Kind → Option ℕ → Result (Unit {0})
unfolding excluding same_pair validate_kind
validate_relationship rows source target kind id = do
  refuse_if (source == target) self_relation
  let visible = excluding id rows
  refuse_if (any (λ r. same_pair r source target) visible) pair_taken
  validate_kind visible source target kind

-- The database: a row that breaks a constraint raises `IntegrityError`.
unfoldable pub violates : List Row → Row → Bool
unfolding same_pair is_parent is_duplicate
violates others row =
    row.source == row.target
    || any (λ r. same_pair r row.source row.target) others
    || (is_parent row && any (λ r. is_parent r && r.target == row.target) others)
    || (is_duplicate row && any (λ r. is_duplicate r && r.source == row.source) others)

-- `create`, under the locks that make it one step. The database picks the new row's id.
unfoldable pub create : List Row → Row → Result (List Row)
create rows row = do
  validate_relationship rows row.source row.target row.kind none
  if violates rows row then err conflict else ok (row ∷ rows)

-- `UPDATE ... WHERE id = row.id`
unfoldable pub replace : List Row → Row → List Row
replace rows row = map (λ r. if r.id == row.id then row else r) rows

-- `update` of the row with the new row's id.
unfoldable pub update : List Row → Row → Result (List Row)
update rows row = do
  validate_relationship rows row.source row.target row.kind (some row.id)
  if violates (excluding (some row.id) rows) row then err conflict else ok (replace rows row)

-- `CaseRelationshipSerializer.validate`: the pair that the request names, a related pair in order.
unfoldable pub arrange : Kind → ℕ → ℕ → ℕ × ℕ
arrange related source target = if ltb target source then (target, source) else (source, target)
arrange kind source target = (source, target)

abbrev pub same_ends : ℕ → ℕ → Row → Bool
same_ends source target r =
    (source == r.source && target == r.target) || (source == r.target && target == r.source)

-- `{source, target} != {instance.source, instance.target}` on an update.
unfoldable pub ends_fixed : Option Row → ℕ → ℕ → Result (Unit {0})
ends_fixed none source target = ok tt
ends_fixed (some old) source target =
    refuse_if (not (same_ends source target old)) related_case_fixed

abbrev pub required : Option ℕ → Error → Result ℕ
required none e = err e
required (some c) e = ok c

abbrev instance_id : Option Row → Option ℕ
instance_id none = none
instance_id (some old) = some old.id

unfoldable pub validate : List Row → Option Row → Option ℕ → Option ℕ → Kind → Result (ℕ × ℕ)
validate rows old source target kind = do
  s ← required source source_required
  t ← required target target_required
  ends_fixed old s t
  let ends = arrange kind s t
  validate_relationship rows ends.0 ends.1 kind (instance_id old)
  ok ends

-- A POST: validation, then the insertion under a fresh id.
unfoldable pub post : List Row → ℕ → Option ℕ → Option ℕ → Kind → Result (List Row)
post rows id source target kind = do
  ends ← validate rows none source target kind
  create rows (record { id = id; source = ends.0; target = ends.1; kind = kind })

abbrev pub or_else : Option ℕ → ℕ → ℕ
or_else none c = c
or_else (some d) c = d

-- A PUT or PATCH of one row; what the request leaves out stays as it was.
unfoldable pub put : List Row → Row → Option ℕ → Option ℕ → Kind → Result (List Row)
put rows old source target kind = do
  let s = some (or_else source old.source)
  let t = some (or_else target old.target)
  ends ← validate rows (some old) s t kind
  update rows (record { id = old.id; source = ends.0; target = ends.1; kind = kind })

-- A DELETE of one row.
unfoldable pub destroy : List Row → ℕ → List Row
unfolding excluding
destroy rows id = excluding (some id) rows
