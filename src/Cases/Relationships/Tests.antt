-- ===== src/Cases/Relationships/Tests.antt =====
-- Runs of the link table at small inputs.
use soc_one.Base.{ℕ, ◌≡◌, ◌≢◌, ◌⊎◌, ◌↔◌, refl, true, none, some, List, [], ◌∷◌, arith}
use soc_one.Cases.Relationships.{
  Row, parent_of, ok, err, would_cycle, unfinished, conflict, validate_relationship, violates,
  create, arrange, validate, ends_fixed, post, climb, parent_id,
}
use soc_one.Cases.Relationships.Ancestry.{Above, IsConsistent}
use soc_one.Cases.Relationships.Walk.{climb_decides}
use soc_one.Cases.Relationships.Keeps.{IsAdmissible}
use soc_one.Cases.Relationships.Requests.{create_answers, create-iff-IsAdmissible}
use soc_one.Cases.Relationships.History.{Reach, start, next, posted, Reach-IsConsistent}

abbrev one_over_two : Row
one_over_two = record { id = 7; source = 1; target = 2; kind = parent_of }

abbrev two_over_one : Row
two_over_one = record { id = 8; source = 2; target = 3; kind = parent_of }

abbrev family : List Row
family = two_over_one ∷ one_over_two ∷ []

family-Reach : Reach family
unfolding post validate arrange ends_fixed validate_relationship create violates climb parent_id
family-Reach =
    next (next start (posted 7 (some 1) (some 2) parent_of (λ r i. elim i [ ]) refl))
      (posted 8 (some 2) (some 3) parent_of (λ r i. ground arith) refl)

cycle_refused : post family 9 (some 3) (some 1) parent_of ≡ err would_cycle
unfolding post validate arrange ends_fixed validate_relationship create violates climb parent_id
cycle_refused = refl

Reach-IsConsistent_example : IsConsistent family
Reach-IsConsistent_example = Reach-IsConsistent family-Reach

climb_decides_example :
    (climb 3 family 1 3 [] ≢ none)
    × ((climb 3 family 1 3 [] ≡ some true) ↔ ((◌≡◌ {A = ℕ} 3 1) ⊎ Above family 1 3))
climb_decides_example = climb_decides family 1 3 (Reach-IsConsistent family-Reach)

create_answers_example :
    (create family two_over_one ≢ unfinished) × (create family two_over_one ≢ err conflict)
create_answers_example = create_answers family two_over_one

create-iff-IsAdmissible_example :
    (create family one_over_two ≡ ok (one_over_two ∷ family)) ↔ IsAdmissible family one_over_two
create-iff-IsAdmissible_example =
    create-iff-IsAdmissible family one_over_two (Reach-IsConsistent family-Reach)
