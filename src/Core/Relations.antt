-- ===== src/Core/Relations.antt =====
-- crates/post-cortex-core/src/core/context_update.rs: the derived equality of `RelationType`.
use post_cortex.Base.{ℕ, ◌≡◌, refl, Bool, true, ap, if◌then◌else◌, eqb, arith}
use post_cortex.Core.Update.{RelationType}

-- The position of a relation among the variants.
unfoldable pub variant : RelationType → ℕ
variant RelationType.required_by = 0
variant RelationType.leads_to = 1
variant RelationType.related_to = 2
variant RelationType.conflicts_with = 3
variant RelationType.depends_on = 4
variant RelationType.implements = 5
variant RelationType.caused_by = 6
variant RelationType.solves = 7

unfoldable pub same_relation : RelationType → RelationType → Bool
unfolding variant
same_relation a b = eqb (variant a) (variant b)

abbrev pub relation : ℕ → RelationType
relation n =
    if eqb n 0
    then RelationType.required_by
    else if eqb n 1
    then RelationType.leads_to
    else if eqb n 2
    then RelationType.related_to
    else if eqb n 3
    then RelationType.conflicts_with
    else if eqb n 4
    then RelationType.depends_on
    else if eqb n 5
    then RelationType.implements
    else if eqb n 6
    then RelationType.caused_by
    else RelationType.solves

relation-variant : (r : RelationType) → relation (variant r) ≡ r
unfolding variant
relation-variant RelationType.required_by = refl
relation-variant RelationType.leads_to = refl
relation-variant RelationType.related_to = refl
relation-variant RelationType.conflicts_with = refl
relation-variant RelationType.depends_on = refl
relation-variant RelationType.implements = refl
relation-variant RelationType.caused_by = refl
relation-variant RelationType.solves = refl

pub same_relation→eq : (a b : RelationType) → same_relation a b ≡ true → a ≡ b
unfolding same_relation
same_relation→eq a b h =
    let same : variant a ≡ variant b = ground (arith, h) in
    cc (relation-variant a, relation-variant b, ap relation same)

pub same_relation_self : (a : RelationType) → same_relation a a ≡ true
unfolding same_relation
same_relation_self a = ground arith
