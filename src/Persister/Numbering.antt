-- ===== src/Persister/Numbering.antt =====
-- The generations of a lineage stay below the next one.
use post_cortex.Base.{
  ℕ, Bool, ◌+◌, ◌≡◌, ◌<◌, List, [], ◌∷◌, ◌++◌, filter, Option, none, some, arith,
}
use post_cortex.Base.Keys.{nat_eq, ==-iff}
use post_cortex.Base.Words.{u64_mod, wrapping_add_lem}
use post_cortex.ConcurrentMap.{DashMaps}
use post_cortex.Core.Update.{Uuid}
use post_cortex.Persister.{
  Handle, SessionPersister, prune, register, retire, tombstone, tombstone_live, or_else,
  empty_lineage,
}
use post_cortex.Persister.Lineages.{Below, Below-prune, IsNumbered, registered, lineage_of}

Below-append :
    (n : ℕ) (l : List (Handle × ℕ)) (h : Handle) → Below n l → Below (n + 1) (l ++ (h, n) ∷ [])
Below-append n [] h below = (omega arith, tt)
Below-append n ((k, g) ∷ rest) h (here, below) = (omega arith, Below-append n rest h below)

module _ {D : DashMaps} {F : Type 0} where
  retired_lineage :
      (alive : Handle → Bool) (p : SessionPersister D F) (id : Uuid) (live : Option Handle)
      → lineage_of (retire alive p id live) id
        ≡ record (prune alive (lineage_of p id)) { deleted_below = (lineage_of p id).next }
  unfolding retire lineage_of prune tombstone_live tombstone
  retired_lineage alive p id none =
      let l = or_else (D.get p.lineages id) empty_lineage in
      ground (
        arith,
        D.get-insert p.lineages id (record (prune alive l) { deleted_below = l.next }) id,
        ==-iff id id,
      )
  retired_lineage alive p id (some h) =
      let l = or_else (D.get p.lineages id) empty_lineage in
      ground (
        arith,
        D.get-insert p.lineages id (record (prune alive l) { deleted_below = l.next }) id,
        ==-iff id id,
      )

  -- While the counter of generations stays a word, registering a handle and retiring the handles
  -- of a session keep its lineage numbered: the generations given out are below the next one, and
  -- the deletion mark is not above it.
  pub lineage_of-IsNumbered :
      (alive : Handle → Bool) (p : SessionPersister D F) (id : Uuid) (h : Handle)
      (live : Option Handle)
      → IsNumbered (lineage_of p id)
      → (lineage_of p id).next + 1 < u64_mod
      → IsNumbered (lineage_of (register alive p id h) id)
        × IsNumbered (lineage_of (retire alive p id live) id)
  lineage_of-IsNumbered alive p id h live num word =
      let l = lineage_of p id in
      let kept = Below-prune alive l.next l.members num.given in
      let now : lineage_of (register alive p id h) id ≡ registered alive l h =
        unfold register lineage_of prune in
        ground (
          arith,
          D.get-insert p.lineages id
              (registered alive (or_else (D.get p.lineages id) empty_lineage) h) id,
          ==-iff id id,
        ) in
      let gone : lineage_of (retire alive p id live) id
          ≡ record (prune alive l) { deleted_below = l.next } =
        retired_lineage alive p id live in
      (
        rw (now) (record {
          given =
              rw (wrapping_add_lem l.next 1 word)
                (Below-append l.next (filter (λ m. alive m.0) l.members) h kept);
          retired =
              rw (wrapping_add_lem l.next 1 word) (unfold prune in omega (arith, num.retired));
        }),
        rw (gone) (record { given = unfold prune in kept; retired = unfold prune in omega arith }),
      )
