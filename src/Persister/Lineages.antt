-- ===== src/Persister/Lineages.antt =====
-- Which handles may write: what registering and deleting make of them.
use post_cortex.Base.{
  ℕ, ◌+◌, ◌<◌, ◌≤◌, ◌≡◌, refl, Bool, true, false, Option, none, some, List, [], ◌∷◌, ◌++◌, filter,
  eqb, leb, if◌then◌else◌, arith, inl, inr, Bool-cases, Option-cases,
}
use post_cortex.Base.Keys.{nat_eq, ==-iff}
use post_cortex.Base.Words.{u64_mod, wrapping_add, wrapping_add_lem}
use post_cortex.ConcurrentMap.{DashMaps}
use post_cortex.Core.Update.{Uuid}
use post_cortex.Persister.{
  Handle, Lineage, Standing, current, superseded, deleted, Pending, SessionPersister, prune,
  generation_in, generation_of, newest, newest_alive, standing_in, register, is_tombstoned,
  is_deleted, standing, queue, settle, retire, delete, finish_delete, delete_session, empty_lineage,
  or_else, tell,
}

-- Every generation of the list is below `n`.
abbrev pub Below : ℕ → List (Handle × ℕ) → Type 0
Below n [] = Unit {0}
Below n ((h, g) ∷ rest) = (g < n) × Below n rest

abbrev BestBelow : ℕ → Option (Handle × ℕ) → Type 0
BestBelow n none = Unit {0}
BestBelow n (some b) = b.1 < n

-- The generation of a handle, where it has one, is below `n`.
generation_in-bound :
    (n : ℕ) (l : List (Handle × ℕ)) (h : Handle) (g : ℕ)
    → Below n l
    → generation_in l h ≡ some g
    → g < n
unfolding generation_in
generation_in-bound n [] h g below found = ground arith
generation_in-bound n ((k, e) ∷ rest) h g (here, below) found =
    let rec = generation_in-bound n rest h g below in ground arith

-- Dropping dead handles leaves a live one its generation.
generation_in-prune :
    (alive : Handle → Bool) (l : List (Handle × ℕ)) (h : Handle)
    → alive h ≡ true
    → generation_in (filter (λ m. alive m.0) l) h ≡ generation_in l h
unfolding generation_in
generation_in-prune alive [] h live = refl
generation_in-prune alive ((k, e) ∷ rest) h live =
    let rec = generation_in-prune alive rest h live in ground arith

pub Below-prune :
    (alive : Handle → Bool) (n : ℕ) (l : List (Handle × ℕ))
    → Below n l
    → Below n (filter (λ m. alive m.0) l)
Below-prune alive n [] below = tt
Below-prune alive n ((k, e) ∷ rest) (here, below) = elim (Bool-cases (alive k)) [
  | inl live ↦ rw (live) (here, Below-prune alive n rest below)
  | inr dead ↦ rw (dead) (Below-prune alive n rest below)
]

-- The generation of a handle appended last.
generation_in-append :
    (l : List (Handle × ℕ)) (h k : Handle) (g : ℕ)
    → generation_in (l ++ (k, g) ∷ []) h
      ≡ elim (generation_in l h) [ some e ↦ some e | none ↦ if eqb k h then some g else none ]
unfolding generation_in
generation_in-append [] h k g = refl
generation_in-append ((j, e) ∷ rest) h k g =
    let rec = generation_in-append rest h k g in ground arith

-- The newest of a list that ends in the newest: it, whatever came first.
newest-append :
    (alive : Handle → Bool) (best : Option (Handle × ℕ)) (l : List (Handle × ℕ)) (h : Handle)
    (g : ℕ)
    → alive h ≡ true
    → Below g l
    → BestBelow g best
    → newest alive best (l ++ (h, g) ∷ []) ≡ some (h, g)
unfolding newest
newest-append alive none [] h g live below best = rw (live, newest) refl
newest-append alive (some b) [] h g live below best = ground arith
newest-append alive none ((k, e) ∷ rest) h g live (here, below) best = elim (Bool-cases (alive k)) [
  | inl up ↦ rw (up, newest) (newest-append alive (some (k, e)) rest h g live below here)
  | inr down ↦ rw (down, newest) (newest-append alive none rest h g live below tt)
]
newest-append alive (some b) ((k, e) ∷ rest) h g live (here, below) best =
    elim (Bool-cases (alive k)) [
      | inl up ↦ elim (Bool-cases (leb b.1 e)) [
        | inl newer ↦
            rw (up, newer, newest) (newest-append alive (some (k, e)) rest h g live below here)
        | inr older ↦ rw (up, older, newest) (newest-append alive (some b) rest h g live below best)
      ]
      | inr down ↦ rw (down, newest) (newest-append alive (some b) rest h g live below best)
    ]

-- A lineage's generations were given out, and so were the deleted ones.
pub record IsNumbered (l : Lineage) : Type 0 where
  pub given : Below l.next l.members
  pub retired : l.deleted_below ≤ l.next

-- The lineage after `register`.
abbrev pub registered : (Handle → Bool) → Lineage → Handle → Lineage
registered alive l h = record (prune alive l) {
  next = wrapping_add l.next 1;
  members = filter (λ m. alive m.0) l.members ++ (h, l.next) ∷ [];
}

standing_in-registered_self :
    (alive : Handle → Bool) (l : Lineage) (h : Handle)
    → IsNumbered l
    → l.next + 1 < u64_mod
    → alive h ≡ true
    → generation_of l h ≡ none
    → standing_in alive (registered alive l h) h ≡ current
unfolding standing_in generation_of prune
standing_in-registered_self alive l h num word live fresh = ground (
  arith,
  wrapping_add_lem l.next 1 word,
  num.retired,
  generation_in-append (filter (λ m. alive m.0) l.members) h h l.next,
  generation_in-prune alive l.members h live,
)

-- What registering `h` makes of the standing of a handle that was registered before.
abbrev pub superseded_by : Handle → Standing → Standing
superseded_by h current = superseded (some h)
superseded_by h (superseded newer) = superseded (some h)
superseded_by h deleted = deleted

standing_in-registered_other :
    (alive : Handle → Bool) (l : Lineage) (h k : Handle) (g : ℕ)
    → IsNumbered l
    → l.next + 1 < u64_mod
    → alive h ≡ true
    → alive k ≡ true
    → generation_of l k ≡ some g
    → standing_in alive (registered alive l h) k ≡ superseded_by h (standing_in alive l k)
unfolding standing_in generation_of prune newest_alive
standing_in-registered_other alive l h k g num word live up found =
    let below = Below-prune alive l.next l.members num.given in
    let bound = generation_in-bound l.next l.members k g num.given found in
    let mine : generation_in (filter (λ m. alive m.0) l.members ++ (h, l.next) ∷ []) k ≡ some g =
      rw
        (
          generation_in-append (filter (λ m. alive m.0) l.members) k h l.next,
          generation_in-prune alive l.members k up,
          found,
        )
        refl in
    let top = newest-append alive none (filter (λ m. alive m.0) l.members) h l.next live below tt in
    let old : wrapping_add g 1 ≡ g + 1 = wrapping_add_lem g 1 (omega (arith, bound, word)) in
    let new : wrapping_add l.next 1 ≡ l.next + 1 = wrapping_add_lem l.next 1 word in
    ground (arith, num.retired, bound, mine, found, top, old, new)

pub standing_in-retired :
    (alive : Handle → Bool) (l : Lineage) (k : Handle) (g : ℕ)
    → IsNumbered l
    → alive k ≡ true
    → generation_of l k ≡ some g
    → standing_in alive (record (prune alive l) { deleted_below = l.next }) k ≡ deleted
unfolding standing_in generation_of prune
standing_in-retired alive l k g num up found = ground (
  arith,
  generation_in-bound l.next l.members k g num.given found,
  generation_in-prune alive l.members k up,
)

module _ {D : DashMaps} {F : Type 0} where
  -- The lineage of a session, empty before its first registration.
  unfoldable pub lineage_of : SessionPersister D F → Uuid → Lineage
  lineage_of p id = or_else (D.get p.lineages id) empty_lineage

  pub standing-lineage_of :
      (alive : Handle → Bool) (p : SessionPersister D F) (id : Uuid) (k : Handle)
      → standing alive p id k
        ≡ (if is_tombstoned alive p id k then deleted else standing_in alive (lineage_of p id) k)
  unfolding standing lineage_of standing_in generation_of generation_in
  standing-lineage_of alive p id k = elim (Option-cases (D.get p.lineages id)) [
    | inl missing ↦ ground arith
    | inr (l, found) ↦ ground arith
  ]

  pub standing-settle :
      (alive : Handle → Bool) (p : SessionPersister D F) (id : Uuid) (work : Pending F) (k : Handle)
      → standing alive (settle alive p id work) id k ≡ standing alive p id k
  unfolding settle queue tell standing is_tombstoned
  standing-settle alive p id work k = elim (Option-cases work.source) [
    | inl idle ↦ rw (idle, settle) refl
    | inr (h, source) ↦ elim (Bool-cases (is_deleted alive p id h)) [
      | inl dead ↦ rw (source, dead, settle) refl
      | inr up ↦ elim (Option-cases (D.get p.slots id)) [
        | inl fresh ↦ rw (source, up, settle, fresh, queue) refl
        | inr (slot, there) ↦ rw (source, up, settle, there, queue) refl
      ]
    ]
  ]

  -- The standing of a handle is read off the lineages and the tombstones.
  standing_same :
      (alive : Handle → Bool) (p q : SessionPersister D F) (id : Uuid) (k : Handle)
      → p.lineages ≡ q.lineages
      → p.tombstones ≡ q.tombstones
      → standing alive p id k ≡ standing alive q id k
  unfolding standing is_tombstoned
  standing_same alive p q id k lineages tombstones = rw (lineages, tombstones) refl

  standing-finish_delete :
      (alive : Handle → Bool) (same : Bool) (p : SessionPersister D F) (id : Uuid) (k : Handle)
      → standing alive (finish_delete alive same p id) id k ≡ standing alive p id k
  unfolding finish_delete
  standing-finish_delete alive false p id k = standing_same alive _ p id k refl refl
  standing-finish_delete alive true p id k = elim (Option-cases (D.get p.slots id)) [
    | inl idle ↦ rw (idle, finish_delete) (standing_same alive _ p id k refl refl)
    | inr (slot, there) ↦
        let after : SessionPersister D F = record p {
          sink = p.sink ++ delete_session id ∷ [];
          slots = D.remove p.slots id;
        } in
        rw (there, finish_delete, standing-settle alive after id slot.pending k)
          (standing_same alive after p id k refl refl)
  ]

  pub standing-delete :
      {R : Type 0} (alive : Handle → Bool) (during : SessionPersister D F → SessionPersister D F)
      (same : Bool) (result : R) (p : SessionPersister D F) (id : Uuid) (live : Option Handle)
      (k : Handle)
      → (during (retire alive p id live)).lineages ≡ (retire alive p id live).lineages
      → (during (retire alive p id live)).tombstones ≡ (retire alive p id live).tombstones
      → standing alive (delete alive during same result p id live).0 id k
        ≡ standing alive (retire alive p id live) id k
  unfolding delete
  standing-delete alive during same result p id live k lineages tombstones =
      let q = retire alive p id live in
      elim (Option-cases (D.get q.slots id)) [
        | inl idle ↦ rw (idle, delete) (standing_same alive _ q id k refl refl)
        | inr (slot, there) ↦
            rw (there, delete, standing-finish_delete alive same (during q) id k)
              (standing_same alive (during q) q id k lineages tombstones)
      ]

  -- While the counter of generations stays a word, registering a handle that is new to the session
  -- makes it the one that may write. Of the handles registered before and still held, those not
  -- deleted now defer to it.
  pub register-standing :
      (alive : Handle → Bool) (p : SessionPersister D F) (id : Uuid) (h k : Handle) (g : ℕ)
      → IsNumbered (lineage_of p id)
      → (lineage_of p id).next + 1 < u64_mod
      → alive h ≡ true
      → generation_of (lineage_of p id) h ≡ none
      → is_tombstoned alive p id h ≡ false
      → alive k ≡ true
      → generation_of (lineage_of p id) k ≡ some g
      → (standing alive (register alive p id h) id h ≡ current)
        × (standing alive (register alive p id h) id k ≡ superseded_by h (standing alive p id k))
  unfolding register lineage_of is_tombstoned prune
  register-standing alive p id h k g num word live fresh clean up found =
      let l = or_else (D.get p.lineages id) empty_lineage in
      let self = standing_in-registered_self alive l h num word live fresh in
      let other = standing_in-registered_other alive l h k g num word live up found in
      ground (
        arith,
        self,
        other,
        standing-lineage_of alive p id k,
        standing-lineage_of alive (register alive p id h) id k,
        standing-lineage_of alive (register alive p id h) id h,
        D.get-insert p.lineages id (registered alive l h) id,
        ==-iff id id,
      )
