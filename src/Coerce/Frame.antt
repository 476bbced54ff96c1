-- ===== src/Coerce/Frame.antt =====
-- The fields that the coercion leaves alone.
use post_cortex.Base.{
  Bool, true, false, not, Option, none, some, List, [], ◌∷◌, String, ◌≡◌, refl, ◌||◌, inl, inr, ap,
  sym, arith, Bool-cases,
}
use post_cortex.Base.Keys.{string_eq, ◌==◌, ==-iff}
use post_cortex.ConcurrentMap.{lookup}
use post_cortex.JsonPath.Texts.{ends_with}
use post_cortex.Coerce.{
  Shape, null, boolean, number, text, array, object, Values, Coerced, ok, err, and_then, map_fields,
  on_object, coerce_field, apply_coercions,
}

-- A field that is no map of strings, no list of updates and no id.
unfoldable pub is_typed : String → Bool
is_typed key =
    not ((key == "content") || (key == "parameters") || (key == "updates") || ends_with "_id" key)

module _ (J : Values) where
  unfoldable pub get_field : J.Value → String → Option J.Value
  get_field val key = elim (J.shape val) [
    | object fields ↦ lookup key fields
    | null ↦ none
    | boolean b ↦ none
    | number n ↦ none
    | text s ↦ none
    | array items ↦ none
  ]

  coerce_field_typed :
      (key : String) (val : J.Value) → is_typed key ≡ true → coerce_field J key val ≡ ok val
  unfolding coerce_field is_typed
  coerce_field_typed key val typed =
      let strings : ((key == "content") || (key == "parameters")) ≡ false = ground (arith, typed) in
      let updates : (key == "updates") ≡ false = ground (arith, typed) in
      let id : ends_with "_id" key ≡ false = ground (arith, typed) in
      rw (strings, coerce_field, updates, id) refl

  -- A result that has the same field.
  abbrev KeepsIn :
      String → List (String × J.Value) → Coerced J.Value (List (String × J.Value)) → Type 0
  KeepsIn key fields (ok out) = lookup key out ≡ lookup key fields
  KeepsIn key fields (err e) = Unit {0}

  kept_value :
      (v val : J.Value) → ◌≡◌ {A = Coerced J.Value J.Value} (ok v) (ok val) → some v ≡ some val
  kept_value v val h = ap (λ p. elim p as (λ p. Option J.Value) [ ok a ↦ some a | err e ↦ none ]) h

  cons-KeepsIn :
      (key k : String) (val : J.Value) (rest : List (String × J.Value))
      (p : Coerced J.Value J.Value) (q : Coerced J.Value (List (String × J.Value)))
      → (key ≡ k → p ≡ ok val)
      → KeepsIn key rest q
      → KeepsIn key ((k, val) ∷ rest) (and_then p (λ v. and_then q (λ more. ok ((k, v) ∷ more))))
  unfolding lookup
  cons-KeepsIn key k val rest (err d) q here later = tt
  cons-KeepsIn key k val rest (ok v) (err e) here later = tt
  cons-KeepsIn key k val rest (ok v) (ok more) here later = elim (Bool-cases (k == key)) [
    | inl same ↦
        let equal : k ≡ key = (==-iff k key).0 same in
        let kept : some v ≡ some val = kept_value v val (here (sym equal)) in rw same kept
    | inr other ↦ rw other later
  ]

  map_fields-KeepsIn :
      (key : String) (fields : List (String × J.Value))
      → is_typed key ≡ true
      → KeepsIn key fields (map_fields (coerce_field J) fields)
  unfolding map_fields
  map_fields-KeepsIn key [] typed = refl
  map_fields-KeepsIn key ((k, val) ∷ rest) typed =
      cons-KeepsIn key k val rest (coerce_field J k val) (map_fields (coerce_field J) rest)
        (λ same. rw (← same) (coerce_field_typed key val typed)) (map_fields-KeepsIn key rest typed)

  -- A value with the same field.
  abbrev HasSameField : J.Value → String → Coerced J.Value J.Value → Type 0
  HasSameField value key (ok coerced) = get_field coerced key ≡ get_field value key
  HasSameField value key (err e) = Unit {0}

  object-HasSameField :
      (value : J.Value) (key : String) (fields : List (String × J.Value))
      (p : Coerced J.Value (List (String × J.Value)))
      → J.shape value ≡ object fields
      → KeepsIn key fields p
      → HasSameField value key (and_then p (λ out. ok (J.value (object out))))
  unfolding get_field
  object-HasSameField value key fields (ok out) h kept =
      rw (J.shape-value (object out), get_field, h) kept
  object-HasSameField value key fields (err e) h kept = tt

  on_object-HasSameField :
      (value : J.Value) (key : String) (s : Shape J.Value J.Number)
      → J.shape value ≡ s
      → is_typed key ≡ true
      → HasSameField value key (on_object J (coerce_field J) value)
  unfolding on_object
  on_object-HasSameField value key (object fields) h typed =
      rw (h, on_object)
        (object-HasSameField value key fields (map_fields (coerce_field J) fields) h
          (map_fields-KeepsIn key fields typed))
  on_object-HasSameField value key null h typed = rw (h, on_object) refl
  on_object-HasSameField value key (boolean b) h typed = rw (h, on_object) refl
  on_object-HasSameField value key (number n) h typed = rw (h, on_object) refl
  on_object-HasSameField value key (text t) h typed = rw (h, on_object) refl
  on_object-HasSameField value key (array items) h typed = rw (h, on_object) refl

  -- Coercion keeps every field of an object but the maps of strings, the updates and the ids: what
  -- a typed field holds before, it holds after.
  pub apply_coercions-get_field :
      (value coerced : J.Value) (key : String)
      → apply_coercions J value ≡ ok coerced
      → is_typed key ≡ true
      → get_field coerced key ≡ get_field value key
  unfolding apply_coercions
  apply_coercions-get_field value coerced key h typed =
      rw h at (on_object-HasSameField value key (J.shape value) refl typed)
