-- ===== src/Tests/CoerceTests.antt =====
-- The coercion of parameters on small documents.
use post_cortex.Base.{ℕ, Bool, true, List, [], ◌∷◌, String, ◌≡◌, refl, inr, ap}
use post_cortex.Base.Keys.{string_eq}
use post_cortex.JsonPath.Texts.{ends_with}
use post_cortex.Coerce.{
  Shape, null, boolean, number, text, array, object, Values, ok, map_fields, map_items,
  coerce_scalar_to_string, coerce_to_string, on_object, coerce_string_map, coerce_content,
  coerce_updates, coerce_field, apply_coercions,
}
use post_cortex.Coerce.Again.{apply_coercions_again}
use post_cortex.Coerce.Frame.{is_typed, get_field, apply_coercions-get_field}

mutual
  data Document : Type 0 where
    nothing : Document
    flag : Bool → Document
    count : ℕ → Document
    phrase : String → Document
    row : Items → Document
    form : Fields → Document

  data Items : Type 0 where
    stop : Items
    item : Document → Items → Items

  data Fields : Type 0 where
    end : Fields
    field : String → Document → Fields → Fields

items_of : Items → List Document
items_of stop = []
items_of (item d rest) = d ∷ items_of rest

to_items : List Document → Items
to_items [] = stop
to_items (d ∷ rest) = item d (to_items rest)

fields_of : Fields → List (String × Document)
fields_of end = []
fields_of (field key d rest) = (key, d) ∷ fields_of rest

to_fields : List (String × Document) → Fields
to_fields [] = end
to_fields ((key, d) ∷ rest) = field key d (to_fields rest)

items_of-to_items : (l : List Document) → items_of (to_items l) ≡ l
unfolding items_of to_items
items_of-to_items [] = refl
items_of-to_items (d ∷ rest) = ap (◌∷◌ d) (items_of-to_items rest)

fields_of-to_fields : (l : List (String × Document)) → fields_of (to_fields l) ≡ l
unfolding fields_of to_fields
fields_of-to_fields [] = refl
fields_of-to_fields ((key, d) ∷ rest) = ap (◌∷◌ (key, d)) (fields_of-to_fields rest)

shape_of : Document → Shape Document ℕ
unfolding items_of fields_of
shape_of nothing = null
shape_of (flag b) = boolean b
shape_of (count n) = number n
shape_of (phrase t) = text t
shape_of (row items) = array (items_of items)
shape_of (form fields) = object (fields_of fields)

of_shape : Shape Document ℕ → Document
unfolding to_items to_fields
of_shape null = nothing
of_shape (boolean b) = flag b
of_shape (number n) = count n
of_shape (text t) = phrase t
of_shape (array l) = row (to_items l)
of_shape (object l) = form (to_fields l)

shape_of-of_shape : (s : Shape Document ℕ) → shape_of (of_shape s) ≡ s
unfolding shape_of of_shape
shape_of-of_shape null = refl
shape_of-of_shape (boolean b) = refl
shape_of-of_shape (number n) = refl
shape_of-of_shape (text t) = refl
shape_of-of_shape (array l) = ap array (items_of-to_items l)
shape_of-of_shape (object l) = ap object (fields_of-to_fields l)

abbrev documents : Values
documents = record {
  Value = Document;
  Number = ℕ;
  shape = shape_of;
  value = of_shape;
  shape-value = shape_of-of_shape;
  number_text = λ n. "42";
  to_string = λ d. inr "[]";
}

abbrev request : Document
request = form (
    field "session_id" (count 42) (
      field "limit" (count 5) (
        field "content" (form (field "ok" (flag true) (field "tags" (row stop) end))) (
          field "updates"
            (row (item (form (field "content" (form (field "n" (count 42) end)) end)) stop)) end))))

abbrev repaired : Document
repaired = form (
    field "session_id" (phrase "42") (
      field "limit" (count 5) (
        field "content" (form (field "ok" (phrase "true") (field "tags" (phrase "[]") end))) (
          field "updates"
            (row (item (form (field "content" (form (field "n" (phrase "42") end)) end)) stop))
            end))))

request_coerced : apply_coercions documents request ≡ ok repaired
unfolding shape_of of_shape apply_coercions on_object map_fields map_items coerce_field
    coerce_string_map coerce_content coerce_updates coerce_to_string coerce_scalar_to_string
    ends_with
request_coerced = refl

apply_coercions_again_example : apply_coercions documents repaired ≡ ok repaired
apply_coercions_again_example = apply_coercions_again documents request repaired request_coerced

apply_coercions-get_field_example :
    get_field documents repaired "limit" ≡ get_field documents request "limit"
unfolding is_typed ends_with
apply_coercions-get_field_example =
    apply_coercions-get_field documents request repaired "limit" request_coerced refl
