-- ===== src/Graph/Petgraph/Edges.antt =====
-- A concrete `DiGraphs`: a list of nodes and a list of edges.
use post_cortex.Base.{
  ℕ, zero, suc, ◌+◌, ◌-◌, ◌<◌, ◌≡◌, refl, ◌∙◌, String, Bool, true, false, Option, none, some, List,
  [], ◌∷◌, ◌++◌, map, ◌&&◌, not, if◌then◌else◌, eqb, ltb, is_some, length, length-append, get_elem?,
  arith, Bool-cases, inl, inr,
}
use post_cortex.Graph.Petgraph.{count, AreWeighted, before_removal, DiGraphs}

-- The first `n` values of a function.
unfoldable pub tabulate : ℕ → (ℕ → Option String) → List String
tabulate zero f = []
tabulate (suc n) f =
    let rest = tabulate n (λ i. f (suc i)) in elim (f 0) [ none ↦ rest | some w ↦ w ∷ rest ]

unfoldable pub stays : ℕ → ℕ → ℕ → Bool
stays n k s = ltb s n && not (eqb s k)

unfoldable pub renumbered : ℕ → ℕ → ℕ → ℕ
renumbered n k s = if eqb s (n - 1) then k else s

-- The end `s` of an edge is `a` after the removal.
unfoldable pub becomes : ℕ → ℕ → ℕ → ℕ → Bool
becomes n k s a = ltb a (n - 1) && eqb s (before_removal n k a)

becomes-renumbered :
    (n k s a : ℕ) → k < n → stays n k s ≡ true → becomes n k s a ≡ eqb (renumbered n k s) a
unfolding becomes stays renumbered
becomes-renumbered n k s a h kept = ground (arith, h, kept)

becomes_gone : (n k s a : ℕ) → k < n → stays n k s ≡ false → becomes n k s a ≡ false
unfolding becomes stays
becomes_gone n k s a h gone = ground (arith, h, gone)

pub record EdgeList (E : Type 0) : Type 0 where
  pub nodes : List String
  pub edges : List (ℕ × ℕ × E)

module _ {E : Type 0} where
  unfoldable pub connecting : ℕ → List (ℕ × ℕ × E) → ℕ → ℕ → List (ℕ × E)
  connecting i [] a b = []
  connecting i ((s, t, w) ∷ es) a b =
      let rest = connecting (suc i) es a b in if eqb s a && eqb t b then (i, w) ∷ rest else rest

  unfoldable pub set_at : List (ℕ × ℕ × E) → ℕ → E → List (ℕ × ℕ × E)
  set_at [] k w = []
  set_at ((s, t, v) ∷ es) zero w = (s, t, w) ∷ es
  set_at ((s, t, v) ∷ es) (suc k) w = (s, t, v) ∷ set_at es k w

  unfoldable pub data_at : List (ℕ × ℕ × E) → ℕ → Option E
  data_at [] k = none
  data_at ((s, t, w) ∷ es) zero = some w
  data_at ((s, t, w) ∷ es) (suc k) = data_at es k

  pub connecting-AreWeighted :
      (weight : ℕ → Option E) (i : ℕ) (es : List (ℕ × ℕ × E)) (a b : ℕ)
      → ((k : ℕ) → weight (i + k) ≡ data_at es k)
      → AreWeighted weight (connecting i es a b)
  unfolding connecting data_at AreWeighted
  connecting-AreWeighted weight i [] a b h = tt
  connecting-AreWeighted weight i ((s, t, w) ∷ es) a b h =
      let start : i + 0 ≡ i = omega arith in
      let first : weight i ≡ some w = rw start at (h 0) in
      let rest =
        connecting-AreWeighted weight (suc i) es a b
          (λ k. let moved : suc i + k ≡ i + suc k = omega arith in rw moved (h (suc k))) in
      elim (Bool-cases (eqb s a && eqb t b)) [
        | inl here ↦ rw here (first, rest)
        | inr elsewhere ↦ rw elsewhere rest
      ]

  -- The edges between other nodes than `k`, with `k` for the last node.
  unfoldable pub renamed : ℕ → ℕ → List (ℕ × ℕ × E) → List (ℕ × ℕ × E)
  renamed n k [] = []
  renamed n k ((s, t, w) ∷ es) =
      let rest = renamed n k es in
      if stays n k s && stays n k t then (renumbered n k s, renumbered n k t, w) ∷ rest else rest

  pub count-connecting_append :
      (f : E → Bool) (i : ℕ) (es : List (ℕ × ℕ × E)) (a b : ℕ) (w : E) (c d : ℕ)
      → count f (connecting i (es ++ (a, b, w) ∷ []) c d)
        ≡ count f (connecting i es c d) + (if (eqb a c && eqb b d) && f w then 1 else 0)
  unfolding count connecting
  count-connecting_append f i [] a b w c d = ground arith
  count-connecting_append f i ((s, t, v) ∷ es) a b w c d =
      ground (arith, count-connecting_append f (suc i) es a b w c d)

  -- Later edges keep their data.
  map-connecting_later :
      (i e : ℕ) (es : List (ℕ × ℕ × E)) (w : E) (a b : ℕ)
      → e < i
      → map (λ x. if eqb x.0 e then (x.0, w) else x) (connecting i es a b) ≡ connecting i es a b
  unfolding connecting
  map-connecting_later i e [] w a b h = refl
  map-connecting_later i e ((s, t, v) ∷ es) w a b h =
      let rest = map-connecting_later (suc i) e es w a b (omega arith) in ground (arith, rest)

  connecting-set_at :
      (i k : ℕ) (es : List (ℕ × ℕ × E)) (w : E) (a b : ℕ)
      → connecting i (set_at es k w) a b
        ≡ map (λ x. if eqb x.0 (i + k) then (x.0, w) else x) (connecting i es a b)
  unfolding connecting set_at
  connecting-set_at i k [] w a b = refl
  connecting-set_at i zero ((s, t, v) ∷ es) w a b =
      ground (arith, map-connecting_later (suc i) (i + 0) es w a b)
  connecting-set_at i (suc k) ((s, t, v) ∷ es) w a b =
      let moved : suc i + k ≡ i + suc k = omega arith in
      let rest = rw moved at (connecting-set_at (suc i) k es w a b) in ground (arith, rest)

  -- The edges that lead from `a` to `b` after the removal.
  unfoldable pub hits : (E → Bool) → ℕ → ℕ → ℕ → ℕ → List (ℕ × ℕ × E) → ℕ
  hits f n k a b [] = 0
  hits f n k a b ((s, t, w) ∷ es) =
      (if (becomes n k s a && becomes n k t b) && f w then 1 else 0) + hits f n k a b es

  connecting-renamed_hits :
      (f : E → Bool) (n k i : ℕ) (es : List (ℕ × ℕ × E)) (a b : ℕ)
      → k < n
      → count f (connecting i (renamed n k es) a b) ≡ hits f n k a b es
  unfolding count connecting renamed hits
  connecting-renamed_hits f n k i [] a b h = refl
  connecting-renamed_hits f n k i ((s, t, w) ∷ es) a b h =
      let one = connecting-renamed_hits f n k i es a b h in
      let two = connecting-renamed_hits f n k (suc i) es a b h in
      elim (Bool-cases (stays n k s)) [
        | inr gone ↦ ground (arith, gone, one, becomes_gone n k s a h gone)
        | inl kept ↦ elim (Bool-cases (stays n k t)) [
          | inr gone ↦ ground (arith, kept, gone, one, becomes_gone n k t b h gone)
          | inl also ↦ ground (
            arith,
            kept,
            also,
            one,
            two,
            becomes-renumbered n k s a h kept,
            becomes-renumbered n k t b h also,
          )
        ]
      ]

  hits-connecting :
      (f : E → Bool) (n k j : ℕ) (es : List (ℕ × ℕ × E)) (a b : ℕ)
      → hits f n k a b es ≡ (
          if ltb a (n - 1) && ltb b (n - 1)
          then count f (connecting j es (before_removal n k a) (before_removal n k b))
          else 0)
  unfolding count connecting hits becomes
  hits-connecting f n k j [] a b = ground arith
  hits-connecting f n k j ((s, t, w) ∷ es) a b =
      let rest = hits-connecting f n k (suc j) es a b in
      elim (Bool-cases (ltb a (n - 1) && ltb b (n - 1))) [
        | inl near ↦ ground (arith, near, rest)
        | inr far ↦ ground (arith, far, rest)
      ]

  pub connecting-renamed :
      (f : E → Bool) (n k : ℕ) (es : List (ℕ × ℕ × E)) (a b : ℕ)
      → k < n
      → count f (connecting 0 (renamed n k es) a b) ≡ (
          if ltb a (n - 1) && ltb b (n - 1)
          then count f (connecting 0 es (before_removal n k a) (before_removal n k b))
          else 0)
  connecting-renamed f n k es a b h =
      connecting-renamed_hits f n k 0 es a b h ∙ hits-connecting f n k 0 es a b

pub connecting-set_edge_at :
    {E : Type 0} (es : List (ℕ × ℕ × E)) (k : ℕ) (w : E) (a b : ℕ)
    → connecting 0 (set_at es k w) a b
      ≡ map (λ x. if eqb x.0 k then (x.0, w) else x) (connecting 0 es a b)
connecting-set_edge_at es k w a b =
    let start : 0 + k ≡ k = omega arith in rw start at (connecting-set_at 0 k es w a b)

pub get_elem?_range : (xs : List String) (i : ℕ) → is_some (get_elem? xs i) ≡ ltb i (length xs)
get_elem?_range [] i = ground arith
get_elem?_range (x ∷ xs) zero = ground arith
get_elem?_range (x ∷ xs) (suc i) = ground (arith, get_elem?_range xs i)

pub get_elem?-snoc :
    (xs : List String) (w : String) (i : ℕ)
    → get_elem? (xs ++ w ∷ []) i ≡ (if eqb i (length xs) then some w else get_elem? xs i)
get_elem?-snoc [] w zero = ground arith
get_elem?-snoc [] w (suc i) = ground arith
get_elem?-snoc (x ∷ xs) w zero = ground arith
get_elem?-snoc (x ∷ xs) w (suc i) = ground (arith, get_elem?-snoc xs w i)

-- A function that is defined below `n` is tabulated in full.
pub length-tabulate :
    (n : ℕ) (f : ℕ → Option String)
    → ((i : ℕ) → i < n → is_some (f i) ≡ true)
    → length (tabulate n f) ≡ n
unfolding tabulate
length-tabulate zero f h = refl
length-tabulate (suc n) f h =
    let rest = length-tabulate n (λ i. f (suc i)) (λ i below. h (suc i) (omega arith)) in
    ground (arith, rest, h 0 (omega arith))

pub get_elem?-tabulate :
    (n : ℕ) (f : ℕ → Option String) (i : ℕ)
    → ((j : ℕ) → j < n → is_some (f j) ≡ true)
    → get_elem? (tabulate n f) i ≡ (if ltb i n then f i else none)
unfolding tabulate
get_elem?-tabulate zero f i h = ground arith
get_elem?-tabulate (suc n) f zero h = ground (arith, h 0 (omega arith))
get_elem?-tabulate (suc n) f (suc i) h =
    let rest = get_elem?-tabulate n (λ j. f (suc j)) i (λ j below. h (suc j) (omega arith)) in
    ground (arith, rest, h 0 (omega arith))

pub count-snoc : (xs : List String) (w : String) → length (xs ++ w ∷ []) ≡ length xs + 1
count-snoc xs w = omega (arith, length-append xs (w ∷ []))

-- The nodes after the removal of `k`.
unfoldable pub swap_removed : List String → ℕ → List String
swap_removed nodes k =
    tabulate (length nodes - 1) (λ i. get_elem? nodes (before_removal (length nodes) k i))

pub swap_removed_defined :
    (nodes : List String) (k i : ℕ)
    → i < length nodes - 1
    → is_some (get_elem? nodes (before_removal (length nodes) k i)) ≡ true
swap_removed_defined nodes k i h =
    ground (arith, get_elem?_range nodes (before_removal (length nodes) k i))

module _ {E : Type 0} where
  unfoldable pub reached : ℕ → List (ℕ × ℕ × E) → List (ℕ × E)
  reached n [] = []
  reached n ((s, t, w) ∷ es) = let rest = reached n es in if eqb s n then (t, w) ∷ rest else rest

  unfoldable pub reaching : ℕ → List (ℕ × ℕ × E) → List (ℕ × E)
  reaching n [] = []
  reaching n ((s, t, w) ∷ es) = let rest = reaching n es in if eqb t n then (s, w) ∷ rest else rest

pub length-swap_removed :
    (nodes : List String) (k : ℕ) → length (swap_removed nodes k) ≡ length nodes - 1
unfolding swap_removed
length-swap_removed nodes k =
    length-tabulate (length nodes - 1) (λ i. get_elem? nodes (before_removal (length nodes) k i))
      (swap_removed_defined nodes k)

pub get_elem?-swap_removed :
    (nodes : List String) (k i : ℕ)
    → get_elem? (swap_removed nodes k) i ≡ (
        if ltb i (length nodes - 1)
        then get_elem? nodes (before_removal (length nodes) k i)
        else none)
unfolding swap_removed
get_elem?-swap_removed nodes k i =
    get_elem?-tabulate (length nodes - 1) (λ j. get_elem? nodes (before_removal (length nodes) k j))
      i (swap_removed_defined nodes k)

pub connecting_nil : {E : Type 0} (a b : ℕ) → connecting {E = E} 0 [] a b ≡ []
unfolding connecting
connecting_nil a b = refl

module _ (E : Type 0) where
  abbrev pub edge_lists : DiGraphs E
  edge_lists = record {
    Graph = EdgeList E;
    empty = record { nodes = []; edges = [] };
    node_count = λ g. length g.nodes;
    node_weight = λ g i. get_elem? g.nodes i;
    add_node = λ g w. record g { nodes = g.nodes ++ w ∷ [] };
    remove_node = λ g k. record {
      nodes = swap_removed g.nodes k;
      edges = renamed (length g.nodes) k g.edges;
    };
    add_edge = λ g a b w. record g { edges = g.edges ++ (a, b, w) ∷ [] };
    edges_connecting = λ g a b. connecting 0 g.edges a b;
    edge_weight = λ g e. data_at g.edges e;
    set_edge = λ g e w. record g { edges = set_at g.edges e w };
    outgoing = λ g n. reached n g.edges;
    incoming = λ g n. reaching n g.edges;
    edge_references = λ g. g.edges;
    count-empty = refl;
    count-add_node = λ g w. count-snoc g.nodes w;
    count-remove_node = λ g k h. length-swap_removed g.nodes k;
    count-add_edge = λ g a b w. refl;
    count-set_edge = λ g e w. refl;
    weight_range = λ g i. get_elem?_range g.nodes i;
    weight-add_node = λ g w i. get_elem?-snoc g.nodes w i;
    weight-remove_node = λ g k i h. get_elem?-swap_removed g.nodes k i;
    weight-add_edge = λ g a b w i. refl;
    weight-set_edge = λ g e w i. refl;
    connecting-empty = connecting_nil;
    connecting-add_node = λ g w a b. refl;
    connecting-add_edge = λ f g a b w c d. count-connecting_append f 0 g.edges a b w c d;
    edge_weight-connecting = λ g a b.
        connecting-AreWeighted (data_at g.edges) 0 g.edges a b
          (λ k. let start : 0 + k ≡ k = omega arith in rw start refl);
    connecting-set_edge = λ g e w a b. connecting-set_edge_at g.edges e w a b;
    connecting-remove_node = λ f g k a b h. connecting-renamed f (length g.nodes) k g.edges a b h;
  }
