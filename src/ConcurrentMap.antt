-- ===== src/ConcurrentMap.antt =====
-- The concurrent map of the `dashmap` crate, which is not part of the repository: an interface of
-- operations with their documented behaviour, taken as a parameter by every component that keeps
-- a `DashMap`. `iter` gives the entries in an order that the crate does not specify.
pub mod Assoc
use post_cortex.Base.{
  ℕ, suc, ◌+◌, ◌-◌, ◌<◌, arith, ◌≡◌, Bool, true, false, Option, none, some, List, [], ◌∷◌,
  if◌then◌else◌, length, is_some,
}
use post_cortex.Base.Keys.{Eq, ◌==◌}

-- The first value stored under a key in a list of entries.
unfoldable pub lookup : {K V : Type 0} ⦃e : Eq K⦄ → K → List (K × V) → Option V
lookup key [] = none
lookup key ((k, value) ∷ more) = if k == key then some value else lookup key more

pub lookup-occupied :
    {K V : Type 0} ⦃e : Eq K⦄ (k : K) (l : List (K × V))
    → is_some (lookup k l) ≡ true
    → 0 < length l
unfolding lookup
lookup-occupied k [] h = cc
lookup-occupied k (x ∷ l) h = omega arith

-- What a measure of the values adds up to over a list of entries, and over a slot.
unfoldable pub total : {K V : Type 0} → (V → ℕ) → List (K × V) → ℕ
total f [] = 0
total f ((k, value) ∷ more) = f value + total f more

abbrev pub weight : {V : Type 0} → (V → ℕ) → Option V → ℕ
weight f none = 0
weight f (some value) = f value

-- No key stands twice in a list of entries.
abbrev pub AllDistinct : {K V : Type 0} ⦃e : Eq K⦄ → List (K × V) → Type 0
AllDistinct [] = Unit {0}
AllDistinct ((k, v) ∷ l) = (lookup k l ≡ none) × AllDistinct l

pub record DashMaps : Type 1 where
  pub Map : Type 0 → Type 0 → Type 0
  pub new : {K V : Type 0} ⦃e : Eq K⦄ → Map K V
  pub get : {K V : Type 0} ⦃e : Eq K⦄ → Map K V → K → Option V
  pub insert : {K V : Type 0} ⦃e : Eq K⦄ → Map K V → K → V → Map K V
  pub remove : {K V : Type 0} ⦃e : Eq K⦄ → Map K V → K → Map K V
  pub retain : {K V : Type 0} ⦃e : Eq K⦄ → Map K V → (V → Bool) → Map K V
  -- A write to every value.
  pub update_all : {K V : Type 0} ⦃e : Eq K⦄ → Map K V → (V → V) → Map K V
  pub iter : {K V : Type 0} ⦃e : Eq K⦄ → Map K V → List (K × V)
  pub iter-new : {K V : Type 0} ⦃e : Eq K⦄ → iter (new {K = K} {V = V}) ≡ []
  pub iter-AllDistinct : {K V : Type 0} ⦃e : Eq K⦄ (m : Map K V) → AllDistinct (iter m)
  pub get-iter : {K V : Type 0} ⦃e : Eq K⦄ (m : Map K V) (k : K) → get m k ≡ lookup k (iter m)
  pub get-insert :
      {K V : Type 0} ⦃e : Eq K⦄ (m : Map K V) (k : K) (v : V) (j : K)
      → get (insert m k v) j ≡ (if k == j then some v else get m j)
  pub get-remove :
      {K V : Type 0} ⦃e : Eq K⦄ (m : Map K V) (k j : K)
      → get (remove m k) j ≡ (if k == j then none else get m j)
  pub get-retain :
      {K V : Type 0} ⦃e : Eq K⦄ (m : Map K V) (keep : V → Bool) (k : K)
      → get (retain m keep) k
        ≡ elim (get m k) [ none ↦ none | some v ↦ if keep v then some v else none ]
  pub get-update_all :
      {K V : Type 0} ⦃e : Eq K⦄ (m : Map K V) (f : V → V) (k : K)
      → get (update_all m f) k ≡ elim (get m k) [ none ↦ none | some v ↦ some (f v) ]
  pub len-insert :
      {K V : Type 0} ⦃e : Eq K⦄ (m : Map K V) (k : K) (v : V)
      → length (iter (insert m k v))
        ≡ (if is_some (get m k) then length (iter m) else suc (length (iter m)))
  pub len-remove :
      {K V : Type 0} ⦃e : Eq K⦄ (m : Map K V) (k : K)
      → length (iter (remove m k))
        ≡ (if is_some (get m k) then length (iter m) - 1 else length (iter m))
  pub total-insert :
      {K V : Type 0} ⦃e : Eq K⦄ (f : V → ℕ) (m : Map K V) (k : K) (v : V)
      → total f (iter (insert m k v)) + weight f (get m k) ≡ total f (iter m) + f v
  pub total-remove :
      {K V : Type 0} ⦃e : Eq K⦄ (f : V → ℕ) (m : Map K V) (k : K)
      → total f (iter (remove m k)) + weight f (get m k) ≡ total f (iter m)
  pub total-retain :
      {K V : Type 0} ⦃e : Eq K⦄ (f : V → ℕ) (m : Map K V) (keep : V → Bool)
      → total f (iter (retain m keep)) ≡ total (λ v. if keep v then f v else 0) (iter m)

pub get-occupied :
    {K V : Type 0} ⦃e : Eq K⦄ (D : DashMaps) (m : D.Map K V) (k : K)
    → is_some (D.get m k) ≡ true
    → 0 < length (D.iter m)
get-occupied D m k h = lookup-occupied k (D.iter m) (rw (← D.get-iter m k) h)

pub get-new :
    {K V : Type 0} ⦃e : Eq K⦄ (D : DashMaps) (k : K) → D.get (D.new {K = K} {V = V}) k ≡ none
unfolding lookup
get-new {K} {V} D k = rw (D.get-iter, D.iter-new {K = K} {V = V})
