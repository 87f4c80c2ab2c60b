-- ===== src/Prelude/Maps.antt =====
-- Python's `dict` with string keys, in insertion order.
use Prim.Native.String.{String, compare}
use mathlib.Core.Path.{◌≡◌, refl, ◌∙◌, ap}
use mathlib.Core.Bool.{Bool, false}
use mathlib.Core.Option.{Option, none, some}
use mathlib.Core.List.{List, [], ◌∷◌, map}
use text.Mathlib.Text.{◌==◌, is_le}
use text.Mathlib.TextEquality.{eq_iff}
use text.Mathlib.TextPositions.{compare_refl}
use native.Mathlib.Omega.{arith}
use mesa_e2e_certification.Prelude.Tests.{if◌then◌else◌, is_some, Bool-cases}
use mesa_e2e_certification.Prelude.Lists.{All, Member}
use mathlib.Core.Logic.{◌⊎◌, inl, inr}
use mesa_e2e_certification.Prelude.Sets.{elem, Nodup}

abbrev pub Dict {ℓ} : Type ℓ → Type ℓ
Dict V = List (String × V)

module _ {ℓ} {V : Type ℓ} where
  -- `d.get(k)`
  unfoldable pub lookup : String → Dict V → Option V
  lookup k [] = none
  lookup k ((j, v) ∷ d) = if j == k then some v else lookup k d

  -- `d[k] = v`: an existing key keeps its place.
  unfoldable pub insert : String → V → Dict V → Dict V
  insert k v [] = (k, v) ∷ []
  insert k v ((j, w) ∷ d) = if j == k then (j, v) ∷ d else (j, w) ∷ insert k v d

  -- `list(d)`
  abbrev pub keys : Dict V → List String
  keys d = map (λ e. e.0) d

  -- `k in d`
  abbrev pub has_key : String → Dict V → Bool
  has_key k d = is_some (lookup k d)

module _ {ℓ} {V : Type ℓ} where
  pub lookup-insert :
      (k j : String) (v : V) (d : Dict V)
      → lookup j (insert k v d) ≡ (if k == j then some v else lookup j d)
  unfolding lookup insert
  lookup-insert k j v [] = refl
  lookup-insert k j v ((i, w) ∷ d) =
      ground (arith, eq_iff k j, eq_iff i k, eq_iff i j, lookup-insert k j v d)

  pub elem-keys : (k : String) (d : Dict V) → elem k (keys d) ≡ has_key k d
  unfolding lookup
  elem-keys k [] = refl
  elem-keys k ((j, v) ∷ d) = ground (arith, elem-keys k d)

  -- `dict(sorted(d.items()))`
  unfoldable pub insert_item : String → V → Dict V → Dict V
  insert_item k v [] = (k, v) ∷ []
  insert_item k v ((j, w) ∷ d) =
      let rest = insert_item k v d in
      if is_le (compare k j) then (k, v) ∷ (j, w) ∷ d else (j, w) ∷ rest

  unfoldable pub sort_items : Dict V → Dict V
  unfolding insert_item
  sort_items [] = []
  sort_items ((k, v) ∷ d) = insert_item k v (sort_items d)

module _ {ℓ} {V : Type ℓ} where
  lookup-insert_item :
      (k j : String) (v : V) (d : Dict V)
      → lookup j (insert_item k v d) ≡ (if k == j then some v else lookup j d)
  unfolding lookup insert_item
  lookup-insert_item k j v [] = refl
  lookup-insert_item k j v ((i, w) ∷ d) =
      ground (arith, eq_iff k j, eq_iff i j, compare_refl k, lookup-insert_item k j v d)

  pub lookup-sort_items : (k : String) (d : Dict V) → lookup k (sort_items d) ≡ lookup k d
  unfolding lookup sort_items
  lookup-sort_items k [] = refl
  lookup-sort_items k ((j, v) ∷ d) =
      ground (arith, lookup-insert_item j k v (sort_items d), lookup-sort_items k d)

  module _ {κ} (P : String × V → Type κ) where
    All-insert_item :
        (k : String) (v : V) (d : Dict V) → P (k, v) → All P d → All P (insert_item k v d)
    unfolding insert_item
    All-insert_item k v [] h hs = (h, tt)
    All-insert_item k v ((j, w) ∷ d) h hs = elim (Bool-cases (is_le (compare k j))) [
      | inl first ↦ rw first (h, hs)
      | inr later ↦ rw later (hs.0, All-insert_item k v d h hs.1)
    ]

    pub All-sort_items : (d : Dict V) → All P d → All P (sort_items d)
    unfolding sort_items
    All-sort_items [] h = tt
    All-sort_items ((k, v) ∷ d) h = All-insert_item k v (sort_items d) h.0 (All-sort_items d h.1)

    All-of_insert_item :
        (k : String) (v : V) (d : Dict V) → All P (insert_item k v d) → P (k, v) × All P d
    unfolding insert_item
    All-of_insert_item k v [] h = h
    All-of_insert_item k v ((j, w) ∷ d) h = elim (Bool-cases (is_le (compare k j))) [
      | inl first ↦ (rw first at h)
      | inr later ↦
          let h' = rw later at h in
          let (here, rest) = All-of_insert_item k v d h'.1 in (here, (h'.0, rest))
    ]

    pub All-of_sort_items : (d : Dict V) → All P (sort_items d) → All P d
    unfolding sort_items
    All-of_sort_items [] h = tt
    All-of_sort_items ((k, v) ∷ d) h =
        let (here, rest) = All-of_insert_item k v (sort_items d) h in
        (here, All-of_sort_items d rest)

-- `{k: v for k, v in items}`: a later item replaces an earlier one.
module _ {ℓ} {V : Type ℓ} where
  unfoldable pub insert_all : Dict V → List (String × V) → Dict V
  insert_all d [] = d
  insert_all d ((k, v) ∷ items) = insert_all (insert k v d) items

  pub lookup-insert_all→ :
      (k : String) (v : V) (items : List (String × V)) (d : Dict V)
      → lookup k (insert_all d items) ≡ some v
      → Member (k, v) items ⊎ (lookup k d ≡ some v)
  unfolding insert_all
  lookup-insert_all→ k v [] d h = inr h
  lookup-insert_all→ k v ((j, w) ∷ items) d h =
      elim (lookup-insert_all→ k v items (insert j w d) h) [
        | inl m ↦ inl (inr m)
        | inr e ↦ elim (Bool-cases (j == k)) [
          | inl same ↦ inl (inl (ground (arith, lookup-insert j k w d, eq_iff j k)))
          | inr other ↦ inr (ground (arith, lookup-insert j k w d))
        ]
      ]

  lookup-insert_all-absent :
      (k : String) (items : List (String × V)) (d : Dict V)
      → elem k (keys items) ≡ false
      → lookup k (insert_all d items) ≡ lookup k d
  unfolding insert_all
  lookup-insert_all-absent k [] d h = refl
  lookup-insert_all-absent k ((j, w) ∷ items) d h =
      lookup-insert_all-absent k items (insert j w d) (ground arith)
      ∙ ground (arith, lookup-insert j k w d)

  pub lookup-insert_all← :
      (k : String) (v : V) (items : List (String × V)) (d : Dict V)
      → Member (k, v) items
      → Nodup (keys items)
      → lookup k (insert_all d items) ≡ some v
  unfolding insert_all
  lookup-insert_all← k v [] d m h = absurd (m tt)
  lookup-insert_all← k v ((j, w) ∷ items) d (inl e) h =
      let e₀ = ap (λ p. p.0) e in
      let e₁ = ap (λ p. p.1) e in
      lookup-insert_all-absent k items (insert j w d) (ground arith)
      ∙ ground (arith, lookup-insert j k w d, eq_iff j k)
  lookup-insert_all← k v ((j, w) ∷ items) d (inr m) h =
      lookup-insert_all← k v items (insert j w d) m h.1
