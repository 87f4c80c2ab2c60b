-- ===== src/Gates/Aliases.antt =====
-- Where the metrics that a gate reads come from.
use mesa_e2e_certification.Prelude.{
  String, subst, ◌&&◌, ◌==◌, eq_iff, ◌≡◌, refl, ◌∙◌, ◌⊎◌, inl, inr, false, not, Option, none, some,
  List, [], ◌∷◌, arith, All, Dict, lookup, insert, has_key, lookup-insert, Bool-cases, Option-cases,
}
use mesa_e2e_certification.Values.{Floats, Value}
use mesa_e2e_certification.Gates.{MetricRequirement, metric_aliases, resolve_alias, resolve_aliases}

-- The pairs of the table are aliases of one another.
abbrev IsPair : String × String → Type 0
IsPair (a, b) = (lookup a metric_aliases ≡ some b) × (lookup b metric_aliases ≡ some a)

module _ (floats : Floats) (requirements : Dict (MetricRequirement floats))
    (observed : Dict (Value floats)) where
  -- The value was observed under this name, or under its alias and not under this name.
  abbrev pub IsObserved : String → Value floats → Type 0
  IsObserved k v =
      (lookup k observed ≡ some v)
      ⊎ ((lookup k observed ≡ none)
          × ((a : String) × (lookup k metric_aliases ≡ some a) × (lookup a observed ≡ some v)))

  record IsFaithful (resolved : Dict (Value floats)) : Type 0 where
    kept : (k : String) (v : Value floats) → lookup k observed ≡ some v → lookup k resolved ≡ some v
    origin : (k : String) (v : Value floats) → lookup k resolved ≡ some v → IsObserved k v

  module _ (target source : String) (pair : IsPair (target, source))
      (resolved : Dict (Value floats)) (f : IsFaithful resolved)
      (absent : has_key target resolved ≡ false) (w : Value floats)
      (found : lookup source resolved ≡ some w) where
    unobserved : lookup target observed ≡ none
    unobserved = elim (Option-cases (lookup target observed)) [
      | inl e ↦ e
      | inr (v, e) ↦ absurd (ground (arith, f.kept target v e))
    ]

    source_observed : lookup source observed ≡ some w
    source_observed = elim (f.origin source w found) [
      | inl e ↦ e
      | inr (_, (a, alias, e)) ↦ absurd (ground (arith, pair, unobserved))
    ]

    insert-IsFaithful : IsFaithful (insert target w resolved)
    insert-IsFaithful = record {
      kept = λ k v e. rw lookup-insert (ground (arith, eq_iff target k, f.kept k v e, unobserved));
      origin = λ k v e. elim (Bool-cases (target == k)) [
        | inl same ↦
            subst (λ x. IsObserved x v) ((eq_iff target k).0 same)
              (inr (
                unobserved,
                (
                  source,
                  pair.0,
                  source_observed ∙ ground (arith, lookup-insert target k w resolved),
                ),
              ))
        | inr other ↦ f.origin k v (ground (arith, lookup-insert target k w resolved))
      ];
    }

  resolve_alias-IsFaithful :
      (p : String × String) (resolved : Dict (Value floats))
      → IsPair p
      → IsFaithful resolved
      → IsFaithful (resolve_alias floats requirements p resolved)
  unfolding resolve_alias
  resolve_alias-IsFaithful (t, a) resolved pair f =
      elim (Bool-cases (has_key t requirements && not (has_key t resolved))) [
        | inr kept ↦ rw kept f
        | inl wanted ↦ rw wanted (copy (ground arith) (lookup a resolved) refl)
      ]
    where
      copy :
          has_key t resolved ≡ false
          → (o : Option (Value floats)) → lookup a resolved ≡ o
          → IsFaithful (elim (lookup a resolved) [ none ↦ resolved | some v ↦ insert t v resolved ])
      copy absent none e = rw e f
      copy absent (some w) e = rw e (insert-IsFaithful t a pair resolved f absent w e)

  resolve_aliases-IsFaithful :
      (pairs : List (String × String)) (resolved : Dict (Value floats))
      → All IsPair pairs
      → IsFaithful resolved
      → IsFaithful (resolve_aliases floats requirements pairs resolved)
  unfolding resolve_aliases
  resolve_aliases-IsFaithful [] resolved h f = f
  resolve_aliases-IsFaithful (p ∷ pairs) resolved h f =
      resolve_aliases-IsFaithful pairs (resolve_alias floats requirements p resolved) h.1
        (resolve_alias-IsFaithful p resolved h.0 f)

  -- The alias pass keeps each observed value under its name, and each value that it leaves under a
  -- name was observed under that name, or under the name's alias where the name itself was absent.
  pub aliases_origin :
      (k : String) (v : Value floats)
      → (lookup k observed ≡ some v
          → lookup k (resolve_aliases floats requirements metric_aliases observed) ≡ some v)
        × (lookup k (resolve_aliases floats requirements metric_aliases observed) ≡ some v
            → IsObserved k v)
  unfolding lookup
  aliases_origin k v = (f.kept k v, f.origin k v)
    where
      f : IsFaithful (resolve_aliases floats requirements metric_aliases observed)
      f =
          resolve_aliases-IsFaithful metric_aliases observed
            ((refl, refl), ((refl, refl), ((refl, refl), ((refl, refl), tt))))
            (record { kept = λ j w e. e; origin = λ j w e. inl e })
