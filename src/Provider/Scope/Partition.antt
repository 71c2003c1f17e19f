-- ===== src/Provider/Scope/Partition.antt =====
-- What the projector of crates/mirrorlane-provider/src/scope.rs loads and ignores.
use text.Mathlib.TextEquality.{eq_iff}
use mirrorlane.Base.{
  ◌≡◌, refl, Bool, false, not, ◌||◌, ◌&&◌, String, Option, none, some, List, [], ◌∷◌, ◌++◌, arith,
  ◌==◌, string_eq, Option-cases, inl, inr,
}
use mirrorlane.Base.Float.{Float}
use mirrorlane.Base.Lists.{contains, filter, length}
use mirrorlane.Base.OrdSet
use mirrorlane.Core.Message.{ConversationId}
use mirrorlane.Core.Projection.{Projection, new_confidence_bounds}
use mirrorlane.Core.Scope.{Component}
use mirrorlane.Provider.Scope.{
  catalog, component_for, load_keywords, load_projections, scope, confidence_for,
}

abbrev is_component : Component → Option Component → Bool
is_component k none = false
is_component k (some c) = c == k

contains-filter :
    (g : Component → Bool) (k : Component) (xs : List Component)
    → contains k (filter g xs) ≡ (g k && contains k xs)
contains-filter g k [] = ground arith
contains-filter g k (x ∷ xs) = ground (arith, contains-filter g k xs, eq_iff x k)

module _ (lower : String → String) where
  -- Some keyword stands for the component.
  abbrev pub evokes : Component → List String → Bool
  evokes k [] = false
  evokes k (keyword ∷ keywords) = is_component k (component_for lower keyword) || evokes k keywords

  contains-load_keywords :
      (k : Component) (keywords : List String) (loaded : List Component)
      → contains k (load_keywords lower keywords loaded) ≡ (evokes k keywords || contains k loaded)
  unfolding load_keywords
  contains-load_keywords k [] loaded = refl
  contains-load_keywords k (keyword ∷ keywords) loaded =
      elim (Option-cases (component_for lower keyword)) [
        | inl e ↦ ground (arith, e, contains-load_keywords k keywords loaded)
        | inr (c, e) ↦ ground (
          arith,
          e,
          contains-load_keywords k keywords (OrdSet.insert c loaded),
          OrdSet.contains-insert c k loaded,
        )
      ]

  load_keywords-IsAscending :
      (keywords : List String) (loaded : List Component)
      → OrdSet.IsAscending loaded
      → OrdSet.IsAscending (load_keywords lower keywords loaded)
  unfolding load_keywords
  load_keywords-IsAscending [] loaded a = a
  load_keywords-IsAscending (keyword ∷ keywords) loaded a =
      elim (Option-cases (component_for lower keyword)) [
        | inl e ↦ rw (e, load_keywords) (load_keywords-IsAscending keywords loaded a)
        | inr (c, e) ↦
            rw (e, load_keywords)
              (load_keywords-IsAscending keywords (OrdSet.insert c loaded)
                (OrdSet.insert-IsAscending c loaded a))
      ]

  module _ {R : Type 0} ⦃f : Float R⦄ where
    -- Some topic or entity of the projections stands for the component.
    abbrev pub evoked : Component → List (Projection R) → Bool
    evoked k [] = false
    evoked k (p ∷ ps) = evokes k (p.topics ++ p.entities) || evoked k ps

    contains-load_projections :
        (k : Component) (ps : List (Projection R)) (loaded : List Component) (sum : R)
        → contains k (load_projections lower ps (loaded, sum)).0
          ≡ (evoked k ps || contains k loaded)
    unfolding load_projections
    contains-load_projections k [] loaded sum = refl
    contains-load_projections k (p ∷ ps) loaded sum = ground (
      arith,
      contains-load_projections k ps (load_keywords lower (p.topics ++ p.entities) loaded)
          (f.add sum p.confidence.value),
      contains-load_keywords k (p.topics ++ p.entities) loaded,
    )

    load_projections-IsAscending :
        (ps : List (Projection R)) (loaded : List Component) (sum : R)
        → OrdSet.IsAscending loaded
        → OrdSet.IsAscending (load_projections lower ps (loaded, sum)).0
    unfolding load_projections
    load_projections-IsAscending [] loaded sum a = a
    load_projections-IsAscending (p ∷ ps) loaded sum a =
        load_projections-IsAscending ps (load_keywords lower (p.topics ++ p.entities) loaded)
          (f.add sum p.confidence.value)
          (load_keywords-IsAscending (p.topics ++ p.entities) loaded a)

    confidence_for-bounds :
        (sum : R) (ps : List (Projection R))
        → (f.lt (confidence_for sum ps).value f.zero ≡ false)
          × (f.lt f.one (confidence_for sum ps).value ≡ false)
    confidence_for-bounds sum [] = new_confidence_bounds f.zero
    confidence_for-bounds sum (p ∷ ps) =
        new_confidence_bounds (f.div sum (f.of_ℕ (length (p ∷ ps))))

    -- A scope loads, in ascending order, exactly the components that a topic or an entity of its
    -- projections stands for; it ignores exactly the rest of the catalog, so no component is loaded
    -- and ignored; and its confidence is within 0 and 1.
    pub scope-partition :
        (c : ConversationId) (ps : List (Projection R)) (k : Component)
        → (contains k (scope lower c ps).load ≡ evoked k ps)
          × (contains k (scope lower c ps).ignore ≡ (not (evoked k ps) && contains k catalog))
          × OrdSet.IsAscending (scope lower c ps).load
          × (f.lt (scope lower c ps).confidence.value f.zero ≡ false)
          × (f.lt f.one (scope lower c ps).confidence.value ≡ false)
    unfolding scope
    scope-partition c ps k =
        let loads = contains-load_projections k ps [] f.zero in
        let bounds = confidence_for-bounds (load_projections lower ps ([], f.zero)).1 ps in
        (
          ground (arith, loads),
          ground (
            arith,
            loads,
            contains-filter (λ x. not (contains x (load_projections lower ps ([], f.zero)).0)) k
                catalog,
          ),
          load_projections-IsAscending ps [] f.zero tt,
          bounds.0,
          bounds.1,
        )
