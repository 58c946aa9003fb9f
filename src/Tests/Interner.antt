-- ===== src/Tests/Interner.antt =====
-- Two small interners.
use rpglot.Prelude.{some, none, [], ◌∷◌, ◌≡◌, ◌==◌, if◌then◌else◌, refl}
use rpglot.Storage.Interner.{StringInterner, intern, resolve, merge, filter}
use rpglot.Storage.Interner.Laws.{resolve_after, or_else}

abbrev left : StringInterner
left = record { strings = (1, "idle") ∷ (2, "active") ∷ [] }

abbrev right : StringInterner
right = record { strings = (2, "other") ∷ (3, "select") ∷ [] }

resolve_after_example :
    (resolve (merge left right) 2 ≡ or_else (resolve left 2) (resolve right 2))
    × (resolve (filter left (λ h. h == 2)) 2 ≡ (if 2 == 2 then resolve left 2 else none))
    × (resolve (intern (λ s. 7) left "new").1 2
        ≡ or_else
            (resolve left 2)
            (if (intern (λ s. 7) left "new").0 == 2 then some "new" else none))
resolve_after_example = resolve_after (λ s. 7) (λ h. h == 2) left right "new" 2

merged_strings :
    merge left right ≡ record { strings = (1, "idle") ∷ (2, "active") ∷ (3, "select") ∷ [] }
unfolding merge
merged_strings = refl
