-- ===== src/Net/Tests.antt =====
-- The theorems on aspect maps at concrete maps.
use rust_holochain.Base.{◌≡◌, refl, true, [], ◌∷◌}
use rust_holochain.Net.AspectMap.{AspectMap, contains_at, diff, contains_at-diff}

abbrev held : AspectMap
held = (1, 11 ∷ 12 ∷ []) ∷ (2, 21 ∷ []) ∷ []

abbrev authored : AspectMap
authored = (1, 12 ∷ 13 ∷ []) ∷ []

contains_at-diff_example : contains_at (diff held authored) 1 11 ≡ true
contains_at-diff_example = contains_at-diff held authored 1 11 (refl, (refl, tt)) (refl, tt)
