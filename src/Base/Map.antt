-- ===== src/Base/Map.antt =====
-- A Go map with numbers for keys, as an association list: `m[k]`, `m[k] = v` and `delete(m, k)`.
use Prim.Native.Nat.{ℕ, ◌+◌, ◌<◌}
use mathlib.Core.Path.{◌≡◌, refl}
use mathlib.Core.Option.{Option, none, some}
use mathlib.Core.List.{List, [], ◌∷◌}
use native.Mathlib.Omega.{arith}
use golinux.Base.Tests.{◌==◌, if◌then◌else◌}

unfoldable pub find {ℓ} : {A : Type ℓ} → ℕ → List (ℕ × A) → Option A
find k [] = none
find k ((j, v) ∷ m) = if j == k then some v else find k m

unfoldable pub put {ℓ} : {A : Type ℓ} → ℕ → A → List (ℕ × A) → List (ℕ × A)
put k v [] = (k, v) ∷ []
put k v ((j, w) ∷ m) = if j == k then (k, v) ∷ m else (j, w) ∷ put k v m

unfoldable pub delete {ℓ} : {A : Type ℓ} → ℕ → List (ℕ × A) → List (ℕ × A)
delete k [] = []
delete k ((j, w) ∷ m) = if j == k then delete k m else (j, w) ∷ delete k m

pub find-put {ℓ} :
    {A : Type ℓ} (k j : ℕ) (v : A) (m : List (ℕ × A))
    → find k (put j v m) ≡ (if j == k then some v else find k m)
unfolding find put
find-put k j v [] = refl
find-put k j v ((i, w) ∷ m) = ground (arith, find-put k j v m)

pub find-delete {ℓ} :
    {A : Type ℓ} (k j : ℕ) (m : List (ℕ × A))
    → find k (delete j m) ≡ (if j == k then none else find k m)
unfolding find delete
find-delete k j [] = ground arith
find-delete k j ((i, w) ∷ m) = ground (arith, find-delete k j m)

-- No key twice, which holds of every association list that `put` and `delete` build.
abbrev pub Unique {ℓ} : {A : Type ℓ} → List (ℕ × A) → Type ℓ
Unique [] = Unit {ℓ}
Unique ((k, v) ∷ m) = (find k m ≡ none) × Unique m

pub put-Unique {ℓ} : {A : Type ℓ} (k : ℕ) (v : A) (m : List (ℕ × A)) → Unique m → Unique (put k v m)
unfolding put find
put-Unique k v [] u = (refl, tt)
put-Unique k v ((j, w) ∷ m) u = ground (arith, find-put j k v m, put-Unique k v m u.1)

pub delete-Unique {ℓ} : {A : Type ℓ} (k : ℕ) (m : List (ℕ × A)) → Unique m → Unique (delete k m)
unfolding delete
delete-Unique k [] u = tt
delete-Unique k ((j, w) ∷ m) u = ground (arith, find-delete j k m, delete-Unique k m u.1)

abbrev pub one_if : ℕ → ℕ → ℕ
one_if v f = if v == f then 1 else 0

-- How many keys have the value `f`.
unfoldable pub tally : ℕ → List (ℕ × ℕ) → ℕ
tally f [] = 0
tally f ((k, v) ∷ m) = one_if v f + tally f m

pub tally-put :
    (f k v : ℕ) (m : List (ℕ × ℕ)) → find k m ≡ none → tally f (put k v m) ≡ tally f m + one_if v f
unfolding tally put find
tally-put f k v [] absent = omega arith
tally-put f k v ((j, w) ∷ m) absent = ground (arith, tally-put f k v m)

delete-absent {ℓ} : {A : Type ℓ} (k : ℕ) (m : List (ℕ × A)) → find k m ≡ none → delete k m ≡ m
unfolding delete find
delete-absent k [] absent = refl
delete-absent k ((j, w) ∷ m) absent = ground (arith, delete-absent k m)

pub tally-delete :
    (f k v : ℕ) (m : List (ℕ × ℕ))
    → Unique m
    → find k m ≡ some v
    → tally f (delete k m) + one_if v f ≡ tally f m
unfolding tally delete find
tally-delete f k v [] u here = cc
tally-delete f k v ((j, w) ∷ m) u here = ground (arith, tally-delete f k v m u.1, delete-absent k m)

-- A value that some key has is counted.
pub tally-positive : (k v : ℕ) (m : List (ℕ × ℕ)) → find k m ≡ some v → 0 < tally v m
unfolding tally find
tally-positive k v [] here = cc
tally-positive k v ((j, w) ∷ m) here = ground (arith, tally-positive k v m)
