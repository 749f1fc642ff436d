-- ===== src/Vfs.antt =====
-- NormPath of internal/vfs/vfs.go. A string is its bytes.
pub mod Canonical
mod Tests
use golinux.Base.{ℕ, Bool, true, false, ◌==◌, if◌then◌else◌, List, [], ◌∷◌, ◌++◌}

-- '/' and '.'
abbrev pub slash : ℕ
slash = 47

abbrev pub dot : ℕ
dot = 46

abbrev pub cons_head : ℕ → List (List ℕ) → List (List ℕ)
cons_head c [] = (c ∷ []) ∷ []
cons_head c (w ∷ ws) = (c ∷ w) ∷ ws

-- strings.Split(s, "/")
unfoldable pub split : List ℕ → List (List ℕ)
split [] = [] ∷ []
split (c ∷ cs) = let rest = split cs in if c == slash then [] ∷ rest else cons_head c rest

-- strings.Join(parts, "/")
unfoldable pub join : List (List ℕ) → List ℕ
join [] = []
join (w ∷ []) = w
join (w ∷ v ∷ ws) = w ++ slash ∷ join (v ∷ ws)

pub data Component : Type 0 where
  stays parent name : Component

-- "" and "." stay, and ".." goes up.
unfoldable pub kind : List ℕ → Component
kind [] = stays
kind (a ∷ []) = if a == dot then stays else name
kind (a ∷ b ∷ []) = if a == dot then (if b == dot then parent else name) else name
kind (a ∷ b ∷ c ∷ w) = name

-- parts[:len(parts)-1], and nothing of no parts.
unfoldable pub drop_last : List (List ℕ) → List (List ℕ)
drop_last [] = []
drop_last (w ∷ []) = []
drop_last (w ∷ v ∷ ws) = w ∷ drop_last (v ∷ ws)

abbrev pub after_component : Component → List ℕ → List (List ℕ) → List (List ℕ)
after_component stays c parts = parts
after_component parent c parts = drop_last parts
after_component name c parts = parts ++ c ∷ []

unfoldable pub walk : List (List ℕ) → List (List ℕ) → List (List ℕ)
walk [] parts = parts
walk (c ∷ cs) parts = walk cs (after_component (kind c) c parts)

-- A path without a leading slash gets one.
unfoldable pub rooted : List ℕ → List ℕ
rooted [] = slash ∷ []
rooted (c ∷ cs) = if c == slash then c ∷ cs else slash ∷ c ∷ cs

unfoldable pub norm_path : List ℕ → List ℕ
norm_path path = slash ∷ join (walk (split (rooted path)) [])
