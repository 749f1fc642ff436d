-- ===== src/Vfs/Canonical.antt =====
-- NormPath gives a canonical path.
use golinux.Base.{ℕ, ◌≡◌, false, ◌==◌, List, [], ◌∷◌}
use golinux.Vfs.{slash, name, kind}

abbrev pub NoSlash : List ℕ → Type 0
NoSlash [] = Unit {0}
NoSlash (c ∷ cs) = ((c == slash) ≡ false) × NoSlash cs

abbrev pub Each : (List ℕ → Type 0) → List (List ℕ) → Type 0
Each P [] = Unit {0}
Each P (w ∷ ws) = P w × Each P ws

-- A component that walk keeps as it is.
abbrev pub Plain : List ℕ → Type 0
Plain w = NoSlash w × (kind w ≡ name)
