-- ===== src/Vfs/Tests.antt =====
-- Paths.
use golinux.Base.{ℕ, ◌≡◌, refl, List, [], ◌∷◌}
use golinux.Vfs.{split, join, kind, drop_last, walk, rooted, norm_path}

-- "a/..//b/./c" is "/b/c".
abbrev dotted : List ℕ
dotted = 97 ∷ 47 ∷ 46 ∷ 46 ∷ 47 ∷ 47 ∷ 98 ∷ 47 ∷ 46 ∷ 47 ∷ 99 ∷ []

norm_path-dotted : norm_path dotted ≡ 47 ∷ 98 ∷ 47 ∷ 99 ∷ []
unfolding norm_path rooted split walk kind drop_last join
norm_path-dotted = refl
