-- ===== src/Path/Resolve.antt =====
-- `resolve_path`: the names that an argument leads to from the working directory of a process.
use mona_rpzero.Prelude.{
  ℕ, ◌+◌, ◌≤◌, ◌<◌, ◌≡◌, ap, ◌∙◌, List, [], ◌∷◌, ◌++◌, some, ◌==◌, if◌then◌else◌, length, get_or,
  arith, Bool-cases, inl, inr, ==_ne, le→ltb_false,
}
use mona_rpzero.Path.{slash, resolve_from, resolve_path}
use mona_rpzero.Path.Names.{components, follow_all}
use mona_rpzero.Path.Normal.{answer, normalize_abs_path-follow}
use mona_rpzero.Path.Again.{components-append}

-- The components that a walk from the root goes through: those of an absolute path alone, or those of the
-- working directory first.
abbrev pub from_root : List ℕ → List ℕ → List (List ℕ)
from_root cwd p = if get_or p 0 0 == slash then components p else components cwd ++ components p

-- The bytes of the path that is put together, without its zero.
abbrev pub joined_length : List ℕ → List ℕ → ℕ
joined_length cwd p = if get_or p 0 0 == slash then length p else length cwd + 1 + length p

-- With a working directory that is not empty, a path that fits in 256 bytes once it is put together, and a
-- buffer of two bytes at least, `resolve_path` writes the path of the names that the walk from the root
-- leads to, or fails as that walk does.
pub resolve_path-follow :
    (cwd p : List ℕ) (outsz : ℕ)
    → 0 < length cwd
    → joined_length cwd p < 256
    → 2 ≤ outsz
    → resolve_path (some cwd) (some p) outsz ≡ answer (follow_all outsz (from_root cwd p) [])
unfolding resolve_path resolve_from
resolve_path-follow cwd p outsz named short room = elim (Bool-cases (get_or p 0 0 == slash)) [
  | inl e ↦
      simp (e, le→ltb_false 256 (length p + 1) (ground arith))
        (normalize_abs_path-follow p outsz room)
  | inr e ↦
      simp
        (
          e,
          ==_ne (length cwd) 0 (λ z. omega arith),
          le→ltb_false 256 (length cwd + 1 + length p + 1) (ground arith),
        )
        (normalize_abs_path-follow (cwd ++ slash ∷ p) outsz room
          ∙ ap (λ c. answer (follow_all outsz c [])) (components-append cwd p))
]
