-- ===== src/Path/Normal.antt =====
-- `normalize_abs_path` against the walk through the names, and what a path it writes looks like.
use mona_rpzero.Prelude.{
  ℕ, zero, suc, ◌+◌, ◌≤◌, ◌<◌, ◌≡◌, refl, sym, ap, ◌∙◌, List, [], ◌∷◌, Option, none, some, length,
  arith, Option-cases, inl, inr, le→ltb_false,
}
use mona_rpzero.Path.{
  skip_slashes, take_segment, Normalized, failed, written, or_root, normalize_loop,
  normalize_abs_path,
}
use mona_rpzero.Path.Names.{
  components, render, offsets, output_of, follow, follow_all, components-skip_slashes,
  components-take_segment, length-take_segment, length-skip_slashes, skip_slashes-head,
  segment_step-follow, components_nil, follow_all_stops, follow_all_goes_on,
}

-- What the function gives for a stack of names.
abbrev pub answer : Option (List (List ℕ)) → Normalized
answer none = failed
answer (some st) = written (or_root (render st))

parts : (p q : List ℕ) → skip_slashes p ≡ q → components p ≡ components q
parts p q e = sym (components-skip_slashes p) ∙ ap components e

loop-follow :
    (fuel outsz : ℕ) (p : List ℕ) (st : List (List ℕ))
    → length p < fuel
    → normalize_loop fuel outsz p (output_of st) ≡ answer (follow_all outsz (components p) st)
unfolding normalize_loop follow_all
loop-follow zero outsz p st lt = absurd (omega arith)
loop-follow (suc fuel) outsz p st lt =
    round (skip_slashes p) refl (λ rest st' less. loop-follow fuel outsz rest st' less)
  where
    round :
        (q : List ℕ)
        → skip_slashes p ≡ q
        → ((rest : List ℕ) (st' : List (List ℕ))
            → length rest < fuel
            → normalize_loop fuel outsz rest (output_of st')
              ≡ answer (follow_all outsz (components rest) st'))
        → normalize_loop (suc fuel) outsz p (output_of st)
          ≡ answer (follow_all outsz (components p) st)
    round [] e again =
        rw (e, normalize_loop)
          (ap (λ c. answer (follow_all outsz c st)) (sym (parts p [] e ∙ components_nil)))
    round (c ∷ cs) e again =
        let seg = (take_segment (c ∷ cs)).0 in
        let rest = (take_segment (c ∷ cs)).1 in
        let head = skip_slashes-head p e in
        rw
          (
            e,
            normalize_loop,
            parts p (c ∷ cs) e ∙ components-take_segment c cs head,
            segment_step-follow outsz seg st,
          )
          (elim (Option-cases (follow outsz seg st)) [
            | inl stuck ↦
                rw stuck (ap answer (sym (follow_all_stops outsz seg (components rest) st stuck)))
            | inr (st', on) ↦ rw on (
                again rest st'
                  (omega (arith, length-take_segment c cs head, length-skip_slashes p, ap length e))
                ∙ ap answer (sym (follow_all_goes_on outsz seg (components rest) st st' on)))
          ])

-- In a buffer of two bytes at least, `normalize_abs_path` writes the path of the names that the
-- components of its argument lead to from the root ("." stays, ".." goes to the parent, the root is its
-- own parent), or "/" for no name, and fails exactly if that walk ever needs more than 64 names or more
-- bytes than the buffer has; it never runs out of fuel.
pub normalize_abs_path-follow :
    (p : List ℕ) (outsz : ℕ)
    → 2 ≤ outsz
    → normalize_abs_path p outsz ≡ answer (follow_all outsz (components p) [])
unfolding normalize_abs_path render offsets
normalize_abs_path-follow p outsz room =
    simp (le→ltb_false outsz 2 room) (loop-follow (length p + 1) outsz p [] (omega arith))
