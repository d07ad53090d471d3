-- ===== src/Path/Again.antt =====
-- `normalize_abs_path` a second time: a normal path stays as it is.
use mona_rpzero.Prelude.{
  ℕ, ◌+◌, ◌≤◌, ◌≡◌, refl, sym, ap, ◌∙◌, true, false, List, [], ◌∷◌, ◌++◌, some, ◌==◌, length,
  length-append, arith, Bool-cases, Option-cases, inl, inr, lt→leb_false,
}
use mona_rpzero.Path.{slash, take_segment, is_dot, is_dot_dot, written, or_root, normalize_abs_path}
use mona_rpzero.Path.Names.{
  attach, attach-slash, attach-other, components-slash, components-other, components,
  components-take_segment, components_nil, render, follow, follow_all, follow_all_stops,
  follow_all_goes_on,
}
use mona_rpzero.Path.Normal.{answer, normalize_abs_path-follow}
use mona_rpzero.Path.Stack.{
  no_slash, is_part, is_name, all_names, IsStack, and_left, parent-IsStack,
  normalize_abs_path-IsStack,
}

-- A part without a slash is its own only component.
part_components : (n : List ℕ) → is_part n ≡ true → components n ≡ n ∷ []
unfolding is_part no_slash attach
part_components [] h = absurd cc
part_components (c ∷ []) h = components-other c [] (ground arith) ∙ ap (attach c []) components_nil
part_components (c ∷ d ∷ ds) h =
    components-other c (d ∷ ds) (ground arith)
    ∙ ap (attach c (d ∷ ds)) (part_components (d ∷ ds) (ground arith))
    ∙ attach-other c d ds (d ∷ ds) [] (ground arith)

attach_nil : (c : ℕ) → attach c [] [] ≡ (c ∷ []) ∷ []
unfolding attach
attach_nil c = refl

attach-append :
    (c : ℕ) (cs n : List ℕ)
    → (c == slash) ≡ false
    → attach c (cs ++ slash ∷ n) (components cs ++ components n)
      ≡ attach c cs (components cs) ++ components n
attach-append c [] n e =
    ap (λ k. attach c (slash ∷ n) (k ++ components n)) components_nil
    ∙ attach-slash c slash n (components n) refl
    ∙ sym (
        ap (λ k. attach c [] k ++ components n) components_nil
        ∙ ap (λ k. k ++ components n) (attach_nil c))
attach-append c (d ∷ ds) n e = elim (Bool-cases (d == slash)) [
  | inl e' ↦
      attach-slash c d (ds ++ slash ∷ n) (components (d ∷ ds) ++ components n) e'
      ∙ ap (λ k. k ++ components n) (sym (attach-slash c d ds (components (d ∷ ds)) e'))
  | inr e' ↦
      let f = (take_segment (d ∷ ds)).0 in
      let fs = components (take_segment (d ∷ ds)).1 in
      let two = components-take_segment d ds e' in
      ap (λ k. attach c (d ∷ (ds ++ slash ∷ n)) (k ++ components n)) two
      ∙ attach-other c d (ds ++ slash ∷ n) f (fs ++ components n) e'
      ∙ ap (λ k. k ++ components n) (sym (ap (attach c (d ∷ ds)) two ∙ attach-other c d ds f fs e'))
]

pub components-append :
    (xs n : List ℕ) → components (xs ++ slash ∷ n) ≡ components xs ++ components n
components-append [] n =
    components-slash slash n refl ∙ ap (λ k. k ++ components n) (sym components_nil)
components-append (c ∷ cs) n = elim (Bool-cases (c == slash)) [
  | inl e ↦
      components-slash c (cs ++ slash ∷ n) e
      ∙ components-append cs n
      ∙ ap (λ k. k ++ components n) (sym (components-slash c cs e))
  | inr e ↦
      components-other c (cs ++ slash ∷ n) e
      ∙ ap (attach c (cs ++ slash ∷ n)) (components-append cs n)
      ∙ attach-append c cs n e
      ∙ ap (λ k. k ++ components n) (sym (components-other c cs e))
]

follow_all-append :
    (outsz : ℕ) (segs : List (List ℕ)) (n : List ℕ) (st st' : List (List ℕ))
    → follow_all outsz segs st ≡ some st'
    → follow_all outsz (segs ++ n ∷ []) st ≡ follow_all outsz (n ∷ []) st'
unfolding follow_all
follow_all-append outsz [] n st st' e = ap (follow_all outsz (n ∷ [])) (let h = e in cc)
follow_all-append outsz (seg ∷ segs) n st st' e = elim (Option-cases (follow outsz seg st)) [
  | inl stuck ↦ absurd (let clash = sym (follow_all_stops outsz seg segs st stuck) ∙ e in cc)
  | inr (st1, on) ↦
      follow_all_goes_on outsz seg (segs ++ n ∷ []) st st1 on
      ∙ follow_all-append outsz segs n st1 st'
          (sym (follow_all_goes_on outsz seg segs st st1 on) ∙ e)
]

follow_all_done : (outsz : ℕ) (st : List (List ℕ)) → follow_all outsz [] st ≡ some st
unfolding follow_all
follow_all_done outsz st = refl

pub name_parts :
    (n : List ℕ)
    → is_name n ≡ true
    → (is_part n ≡ true) × (is_dot n ≡ false) × (is_dot_dot n ≡ false)
unfolding is_name
name_parts n h = (ground arith, ground arith, ground arith)

pub first_name :
    (outsz : ℕ) (n : List ℕ) (ns : List (List ℕ)) → IsStack outsz (n ∷ ns) → is_name n ≡ true
unfolding all_names
first_name outsz n ns s = and_left (is_name n) (all_names ns) s.names

follow_name :
    (outsz : ℕ) (n : List ℕ) (ns : List (List ℕ))
    → IsStack outsz (n ∷ ns)
    → follow outsz n ns ≡ some (n ∷ ns)
unfolding follow render
follow_name outsz n ns s =
    let (part, no_dot, no_dots) = name_parts n (first_name outsz n ns s) in
    simp
      (
        no_dot,
        no_dots,
        lt→leb_false 64 (length ns) (omega (arith, s.depth)),
        lt→leb_false outsz (length (render ns) + 1 + length n)
            (omega (arith, s.fits, length-append (render ns) (slash ∷ n))),
      )
      refl

walk_back :
    (outsz : ℕ) (st : List (List ℕ))
    → IsStack outsz st
    → follow_all outsz (components (render st)) [] ≡ some st
unfolding render
walk_back outsz [] s = ap (λ c. follow_all outsz c []) components_nil ∙ follow_all_done outsz []
walk_back outsz (n ∷ ns) s =
    ap (λ c. follow_all outsz c [])
      (components-append (render ns) n
        ∙ ap (λ k. components (render ns) ++ k)
            (part_components n ((name_parts n (first_name outsz n ns s)).0)))
    ∙ follow_all-append outsz (components (render ns)) n [] ns
        (walk_back outsz ns (parent-IsStack outsz (n ∷ ns) s))
    ∙ follow_all_goes_on outsz n [] ns (n ∷ ns) (follow_name outsz n ns s)
    ∙ follow_all_done outsz (n ∷ ns)

components-or_root :
    (st : List (List ℕ)) → components (or_root (render st)) ≡ components (render st)
unfolding or_root
components-or_root st = go (render st)
  where
    go : (r : List ℕ) → components (or_root r) ≡ components r
    go [] = components-slash slash [] refl
    go (c ∷ cs) = refl

-- A path that `normalize_abs_path` has written into a buffer of two bytes at least is written by it
-- again, unchanged, into a buffer of the same size.
pub normalize_abs_path_again :
    (p : List ℕ) (outsz : ℕ) (r : List ℕ)
    → 2 ≤ outsz
    → normalize_abs_path p outsz ≡ written r
    → normalize_abs_path r outsz ≡ written r
normalize_abs_path_again p outsz r room e =
    let (st, shape, s) = normalize_abs_path-IsStack p outsz r room e in
    normalize_abs_path-follow r outsz room
    ∙ ap (λ k. answer (follow_all outsz (components k) [])) shape
    ∙ ap (λ c. answer (follow_all outsz c [])) (components-or_root st)
    ∙ ap answer (walk_back outsz st s)
    ∙ ap written (sym shape)
