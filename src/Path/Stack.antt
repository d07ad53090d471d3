-- ===== src/Path/Stack.antt =====
-- The paths that `normalize_abs_path` writes: what they are made of, and that it leaves them alone.
use mona_rpzero.Prelude.{
  ℕ, ◌+◌, ◌≤◌, ◌<◌, ◌≡◌, refl, sym, ap, ◌∙◌, Bool, true, false, not, ◌&&◌, List, [], ◌∷◌, Option,
  none, some, leb, ◌==◌, if_cases, length, length-append, arith, Bool-cases, Option-cases, inl, inr,
  subst, leb_false→lt,
}
use mona_rpzero.Path.{
  slash, is_dot, is_dot_dot, Normalized, no_fuel, failed, written, or_root, normalize_abs_path,
}
use mona_rpzero.Path.Names.{
  attach, components-slash, components-other, components, render, parent, follow, follow_all,
  follow_all_stops, follow_all_goes_on,
}
use mona_rpzero.Path.Normal.{answer, normalize_abs_path-follow}

unfoldable pub no_slash : List ℕ → Bool
no_slash [] = true
no_slash (c ∷ cs) = not (c == slash) && no_slash cs

unfoldable pub is_part : List ℕ → Bool
unfolding no_slash
is_part [] = false
is_part (c ∷ cs) = no_slash (c ∷ cs)

all_parts : List (List ℕ) → Bool
unfolding is_part
all_parts [] = true
all_parts (n ∷ ns) = is_part n && all_parts ns

-- A name: it is not empty, has no slash, and is neither "." nor "..".
unfoldable pub is_name : List ℕ → Bool
unfolding is_part
is_name n = is_part n && not (is_dot n) && not (is_dot_dot n)

unfoldable pub all_names : List (List ℕ) → Bool
all_names [] = true
all_names (n ∷ ns) = is_name n && all_names ns

-- The names of a path that fits in `outsz` bytes.
pub record IsStack (outsz : ℕ) (st : List (List ℕ)) : Type 0 where
  pub names : all_names st ≡ true
  pub depth : length st ≤ 64
  pub fits : length (render st) < outsz

attach-parts :
    (c : ℕ) (cs : List ℕ) (parts : List (List ℕ))
    → (c == slash) ≡ false
    → all_parts parts ≡ true
    → all_parts (attach c cs parts) ≡ true
unfolding attach all_parts is_part no_slash
attach-parts c [] parts e h = simp (e, h) refl
attach-parts c (d ∷ ds) [] e h = simp e refl
attach-parts c (d ∷ ds) ([] ∷ fs) e h = absurd cc
attach-parts c (d ∷ ds) ((f ∷ g) ∷ fs) e h = elim (Bool-cases (d == slash)) [
  | inl e' ↦ simp (e', e) h
  | inr e' ↦ simp (e', e) h
]

components-parts : (p : List ℕ) → all_parts (components p) ≡ true
unfolding all_parts components
components-parts [] = refl
components-parts (c ∷ cs) = elim (Bool-cases (c == slash)) [
  | inl e ↦ ap all_parts (components-slash c cs e) ∙ components-parts cs
  | inr e ↦
      ap all_parts (components-other c cs e)
      ∙ attach-parts c cs (components cs) e (components-parts cs)
]

pub and_right : (a b : Bool) → (a && b) ≡ true → b ≡ true
and_right true b h = h
and_right false b h = absurd cc

pub and_left : (a b : Bool) → (a && b) ≡ true → a ≡ true
and_left true b h = refl
and_left false b h = absurd cc

pub some_eq : {a b : List (List ℕ)} → some a ≡ some b → a ≡ b
some_eq e = cc

pub parent-IsStack : (outsz : ℕ) (st : List (List ℕ)) → IsStack outsz st → IsStack outsz (parent st)
unfolding all_names render
parent-IsStack outsz [] s = s
parent-IsStack outsz (n ∷ ns) s = record {
  names = and_right (is_name n) (all_names ns) s.names;
  depth = omega (arith, s.depth);
  fits = omega (arith, s.fits, length-append (render ns) (slash ∷ n));
}

push-IsStack :
    (outsz : ℕ) (seg : List ℕ) (st : List (List ℕ))
    → is_part seg ≡ true
    → is_dot seg ≡ false
    → is_dot_dot seg ≡ false
    → leb 64 (length st) ≡ false
    → leb outsz (length (render st) + 1 + length seg) ≡ false
    → IsStack outsz st
    → IsStack outsz (seg ∷ st)
unfolding all_names is_name render
push-IsStack outsz seg st part no_dot no_dots flat short s = record {
  names = simp (part, no_dot, no_dots) s.names;
  depth = omega (arith, leb_false→lt 64 (length st) flat);
  fits = omega (
    arith,
    leb_false→lt outsz (length (render st) + 1 + length seg) short,
    length-append (render st) (slash ∷ seg),
  );
}

follow-IsStack :
    (outsz : ℕ) (seg : List ℕ) (st st' : List (List ℕ))
    → is_part seg ≡ true
    → IsStack outsz st
    → follow outsz seg st ≡ some st'
    → IsStack outsz st'
unfolding follow
follow-IsStack outsz seg st st' part s =
    if_cases P (is_dot seg) (λ e h. subst (IsStack outsz) (some_eq h) s)
      (λ e.
        if_cases P (is_dot_dot seg)
          (λ e' h. subst (IsStack outsz) (some_eq h) (parent-IsStack outsz st s))
          (λ e'.
            if_cases P (leb 64 (length st)) (λ d h. absurd cc)
              (λ d.
                if_cases P (leb outsz (length (render st) + 1 + length seg)) (λ f h. absurd cc)
                  (λ f h.
                    subst (IsStack outsz) (some_eq h)
                      (push-IsStack outsz seg st part e e' d f s)))))
  where
    P : Option (List (List ℕ)) → Type 0
    P o = o ≡ some st' → IsStack outsz st'

follow_all-IsStack :
    (outsz : ℕ) (segs st st' : List (List ℕ))
    → all_parts segs ≡ true
    → IsStack outsz st
    → follow_all outsz segs st ≡ some st'
    → IsStack outsz st'
unfolding follow_all all_parts
follow_all-IsStack outsz [] st st' h s e = subst (IsStack outsz) (some_eq e) s
follow_all-IsStack outsz (seg ∷ segs) st st' h s e = elim (Option-cases (follow outsz seg st)) [
  | inl stuck ↦ absurd (let clash = sym (follow_all_stops outsz seg segs st stuck) ∙ e in cc)
  | inr (st1, on) ↦
      follow_all-IsStack outsz segs st1 st' (and_right (is_part seg) (all_parts segs) h)
        (follow-IsStack outsz seg st st1 (and_left (is_part seg) (all_parts segs) h) s on)
        (sym (follow_all_goes_on outsz seg segs st st1 on) ∙ e)
]

pub empty-IsStack : (outsz : ℕ) → 2 ≤ outsz → IsStack outsz []
unfolding render all_names
empty-IsStack outsz room = record { names = refl; depth = omega arith; fits = omega arith }

abbrev pub path_of : Normalized → List ℕ
path_of no_fuel = []
path_of failed = []
path_of (written r) = r

-- A path that `normalize_abs_path` writes into a buffer of two bytes at least is "/", or made of at
-- most 64 names, each behind a slash, none of them empty, "." or "..", that fit with the final zero.
pub normalize_abs_path-IsStack :
    (p : List ℕ) (outsz : ℕ) (r : List ℕ)
    → 2 ≤ outsz
    → normalize_abs_path p outsz ≡ written r
    → (st : List (List ℕ)) × (r ≡ or_root (render st)) × IsStack outsz st
normalize_abs_path-IsStack p outsz r room e =
    go (follow_all outsz (components p) []) refl (sym (normalize_abs_path-follow p outsz room) ∙ e)
  where
    go :
        (o : Option (List (List ℕ)))
        → follow_all outsz (components p) [] ≡ o
        → answer o ≡ written r
        → (st : List (List ℕ)) × (r ≡ or_root (render st)) × IsStack outsz st
    go none e1 e2 = absurd cc
    go (some st) e1 e2 = (
      st,
      sym (ap path_of e2),
      follow_all-IsStack outsz (components p) [] st (components-parts p) (empty-IsStack outsz room)
          e1,
    )
