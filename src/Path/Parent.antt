-- ===== src/Path/Parent.antt =====
-- `abs_path_parent_dir` on the paths that `normalize_abs_path` writes.
use mona_rpzero.Prelude.{
  ℕ, zero, suc, ◌+◌, ◌-◌, ◌<◌, ◌≡◌, refl, ap, ◌∙◌, true, false, not, ◌&&◌, List, [], ◌∷◌, ◌++◌,
  Option, none, some, ◌==◌, if◌then◌else◌, length, length-append, take, take-length_append, get_or,
  arith, le→ltb_false, ok, ==_ne,
}
use mona_rpzero.Path.{slash, or_root, trim_loop, last_slash, cut_at, abs_path_parent_dir}
use mona_rpzero.Path.Names.{render}
use mona_rpzero.Path.Stack.{no_slash, is_part, IsStack}
use mona_rpzero.Path.Again.{name_parts, first_name}

get_or-append : (xs ys : List ℕ) (k : ℕ) → get_or (xs ++ ys) (length xs + k) 0 ≡ get_or ys k 0
get_or-append [] ys k = ap (λ i. get_or ys i 0) (omega arith)
get_or-append (x ∷ xs) ys k =
    ap (λ i. get_or (x ∷ xs ++ ys) i 0) (shift (length xs) k) ∙ get_or-append xs ys k
  where
    shift : (a b : ℕ) → suc a + b ≡ suc (a + b)
    shift a b = omega arith

get_or-no_slash :
    (n : List ℕ) (k : ℕ) → no_slash n ≡ true → k < length n → (get_or n k 0 == slash) ≡ false
unfolding no_slash
get_or-no_slash [] k h lt = absurd (omega arith)
get_or-no_slash (c ∷ cs) zero h lt = ground arith
get_or-no_slash (c ∷ cs) (suc k) h lt = get_or-no_slash cs k (ground arith) (omega arith)

last_slash-no_slash :
    (i : ℕ) (last : Option ℕ) (n : List ℕ) → no_slash n ≡ true → last_slash i last n ≡ last
unfolding no_slash last_slash
last_slash-no_slash i last [] h = refl
last_slash-no_slash i last (c ∷ cs) h =
    ap (λ b. last_slash (i + 1) (if b then some i else last) cs) (not_slash h)
    ∙ last_slash-no_slash (i + 1) last cs (ground arith)
  where
    not_slash : not (c == slash) && no_slash cs ≡ true → (c == slash) ≡ false
    not_slash e = ground arith

last_slash-append :
    (i : ℕ) (last : Option ℕ) (xs n : List ℕ)
    → no_slash n ≡ true
    → last_slash i last (xs ++ slash ∷ n) ≡ some (i + length xs)
unfolding last_slash
last_slash-append i last [] n h = last_slash-no_slash (i + 1) (some i) n h ∙ ap some (omega arith)
last_slash-append i last (c ∷ cs) n h =
    last_slash-append (i + 1) (if c == slash then some i else last) cs n h ∙ ap some (omega arith)

-- The path of a name in a directory.
abbrev child : List ℕ → List ℕ → List ℕ
child dir n = dir ++ slash ∷ n

take_all : (xs : List ℕ) (m : ℕ) → length xs ≡ m → take m xs ≡ xs
take_all [] zero e = refl
take_all [] (suc m) e = refl
take_all (x ∷ xs) zero e = absurd (omega arith)
take_all (x ∷ xs) (suc m) e = ap (λ l. x ∷ l) (take_all xs m (omega arith))

-- A string that does not end with a slash is not trimmed.
trim_keeps :
    (k least : ℕ) (out : List ℕ)
    → length out ≡ least + k + 1
    → (get_or out (least + k) 0 == slash) ≡ false
    → trim_loop (suc k) least out ≡ out
unfolding trim_loop
trim_keeps k least out e h = rw h (take_all out (least + k + 1) e)

child_end :
    (dir n : List ℕ) (k : ℕ)
    → no_slash n ≡ true
    → length n ≡ k + 1
    → (get_or (child dir n) (1 + (length dir + k)) 0 == slash) ≡ false
child_end dir n k h e =
    ap (λ c. c == slash)
      (ap (λ i. get_or (child dir n) i 0) (omega arith) ∙ get_or-append dir (slash ∷ n) (suc k))
    ∙ get_or-no_slash n k h (omega arith)

trim-child :
    (dir n : List ℕ) (k : ℕ)
    → no_slash n ≡ true
    → length n ≡ k + 1
    → trim_loop (length (child dir n) - 1) 1 (child dir n) ≡ child dir n
trim-child dir n k h e =
    ap (λ m. trim_loop m 1 (child dir n)) (omega (arith, length-append dir (slash ∷ n)))
    ∙ trim_keeps (length dir + k) 1 (child dir n) (omega (arith, length-append dir (slash ∷ n)))
        (child_end dir n k h e)

cut-child : (dir n : List ℕ) → cut_at (child dir n) (some (length dir)) ≡ ok (or_root dir)
unfolding cut_at or_root
cut-child [] n = refl
cut-child (c ∷ cs) n =
    simp (==_ne (length (c ∷ cs)) 0 (λ z. omega arith))
      (ap ok (take-length_append (c ∷ cs) (slash ∷ n)))

-- The parent of a name in a directory, in a buffer that the whole path fits in.
parent-child :
    (dir n : List ℕ) (k outsz : ℕ)
    → no_slash n ≡ true
    → length n ≡ k + 1
    → length (child dir n) < outsz
    → abs_path_parent_dir (some (child dir n)) outsz ≡ ok (or_root dir)
unfolding abs_path_parent_dir
parent-child dir n k outsz h e fits =
    simp
      (
        ==_ne (length (child dir n)) 0 (λ z. omega (arith, length-append dir (slash ∷ n))),
        le→ltb_false outsz 2 (omega (arith, length-append dir (slash ∷ n))),
        le→ltb_false outsz (length (child dir n) + 1) (omega arith),
        trim-child dir n k h e,
        last_slash-append 0 none dir n h ∙ ap some (start (length dir)),
      )
      (cut-child dir n)
  where
    start : (a : ℕ) → 0 + a ≡ a
    start a = omega arith

or_root-child : (dir n : List ℕ) → or_root (child dir n) ≡ child dir n
unfolding or_root
or_root-child [] n = refl
or_root-child (c ∷ cs) n = refl

part-no_slash :
    (n : List ℕ) → is_part n ≡ true → (no_slash n ≡ true) × ((k : ℕ) × (length n ≡ k + 1))
unfolding is_part
part-no_slash [] h = absurd cc
part-no_slash (c ∷ cs) h = (h, (length cs, omega arith))

-- Of a path of at least one name, as `normalize_abs_path` writes it, `abs_path_parent_dir` gives the path
-- of the names but the last, "/" if there is no other, in any buffer that the path itself fits in.
pub abs_path_parent_dir-render :
    (outsz : ℕ) (n : List ℕ) (ns : List (List ℕ))
    → IsStack outsz (n ∷ ns)
    → abs_path_parent_dir (some (or_root (render (n ∷ ns)))) outsz ≡ ok (or_root (render ns))
unfolding render
abs_path_parent_dir-render outsz n ns s =
    let (plain, (k, e)) = part-no_slash n ((name_parts n (first_name outsz n ns s)).0) in
    ap (λ p. abs_path_parent_dir (some p) outsz) (or_root-child (render ns) n)
    ∙ parent-child (render ns) n k outsz plain e s.fits
