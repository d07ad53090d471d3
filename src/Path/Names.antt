-- ===== src/Path/Names.antt =====
-- The abstract view of a path: the list of its components, and the stack of names it leads through.
use mona_rpzero.Prelude.{
  ℕ, ◌+◌, ◌≤◌, ◌≡◌, refl, sym, ap, ◌∙◌, Bool, true, false, List, [], ◌∷◌, ◌++◌, Option, none, some,
  leb, ◌==◌, if◌then◌else◌, length, take-length_append, arith, Bool-cases, lt→ltb, le→ltb_false,
  lt→leb_false, leb→le, leb_false→lt, inl, inr, subst,
}
use mona_rpzero.Path.{
  slash, skip_slashes, take_segment, is_dot, is_dot_dot, Output, pop_segment, push_segment,
  segment_step,
}

unfoldable pub attach : ℕ → List ℕ → List (List ℕ) → List (List ℕ)
attach c [] parts = (c ∷ []) ∷ parts
attach c (d ∷ ds) [] = (c ∷ []) ∷ []
attach c (d ∷ ds) (f ∷ fs) = if d == slash then (c ∷ []) ∷ f ∷ fs else (c ∷ f) ∷ fs

-- The parts of a path between its slashes, without the empty ones.
unfoldable pub components : List ℕ → List (List ℕ)
unfolding attach
components [] = []
components (c ∷ cs) = let parts = components cs in if c == slash then parts else attach c cs parts

-- The path of a stack of names, the last name first.
unfoldable pub render : List (List ℕ) → List ℕ
render [] = []
render (n ∷ ns) = render ns ++ slash ∷ n

unfoldable pub offsets : List (List ℕ) → List ℕ
unfolding render
offsets [] = []
offsets (n ∷ ns) = length (render ns) ∷ offsets ns

abbrev pub output_of : List (List ℕ) → Output
output_of st = record { out = render st; slashes = offsets st }

abbrev pub parent : List (List ℕ) → List (List ℕ)
parent [] = []
parent (n ∷ ns) = ns

-- What one component does to the names; `outsz` bytes hold the path and its zero, for 64 names at most.
unfoldable pub follow : ℕ → List ℕ → List (List ℕ) → Option (List (List ℕ))
follow outsz seg st =
    if is_dot seg
    then some st
    else if is_dot_dot seg
    then some (parent st)
    else if leb 64 (length st)
    then none
    else if leb outsz (length (render st) + 1 + length seg)
    then none
    else some (seg ∷ st)

unfoldable pub follow_all : ℕ → List (List ℕ) → List (List ℕ) → Option (List (List ℕ))
follow_all outsz [] st = some st
follow_all outsz (seg ∷ segs) st = elim (follow outsz seg st) [
  | none ↦ none
  | some st' ↦ follow_all outsz segs st'
]

pub skip_slashes-slash :
    (c : ℕ) (cs : List ℕ) → (c == slash) ≡ true → skip_slashes (c ∷ cs) ≡ skip_slashes cs
unfolding skip_slashes
skip_slashes-slash c cs e = rw e refl

pub skip_slashes-other :
    (c : ℕ) (cs : List ℕ) → (c == slash) ≡ false → skip_slashes (c ∷ cs) ≡ c ∷ cs
unfolding skip_slashes
skip_slashes-other c cs e = rw e refl

pub components-slash :
    (c : ℕ) (cs : List ℕ) → (c == slash) ≡ true → components (c ∷ cs) ≡ components cs
unfolding components
components-slash c cs e = rw e refl

pub components-other :
    (c : ℕ) (cs : List ℕ) → (c == slash) ≡ false → components (c ∷ cs) ≡ attach c cs (components cs)
unfolding components
components-other c cs e = rw e refl

pub attach-slash :
    (c d : ℕ) (ds : List ℕ) (parts : List (List ℕ))
    → (d == slash) ≡ true
    → attach c (d ∷ ds) parts ≡ (c ∷ []) ∷ parts
unfolding attach
attach-slash c d ds [] e = refl
attach-slash c d ds (f ∷ fs) e = rw e refl

pub attach-other :
    (c d : ℕ) (ds f : List ℕ) (fs : List (List ℕ))
    → (d == slash) ≡ false
    → attach c (d ∷ ds) (f ∷ fs) ≡ (c ∷ f) ∷ fs
unfolding attach
attach-other c d ds f fs e = rw e refl

take_segment-slash :
    (c : ℕ) (cs : List ℕ) → (c == slash) ≡ true → take_segment (c ∷ cs) ≡ ([], c ∷ cs)
unfolding take_segment
take_segment-slash c cs e = rw e refl

take_segment-other :
    (c : ℕ) (cs : List ℕ)
    → (c == slash) ≡ false
    → take_segment (c ∷ cs) ≡ (c ∷ (take_segment cs).0, (take_segment cs).1)
unfolding take_segment
take_segment-other c cs e = rw e refl

pub components-skip_slashes : (p : List ℕ) → components (skip_slashes p) ≡ components p
unfolding skip_slashes
components-skip_slashes [] = refl
components-skip_slashes (c ∷ cs) = elim (Bool-cases (c == slash)) [
  | inl e ↦
      ap components (skip_slashes-slash c cs e)
      ∙ components-skip_slashes cs
      ∙ sym (components-slash c cs e)
  | inr e ↦ ap components (skip_slashes-other c cs e)
]

abbrev parts_of : List ℕ × List ℕ → List (List ℕ)
parts_of (seg, rest) = seg ∷ components rest

-- The first segment is the first component, and the others are those of the rest.
pub components-take_segment :
    (c : ℕ) (cs : List ℕ)
    → (c == slash) ≡ false
    → components (c ∷ cs) ≡ (take_segment (c ∷ cs)).0 ∷ components (take_segment (c ∷ cs)).1
unfolding components take_segment attach
components-take_segment c [] e = rw e refl
components-take_segment c (d ∷ ds) e =
    components-other c (d ∷ ds) e ∙ elim (Bool-cases (d == slash)) [
      | inl e' ↦
          attach-slash c d ds (components (d ∷ ds)) e'
          ∙ sym (
              ap parts_of (
                take_segment-other c (d ∷ ds) e
                ∙ ap (λ t. (c ∷ t.0, t.1)) (take_segment-slash d ds e')))
      | inr e' ↦
          ap (attach c (d ∷ ds)) (components-take_segment d ds e')
          ∙ attach-other c d ds (take_segment (d ∷ ds)).0 (components (take_segment (d ∷ ds)).1) e'
          ∙ sym (ap parts_of (take_segment-other c (d ∷ ds) e))
    ]

length-take_segment_any : (cs : List ℕ) → length (take_segment cs).1 ≤ length cs
unfolding take_segment
length-take_segment_any [] = omega arith
length-take_segment_any (c ∷ cs) = elim (Bool-cases (c == slash)) [
  | inl e ↦
      subst (λ t. length t.1 ≤ length (c ∷ cs)) (sym (take_segment-slash c cs e)) (omega arith)
  | inr e ↦
      subst (λ t. length t.1 ≤ length (c ∷ cs)) (sym (take_segment-other c cs e))
        (omega (arith, length-take_segment_any cs))
]

-- A segment that does not start with a slash takes a byte at least.
pub length-take_segment :
    (c : ℕ) (cs : List ℕ) → (c == slash) ≡ false → length (take_segment (c ∷ cs)).1 ≤ length cs
length-take_segment c cs e =
    subst (λ t. length t.1 ≤ length cs) (sym (take_segment-other c cs e))
      (length-take_segment_any cs)

pub length-skip_slashes : (p : List ℕ) → length (skip_slashes p) ≤ length p
unfolding skip_slashes
length-skip_slashes [] = omega arith
length-skip_slashes (c ∷ cs) = elim (Bool-cases (c == slash)) [
  | inl e ↦
      subst (λ q. length q ≤ length (c ∷ cs)) (sym (skip_slashes-slash c cs e))
        (omega (arith, length-skip_slashes cs))
  | inr e ↦ subst (λ q. length q ≤ length (c ∷ cs)) (sym (skip_slashes-other c cs e)) (omega arith)
]

-- What is left starts with no slash.
pub skip_slashes-head :
    (p : List ℕ) {c : ℕ} {cs : List ℕ} → skip_slashes p ≡ c ∷ cs → (c == slash) ≡ false
unfolding skip_slashes
skip_slashes-head [] e = absurd cc
skip_slashes-head (d ∷ ds) {c} {cs} e = elim (Bool-cases (d == slash)) [
  | inl h ↦ skip_slashes-head ds (sym (skip_slashes-slash d ds h) ∙ e)
  | inr h ↦
      let both = sym (skip_slashes-other d ds h) ∙ e in
      let same : d ≡ c = cc in subst (λ k. (k == slash) ≡ false) same h
]

pub length-offsets : (st : List (List ℕ)) → length (offsets st) ≡ length st
unfolding offsets
length-offsets [] = refl
length-offsets (n ∷ ns) = omega (arith, length-offsets ns)

abbrev pub outputs : Option (List (List ℕ)) → Option Output
outputs none = none
outputs (some st) = some (output_of st)

pop-parent : (st : List (List ℕ)) → pop_segment (output_of st) ≡ output_of (parent st)
unfolding pop_segment offsets render
pop-parent [] = refl
pop-parent (n ∷ ns) =
    ap (λ o. record { out = o; slashes = offsets ns }) (take-length_append (render ns) (slash ∷ n))

push-follow :
    (outsz : ℕ) (seg : List ℕ) (st : List (List ℕ))
    → push_segment outsz seg (output_of st)
      ≡ outputs (
          if leb 64 (length st)
          then none
          else if leb outsz (length (render st) + 1 + length seg)
          then none
          else some (seg ∷ st))
unfolding push_segment render offsets
push-follow outsz seg st = elim (Bool-cases (leb 64 (length st))) [
  | inl deep ↦ elim (Bool-cases (leb outsz (length (render st) + 1))) [
    | inl e ↦ rw (deep, e) refl
    | inr e ↦
        simp (deep, e, length-offsets st, le→ltb_false (length st) 64 (leb→le 64 (length st) deep))
          refl
  ]
  | inr flat ↦ elim (Bool-cases (leb outsz (length (render st) + 1 + length seg))) [
    | inl long ↦ elim (Bool-cases (leb outsz (length (render st) + 1))) [
      | inl e ↦ simp (flat, e, long) refl
      | inr e ↦
          simp
            (
              flat,
              e,
              long,
              length-offsets st,
              lt→ltb (length st) 64 (leb_false→lt 64 (length st) flat),
            )
            refl
    ]
    | inr short ↦
        simp
          (
            flat,
            short,
            length-offsets st,
            lt→ltb (length st) 64 (leb_false→lt 64 (length st) flat),
            lt→leb_false outsz (length (render st) + 1)
                (omega (arith, leb_false→lt outsz (length (render st) + 1 + length seg) short)),
          )
          refl
  ]
]

outputs-if :
    (b : Bool) (x y : Option Output) (x' y' : Option (List (List ℕ)))
    → x ≡ outputs x'
    → y ≡ outputs y'
    → (if b then x else y) ≡ outputs (if b then x' else y')
outputs-if true x y x' y' h k = h
outputs-if false x y x' y' h k = k

-- One round of the loop does to the buffer what the component does to the names.
pub segment_step-follow :
    (outsz : ℕ) (seg : List ℕ) (st : List (List ℕ))
    → segment_step outsz seg (output_of st) ≡ outputs (follow outsz seg st)
unfolding segment_step follow
segment_step-follow outsz seg st = outputs-if (is_dot seg) _ _ (some st) _ refl (
    outputs-if (is_dot_dot seg) _ _ (some (parent st)) _ (ap some (pop-parent st))
      (push-follow outsz seg st))

pub components_nil : components [] ≡ []
unfolding components
components_nil = refl

pub follow_all_stops :
    (outsz : ℕ) (seg : List ℕ) (segs st : List (List ℕ))
    → follow outsz seg st ≡ none
    → follow_all outsz (seg ∷ segs) st ≡ none
unfolding follow_all
follow_all_stops outsz seg segs st e = rw (e, follow_all) refl

pub follow_all_goes_on :
    (outsz : ℕ) (seg : List ℕ) (segs st st' : List (List ℕ))
    → follow outsz seg st ≡ some st'
    → follow_all outsz (seg ∷ segs) st ≡ follow_all outsz segs st'
unfolding follow_all
follow_all_goes_on outsz seg segs st st' e = rw (e, follow_all) refl
