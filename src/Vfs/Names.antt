-- ===== src/Vfs/Names.antt =====
-- The name tables of vfs.c: what the search for a path finds after one slot is written. Directories
-- and files share these lemmas.
use mona_rpzero.Prelude.{
  ℕ, ◌<◌, ◌≡◌, refl, sym, ap, ◌∙◌, ◌≢◌, inl, inr, Bool, true, false, List, [], ◌∷◌, Option, none,
  some, Bool-cases, if◌then◌else◌, Table, get, put, get-put_self, get-put_ne, first, first-IsFirst,
  first-none, first-eq-none, first_unique, arith, ℕ_discrete, fun_ext,
}
use mona_rpzero.Vfs.{cstr_eq}

pub cstr_eq→eq : (a b : List ℕ) → cstr_eq a b ≡ true → a ≡ b
unfolding cstr_eq
cstr_eq→eq [] [] h = refl
cstr_eq→eq [] (b ∷ bs) h = cc
cstr_eq→eq (a ∷ as') [] h = cc
cstr_eq→eq (a ∷ as') (b ∷ bs) h = ground (arith, cstr_eq→eq as' bs)

pub cstr_eq_self : (a : List ℕ) → cstr_eq a a ≡ true
unfolding cstr_eq
cstr_eq_self [] = refl
cstr_eq_self (a ∷ as') = ground (arith, cstr_eq_self as')

-- `hit path e` tells whether the slot `e` is used for `path`; the table has `n` slots.
module _ {E : Type 0} (hit : List ℕ → E → Bool) (n : ℕ) where
  abbrev pub find : Table E → List ℕ → Option ℕ
  find t path = first (λ i. hit path (get t i)) 0 n

  -- No path has two slots.
  abbrev pub AreUnique : Table E → Type 0
  AreUnique t =
      (path : List ℕ) (i j : ℕ)
      → i < n
      → j < n
      → hit path (get t i) ≡ true
      → hit path (get t j) ≡ true
      → i ≡ j

  pub find_hit :
      (t : Table E) (path : List ℕ) (i : ℕ)
      → AreUnique t
      → i < n
      → hit path (get t i) ≡ true
      → find t path ≡ some i
  find_hit t path i u lt h =
      first_unique (λ k. hit path (get t k)) n i lt h (λ j lt' h'. u path j i lt' lt h' h)

  pub find-some :
      (t : Table E) (path : List ℕ) {i : ℕ}
      → find t path ≡ some i
      → (i < n) × (hit path (get t i) ≡ true)
  find-some t path e =
      let f = first-IsFirst (λ k. hit path (get t k)) 0 n e in (omega (arith, f.below), f.passes)

  pub find-none :
      (t : Table E) (path : List ℕ)
      → find t path ≡ none
      → (i : ℕ) → i < n
      → hit path (get t i) ≡ false
  find-none t path e i lt = first-none (λ k. hit path (get t k)) 0 n e i (omega arith) (omega arith)

  -- The path of the written slot belongs to no other slot.
  abbrev pub IsNew : Table E → ℕ → E → Type 0
  IsNew t slot e =
      (path : List ℕ) (j : ℕ) → hit path e ≡ true → j < n → j ≢ slot → hit path (get t j) ≡ false

  pub put-AreUnique :
      (t : Table E) (slot : ℕ) (e : E) → AreUnique t → IsNew t slot e → AreUnique (put t slot e)
  put-AreUnique t slot e u new path i j hi hj a b = elim (ℕ_discrete i slot) [
    | yes ei ↦ elim (ℕ_discrete j slot) [
      | yes ej ↦ omega arith
      | no nj ↦
          let there = ap (hit path) (sym (ap (get (put t slot e)) ei ∙ get-put_self t slot e)) in
          let other = ap (hit path) (get-put_ne t slot j e nj) in
          absurd (clash (sym other ∙ b) (new path j (there ∙ a) hj nj))
    ]
    | no ni ↦ elim (ℕ_discrete j slot) [
      | yes ej ↦
          let there = ap (hit path) (sym (ap (get (put t slot e)) ej ∙ get-put_self t slot e)) in
          let other = ap (hit path) (get-put_ne t slot i e ni) in
          absurd (clash (sym other ∙ a) (new path i (there ∙ b) hi ni))
      | no nj ↦
          u path i j hi hj (sym (ap (hit path) (get-put_ne t slot i e ni)) ∙ a)
            (sym (ap (hit path) (get-put_ne t slot j e nj)) ∙ b)
    ]
  ]
    where
      clash : {b : Bool} → b ≡ true → b ≡ false → ⊥
      clash p q = cc

  -- The search after a slot is written: the new path leads to the slot, the slot's old path to
  -- nothing, and every other path where it led before.
  pub find-put :
      (t : Table E) (slot : ℕ) (e : E) (path : List ℕ)
      → AreUnique t
      → IsNew t slot e
      → slot < n
      → find (put t slot e) path
        ≡ (if hit path e then some slot else if hit path (get t slot) then none else find t path)
  find-put t slot e path u new lt = elim (Bool-cases (hit path e)) [
    | inl here ↦
        find_hit (put t slot e) path slot (put-AreUnique t slot e u new) lt
          (ap (hit path) (get-put_self t slot e) ∙ here)
        ∙ rw here refl
    | inr away ↦ elim (Bool-cases (hit path (get t slot))) [
      | inl was ↦
          first-eq-none (λ k. hit path (get (put t slot e) k)) 0 n
            (λ j lo hi. gone away was j (omega arith))
          ∙ rw (away, was) refl
      | inr not_was ↦ ap (λ p. first p 0 n) (fun_ext (same away not_was)) ∙ rw (away, not_was) refl
    ]
  ]
    where
      gone :
          hit path e ≡ false
          → hit path (get t slot) ≡ true
          → (j : ℕ) → j < n
          → hit path (get (put t slot e) j) ≡ false
      gone away was j hj = elim (ℕ_discrete j slot) [
        | yes ej ↦ ap (hit path) (ap (get (put t slot e)) ej ∙ get-put_self t slot e) ∙ away
        | no nj ↦
            ap (hit path) (get-put_ne t slot j e nj) ∙ elim (Bool-cases (hit path (get t j))) [
              | inl also ↦ absurd (nj (u path j slot hj lt also was))
              | inr miss ↦ miss
            ]
      ]

      same :
          hit path e ≡ false
          → hit path (get t slot) ≡ false
          → (j : ℕ) → hit path (get (put t slot e) j) ≡ hit path (get t j)
      same away not_was j = elim (ℕ_discrete j slot) [
        | yes ej ↦
            ap (hit path) (ap (get (put t slot e)) ej ∙ get-put_self t slot e)
            ∙ away
            ∙ sym (ap (λ k. hit path (get t k)) ej ∙ not_was)
        | no nj ↦ ap (hit path) (get-put_ne t slot j e nj)
      ]
