-- ===== src/Mmap/Round.antt =====
-- One round of the loop of `sys_munmap`: which addresses stay covered.
use mona_rpzero.Prelude.{
  ℕ, ◌+◌, ◌≤◌, ◌<◌, ◌≡◌, sym, ◌∙◌, ◌≢◌, ◌↔◌, ◌⊎◌, inl, inr, true, false, Table, get, put,
  get-put_self, get-put_ne, put_cases, ltb, if◌then◌else◌, arith, subst, ℕ_discrete,
}
use mona_rpzero.Mmap.{Vma}
use mona_rpzero.Mmap.Areas.{IsArea, AreAreas, In, Covered, Apart, put-AreAreas}
use mona_rpzero.Mmap.Cuts.{Outside, Within}

-- What one round at area `i` has done to the table.
pub record IsCutAt (t : Table Vma) (i lo hi : ℕ) (t' : Table Vma) : Type 0 where
  pub valid : AreAreas t'
  pub fewer : (a : ℕ) → Covered t' a → Covered t a
  pub others_stay : (a : ℕ) → Covered t a → Outside lo hi a → Covered t' a
  pub gone : (a : ℕ) → In (get t' i) a → Outside lo hi a
  pub same_or_outside : (k a : ℕ) → k ≢ i → In (get t' k) a → In (get t k) a ⊎ Outside lo hi a

-- An address of the range that was covered, and is no more.
abbrev pub Removed : Table Vma → ℕ → ℕ → Table Vma → Type 0
Removed t lo hi t' = (a : ℕ) × (lo ≤ a) × (a < hi) × Covered t a × (Covered t' a → ⊥)

Within-Apart : (w v x : Vma) → Within w v → Apart v x → Apart w x
Within-Apart w v x h (inl l) = inl (omega arith)
Within-Apart w v x h (inr r) = inr (omega arith)

pub not_both : (v w : Vma) (a : ℕ) → Apart v w → In v a → In w a → ⊥
not_both v w a (inl h) x y = omega arith
not_both v w a (inr h) x y = omega arith

module _ (t : Table Vma) (areas : AreAreas t) (i lo hi : ℕ) (lt : i < 32) (range : lo < hi)
    (used : (get t i).used ≡ true) where
  -- The lowest address of the range in area `i`, which no other area covers.
  low : ℕ
  low = if ltb (get t i).base lo then lo else (get t i).base

  low_lem :
      (get t i).base < hi
      → lo < (get t i).base + (get t i).len
      → (lo ≤ low) × (low < hi) × ((get t i).base ≤ low) × (low < (get t i).base + (get t i).len)
  unfolding low
  low_lem before after = ground (arith, (areas.each i lt used).some_bytes)

  pub removes :
      (t' : Table Vma)
      → IsCutAt t i lo hi t'
      → (get t i).base < hi
      → lo < (get t i).base + (get t i).len
      → Removed t lo hi t'
  removes t' c before after =
      let (ge, below, from, to) = low_lem before after in
      (
        low,
        ge,
        below,
        (i, lt, (used, from, to)),
        λ (k, k_lt, h). elim (ℕ_discrete k i) [
          | yes e ↦ inside (c.gone low (subst (λ x. In (get t' x) low) e h))
          | no ne ↦ elim (c.same_or_outside k low ne h) [
            | inl h' ↦
                not_both (get t k) (get t i) low (areas.apart k i k_lt lt ne h'.0 used) h'
                  (used, from, to)
            | inr o ↦ inside o
          ]
        ],
      )
    where
      inside : Outside lo hi low → ⊥
      inside o = absurd (ground (arith, low_lem))

  pub shrink-IsCutAt :
      (w : Vma)
      → (w.used ≡ true → IsArea w × Within w (get t i))
      → ((a : ℕ) → In w a ↔ (In (get t i) a × Outside lo hi a))
      → IsCutAt t i lo hi (put t i w)
  shrink-IsCutAt w is_area same = record {
    valid =
        put-AreAreas t i w areas (λ u. (is_area u).0)
          (λ j j_lt ne u j_used.
            Within-Apart w (get t i) (get t j) (is_area u).1
              (areas.apart i j lt j_lt (λ e. ne (sym e)) used j_used));
    fewer = λ a (k, k_lt, h).
        put_cases (λ x. In x a → Covered t a) t i w k (λ e x. (i, lt, ((same a).0 x).0))
          (λ ne x. (k, k_lt, x)) h;
    others_stay = λ a (k, k_lt, h) o. elim (ℕ_discrete k i) [
      | yes e ↦ (
        i,
        lt,
        subst (λ x. In x a) (sym (get-put_self t i w))
            ((same a).1 (subst (λ x. In (get t x) a) e h, o)),
      )
      | no ne ↦ (k, k_lt, subst (λ x. In x a) (sym (get-put_ne t i k w ne)) h)
    ];
    gone = λ a h. ((same a).0 (subst (λ x. In x a) (get-put_self t i w) h)).1;
    same_or_outside = λ k a ne h. inl (subst (λ x. In x a) (get-put_ne t i k w ne) h);
  }

  module _ (slot : ℕ) (slot_lt : slot < 32) (free : (get t slot).used ≡ false) (l r : Vma)
      (is_l : (l.used ≡ true) × IsArea l × Within l (get t i))
      (is_r : (r.used ≡ true) × IsArea r × Within r (get t i)) (apart : Apart l r)
      (both : (a : ℕ) → (In l a ⊎ In r a) ↔ (In (get t i) a × Outside lo hi a)) where
    slot_ne : (k a : ℕ) → In (get t k) a → k ≢ slot
    slot_ne k a h e = clash (sym (subst (λ x. (get t x).used ≡ true) e h.0) ∙ free)
      where
        clash : true ≡ false → ⊥
        clash x = cc

    unfoldable pub mid : Table Vma
    mid = put t i l

    mid-AreAreas : AreAreas mid
    unfolding mid
    mid-AreAreas =
        put-AreAreas t i l areas (λ u. is_l.1)
          (λ j j_lt ne u j_used.
            Within-Apart l (get t i) (get t j) is_l.2
              (areas.apart i j lt j_lt (λ e. ne (sym e)) used j_used))

    r-Apart : (j : ℕ) → j < 32 → (get mid j).used ≡ true → Apart r (get mid j)
    unfolding mid
    r-Apart j j_lt =
        put_cases (λ x. x.used ≡ true → Apart r x) t i l j (λ e u. swap apart)
          (λ ne u.
            Within-Apart r (get t i) (get t j) is_r.2
              (areas.apart i j lt j_lt (λ e. ne (sym e)) used u))
      where
        swap : Apart l r → Apart r l
        swap (inl h) = inr h
        swap (inr h) = inl h

    pub split-IsCutAt : IsCutAt t i lo hi (put mid slot r)
    unfolding mid
    split-IsCutAt = record {
      valid =
          put-AreAreas mid slot r mid-AreAreas (λ u. is_r.1)
            (λ j j_lt ne u j_used. r-Apart j j_lt j_used);
      fewer = λ a (k, k_lt, h).
          put_cases (λ x. In x a → Covered t a) mid slot r k
            (λ e x. (i, lt, ((both a).0 (inr x)).0))
            (λ ne x.
              put_cases (λ y. In y a → Covered t a) t i l k (λ e y. (i, lt, ((both a).0 (inl y)).0))
                (λ ne' y. (k, k_lt, y)) x)
            h;
      others_stay = λ a (k, k_lt, h) o. elim (ℕ_discrete k i) [
        | yes e ↦ elim ((both a).1 (subst (λ x. In (get t x) a) e h, o)) [
          | inl x ↦ (
            i,
            lt,
            subst (λ y. In y a)
                (sym (
                  get-put_ne mid slot i r (slot_ne i a ((both a).0 (inl x)).0)
                  ∙ get-put_self t i l))
                x,
          )
          | inr x ↦ (slot, slot_lt, subst (λ y. In y a) (sym (get-put_self mid slot r)) x)
        ]
        | no ne ↦ (
          k,
          k_lt,
          subst (λ x. In x a)
              (sym (get-put_ne mid slot k r (slot_ne k a h) ∙ get-put_ne t i k l ne)) h,
        )
      ];
      gone = λ a.
          put_cases (λ x. In x a → Outside lo hi a) mid slot r i (λ e x. ((both a).0 (inr x)).1)
            (λ ne x. ((both a).0 (inl (subst (λ y. In y a) (get-put_self t i l) x))).1);
      same_or_outside = λ k a ne.
          put_cases (λ x. In x a → In (get t k) a ⊎ Outside lo hi a) mid slot r k
            (λ e x. inr ((both a).0 (inr x)).1)
            (λ ne' x. inl (subst (λ y. In y a) (get-put_ne t i k l ne) x));
    }
