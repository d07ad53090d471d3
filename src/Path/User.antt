-- ===== src/Path/User.antt =====
-- The check of a range of user addresses, and the copy of a string from there.
use mona_rpzero.Prelude.{
  ℕ, zero, suc, ◌+◌, ◌^◌, ◌≤◌, ◌<◌, ◌≡◌, refl, sym, ◌∙◌, ◌↔◌, true, false, not, List, [], ◌∷◌,
  Option, none, some, ◌==◌, if◌then◌else◌, if_cases, Table, get, length, add64, arith, inl, inr,
  ◌⊎◌, Bool-cases, ==_ne, subst,
}
use mona_rpzero.Path.{
  user_range_ok, user_region_base, user_region_size, copy_loop, cons_byte, copy_cstr_from_user,
}

-- `user_range_ok` of 64-bit numbers holds exactly for the empty range and for ranges that lie in the
-- user region as a whole, without wrapping round.
pub user_range_ok_iff :
    (user_ptr len : ℕ)
    → user_ptr < 2 ^ 64
    → len < 2 ^ 64
    → (user_range_ok user_ptr len ≡ true) ↔ (
        (len ≡ 0)
        ⊎ ((user_region_base ≤ user_ptr) × (user_ptr + len ≤ user_region_base + user_region_size)))
unfolding user_range_ok
user_range_ok_iff user_ptr len p_lt len_lt = (λ h. ground arith, λ h. ground arith)

-- A byte of the user region.
abbrev pub InUser : ℕ → Type 0
InUser p = (user_region_base ≤ p) × (p < user_region_base + user_region_size)

-- At `p` user memory holds the bytes, none of them zero, and then a zero.
unfoldable pub HoldsString : Table ℕ → ℕ → List ℕ → Type 0
HoldsString mem p [] = InUser p × (get mem p ≡ 0)
HoldsString mem p (c ∷ cs) = InUser p × (get mem p ≡ c) × (0 < c) × HoldsString mem (p + 1) cs

byte_ok : (p : ℕ) → p < 2 ^ 64 → user_range_ok p 1 ≡ true → InUser p
byte_ok p lt h = ground (arith, user_range_ok_iff p 1)

byte_bad : (p : ℕ) → p < 2 ^ 64 → user_range_ok p 1 ≡ false → InUser p → ⊥
byte_bad p lt h u = ground (arith, user_range_ok_iff p 1)

add64-eq : (a b : ℕ) → a + b < 2 ^ 64 → add64 a b ≡ a + b
add64-eq a b small = omega arith

some_eq : {a b : List ℕ} → some a ≡ some b → a ≡ b
some_eq e = cc

allowed : (p : ℕ) → p < 2 ^ 64 → InUser p → user_range_ok p 1 ≡ true
allowed p lt u = elim (Bool-cases (user_range_ok p 1)) [
  | inl h ↦ h
  | inr h ↦ absurd (byte_bad p lt h u)
]

module _ (mem : Table ℕ) (user_ptr : ℕ) where
  at : ℕ → ℕ
  at i = user_ptr + i

  next : (i : ℕ) → at i + 1 ≡ at (i + 1)
  unfolding at
  next i = omega arith

  -- One round of the loop at an address below 2 ^ 64.
  round :
      (n i : ℕ)
      → at i < 2 ^ 64
      → copy_loop (suc n) mem user_ptr i ≡ (
          if not (user_range_ok (at i) 1)
          then none
          else if get mem (at i) == 0
          then some []
          else cons_byte (get mem (at i)) (copy_loop n mem user_ptr (i + 1)))
  unfolding copy_loop at
  round n i lt = rw (add64-eq user_ptr i lt) refl

  copied :
      (n i : ℕ) (s : List ℕ)
      → at i < 2 ^ 64
      → copy_loop n mem user_ptr i ≡ some s
      → (length s < n) × HoldsString mem (at i) s
  unfolding copy_loop HoldsString cons_byte
  copied zero i s lt e = absurd cc
  copied (suc n) i s lt e =
      if_cases (λ o. o ≡ some s → (length s < suc n) × HoldsString mem (at i) s)
        (not (user_range_ok (at i) 1)) (λ _ h. absurd cc)
        (λ allowed.
          let user = byte_ok (at i) lt (ground arith) in
          if_cases (λ o. o ≡ some s → (length s < suc n) × HoldsString mem (at i) s)
            (get mem (at i) == 0)
            (λ z h.
              subst (λ t. (length t < suc n) × HoldsString mem (at i) t) (some_eq h)
                (omega arith, (user, ground arith)))
            (λ nz h.
              go (copy_loop n mem user_ptr (i + 1)) user (ground arith) h
                (λ t more. copied n (i + 1) t (omega (arith, next i, user.1)) more)))
        (sym (round n i lt) ∙ e)
    where
      go :
          (o : Option (List ℕ))
          → InUser (at i)
          → 0 < get mem (at i)
          → cons_byte (get mem (at i)) o ≡ some s
          → ((t : List ℕ) → o ≡ some t → (length t < n) × HoldsString mem (at (i + 1)) t)
          → (length s < suc n) × HoldsString mem (at i) s
      go none user nz h again = absurd cc
      go (some t) user nz h again =
          let (short, holds) = again t refl in
          subst (λ t. (length t < suc n) × HoldsString mem (at i) t) (some_eq h)
            (omega arith, (user, refl, nz, subst (λ p. HoldsString mem p t) (sym (next i)) holds))

  -- The first byte, and those after it, of a string in user memory.
  copies :
      (n i : ℕ) (s : List ℕ)
      → at i < 2 ^ 64
      → length s < n
      → HoldsString mem (at i) s
      → copy_loop n mem user_ptr i ≡ some s
  unfolding copy_loop HoldsString cons_byte
  copies zero i s lt short h = absurd (omega arith)
  copies (suc n) i [] lt short h = round n i lt ∙ simp (allowed (at i) lt h.0, h.1) refl
  copies (suc n) i (c ∷ cs) lt short (user, is_c, pos, more) =
      round n i lt
      ∙ simp
          (
            allowed (at i) lt user,
            is_c,
            ==_ne c 0 (λ z. omega arith),
            copies n (i + 1) cs (omega (arith, next i, user.1)) (omega arith)
                (subst (λ p. HoldsString mem p cs) (next i) more),
          )
          refl

  whole : (n : ℕ) → copy_cstr_from_user mem (suc n) user_ptr ≡ copy_loop (suc n) mem user_ptr 0
  unfolding copy_cstr_from_user
  whole n = simp (==_ne (suc n) 0 (λ z. omega arith)) refl

  -- `copy_cstr_from_user` from an address below 2 ^ 64 copies a string exactly if the user region holds
  -- it there with its zero, within `dstsz` bytes; else it fails.
  pub copy_cstr_from_user_iff :
      (dstsz : ℕ) (s : List ℕ)
      → user_ptr < 2 ^ 64
      → (copy_cstr_from_user mem dstsz user_ptr ≡ some s)
        ↔ ((length s < dstsz) × HoldsString mem user_ptr s)
  unfolding copy_cstr_from_user at
  copy_cstr_from_user_iff zero s lt = (λ h. absurd cc, λ h. absurd (omega (arith, h.0)))
  copy_cstr_from_user_iff (suc n) s lt = (
    λ h.
        subst (λ p. (length s < suc n) × HoldsString mem p s) start
          (copied (suc n) 0 s (omega arith) (sym (whole n) ∙ h)),
    λ h.
        whole n
        ∙ copies (suc n) 0 s (omega arith) h.0 (subst (λ p. HoldsString mem p s) (sym start) h.1),
  )
    where
      start : user_ptr + 0 ≡ user_ptr
      start = omega arith
