-- ===== src/Calls/Inherit.antt =====
-- The descriptors that `sys_clone` gives to a child.
use mona_rpzero.Prelude.{
  ℕ, zero, suc, ◌+◌, ◌≤◌, ◌<◌, ◌≡◌, refl, sym, ◌∙◌, inl, inr, Option, none, some, Option-cases, get,
  put, get-put_self, get-put_ne, put-get, arith, subst, ℕ_discrete,
}
use mona_rpzero.Fd.{Open, FdTable, desc_incref}
use mona_rpzero.Fd.Keep.{IsCounted, open-IsCounted}
use mona_rpzero.Calls.{inherit_from, inherit_fds}

-- What the loop leaves: the child has the parent's descriptors, and all references are counted.
pub record IsInherited (o : Open) (parent child : FdTable) (extra : ℕ → ℕ) : Type 0 where
  pub counted : IsCounted o child extra
  pub same : (fd : ℕ) → fd < 32 → get child fd ≡ get parent fd

module _ (parent : FdTable) (extra : ℕ → ℕ)
    (held : (fd d : ℕ) → fd < 32 → get parent fd ≡ some d → (d < 64) × (0 < extra d)) where
  below_next :
      (child : FdTable) (i : ℕ) (e : Option ℕ)
      → get parent i ≡ e
      → ((fd : ℕ) → fd < i → get child fd ≡ get parent fd)
      → (fd : ℕ) → fd < i + 1
      → get (put child i e) fd ≡ get parent fd
  below_next child i e at below fd lt = elim (ℕ_discrete fd i) [
    | yes same ↦
        subst (λ k. get (put child i e) k ≡ get parent k) (sym same)
          (get-put_self child i e ∙ sym at)
    | no ne ↦ get-put_ne child i fd e ne ∙ below fd (omega arith)
  ]

  above_next :
      (child : FdTable) (i : ℕ) (e : Option ℕ)
      → ((fd : ℕ) → i ≤ fd → fd < 32 → get child fd ≡ none)
      → (fd : ℕ) → i + 1 ≤ fd
      → fd < 32
      → get (put child i e) fd ≡ none
  above_next child i e above fd lo hi =
      get-put_ne child i fd e (λ same. absurd (omega arith)) ∙ above fd (omega arith) hi

  inherits :
      (n i : ℕ) (o : Open) (child : FdTable)
      → i + n ≡ 32
      → IsCounted o child extra
      → ((fd : ℕ) → fd < i → get child fd ≡ get parent fd)
      → ((fd : ℕ) → i ≤ fd → fd < 32 → get child fd ≡ none)
      → let (o', child') = inherit_from n i o parent child in IsInherited o' parent child' extra
  unfolding inherit_from
  inherits zero i o child all c below above = record {
    counted = c;
    same = λ fd lt. below fd (omega arith);
  }
  inherits (suc n) i o child all c below above = elim (Option-cases (get parent i)) [
    | inl e ↦
        rw (e, inherit_from)
          (inherits n (i + 1) o (put child i none) (omega arith)
            (subst (λ s. IsCounted o s extra)
              (sym (put-get child i none (above i (omega arith) (omega arith)))) c)
            (below_next child i none e below) (above_next child i none above))
    | inr (d, e) ↦
        let h : (d < 64) × (0 < extra d) = held i d (omega arith) e in
        rw (e, inherit_from)
          (inherits n (i + 1) (desc_incref o d) (put child i (some d)) (omega arith)
            (open-IsCounted o child extra c i d (omega arith) h.0 (omega (arith, c.refs d h.0))
              (above i (omega arith) (omega arith)))
            (below_next child i (some d) e below) (above_next child i (some d) above))
  ]

  pub inherit_fds-IsInherited :
      (o : Open) (child : FdTable)
      → IsCounted o child extra
      → ((fd : ℕ) → fd < 32 → get child fd ≡ none)
      → let (o', child') = inherit_fds o parent child in IsInherited o' parent child' extra
  unfolding inherit_fds
  inherit_fds-IsInherited o child c empty =
      inherits 32 0 o child refl c (λ fd lt. absurd (omega arith)) (λ fd lo hi. empty fd hi)
