-- ===== src/Klog/Newest.antt =====
-- What the log holds: the newest bytes, oldest first.
use mona_rpzero.Prelude.{
  ℕ, suc, ◌+◌, ◌-◌, ◌%◌, ◌≤◌, ◌<◌, ◌≡◌, refl, sym, ap, ◌∙◌, leb, if◌then◌else◌, List, [], ◌∷◌, get,
  put, get-put_self, get-put_ne, ℕ_discrete, length, get_or, arith, subst, ==_ne, lt→leb_false,
  le→leb, ◌⊎◌,
}
use mona_rpzero.Klog.{Klog, klog_putc, klog_len, klog_at, klog_clear, put_all}

-- After `n` bytes, of which number `k` was `h k`.
record IsLog (log : Klog) (n : ℕ) (h : ℕ → ℕ) : Type 0 where
  head : log.head ≡ n % 65536
  len : log.len ≡ (if leb 65536 n then 65536 else n)
  kept : (k : ℕ) → k < n → n ≤ k + 65536 → get log.bytes (k % 65536) ≡ h k

putc-IsLog :
    (log : Klog) (n : ℕ) (h : ℕ → ℕ) → IsLog log n h → IsLog (klog_putc (h n) log) (n + 1) h
unfolding klog_putc
putc-IsLog log n h s = record {
  head = omega (arith, s.head);
  len = ground (arith, s.len);
  kept = λ k below near. elim (ℕ_discrete k n) [
    | yes e ↦
        ap (get (put log.bytes log.head (h n))) (ap (λ j. j % 65536) e ∙ sym s.head)
        ∙ get-put_self log.bytes log.head (h n)
        ∙ ap h (sym e)
    | no ne ↦
        get-put_ne log.bytes log.head (k % 65536) (h n) (λ same. omega (arith, s.head))
        ∙ s.kept k (omega arith) (omega arith)
  ];
}

put_all-IsLog :
    (cs : List ℕ) (log : Klog) (n : ℕ) (h : ℕ → ℕ)
    → ((i : ℕ) → i < length cs → get_or cs i 0 ≡ h (n + i))
    → IsLog log n h
    → IsLog (put_all cs log) (n + length cs) h
unfolding put_all
put_all-IsLog [] log n h same s = subst (λ m. IsLog log m h) (omega arith) s
put_all-IsLog (c ∷ cs) log n h same s =
    subst (λ m. IsLog (put_all cs (klog_putc c log)) m h) (omega arith)
      (put_all-IsLog cs (klog_putc c log) (n + 1) h
        (λ i lt. same (suc i) (omega arith) ∙ ap h (omega arith))
        (subst (λ b. IsLog (klog_putc b log) (n + 1) h)
          (sym (same 0 (omega arith) ∙ ap h (omega arith))) (putc-IsLog log n h s)))

-- What reads back after a clear and some bytes.
pub record ReadsBack (cs : List ℕ) (log : Klog) : Type 0 where
  pub len : klog_len log ≡ (if leb 65536 (length cs) then 65536 else length cs)
  pub at : (i : ℕ) → i < klog_len log → klog_at log i ≡ get_or cs (length cs - klog_len log + i) 0
  pub beyond : (i : ℕ) → klog_len log ≤ i → klog_at log i ≡ get_or cs (length cs - 1) 0

log_size :
    (log : Klog) (n : ℕ) (h : ℕ → ℕ)
    → IsLog log n h
    → (log.len ≤ n) × (log.len ≤ 65536) × ((log.len ≡ n) ⊎ (log.len ≡ 65536))
log_size log n h s = (ground (arith, s.len), ground (arith, s.len), ground (arith, s.len))

at-IsLog :
    (log : Klog) (n : ℕ) (h : ℕ → ℕ) (i : ℕ)
    → IsLog log n h
    → i < log.len
    → klog_at log i ≡ h (n - log.len + i)
unfolding klog_at
at-IsLog log n h i s lt =
    simp (==_ne log.len 0 (λ z. omega arith), lt→leb_false log.len i lt)
      (ap (get log.bytes) (omega (arith, s.head, log_size log n h s))
        ∙ s.kept (n - log.len + i) (omega (arith, log_size log n h s))
            (omega (arith, log_size log n h s)))

clear-IsLog : (log : Klog) (h : ℕ → ℕ) → IsLog (klog_clear log) 0 h
unfolding klog_clear
clear-IsLog log h = record { head = refl; len = refl; kept = λ k lt. absurd (omega arith) }

beyond-at :
    (log : Klog) (i : ℕ) → log.len ≤ i → 0 < log.len → klog_at log i ≡ klog_at log (log.len - 1)
unfolding klog_at
beyond-at log i le pos =
    simp (le→leb log.len i le, lt→leb_false log.len (log.len - 1) (omega arith)) refl

empty-at : (log : Klog) (i : ℕ) → log.len ≡ 0 → klog_at log i ≡ 0
unfolding klog_at
empty-at log i e = simp e refl

nothing : (cs : List ℕ) → length cs ≡ 0 → get_or cs (length cs - 1) 0 ≡ 0
nothing [] e = refl
nothing (c ∷ cs) e = absurd (omega arith)

-- After `klog_clear`, whatever was in the log, and `klog_putc` of some bytes, `klog_len` is their number
-- up to 64 KiB, `klog_at` reads the newest of them with the oldest first, and at any index beyond it
-- reads the newest byte, or 0 if there is none.
pub klog_putc-ReadsBack : (log : Klog) (cs : List ℕ) → ReadsBack cs (put_all cs (klog_clear log))
klog_putc-ReadsBack log cs = record {
  len = s.len;
  at = λ i lt. at-IsLog end (length cs) h i s lt;
  beyond = λ i le. elim (ℕ_discrete end.len 0) [
    | yes e ↦ empty-at end i e ∙ sym (nothing cs (omega (arith, sizes)))
    | no ne ↦
        beyond-at end i le (omega arith)
        ∙ at-IsLog end (length cs) h (end.len - 1) s (omega arith)
        ∙ ap h (omega (arith, sizes))
  ];
}
  where
    h : ℕ → ℕ
    h k = get_or cs k 0

    end : Klog
    end = put_all cs (klog_clear log)

    s0 : IsLog end (0 + length cs) h
    s0 =
        put_all-IsLog cs (klog_clear log) 0 h (λ i lt. ap (λ k. get_or cs k 0) (omega arith))
          (clear-IsLog log h)

    s : IsLog end (length cs) h
    s = subst (λ n. IsLog end n h) (omega arith) s0

    sizes : (end.len ≤ length cs) × (end.len ≤ 65536) × ((end.len ≡ length cs) ⊎ (end.len ≡ 65536))
    sizes = log_size end (length cs) h s
