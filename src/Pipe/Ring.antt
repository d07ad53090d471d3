-- ===== src/Pipe/Ring.antt =====
-- The ring of a pipe as the queue of the bytes that it holds: the invariant, and the two loops.
use mona_rpzero.Prelude.{
  ℕ, zero, suc, ◌+◌, ◌-◌, ◌%◌, ◌≤◌, ◌<◌, ◌≡◌, refl, sym, ap, ap₂, ◌∙◌, ◌≢◌, List, [], ◌∷◌, ◌++◌,
  length, take, drop, slice, Table, get, put, get-put_ne, get-put_self, arith,
}
use mathlib.Core.List.{append-nil, append_assoc}
use mona_rpzero.Pipe.{Pipe, next_pos, copy_out, copy_in}

-- The `n` bytes from position `r` on, going round at the end of the buffer.
abbrev pub window : Table ℕ → ℕ → ℕ → List ℕ
window buf r zero = []
window buf r (suc n) = get buf r ∷ window buf ((r + 1) % 1024) n

abbrev pub contents : Pipe → List ℕ
contents p = window p.buf p.rpos p.count

-- The representation invariant of `pipe_t`.
pub record IsValid (p : Pipe) : Type 0 where
  pub read_in : p.rpos < 1024
  pub full : p.count ≤ 1024
  pub write_at : p.wpos ≡ (p.rpos + p.count) % 1024

pub length-window : (buf : Table ℕ) (r n : ℕ) → length (window buf r n) ≡ n
length-window buf r zero = refl
length-window buf r (suc n) = ap suc (length-window buf ((r + 1) % 1024) n)

pub next_pos_lem : (r : ℕ) → r < 1024 → next_pos r ≡ (r + 1) % 1024
next_pos_lem r h = omega arith

-- The read loop takes the first `n` bytes and leaves the window of the others.
pub copy_out_lem :
    (n m : ℕ) (buf : Table ℕ) (r : ℕ)
    → r < 1024
    → n ≤ m
    → let (bytes, r') = copy_out n buf r in
      (bytes ≡ take n (window buf r m))
      × (window buf r' (m - n) ≡ drop n (window buf r m))
      × (r' ≡ (r + n) % 1024)
unfolding copy_out
copy_out_lem zero m buf r h le = (refl, ap (window buf r) (omega arith), omega arith)
copy_out_lem (suc n) zero buf r h le = absurd (omega arith)
copy_out_lem (suc n) (suc m) buf r h le = rw (next_pos_lem r h) (
    let rest = copy_out_lem n m buf ((r + 1) % 1024) (omega arith) (omega arith) in
    (ap (◌∷◌ (get buf r)) rest.0, ap (window buf _) (omega arith) ∙ rest.1, omega (arith, rest.2)))

-- Bytes outside a window may change under it.
pub window-update_ne :
    (buf : Table ℕ) (r n i v : ℕ)
    → r < 1024
    → ((k : ℕ) → k < n → (r + k) % 1024 ≢ i)
    → window (put buf i v) r n ≡ window buf r n
window-update_ne buf r zero i v h out = refl
window-update_ne buf r (suc n) i v h out =
    ap₂ ◌∷◌ (get-put_ne buf i r v (λ e. out 0 (omega arith) (omega arith))) (
      window-update_ne buf ((r + 1) % 1024) n i v (omega arith)
        (λ k lt e. out (k + 1) (omega arith) (omega arith)))

-- A window is longer by the byte behind it.
pub window_last :
    (buf : Table ℕ) (r n : ℕ)
    → r < 1024
    → window buf r (suc n) ≡ window buf r n ++ get buf ((r + n) % 1024) ∷ []
window_last buf r zero h = ap (λ k. get buf k ∷ []) (omega arith)
window_last buf r (suc n) h = ap (◌∷◌ (get buf r)) (
    window_last buf ((r + 1) % 1024) n (omega arith)
    ∙ ap (λ k. window buf ((r + 1) % 1024) n ++ get buf k ∷ []) (omega arith))

window_push :
    (buf : Table ℕ) (r n i v : ℕ)
    → r < 1024
    → n < 1024
    → i ≡ (r + n) % 1024
    → window (put buf i v) r (suc n) ≡ window buf r n ++ v ∷ []
window_push buf r n i v h lt e =
    window_last (put buf i v) r n h
    ∙ ap₂ (λ l b. l ++ b ∷ []) (window-update_ne buf r n i v h (λ k lt' e'. omega arith))
        (ap (get (put buf i v)) (sym e) ∙ get-put_self buf i v)

-- The write loop appends the `n` bytes of the source, if they fit.
pub copy_in_lem :
    (n : ℕ) (src : Table ℕ) (i : ℕ) (buf : Table ℕ) (r m w : ℕ)
    → r < 1024
    → m + n ≤ 1024
    → w ≡ (r + m) % 1024
    → let (buf', w') = copy_in n src i buf w in
      (window buf' r (m + n) ≡ window buf r m ++ slice src i n) × (w' ≡ (r + m + n) % 1024)
unfolding copy_in slice
copy_in_lem zero src i buf r m w h le e =
    (ap (window buf r) (omega arith) ∙ sym (append-nil _), omega arith)
copy_in_lem (suc n) src i buf r m w h le e =
    let rest =
      copy_in_lem n src (i + 1) (put buf w (get src i)) r (suc m) (next_pos w) h (omega arith)
        (omega arith) in
    (
      ap (window _ r) (omega arith)
          ∙ rest.0
          ∙ ap (λ l. l ++ slice src (i + 1) n) pushed
          ∙ append_assoc (window buf r m) (get src i ∷ []) (slice src (i + 1) n),
      omega (arith, rest.1),
    )
  where
    pushed : window (put buf w (get src i)) r (suc m) ≡ window buf r m ++ get src i ∷ []
    pushed = window_push buf r m w (get src i) h (omega arith) e
