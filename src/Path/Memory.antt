-- ===== src/Path/Memory.antt =====
-- kernel-aarch64/sys_util.c: words and bytes in user memory, which is a table from an address to a byte;
-- `none` is -1, with memory unchanged. A word stands there with its lowest byte first.
use mona_rpzero.Prelude.{
  ℕ, zero, suc, ◌+◌, ◌-◌, ◌*◌, ◌/◌, ◌%◌, ◌^◌, ◌≤◌, ◌<◌, ◌≡◌, refl, sym, ap, ◌∙◌, ◌≢◌, not, ◌&&◌,
  Option, none, some, ltb, leb, if◌then◌else◌, if_cases, Table, get, put, get-put_self, get-put_ne,
  ℕ_discrete, arith,
}
use mona_rpzero.Path.{user_range_ok, user_region_base, user_region_size}
use mona_rpzero.Path.User.{user_range_ok_iff}

unfoldable pub word_at : ℕ → Table ℕ → ℕ → ℕ
word_at zero mem p = 0
word_at (suc n) mem p = get mem p + 256 * word_at n mem (p + 1)

unfoldable pub put_word : ℕ → ℕ → Table ℕ → ℕ → Table ℕ
put_word zero v mem p = mem
put_word (suc n) v mem p = put_word n (v / 256) (put mem p (v % 256)) (p + 1)

unfoldable pub read_u64_from_user : Table ℕ → ℕ → Option ℕ
read_u64_from_user mem user_ptr =
    if not (user_range_ok user_ptr 8) then none else some (word_at 8 mem user_ptr)

unfoldable pub write_u64_to_user : Table ℕ → ℕ → ℕ → Option (Table ℕ)
write_u64_to_user mem user_dst v =
    if not (user_range_ok user_dst 8) then none else some (put_word 8 v mem user_dst)

unfoldable pub write_u16_to_user : Table ℕ → ℕ → ℕ → Option (Table ℕ)
write_u16_to_user mem user_dst v =
    if not (user_range_ok user_dst 2) then none else some (put_word 2 v mem user_dst)

-- `for (i = 0; i < len; i++) d[i] = s[i];` for the `n` bytes from `i` on.
unfoldable pub copy_bytes : ℕ → Table ℕ → Table ℕ → ℕ → ℕ → Table ℕ
copy_bytes zero src mem dst i = mem
copy_bytes (suc n) src mem dst i = copy_bytes n src (put mem (dst + i) (get src i)) dst (i + 1)

unfoldable pub write_bytes_to_user : Table ℕ → ℕ → Table ℕ → ℕ → Option (Table ℕ)
write_bytes_to_user mem user_dst src len =
    if not (user_range_ok user_dst len) then none else some (copy_bytes len src mem user_dst 0)

-- 256 ^ n
limit : ℕ → ℕ
limit zero = 1
limit (suc n) = 256 * limit n

get-put_word : (n v : ℕ) (mem : Table ℕ) (p q : ℕ) → q < p → get (put_word n v mem p) q ≡ get mem q
unfolding put_word
get-put_word zero v mem p q lt = refl
get-put_word (suc n) v mem p q lt =
    get-put_word n (v / 256) (put mem p (v % 256)) (p + 1) q (omega arith)
    ∙ get-put_ne mem p q (v % 256) (λ e. omega arith)

word_at-put_word :
    (n v : ℕ) (mem : Table ℕ) (p : ℕ) → v < limit n → word_at n (put_word n v mem p) p ≡ v
unfolding word_at put_word limit
word_at-put_word zero v mem p lt = omega arith
word_at-put_word (suc n) v mem p lt =
    let mem1 = put mem p (v % 256) in
    omega (
      arith,
      get-put_word n (v / 256) mem1 (p + 1) p (omega arith),
      get-put_self mem p (v % 256),
      word_at-put_word n (v / 256) mem1 (p + 1) (omega arith),
    )

some_table : {a b : Table ℕ} → some a ≡ some b → a ≡ b
some_table e = cc

-- A 64-bit number that `write_u64_to_user` has written is what `read_u64_from_user` reads there.
pub write_u64-read_u64 :
    (mem mem' : Table ℕ) (user_ptr v : ℕ)
    → v < 2 ^ 64
    → write_u64_to_user mem user_ptr v ≡ some mem'
    → read_u64_from_user mem' user_ptr ≡ some v
unfolding write_u64_to_user read_u64_from_user limit
write_u64-read_u64 mem mem' user_ptr v lt e =
    if_cases P (not (user_range_ok user_ptr 8)) (λ _ h. absurd cc)
      (λ fine h. simp fine (
        ap some (
          ap (λ m. word_at 8 m user_ptr) (sym (some_table h))
          ∙ word_at-put_word 8 v mem user_ptr (omega arith))))
      e
  where
    P : Option (Table ℕ) → Type 0
    P o = o ≡ some mem' → read_u64_from_user mem' user_ptr ≡ some v

-- The byte at `q` after `n` bytes from `i` on are copied to `dst`.
get-copy_bytes :
    (n : ℕ) (src mem : Table ℕ) (dst i q : ℕ)
    → get (copy_bytes n src mem dst i) q
      ≡ (if leb (dst + i) q && ltb q (dst + i + n) then get src (q - dst) else get mem q)
unfolding copy_bytes
get-copy_bytes zero src mem dst i q = ground arith
get-copy_bytes (suc n) src mem dst i q = elim (ℕ_discrete q (dst + i)) [
  | yes e ↦
      get-copy_bytes n src (put mem (dst + i) (get src i)) dst (i + 1) q
      ∙ ground (
        arith,
        e,
        ap (get (put mem (dst + i) (get src i))) e,
        get-put_self mem (dst + i) (get src i),
        ap (get src) (back e),
      )
  | no ne ↦
      get-copy_bytes n src (put mem (dst + i) (get src i)) dst (i + 1) q
      ∙ ground (arith, ne, get-put_ne mem (dst + i) q (get src i) ne)
]
  where
    back : q ≡ dst + i → q - dst ≡ i
    back e = omega arith

-- What `write_bytes_to_user` has done when it succeeds.
pub record Copied (mem src : Table ℕ) (user_dst len : ℕ) (mem' : Table ℕ) : Type 0 where
  pub bytes :
      (q : ℕ)
      → get mem' q
        ≡ (if leb user_dst q && ltb q (user_dst + len) then get src (q - user_dst) else get mem q)
  pub in_region :
      (q : ℕ)
      → get mem' q ≢ get mem q
      → (user_region_base ≤ q) × (q < user_region_base + user_region_size)

-- When `write_bytes_to_user` of 64-bit numbers succeeds the bytes of the range are the source's, all
-- others stay, and no byte outside of the user region has changed.
pub write_bytes_to_user-Copied :
    (mem mem' src : Table ℕ) (user_dst len : ℕ)
    → user_dst < 2 ^ 64
    → len < 2 ^ 64
    → write_bytes_to_user mem user_dst src len ≡ some mem'
    → Copied mem src user_dst len mem'
unfolding write_bytes_to_user
write_bytes_to_user-Copied mem mem' src user_dst len dst_lt len_lt e =
    if_cases (λ o. o ≡ some mem' → Copied mem src user_dst len mem')
      (not (user_range_ok user_dst len)) (λ _ h. absurd cc)
      (λ fine h.
        let at : (q : ℕ)
            → get mem' q ≡ (
                if leb user_dst q && ltb q (user_dst + len)
                then get src (q - user_dst)
                else get mem q) =
          λ q.
            ap (λ m. get m q) (sym (some_table h))
            ∙ get-copy_bytes len src mem user_dst 0 q
            ∙ ap (λ d. if leb d q && ltb q (d + len) then get src (q - user_dst) else get mem q)
                (omega arith) in
        record {
          bytes = at;
          in_region = λ q changed.
              ground (arith, at q, changed, user_range_ok_iff user_dst len dst_lt len_lt);
        })
      e
