-- ===== src/Cpio/Bounds.antt =====
-- What `parse_one` accepts, and where the entry lies: the name always ends inside the archive, the data
-- whenever they start there.
use mona_rpzero.Prelude.{
  ℕ, ◌+◌, ◌-◌, ◌^◌, ◌≤◌, ◌<◌, ◌≡◌, refl, sym, ap, true, not, Option, none, some, ltb, ◌==◌,
  if◌then◌else◌, if_cases, Table, get, arith, subst, add64, sub64, ltb→lt, ltb_false→le,
}
use mona_rpzero.Cpio.{
  Entry, all_hex, magic_at, pad4, hex_loop, mode_field, size_field, name_field, parse_body,
  parse_one,
}
use mona_rpzero.Cpio.Hex.{field-lt, pad4-lt}

-- Where the data of an entry start, by the format: header and name are filled up to four bytes.
abbrev pub data_start : ℕ → ℕ → ℕ
data_start p namesize = p + 110 + namesize + pad4 (110 + namesize)

-- An entry at `p` that the format allows, but for the place of its data.
pub record IsHeader (mem : Table ℕ) (end p : ℕ) : Type 0 where
  pub room : p + 110 + name_field mem p ≤ end
  pub magic : magic_at mem p ≡ true
  pub digits : all_hex 104 mem (p + 6) ≡ true
  pub named : 0 < name_field mem p
  pub terminated : get mem (p + 110 + name_field mem p - 1) ≡ 0

-- The data fit if they start in the archive.
abbrev pub DataFit : Table ℕ → ℕ → ℕ → Type 0
DataFit mem end p =
    data_start p (name_field mem p) ≤ end → data_start p (name_field mem p) + size_field mem p ≤ end

-- The entry at `p` and the position behind it.
abbrev pub entry_at : Table ℕ → ℕ → Entry
entry_at mem p = record {
  name = p + 110;
  mode = mode_field mem p;
  data_at = data_start p (name_field mem p);
  size = size_field mem p;
}

abbrev pub next_at : Table ℕ → ℕ → ℕ
next_at mem p = data_start p (name_field mem p) + size_field mem p + pad4 (size_field mem p)

pub data ParseOutcome (mem : Table ℕ) (end p : ℕ) : Option (Entry × ℕ) → Type 0 where
  parsed :
      IsHeader mem end p
      → DataFit mem end p
      → ParseOutcome mem end p (some (entry_at mem p, next_at mem p))
  no_header : (IsHeader mem end p → ⊥) → ParseOutcome mem end p none
  data_outside : (DataFit mem end p → ⊥) → ParseOutcome mem end p none

-- The pointer arithmetic does not wrap in an archive below 2 ^ 63.
sub64-le : (a b n : ℕ) → a < 2 ^ 63 → b ≤ a → n ≤ sub64 a b → b + n ≤ a
sub64-le a b n small le room = omega arith

sub64-lt : (a b n : ℕ) → a < 2 ^ 63 → b ≤ a → sub64 a b < n → a < b + n
sub64-lt a b n small le short = omega arith

-- A position behind the end seems to leave room for any field.
sub64_wraps : (a b n : ℕ) → a < 2 ^ 63 → b < a + 4 → n < 2 ^ 32 → sub64 a b < n → b ≤ a
sub64_wraps a b n small near field short = omega arith

add64-eq : (a b : ℕ) → a + b < 2 ^ 64 → add64 a b ≡ a + b
add64-eq a b small = omega arith

module _ (mem : Table ℕ) (end p : ℕ) (small : end < 2 ^ 63) (inside : p ≤ end) where
  abbrev P : Option (Entry × ℕ) → Type 0
  P = ParseOutcome mem end p

  abbrev ns : ℕ
  ns = name_field mem p

  abbrev fs : ℕ
  fs = size_field mem p

  module _ (digits : all_hex 104 mem (p + 6) ≡ true) where
    ns-lt : ns < 2 ^ 32
    ns-lt =
        subst (λ k. hex_loop 8 mem k 0 < 2 ^ 32) (omega arith)
          (field-lt mem p 88 digits (omega arith))

    fs-lt : fs < 2 ^ 32
    fs-lt =
        subst (λ k. hex_loop 8 mem k 0 < 2 ^ 32) (omega arith)
          (field-lt mem p 48 digits (omega arith))

    data_at-eq : p + 110 + ns ≤ end → add64 (add64 (p + 110) ns) (pad4 (110 + ns)) ≡ data_start p ns
    data_at-eq fits = omega (arith, pad4-lt (110 + ns))

    next-eq :
        p + 110 + ns ≤ end
        → add64 (add64 (data_start p ns) fs) (pad4 fs) ≡ data_start p ns + fs + pad4 fs
    next-eq fits = omega (arith, pad4-lt (110 + ns), pad4-lt fs, fs-lt)

    fit :
        p + 110 + ns ≤ end
        → fs ≤ sub64 end (data_start p ns)
        → data_start p ns ≤ end
        → data_start p ns + fs ≤ end
    fit fits le starts = sub64-le end (data_start p ns) fs small starts le

    no_fit :
        p + 110 + ns ≤ end
        → sub64 end (data_start p ns) < fs
        → (data_start p ns ≤ end → data_start p ns + fs ≤ end)
        → ⊥
    no_fit fits short h =
        let starts =
          sub64_wraps end (data_start p ns) fs small (omega (arith, pad4-lt (110 + ns))) fs-lt
            short in
        omega (arith, h starts, sub64-lt end (data_start p ns) fs small starts short)

    data_outcome :
        magic_at mem p ≡ true
        → p + 110 + ns ≤ end
        → 0 < ns
        → get mem (p + 110 + ns - 1) ≡ 0
        → P (
            if ltb (sub64 end (data_start p ns)) fs
            then none
            else some (
              record {
                name = p + 110;
                mode = mode_field mem p;
                data_at = data_start p ns;
                size = fs;
              },
              add64 (add64 (data_start p ns) fs) (pad4 fs),
            ))
    data_outcome magic fits named ends =
        if_cases P (ltb (sub64 end (data_start p ns)) fs)
          (λ e. data_outside (λ h. no_fit fits (ltb→lt (sub64 end (data_start p ns)) fs e) h))
          (λ e.
            subst (λ q. P (some (entry_at mem p, q))) (sym (next-eq fits))
              (parsed
                (record {
                  room = fits;
                  magic = magic;
                  digits = digits;
                  named = named;
                  terminated = ends;
                })
                (fit fits (ltb_false→le (sub64 end (data_start p ns)) fs e))))

    body_outcome :
        magic_at mem p ≡ true
        → p + 110 ≤ end
        → P (parse_body mem end (p + 110) (mode_field mem p) fs ns)
    unfolding parse_body
    body_outcome magic room =
        if_cases P (ltb (sub64 end (p + 110)) ns)
          (λ e. no_header (λ h. omega (
            arith,
            h.room,
            sub64-lt end (p + 110) ns small room (ltb→lt (sub64 end (p + 110)) ns e),
          )))
          (λ e.
            let fits =
              sub64-le end (p + 110) ns small room (ltb_false→le (sub64 end (p + 110)) ns e) in
            if_cases P (ns == 0) (λ z. no_header (λ h. ground (arith, h.named)))
              (λ named.
                if_cases P (not (get mem (p + 110 + ns - 1) == 0))
                  (λ z. no_header (λ h. ground (arith, h.terminated)))
                  (λ ends.
                    subst
                      (λ a. P (
                        if ltb (sub64 end a) fs
                        then none
                        else some (
                          record {
                            name = p + 110;
                            mode = mode_field mem p;
                            data_at = a;
                            size = fs;
                          },
                          add64 (add64 a fs) (pad4 fs),
                        )))
                      (sym (data_at-eq fits))
                      (data_outcome magic fits (ground arith) (ground arith)))))

  -- `parse_one` at a position in an archive below 2 ^ 63 bytes returns the entry there exactly if the
  -- header is one that the format allows, with the name and its zero in the archive, and if the data
  -- are in the archive or start behind its end.
  pub parse_one_outcome : ParseOutcome mem end p (parse_one mem end p)
  unfolding parse_one
  parse_one_outcome =
      if_cases P (ltb (sub64 end p) 110)
        (λ e. no_header (λ h.
          omega (arith, h.room, sub64-lt end p 110 small inside (ltb→lt (sub64 end p) 110 e))))
        (λ e.
          let room = sub64-le end p 110 small inside (ltb_false→le (sub64 end p) 110 e) in
          if_cases P (not (magic_at mem p)) (λ z. no_header (λ h. ground (arith, h.magic)))
            (λ magic.
              if_cases P (not (all_hex 104 mem (p + 6)))
                (λ z. no_header (λ h. ground (arith, h.digits)))
                (λ digits.
                  subst (λ a. P (parse_body mem end a (mode_field mem p) fs ns))
                    (sym (add64-eq p 110 (omega arith)))
                    (body_outcome (ground arith) (ground arith) room))))

accepts :
    (mem : Table ℕ) (end p : ℕ) (r : Option (Entry × ℕ))
    → ParseOutcome mem end p r
    → IsHeader mem end p
    → DataFit mem end p
    → r ≡ some (entry_at mem p, next_at mem p)
accepts mem end p r (parsed h' f') h f = refl
accepts mem end p r (no_header bad) h f = absurd (bad h)
accepts mem end p r (data_outside bad) h f = absurd (bad f)

-- A header whose padded name reaches behind the end of the archive, below 2 ^ 63 bytes, is accepted with
-- whatever size it names: the entry's data lie wholly outside of the archive.
pub parse_one_overruns :
    (mem : Table ℕ) (end p : ℕ)
    → end < 2 ^ 63
    → p ≤ end
    → IsHeader mem end p
    → end < data_start p (name_field mem p)
    → (parse_one mem end p ≡ some (entry_at mem p, next_at mem p))
      × (end < (entry_at mem p).data_at)
parse_one_overruns mem end p small inside h out = (
  accepts mem end p (parse_one mem end p) (parse_one_outcome mem end p small inside) h
      (λ starts. absurd (omega arith)),
  out,
)

abbrev next_of : Option (Entry × ℕ) → ℕ
next_of none = 0
next_of (some (e, q)) = q

moves :
    (mem : Table ℕ) (end p : ℕ) (e : Entry) (q : ℕ) (r : Option (Entry × ℕ))
    → ParseOutcome mem end p r
    → r ≡ some (e, q)
    → p < q
moves mem end p e q r (parsed h f) eq = omega (arith, ap next_of eq)
moves mem end p e q r (no_header bad) eq = absurd cc
moves mem end p e q r (data_outside bad) eq = absurd cc

-- The reader moves on.
pub parse_one-lt :
    (mem : Table ℕ) (end p : ℕ) (e : Entry) (q : ℕ)
    → end < 2 ^ 63
    → p ≤ end
    → parse_one mem end p ≡ some (e, q)
    → p < q
parse_one-lt mem end p e q small inside eq =
    moves mem end p e q (parse_one mem end p) (parse_one_outcome mem end p small inside) eq
