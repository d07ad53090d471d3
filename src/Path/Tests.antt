-- ===== src/Path/Tests.antt =====
-- Runs of the path functions, and the theorems at concrete paths.
use mona_rpzero.Prelude.{
  ℕ, ◌+◌, ◌-◌, ◌^◌, ◌≤◌, ◌<◌, ◌≡◌, ◌↔◌, ◌⊎◌, refl, true, List, [], ◌∷◌, none, some, Table, table,
  ok, length, get_or, arith,
}
use mona_rpzero.Path.{
  slash, dot, skip_slashes, take_segment, is_dot, is_dot_dot, pop_segment, push_segment,
  segment_step, or_root, written, failed, normalize_loop, normalize_abs_path, resolve_path,
  resolve_from, user_range_ok, user_region_base, user_region_size, copy_cstr_from_user, trim_loop,
  trim_copied, last_slash, cut_at, abs_path_to_no_slash_trim, abs_path_parent_dir,
}
use mona_rpzero.Path.Names.{components, render, follow_all}
use mona_rpzero.Path.Normal.{answer, normalize_abs_path-follow}
use mona_rpzero.Path.Stack.{
  no_slash, is_part, is_name, all_names, IsStack, normalize_abs_path-IsStack,
}
use mona_rpzero.Path.Again.{normalize_abs_path_again}
use mona_rpzero.Path.Parent.{abs_path_parent_dir-render}
use mona_rpzero.Path.Resolve.{from_root, resolve_path-follow}
use mona_rpzero.Path.Memory.{
  put_word, read_u64_from_user, write_u64_to_user, copy_bytes, write_bytes_to_user, Copied,
  write_u64-read_u64, write_bytes_to_user-Copied,
}
use mona_rpzero.Path.User.{HoldsString, user_range_ok_iff, copy_cstr_from_user_iff}

-- /a//b/./../c/
abbrev winding : List ℕ
winding =
    slash ∷ b'a' ∷ slash ∷ slash ∷ b'b' ∷ slash ∷ dot ∷ slash ∷ dot ∷ dot ∷ slash ∷ b'c' ∷ slash
    ∷ []

-- /a/c
abbrev straight : List ℕ
straight = slash ∷ b'a' ∷ slash ∷ b'c' ∷ []

normalize_winding : normalize_abs_path winding 256 ≡ written straight
unfolding normalize_abs_path normalize_loop skip_slashes take_segment segment_step is_dot is_dot_dot
    pop_segment push_segment or_root
normalize_winding = refl

normalize_short_buffer : normalize_abs_path winding 4 ≡ failed
unfolding normalize_abs_path normalize_loop skip_slashes take_segment segment_step is_dot is_dot_dot
    pop_segment push_segment or_root
normalize_short_buffer = refl

normalize_above_root : normalize_abs_path (slash ∷ dot ∷ dot ∷ []) 2 ≡ written (slash ∷ [])
unfolding normalize_abs_path normalize_loop skip_slashes take_segment segment_step is_dot is_dot_dot
    pop_segment push_segment or_root
normalize_above_root = refl

resolve_relative : resolve_path (some (slash ∷ b'a' ∷ [])) (some (b'c' ∷ [])) 256 ≡ written straight
unfolding resolve_path resolve_from normalize_abs_path normalize_loop skip_slashes take_segment
    segment_step is_dot is_dot_dot pop_segment push_segment or_root
resolve_relative = refl

trim_straight : abs_path_to_no_slash_trim (some (slash ∷ b'a' ∷ slash ∷ [])) 256 ≡ ok (b'a' ∷ [])
unfolding abs_path_to_no_slash_trim skip_slashes trim_copied trim_loop
trim_straight = refl

parent_of_top : abs_path_parent_dir (some (slash ∷ b'a' ∷ [])) 256 ≡ ok (slash ∷ [])
unfolding abs_path_parent_dir trim_loop last_slash cut_at
parent_of_top = refl

normalize_example : normalize_abs_path winding 256 ≡ answer (follow_all 256 (components winding) [])
normalize_example = normalize_abs_path-follow winding 256 (omega arith)

normal_example : (st : List (List ℕ)) × (straight ≡ or_root (render st)) × IsStack 256 st
normal_example = normalize_abs_path-IsStack winding 256 straight (omega arith) normalize_winding

again_example : normalize_abs_path straight 256 ≡ written straight
again_example = normalize_abs_path_again winding 256 straight (omega arith) normalize_winding

abbrev two_names : List (List ℕ)
two_names = (b'c' ∷ []) ∷ (b'a' ∷ []) ∷ []

two_names-IsStack : IsStack 256 two_names
unfolding all_names is_name is_part no_slash is_dot is_dot_dot render
two_names-IsStack = record { names = refl; depth = omega arith; fits = omega arith }

parent_example :
    abs_path_parent_dir (some (or_root (render two_names))) 256
    ≡ ok (or_root (render ((b'a' ∷ []) ∷ [])))
parent_example = abs_path_parent_dir-render 256 (b'c' ∷ []) ((b'a' ∷ []) ∷ []) two_names-IsStack

range_example : (user_range_ok (2 ^ 64 - 8) 16 ≡ true) ↔ (
    (◌≡◌ {A = ℕ} 16 0)
    ⊎ ((user_region_base ≤ 2 ^ 64 - 8) × (2 ^ 64 - 8 + 16 ≤ user_region_base + user_region_size)))
range_example = user_range_ok_iff (2 ^ 64 - 8) 16 (omega arith) (omega arith)

-- User memory that holds "/c" at its first byte.
abbrev user_memory : Table ℕ
user_memory = table (λ p. get_or (slash ∷ b'c' ∷ []) (p - user_region_base) 0)

copy_example : (copy_cstr_from_user user_memory 8 user_region_base ≡ some (slash ∷ b'c' ∷ [])) ↔ (
    (length (slash ∷ b'c' ∷ []) < 8) × HoldsString user_memory user_region_base (slash ∷ b'c' ∷ []))
copy_example =
    copy_cstr_from_user_iff user_memory user_region_base 8 (slash ∷ b'c' ∷ []) (omega arith)

resolve_example :
    resolve_path (some (slash ∷ b'a' ∷ [])) (some (b'c' ∷ [])) 256
    ≡ answer (follow_all 256 (from_root (slash ∷ b'a' ∷ []) (b'c' ∷ [])) [])
resolve_example =
    resolve_path-follow (slash ∷ b'a' ∷ []) (b'c' ∷ []) 256 (omega arith) (omega arith)
      (omega arith)

written_word :
    write_u64_to_user user_memory user_region_base 258
    ≡ some (put_word 8 258 user_memory user_region_base)
unfolding write_u64_to_user user_range_ok
written_word = refl

word_example :
    read_u64_from_user (put_word 8 258 user_memory user_region_base) user_region_base ≡ some 258
word_example =
    write_u64-read_u64 user_memory (put_word 8 258 user_memory user_region_base) user_region_base
      258 (omega arith) written_word

written_bytes :
    write_bytes_to_user user_memory user_region_base user_memory 3
    ≡ some (copy_bytes 3 user_memory user_memory user_region_base 0)
unfolding write_bytes_to_user user_range_ok
written_bytes = refl

bytes_example :
    Copied user_memory user_memory user_region_base 3
      (copy_bytes 3 user_memory user_memory user_region_base 0)
bytes_example =
    write_bytes_to_user-Copied user_memory (copy_bytes 3 user_memory user_memory user_region_base 0)
      user_memory user_region_base 3 (omega arith) (omega arith) written_bytes

read_below_region : read_u64_from_user user_memory (user_region_base - 1) ≡ none
unfolding read_u64_from_user user_range_ok
read_below_region = refl
