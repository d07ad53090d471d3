-- ===== src/Mmap/Unmap.antt =====
-- `sys_munmap`: which addresses stay covered.
use mona_rpzero.Prelude.{
  ℕ, ◌+◌, ◌%◌, ◌^◌, ◌≤◌, ◌<◌, ◌≡◌, ◌≢◌, ◌↔◌, ◌⊎◌, Bool, true, false, Option, some, Table, get,
  Result, ok, err,
}
use mona_rpzero.Prelude.Errno
use mona_rpzero.Mmap.{Vma, Space}
use mona_rpzero.Mmap.Areas.{AreAreas, In, Covered}
use mona_rpzero.Mmap.Cuts.{Outside}
use mona_rpzero.Mmap.Map.{IsValid}
use mona_rpzero.Mmap.Round.{Removed}

-- What the rounds so far have done to the table `t`, before area `i`.
record IsUnmapping (t : Table Vma) (lo hi i : ℕ) (any : Bool) (t' : Table Vma) : Type 0 where
  valid : AreAreas t'
  fewer : (a : ℕ) → Covered t' a → Covered t a
  others_stay : (a : ℕ) → Covered t a → Outside lo hi a → Covered t' a
  gone : (k a : ℕ) → k < i → In (get t' k) a → Outside lo hi a
  untouched_so_far : any ≡ false → t' ≡ t
  touched : any ≡ true → Removed t lo hi t'

-- The range lies inside one area, and every entry is used.
abbrev pub NoEntry : Table Vma → ℕ → ℕ → Type 0
NoEntry t lo hi =
    ((i : ℕ) × (i < 32) × ((get t i).base < lo) × (hi < (get t i).base + (get t i).len))
    × ((i : ℕ) → i < 32 → (get t i).used ≡ true)

-- How the loop ends.
data LoopOutcome (t : Table Vma) (lo hi : ℕ) : (Table Vma × Bool) × Bool → Type 0 where
  through :
      (t' : Table Vma) (any : Bool)
      → IsUnmapping t lo hi 32 any t'
      → LoopOutcome t lo hi ((t', any), true)
  no_entry : (any : Bool) → NoEntry t lo hi → LoopOutcome t lo hi ((t, any), false)

-- What `sys_munmap` gives.
pub data UnmapOutcome (s : Space) (addr len alen : ℕ)
    : Option (Space × Result (Unit {0})) → Type 0 where
  bad_range :
      (addr % 4096 ≢ 0) ⊎ (len ≡ 0) ⊎ (2 ^ 64 ≤ addr + alen)
      → UnmapOutcome s addr len alen (some (s, err Errno.einval))
  nothing_mapped :
      ((a : ℕ) → Covered s.vmas a → Outside addr (addr + alen) a)
      → UnmapOutcome s addr len alen (some (s, err Errno.einval))
  no_split :
      NoEntry s.vmas addr (addr + alen) → UnmapOutcome s addr len alen (some (s, err Errno.enomem))
  unmapped :
      (s' : Space)
      → IsValid s'
      → ((a : ℕ) → Covered s'.vmas a ↔ (Covered s.vmas a × Outside addr (addr + alen) a))
      → UnmapOutcome s addr len alen (some (s', ok tt))
