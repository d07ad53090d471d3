-- ===== src/Klog.antt =====
-- kernel-aarch64/klog.c: the kernel log, a ring that keeps the newest 64 KiB.
pub mod Newest
mod Tests
use mona_rpzero.Prelude.{
  ℕ, ◌+◌, ◌-◌, ◌%◌, Bool, ltb, leb, ◌==◌, if◌then◌else◌, List, [], ◌∷◌, Table, get, put,
}

abbrev pub klog_cap : ℕ
klog_cap = 65536

-- `g_klog`, `g_head` and `g_len`
pub record Klog : Type 0 where
  pub bytes : Table ℕ
  pub head : ℕ
  pub len : ℕ

unfoldable pub klog_putc : ℕ → Klog → Klog
klog_putc c log = record {
  bytes = put log.bytes log.head c;
  head = (log.head + 1) % klog_cap;
  len = if ltb log.len klog_cap then log.len + 1 else log.len;
}

abbrev pub klog_len : Klog → ℕ
klog_len log = log.len

unfoldable pub klog_at : Klog → ℕ → ℕ
klog_at log i =
    let i' = if leb log.len i then log.len - 1 else i in
    let start = (log.head + klog_cap - log.len) % klog_cap in
    if log.len == 0 then 0 else get log.bytes ((start + i') % klog_cap)

unfoldable pub klog_clear : Klog → Klog
klog_clear log = record log { head = 0; len = 0 }

-- The bytes of a list, put one by one.
pub put_all : List ℕ → Klog → Klog
put_all [] log = log
put_all (c ∷ cs) log = put_all cs (klog_putc c log)
