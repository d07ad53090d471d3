-- ===== src/Klog/Tests.antt =====
-- Runs of the log's functions, and the theorem at a concrete log.
use mona_rpzero.Prelude.{◌+◌, ◌≡◌, refl, [], ◌∷◌, table, get, put}
use mona_rpzero.Klog.{Klog, klog_putc, klog_at, klog_clear, put_all}
use mona_rpzero.Klog.Newest.{ReadsBack, klog_putc-ReadsBack}

-- A full log whose next byte goes to the last place.
abbrev full : Klog
full = record { bytes = table (λ i. i + 1); head = 65535; len = 65536 }

newest_at_wrap : klog_at (klog_putc 7 (klog_putc 9 full)) 65535 ≡ 7
unfolding klog_at klog_putc get put
newest_at_wrap = refl

oldest_at_wrap : klog_at (klog_putc 7 (klog_putc 9 full)) 0 ≡ 2
unfolding klog_at klog_putc get put
oldest_at_wrap = refl

cleared : klog_at (klog_clear full) 5 ≡ 0
unfolding klog_at klog_clear
cleared = refl

klog_putc-ReadsBack_example :
    ReadsBack (b'o' ∷ b'k' ∷ []) (put_all (b'o' ∷ b'k' ∷ []) (klog_clear full))
klog_putc-ReadsBack_example = klog_putc-ReadsBack full (b'o' ∷ b'k' ∷ [])
