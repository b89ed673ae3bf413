-- ===== src/Listing/Tests.antt =====
-- A process of HW1/myps.c with a large size beside a small one.
use kernel_programming.Prelude.{◌+◌, ◌^◌, ◌<◌, ◌≡◌, arith, true, false, ltb}
use kernel_programming.Prelude.Int.{pos, ltb_ℤ}
use kernel_programming.Listing.{Psinfo, psinfo_cmp_vsize}
use kernel_programming.Listing.Order.{psinfo_cmp_vsize-order}

abbrev small : Psinfo
small = record { pid = 1; vsize = 100; cputime = 0 }

abbrev large : Psinfo
large = record { pid = 2; vsize = 3000000000; cputime = 0 }

psinfo_cmp_vsize-order_example :
    let first = ltb_ℤ (psinfo_cmp_vsize small large) (pos 0) in
    (100 < 3000000000 + 2 ^ 31 → 3000000000 < 100 + 2 ^ 31 → first ≡ ltb 3000000000 100)
    × (3000000000 + 2 ^ 31 < 100 → first ≡ false)
    × (100 + 2 ^ 31 < 3000000000 → first ≡ true)
psinfo_cmp_vsize-order_example =
    psinfo_cmp_vsize-order small large (omega arith) (omega arith) (omega arith) (omega arith)
