-- ===== src/Sched/Calls/Attr.antt =====
-- kernel/sched/core.c, `sched_copy_attr` and the system calls `sched_setattr` and `sched_getattr`. The
-- struct sched_attr of this kernel has 48 bytes, and a page has 4096.
pub mod Copy
pub mod Trip
use kernel_programming.Prelude.{
  ℕ, zero, suc, ◌+◌, ◌-◌, ◌^◌, Bool, true, false, not, ◌||◌, ◌&&◌, Option, none, some, ltb, leb,
  ◌==◌, if◌then◌else◌,
}
use kernel_programming.Prelude.Int.{ℤ, pos, negsuc, ◌-ℤ◌}
use kernel_programming.Sched.{Rq, Task, rt_policy, dl_policy}
use kernel_programming.Sched.Prio.{SchedAttr, task_nice}
use kernel_programming.Sched.Policy.{einval, clamp, sched_setscheduler}
use kernel_programming.Sched.Calls.{
  Kernel, e2big, efault, is_negative, with_process, esrch, Answer, error, value, query,
}

-- A user's sched_attr: whether it can be accessed, its size word, the bytes behind the struct that this
-- kernel knows, by their offset, and that struct with its policy word, as far as they can be read.
pub record UserAttr : Type 0 where
  pub accessible : Bool
  pub size : Option ℕ
  pub byte : ℕ → Option ℕ
  pub attr : Option SchedAttr
  pub policy : ℕ

-- `too_big` also writes the size that the kernel knows into the user's struct.
pub data Copied : Type 0 where
  copied : SchedAttr → Copied
  refused : ℕ → Copied
  too_big : Copied

abbrev pub sizeof_attr : ℕ
sizeof_attr = 48

-- The loop over the bytes from `addr` on, `n` left.
unfoldable pub unknown_bytes : ℕ → ℕ → (ℕ → Option ℕ) → Copied → Copied
unknown_bytes zero addr byte next = next
unknown_bytes (suc n) addr byte next =
    let rest = unknown_bytes n (addr + 1) byte next in
    elim (byte addr) [ none ↦ refused efault | some val ↦ if val == 0 then rest else too_big ]

abbrev pub copy_known : Option SchedAttr → Copied
copy_known none = refused efault
copy_known (some attr) =
    copied (record attr { sched_nice = clamp (negsuc 19) (pos 19) attr.sched_nice })

abbrev pub copy_sized : UserAttr → Option ℕ → Copied
copy_sized u none = refused efault
copy_sized u (some word) =
    let size = if word == 0 then sizeof_attr else word in
    if ltb 4096 word || ltb size sizeof_attr
    then too_big
    else unknown_bytes (size - sizeof_attr) sizeof_attr u.byte (copy_known u.attr)

unfoldable pub sched_copy_attr : UserAttr → Copied
unfolding unknown_bytes
sched_copy_attr u = if u.accessible then copy_sized u u.size else refused efault

module _ (kernel : Kernel) where
  abbrev pub after_copy : Rq → ℤ → ℕ → Copied → Option (ℕ × Rq)
  after_copy rq pid policy (refused e) = some (e, rq)
  after_copy rq pid policy too_big = some (e2big, rq)
  after_copy rq pid policy (copied attr) =
      if leb (2 ^ 31) policy
      then some (einval, rq)
      else with_process kernel pid rq (λ p.
        sched_setscheduler kernel.ext (kernel.permit p) (kernel.pi_prio p) rq p
          (record attr { sched_policy = some policy }) true true)

  -- A NULL pointer is no user's struct.
  unfoldable pub sys_sched_setattr : Rq → ℤ → Option UserAttr → ℕ → Option (ℕ × Rq)
  unfolding sched_copy_attr
  sys_sched_setattr rq pid none flags = some (einval, rq)
  sys_sched_setattr rq pid (some u) flags =
      if is_negative kernel pid || not (flags == 0)
      then some (einval, rq)
      else after_copy rq pid u.policy (sched_copy_attr u)

-- The user's buffer of `sched_getattr`: whether so many bytes can be accessed, and the copy succeeds.
pub record UserBuffer : Type 0 where
  pub accessible : ℕ → Bool
  pub copies_out : Bool

-- An error, or the size that is copied out and the struct.
pub data AttrAnswer : Type 0 where
  unread : ℕ → AttrAnswer
  read_out : ℕ → SchedAttr → AttrAnswer

abbrev pub efbig : ℕ
efbig = 27

-- Whether the `n` bytes from `addr` on are 0.
unfoldable pub is_zero : (ℕ → ℕ) → ℕ → ℕ → Bool
is_zero byte addr zero = true
is_zero byte addr (suc n) = byte addr == 0 && is_zero byte (addr + 1) n

-- `layout` is the bytes of a struct.
unfoldable pub sched_read_attr : (SchedAttr → ℕ → ℕ) → UserBuffer → SchedAttr → ℕ → AttrAnswer
unfolding is_zero
sched_read_attr layout buffer attr usize =
    if not (buffer.accessible usize)
    then unread efault
    else if not (is_zero (layout attr) usize (sizeof_attr - usize))
    then unread efbig
    else if buffer.copies_out
    then read_out (if ltb usize sizeof_attr then usize else sizeof_attr) attr
    else unread efault

-- What `sched_getattr` gathers; `getparam_dl` fills in the parameters of a deadline task.
unfoldable pub attr_read : (Task → SchedAttr → SchedAttr) → Task → SchedAttr
unfolding ◌-ℤ◌
attr_read getparam_dl t =
    let attr : SchedAttr = record {
      sched_policy = some t.policy;
      sched_flags = if t.sched_reset_on_fork then 1 else 0;
      sched_nice = pos 0;
      sched_priority = 0;
    } in
    if dl_policy t.policy
    then getparam_dl t attr
    else if rt_policy t.policy
    then record attr { sched_priority = t.rt_priority }
    else record attr { sched_nice = task_nice t }

module _ (kernel : Kernel) (getparam_dl : Task → SchedAttr → SchedAttr)
    (layout : SchedAttr → ℕ → ℕ) where
  abbrev pub read_found : Rq → UserBuffer → ℕ → Answer → AttrAnswer
  unfolding attr_read sched_read_attr
  read_found rq buffer size (error e) = unread e
  read_found rq buffer size (value p) =
      sched_read_attr layout buffer (attr_read getparam_dl (rq.task p)) size

  -- A NULL pointer is no buffer.
  unfoldable pub sys_sched_getattr : Rq → ℤ → Option UserBuffer → ℕ → ℕ → AttrAnswer
  unfolding read_found
  sys_sched_getattr rq pid none size flags = unread einval
  sys_sched_getattr rq pid (some buffer) size flags =
      if is_negative kernel pid || ltb 4096 size || ltb size sizeof_attr || not (flags == 0)
      then unread einval
      else read_found rq buffer size (query kernel pid (λ p. value p))
