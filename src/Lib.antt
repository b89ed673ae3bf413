-- ===== src/Lib.antt =====
-- The course repository Kernel-Programming: a Linux shell, the system call xmerge, and the
-- time-sharing scheduling class SCHED_TS with the core of the scheduler around it.
--
-- Parts, and the files that model them (paths from the repository's root):
--
-- Sched: HW5-scheduler. `Sched` holds the data: struct task_struct, rq, ts_rq and rt_rq of
--   include/linux/sched.h and kernel/sched/sched.h, and the policies of include/uapi/linux/sched.h.
--   A pointer to a task is a number, `Rq.task` is the store, and a list_head queue is a list.
--   Sched/Ts is kernel/sched/ts.c, one function per function of the file under its name, and its
--   lemmas below it: Prio (the tables), Invariant (each task once, on the queue of its priority),
--   Steps (enqueue, dequeue, yield), Tick, Pick, Init, Inversion, and Reach (sequences of the
--   operations), Decay (ticks of a task that never sleeps).
--   Sched/Class is the calls of kernel/sched/core.c into the classes. A class is the record
--   `ClassOps`. The stop, deadline, fair and idle classes, whose sources the repository does not
--   hold, are fields of `External`, with the other functions that core.c calls; so is the real-time
--   class, for which `rt_ops` of Sched/RtClass may stand.
--   Sched/Rt is the entities and the bandwidth of kernel/sched/rt.c, on one CPU and without group
--   scheduling, and Sched/RtClass the operations of `rt_sched_class` and the timer. What rt.c reads
--   from elsewhere is the record `RtEnv`; of `sched_find_first_bit` the documented behaviour is
--   assumed (`FindsFirst`). Rt/Active, Rt/Delist and Rt/Frame hold the invariant of the priority
--   array and of the counts, and below RtClass: Queue and Keep (enqueue, dequeue), Pick, Tick,
--   Pause and Save (a change that keeps the place), Throttle and Timer (the bandwidth), Init.
--   Sched/Prio is what core.c computes for one task (normal_prio, set_load_weight, __setscheduler,
--   sched_fork). Sched/Change is rt_mutex_setprio and set_user_nice, Sched/Policy the nice system
--   call and __sched_setscheduler. Sched/Calls is the system calls on a policy and what they share,
--   with sched_can_stop_tick and to_ratio, and Calls/Attr is sched_copy_attr, sched_setattr and
--   sched_getattr; what they ask other files is the record `Kernel`.
--   Sched/Share is the runtime that the CPUs of a domain lend each other (do_balance_runtime,
--   __disable_runtime, __enable_runtime of rt.c), on a runqueue for each CPU, and Sched/Bandwidth
--   is sched_rt_handler and sched_rr_handler.
--   Sched/Switch is pick_next_task, __schedule, scheduler_tick and do_sched_yield; Switch/Idle and
--   Switch/Realtime say which class is served, and Switch/Yield and Turns are about calls of
--   sched_yield in turn, with the real-time class of Sched/RtClass. Sched/Wake is
--   try_to_wake_up and the queue of wakeups.
-- Shell: HW2.3-Shell/myshell.c. Shell/Line is show_prompt and get_cmd_line, Shell/Parse is
--   process_cmd, process_redirection and the split of a pipeline, Shell/Jobs is the job list, with
--   `Shell` for the globals, and Shell/Exec is cd, exec_internal_cmd and exec_job. What the system
--   calls answer is the record `System`. Shell/Pipes is the descriptors of the shell and of its
--   children: pipe, dup, close and dup2 in exec_job and process_redirection, on a table that is a
--   list. Shell/Session is the loop of main.
--   Shell/Pipeline takes the split, the parser, the descriptors and the job together.
-- Merge: HW4-xmerge/xmerge.c. What the file operations of the kernel answer is the record
--   `Answers`, and what the call does is a log of `Event`. The byte count is an int
--   and wraps. Merge/Success is about files that can be read, Merge/Run and Merge/Log about all
--   answers.
-- Scull: HW4-xmerge/Labs/lab9/lab09-examples/scull.c. `Scull` is the device and scull_read,
--   Scull/Write is scull_write, Scull/Setup is scull_init and scull_exit. What kmalloc and the
--   copies answer is the record `Answers`. Scull/Refine is the abstract file, Scull/Offset the
--   arithmetic of a place, Scull/Chain the list of nodes; Prepared, Stored, Loaded, Trip and
--   NoMemory hold the proofs on write and read, and Freed, Kept, Blocks and Lifetime those on the
--   blocks of memory: each call returns what kmalloc gave in it. The product of quantum and qset is
--   an int and wraps.
-- Listing: HW1, the orders and the times of myps.c (`Listing`, Listing/Order) and those of info.c
--   (Listing/Clock).
-- Prelude: lists, integers and options over the native numbers.
--
-- How the parts interact: core.c calls ts.c through `ts_ops`, and ts.c calls back resched_curr and
-- put_prev_task; exec_job of the shell reads a line of get_cmd_line, launches jobs and waits for
-- them; pick_next_task asks `rt_ops` before `ts_ops`; try_to_wake_up enqueues through the class of
-- the task. The shell, the call, the device, the listing and the scheduler share no state.
--
-- Faults: a NULL pointer that is dereferenced, and an access outside a table, are `none` of
-- Option, or a constructor of the result type. So are a division by zero and by a negative size of
-- an item in the device. Two faults are outside the model: the deletion of a time-sharing task
-- that is on no queue, whose list pointers are poisoned, and a kmalloc that fails in xmerge, which
-- the call does not test.
--
-- Fuel: the parser takes one unit for each round of its loop, and the length of the line is enough;
-- the copy of a file one for each read; a retry of pick_next_task one. All other loops are
-- structural.
--
-- Not modelled: locks, clocks, statistics, load tracking and printk of the scheduler; deadline
-- parameters and control groups; migration and the pushing and pulling of tasks between CPUs; the
-- calls on affinity; the execvpe of the children of the shell, and its buffer sizes;
-- test_xmerge.c, the reading of /proc of HW1, the other laboratory programs and the tests, which
-- are input and output over system calls, or examples.
pub mod Prelude
pub mod Sched
pub mod Shell
pub mod Merge
pub mod Scull
pub mod Listing
