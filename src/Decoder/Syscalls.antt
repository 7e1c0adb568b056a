-- ===== src/Decoder/Syscalls.antt =====
-- The names of x86_64 system calls: `syscall_name` of src/core/event_decoder.cpp.
use Prim.Native.Char.{code}
use Prim.Native.String.{String}
use kernel_scope.Prelude.{
  ℕ, zero, suc, ◌+◌, ◌/◌, ◌%◌, ltb, if◌then◌else◌, List, [], ◌∷◌, ◌++◌, map, Option, none, some,
  get_elem?, replicate,
}

-- The table up to the run of null pointers, and behind it.
unfoldable pub table_front : List String
table_front =
    "read" ∷ "write" ∷ "open" ∷ "close" ∷ "stat" ∷ "fstat" ∷ "lstat" ∷ "poll" ∷ "lseek" ∷ "mmap"
    ∷ "mprotect" ∷ "munmap" ∷ "brk" ∷ "rt_sigaction" ∷ "rt_sigprocmask" ∷ "rt_sigreturn" ∷ "ioctl"
    ∷ "pread64" ∷ "pwrite64" ∷ "readv" ∷ "writev" ∷ "access" ∷ "pipe" ∷ "select" ∷ "sched_yield"
    ∷ "mremap" ∷ "msync" ∷ "mincore" ∷ "madvise" ∷ "shmget" ∷ "shmat" ∷ "shmctl" ∷ "dup" ∷ "dup2"
    ∷ "pause" ∷ "nanosleep" ∷ "getitimer" ∷ "alarm" ∷ "setitimer" ∷ "getpid" ∷ "sendfile" ∷ "socket"
    ∷ "connect" ∷ "accept" ∷ "sendto" ∷ "recvfrom" ∷ "sendmsg" ∷ "recvmsg" ∷ "shutdown" ∷ "bind"
    ∷ "listen" ∷ "getsockname" ∷ "getpeername" ∷ "socketpair" ∷ "setsockopt" ∷ "getsockopt"
    ∷ "clone" ∷ "fork" ∷ "vfork" ∷ "execve" ∷ "exit" ∷ "wait4" ∷ "kill" ∷ "uname" ∷ "semget"
    ∷ "semop" ∷ "semctl" ∷ "shmdt" ∷ "msgget" ∷ "msgsnd" ∷ "msgrcv" ∷ "msgctl" ∷ "fcntl" ∷ "flock"
    ∷ "fsync" ∷ "fdatasync" ∷ "truncate" ∷ "ftruncate" ∷ "getdents" ∷ "getcwd" ∷ "chdir" ∷ "fchdir"
    ∷ "rename" ∷ "mkdir" ∷ "rmdir" ∷ "creat" ∷ "link" ∷ "unlink" ∷ "symlink" ∷ "readlink" ∷ "chmod"
    ∷ "fchmod" ∷ "chown" ∷ "fchown" ∷ "lchown" ∷ "umask" ∷ "gettimeofday" ∷ "getrlimit"
    ∷ "getrusage" ∷ "sysinfo" ∷ "times" ∷ "ptrace" ∷ "getuid" ∷ "syslog" ∷ "getgid" ∷ "setuid"
    ∷ "setgid" ∷ "geteuid" ∷ "getegid" ∷ "setpgid" ∷ "getppid" ∷ "getpgrp" ∷ "setsid" ∷ "setreuid"
    ∷ "setregid" ∷ "getgroups" ∷ "setgroups" ∷ "setresuid" ∷ "getresuid" ∷ "setresgid" ∷ "getresgid"
    ∷ "getpgid" ∷ "setfsuid" ∷ "setfsgid" ∷ "getsid" ∷ "capget" ∷ "capset" ∷ "rt_sigpending"
    ∷ "rt_sigtimedwait" ∷ "rt_sigqueueinfo" ∷ "rt_sigsuspend" ∷ "sigaltstack" ∷ "utime" ∷ "mknod"
    ∷ "uselib" ∷ "personality" ∷ "ustat" ∷ "statfs" ∷ "fstatfs" ∷ "sysfs" ∷ "getpriority"
    ∷ "setpriority" ∷ "sched_setparam" ∷ "sched_getparam" ∷ "sched_setscheduler"
    ∷ "sched_getscheduler" ∷ "sched_get_priority_max" ∷ "sched_get_priority_min"
    ∷ "sched_rr_get_interval" ∷ "mlock" ∷ "munlock" ∷ "mlockall" ∷ "munlockall" ∷ "vhangup"
    ∷ "modify_ldt" ∷ "pivot_root" ∷ "_sysctl" ∷ "prctl" ∷ "arch_prctl" ∷ "adjtimex" ∷ "setrlimit"
    ∷ "chroot" ∷ "sync" ∷ "acct" ∷ "settimeofday" ∷ "mount" ∷ "umount2" ∷ "swapon" ∷ "swapoff"
    ∷ "reboot" ∷ "sethostname" ∷ "setdomainname" ∷ "iopl" ∷ "ioperm" ∷ "create_module"
    ∷ "init_module" ∷ "delete_module" ∷ "get_kernel_syms" ∷ "query_module" ∷ "quotactl"
    ∷ "nfsservctl" ∷ "getpmsg" ∷ "putpmsg" ∷ "afs_syscall" ∷ "tuxcall" ∷ "security" ∷ "gettid"
    ∷ "readahead" ∷ "setxattr" ∷ "lsetxattr" ∷ "fsetxattr" ∷ "getxattr" ∷ "lgetxattr" ∷ "fgetxattr"
    ∷ "listxattr" ∷ "llistxattr" ∷ "flistxattr" ∷ "removexattr" ∷ "lremovexattr" ∷ "fremovexattr"
    ∷ "tkill" ∷ "time" ∷ "futex" ∷ "sched_setaffinity" ∷ "sched_getaffinity" ∷ "set_thread_area"
    ∷ "io_setup" ∷ "io_destroy" ∷ "io_getevents" ∷ "io_submit" ∷ "io_cancel" ∷ "get_thread_area"
    ∷ "lookup_dcookie" ∷ "epoll_create" ∷ "epoll_ctl_old" ∷ "epoll_wait_old" ∷ "remap_file_pages"
    ∷ "getdents64" ∷ "set_tid_address" ∷ "restart_syscall" ∷ "semtimedop" ∷ "fadvise64"
    ∷ "timer_create" ∷ "timer_settime" ∷ "timer_gettime" ∷ "timer_getoverrun" ∷ "timer_delete"
    ∷ "clock_settime" ∷ "clock_gettime" ∷ "clock_getres" ∷ "clock_nanosleep" ∷ "exit_group"
    ∷ "epoll_wait" ∷ "epoll_ctl" ∷ "tgkill" ∷ "utimes" ∷ "vserver" ∷ "mbind" ∷ "set_mempolicy"
    ∷ "get_mempolicy" ∷ "mq_open" ∷ "mq_unlink" ∷ "mq_timedsend" ∷ "mq_timedreceive" ∷ "mq_notify"
    ∷ "mq_getsetattr" ∷ "kexec_load" ∷ "waitid" ∷ "add_key" ∷ "request_key" ∷ "keyctl"
    ∷ "ioprio_set" ∷ "ioprio_get" ∷ "inotify_init" ∷ "inotify_add_watch" ∷ "inotify_rm_watch"
    ∷ "migrate_pages" ∷ "openat" ∷ "mkdirat" ∷ "mknodat" ∷ "fchownat" ∷ "futimesat" ∷ "newfstatat"
    ∷ "unlinkat" ∷ "renameat" ∷ "linkat" ∷ "symlinkat" ∷ "readlinkat" ∷ "fchmodat" ∷ "faccessat"
    ∷ "pselect6" ∷ "ppoll" ∷ "unshare" ∷ "set_robust_list" ∷ "get_robust_list" ∷ "splice" ∷ "tee"
    ∷ "sync_file_range" ∷ "vmsplice" ∷ "move_pages" ∷ "utimensat" ∷ "epoll_pwait" ∷ "signalfd"
    ∷ "timerfd_create" ∷ "eventfd" ∷ "fallocate" ∷ "timerfd_settime" ∷ "timerfd_gettime" ∷ "accept4"
    ∷ "signalfd4" ∷ "eventfd2" ∷ "epoll_create1" ∷ "dup3" ∷ "pipe2" ∷ "inotify_init1" ∷ "preadv"
    ∷ "pwritev" ∷ "rt_tgsigqueueinfo" ∷ "perf_event_open" ∷ "recvmmsg" ∷ "fanotify_init"
    ∷ "fanotify_mark" ∷ "prlimit64" ∷ "name_to_handle_at" ∷ "open_by_handle_at" ∷ "clock_adjtime"
    ∷ "syncfs" ∷ "sendmmsg" ∷ "setns" ∷ "getcpu" ∷ "process_vm_readv" ∷ "process_vm_writev" ∷ "kcmp"
    ∷ "finit_module" ∷ "sched_setattr" ∷ "sched_getattr" ∷ "renameat2" ∷ "seccomp" ∷ "getrandom"
    ∷ "memfd_create" ∷ "kexec_file_load" ∷ "bpf" ∷ "execveat" ∷ "userfaultfd" ∷ "membarrier"
    ∷ "mlock2" ∷ "copy_file_range" ∷ "preadv2" ∷ "pwritev2" ∷ "pkey_mprotect" ∷ "pkey_alloc"
    ∷ "pkey_free" ∷ "statx" ∷ "io_pgetevents" ∷ "rseq" ∷ []

unfoldable pub table_back : List String
table_back =
    "pidfd_send_signal" ∷ "io_uring_setup" ∷ "io_uring_enter" ∷ "io_uring_register" ∷ "open_tree"
    ∷ "move_mount" ∷ "fsopen" ∷ "fsconfig" ∷ "fsmount" ∷ "fspick" ∷ "pidfd_open" ∷ "clone3"
    ∷ "close_range" ∷ "openat2" ∷ "pidfd_getfd" ∷ "faccessat2" ∷ "process_madvise" ∷ "epoll_pwait2"
    ∷ "mount_setattr" ∷ "quotactl_fd" ∷ "landlock_create_ruleset" ∷ "landlock_add_rule"
    ∷ "landlock_restrict_self" ∷ "memfd_secret" ∷ "process_mrelease" ∷ "futex_waitv"
    ∷ "set_mempolicy_home_node" ∷ "cachestat" ∷ "fchmodat2" ∷ "map_shadow_stack" ∷ "futex_wake"
    ∷ "futex_wait" ∷ "futex_requeue" ∷ "statmount" ∷ "listmount" ∷ "lsm_get_self_attr"
    ∷ "lsm_set_self_attr" ∷ "lsm_list_modules" ∷ []

abbrev null_entries : ℕ
null_entries = 80

unfoldable pub table : List (Option String)
unfolding table_front table_back
table = map some table_front ++ (replicate null_entries none ++ map some table_back)

-- The bytes of a text; all of these are ASCII.
abbrev pub codes : String → List ℕ
codes String.[] = []
codes (String.◌∷◌ c s) = code c ∷ codes s

-- std::to_string: the decimal digits, with fuel for the number of digits.
unfoldable pub decimal : ℕ → ℕ → List ℕ
decimal zero n = []
decimal (suc fuel) n =
    let more = decimal fuel (n / 10) ++ (0x30 + n % 10) ∷ [] in
    if ltb n 10 then (0x30 + n) ∷ [] else more

-- A uint64_t has at most 20 digits.
unfoldable pub to_string : ℕ → List ℕ
unfolding decimal
to_string = decimal 20

-- What is returned for a table entry: `none` stands for an index out of range.
unfoldable pub name_or_number : Option (Option String) → ℕ → List ℕ
unfolding to_string
name_or_number (some (some name)) id = codes name
name_or_number (some none) id = codes "sys_" ++ to_string id
name_or_number none id = codes "sys_" ++ to_string id

unfoldable pub syscall_name : ℕ → List ℕ
unfolding table name_or_number
syscall_name id = name_or_number (get_elem? table id) id
