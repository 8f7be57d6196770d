-- ===== src/Lib.antt =====
-- nono-py runs commands in a sandbox for Python. The extension module checks a request, prepares
-- the sandbox, forks, and in the child sets limits, drops privileges, applies Landlock or
-- seccomp and execs, while the parent serves the network supervisor, drains the pipes and waits.
-- Policies name groups of paths and hosts, from which capabilities and the proxy's configuration
-- are resolved. The sandbox itself, the capability set and the proxy are the crates nono and
-- nono_proxy.
--
-- The files and what they are about:
--   Common      byte strings, lists, tests on numbers, `Result`, UTF-8
--   SortedMap   `BTreeMap` as a list of pairs in the order of the keys
--   Exec        src/sandboxed_exec.rs
--     Env         build_env_cstrings, insert_env_var, validate_env_var, sanitize_env_pairs
--     Identity    resolve_ids, drop_privileges, drop_privileges_raw
--     Limits      apply_resource_limits, apply_resource_limits_raw
--     Request     the argument checks of sandboxed_exec, parse_enforcement_mode
--     Bootstrap   prepare_linux_proxy_bootstrap, create_proxy_supervisor_pair, the thread guard
--     Supervisor  handle_proxy_notification, sockaddr_allowed, service_proxy_supervisor
--     Wait        wait_for_child, kill_process_group_or_child, parent_process
--     Child       child_process, child_process_clone_files, install_proxy_fallback_if_needed
--     Fds         close_untrusted_fds, close_fds_by_rlimit, open_fd_limit
--     Io          raw_write_all, write_all_raw, raw_read_exact, read_exact_raw
--     Handshake   read_bootstrap_exact
--     Listener    validate_seccomp_notify_fd, cleanup_failed_shared_bootstrap
--   Policy      src/policy.rs
--     Types       the groups and their parts, group_matches_platform, network_requires_proxy
--     Network     resolve_proxy_config_impl
--     Paths       expand_path, escape_seatbelt_path
--     Checks      validate_deny_overlaps, validate_group_exclusions
--     Files       resolve_parent_symlinks, path_to_utf8
--     Resolution  the state of resolve_groups_impl and its sequencing
--     Groups      resolve_groups_impl, resolve_single_group, add_deny_access_rules
--     Overrides   apply_unlink_overrides
--   Proxy       src/proxy.rs: effective_filter_hosts, route_upstream_host, ProxyConfig
--   Audit       the network events of a session
--     Event       the event of the nono crate, by the fields that matter
--     Dict        src/proxy.rs: audit_event_to_py_dict
--     Decode      src/undo.rs: how set_network_events reads one dict
--     Session     src/undo.rs: network_events, set_network_events
--   Stderr      src/stderr_observation.rs
--     Text        the functions of str that it calls
--     Paths       the functions that find a path in a line
--     Lines       the looks_like and infer_access functions
--     Scan        analyze_error_output
--   Diagnostic  src/diagnostic.rs: append_stderr_observations, closest_covering_capability
--   Timestamp   src/undo.rs: chrono_now_iso8601
--   Snapshots   src/undo.rs: SnapshotManager, find_latest_manifest_on_disk
--   Nono        the access modes and the capability set of the nono crate, a parameter
-- Each has its theorems in a module below it and its examples in one called Tests.
--
-- How the state corresponds: a `String`, an `OsString` or a path is its list of bytes; maps are
-- lists of pairs; an error is a constructor for its message. The credentials and the limits of a
-- process are explicit states that the kernel's calls, parameters, take to their successors. The
-- parent's wait loop reads a list of rounds, one for each turn, and has no result while the list
-- is too short; whether a blocking waitpid after a kill reaps the child, which the code does not
-- look at, is a part of the list or an argument. The writes, the reads and the handshake go the
-- same way over the kernel's answers. The file system is asked by the bytes of a path. The loop over the years of a time stamp has a turn for each day, more than enough.
-- The child's setup is the list of its steps, each with the kernel's answer. The resolution of
-- groups passes on the capability set and the deny paths, which an error leaves as they are by
-- then. No other loop needs a bound.
--
-- Machine integers: ids, limits and ports are only compared and passed on, so no operation of
-- the code modelled here can overflow; those of a time stamp stay below the seconds it is made
-- of.
--
-- Not modelled: the crates nono and nono_proxy, PyO3 and serde; the rest of the clone path in
-- the parent, the pipes and the lookup of the program in src/sandboxed_exec.rs; the plain
-- getters of src/undo.rs; the conversion of reports to JSON in src/diagnostic.rs; the bindings
-- of src/lib.rs; the Python package.
pub mod Common
pub mod SortedMap
pub mod Nono
pub mod Exec
pub mod Policy
pub mod Proxy
pub mod Audit
pub mod Stderr
pub mod Diagnostic
pub mod Timestamp
pub mod Snapshots
