-- ===== src/Exec/Request/Laws.antt =====
-- Which requests pass the checks.
use nono_py.Common.{
  ℕ, Bytes, codes, bytes_eq, bytes_eq_iff, is_empty, Bool, true, false, ◌&&◌, List, [], ◌∷◌, Option,
  none, some, Result, ok, err, ◌>>=◌, >>=-eq-ok, ◌≡◌, refl, ◌≢◌, ◌↔◌, arith, Bool-cases, inl, inr,
  ap, ◌∙◌,
}
use nono_py.Exec.Identity.{ResolvedIds, IdError, resolve_ids, is_value}
use nono_py.Exec.Identity.Laws.{resolve_ids_iff}
use nono_py.Exec.Request.{
  EnforcementMode, auto, landlock, seccomp, NetworkMode, blocked, allow_all, proxy_only,
  RequestError, parse_enforcement_mode, is_landlock, is_proxy_only, Float, Request, Checked,
  is_bad_timeout, guard, ids_checked, check_request,
}

abbrev pub mode_name : EnforcementMode → Bytes
mode_name auto = codes "auto"
mode_name landlock = codes "landlock"
mode_name seccomp = codes "seccomp"

mode_name_of_ok :
    (s : Bytes) (m : EnforcementMode) → parse_enforcement_mode s ≡ ok m → s ≡ mode_name m
unfolding parse_enforcement_mode
mode_name_of_ok s m h =
    let is_auto = bytes_eq_iff s (codes "auto") in
    let is_ll = bytes_eq_iff s (codes "landlock") in
    let is_sc = bytes_eq_iff s (codes "seccomp") in
    elim (Bool-cases (bytes_eq s (codes "auto"))) [
      | inl a ↦ ground (arith, is_auto.0 a, is_ll)
      | inr a ↦ elim (Bool-cases (bytes_eq s (codes "landlock"))) [
        | inl b ↦ ground (arith, is_ll.0 b)
        | inr b ↦ elim (Bool-cases (bytes_eq s (codes "seccomp"))) [
          | inl c ↦ ground (arith, is_sc.0 c)
          | inr c ↦ ground arith
        ]
      ]
    ]

parse-mode_name : (m : EnforcementMode) → parse_enforcement_mode (mode_name m) ≡ ok m
unfolding parse_enforcement_mode bytes_eq
parse-mode_name auto = refl
parse-mode_name landlock = refl
parse-mode_name seccomp = refl

-- The three names and no others are read.
parse_enforcement_mode_iff :
    (s : Bytes) (m : EnforcementMode) → (parse_enforcement_mode s ≡ ok m) ↔ (s ≡ mode_name m)
parse_enforcement_mode_iff s m =
    (mode_name_of_ok s m, λ e. ap parse_enforcement_mode e ∙ parse-mode_name m)

-- What the documentation asks of a request.
pub record IsSound {ℓ} {F : Type ℓ} (f : Float F) (q : Request F) (c : Checked) : Type ℓ where
  pub has_program : q.command ≢ []
  pub timeout : (t : F) → q.timeout_secs ≡ some t → (f.is_negative t ≡ false) × (f.is_nan t ≡ false)
  pub processes : q.limits.max_processes ≢ some 0
  pub cpu : q.limits.max_cpu_seconds ≢ some 0
  pub files : q.limits.max_open_files ≢ some 0
  pub user : q.uid ≢ some 0
  pub group : q.gid ≢ some 0
  pub same_user : c.ids.uid ≡ q.uid
  pub given_group : (g : ℕ) → q.gid ≡ some g → c.ids.gid ≡ some g
  pub default_group : q.gid ≡ none → c.ids.gid ≡ q.uid
  pub mode : q.enforcement_mode ≡ mode_name c.mode
  pub serviceable : (p : ℕ) (b : List ℕ) → q.network_mode ≡ proxy_only p b → c.mode ≢ landlock

guard_lem {ℓ} :
    {A : Type ℓ} (b : Bool) (e : RequestError) (k : Result RequestError A) {a : A}
    → (guard b e >>= λ _. k) ≡ ok a
    → (b ≡ false) × (k ≡ ok a)
guard_lem true e k h = cc
guard_lem false e k h = (refl, h)

ids_lem : (r : Result IdError ResolvedIds) {i : ResolvedIds} → ids_checked r ≡ ok i → r ≡ ok i
ids_lem (ok r) h = cc
ids_lem (err e) h = cc

is_empty-false {ℓ} : {A : Type ℓ} (xs : List A) → (is_empty xs ≡ false) ↔ (xs ≢ [])
is_empty-false [] = ((λ h. absurd (cc)), (λ h. absurd (h refl)))
is_empty-false (x ∷ xs) = ((λ h e. cc), (λ h. refl))

is_value-false : (o : Option ℕ) → (is_value o 0 ≡ false) ↔ (o ≢ some 0)
is_value-false none = ground arith
is_value-false (some n) = ground arith

serviceable_iff :
    (m : EnforcementMode) (n : NetworkMode)
    → ((is_landlock m && is_proxy_only n) ≡ false)
      ↔ ((p : ℕ) (b : List ℕ) → n ≡ proxy_only p b → m ≢ landlock)
serviceable_iff auto n = ((λ h p b e. cc), (λ h. refl))
serviceable_iff seccomp n = ((λ h p b e. cc), (λ h. refl))
serviceable_iff landlock blocked = ((λ h p b e. cc), (λ h. refl))
serviceable_iff landlock allow_all = ((λ h p b e. cc), (λ h. refl))
serviceable_iff landlock (proxy_only p b) = ((λ h q c e. cc), (λ h. absurd (h p b refl refl)))

module _ {ℓ} {F : Type ℓ} (f : Float F) where
  timeout_iff :
      (o : Option F)
      → (is_bad_timeout f o ≡ false)
        ↔ ((t : F) → o ≡ some t → (f.is_negative t ≡ false) × (f.is_nan t ≡ false))
  timeout_iff none = ((λ h t e. absurd (cc)), (λ h. refl))
  timeout_iff (some u) = (
    λ h t e. let same : u ≡ t = cc in rw (← same) (ground arith, ground arith),
    λ h. let (a, b) = h u refl in rw (a, b) refl,
  )

  check_request-IsSound : (q : Request F) (c : Checked) → check_request f q ≡ ok c → IsSound f q c
  unfolding check_request
  check_request-IsSound q c h =
      let (h1, k1) = guard_lem (is_empty q.command) _ _ h in
      let (h2, k2) = guard_lem (is_bad_timeout f q.timeout_secs) _ _ k1 in
      let (h3, k3) = guard_lem (is_value q.limits.max_processes 0) _ _ k2 in
      let (h4, k4) = guard_lem (is_value q.limits.max_cpu_seconds 0) _ _ k3 in
      let (h5, k5) = guard_lem (is_value q.limits.max_open_files 0) _ _ k4 in
      let (ids, h6, k6) = >>=-eq-ok (ids_checked (resolve_ids q.uid q.gid)) _ k5 in
      let (mode, h7, k7) = >>=-eq-ok (parse_enforcement_mode q.enforcement_mode) _ k6 in
      let (h8, k8) = guard_lem (is_landlock mode && is_proxy_only q.network_mode) _ _ k7 in
      let same_mode : mode ≡ c.mode = cc k8 in
      let same_ids : ids ≡ c.ids = cc k8 in
      let (user, group, same_user, given, default) =
        (resolve_ids_iff q.uid q.gid c.ids).0
          (ids_lem (resolve_ids q.uid q.gid) h6 ∙ ap ok same_ids) in
      record {
        has_program = (is_empty-false q.command).0 h1;
        timeout = (timeout_iff q.timeout_secs).0 h2;
        processes = (is_value-false q.limits.max_processes).0 h3;
        cpu = (is_value-false q.limits.max_cpu_seconds).0 h4;
        files = (is_value-false q.limits.max_open_files).0 h5;
        user = user;
        group = group;
        same_user = same_user;
        given_group = given;
        default_group = default;
        mode = mode_name_of_ok q.enforcement_mode mode h7 ∙ ap mode_name same_mode;
        serviceable = rw (← same_mode) ((serviceable_iff mode q.network_mode).0 h8);
      }

  check_request_complete : (q : Request F) (c : Checked) → IsSound f q c → check_request f q ≡ ok c
  unfolding check_request
  check_request_complete q c s =
      let mode = (parse_enforcement_mode_iff q.enforcement_mode c.mode).1 s.mode in
      rw
        (
          (is_empty-false q.command).1 s.has_program,
          (timeout_iff q.timeout_secs).1 s.timeout,
          (is_value-false q.limits.max_processes).1 s.processes,
          (is_value-false q.limits.max_cpu_seconds).1 s.cpu,
          (is_value-false q.limits.max_open_files).1 s.files,
          (resolve_ids_iff q.uid q.gid c.ids).1
              (s.user, s.group, s.same_user, s.given_group, s.default_group),
          mode,
          (serviceable_iff c.mode q.network_mode).1 s.serviceable,
        )
        refl

  -- A request passes the checks exactly when it is sound: a program is named, no timeout is negative
  -- or not a number, neither the processes, the cpu seconds nor the open files are limited to zero, no
  -- id is zero, and Landlock is not to serve a proxy. The mode and the uid taken from it are then those
  -- that it names, and the gid is the one it names or else the uid.
  pub check_request_iff : (q : Request F) (c : Checked) → (check_request f q ≡ ok c) ↔ IsSound f q c
  check_request_iff q c = (check_request-IsSound q c, check_request_complete q c)
