-- ===== src/Provisioner.antt =====
-- internal/provisioner/provisioner.go: workers as processes of this machine. Starting and killing a
-- process is the operating system's; what it answers comes in a record.
pub mod Fleet
use vulcan.Prelude.{
  ℕ, zero, suc, String, Bool, true, false, not, Option, none, some, List, [], ◌∷◌, ℤ, pos, pos_part,
  leb_ℤ, str_eq, filter_by, if◌then◌else◌,
}
use Prim.Native.String.{◌++◌}
use vulcan.Errors.{Error, message, cancelled, wrap, Result, ok, err}

-- A process that was started, and whether `cmd.Process` is set.
pub record Process : Type 0 where
  pub hostname : String
  pub has_process : Bool

-- The table `processes`, the latest first, and the number of calls of the system so far.
pub record ProcessProvisioner : Type 0 where
  pub binary_path : String
  pub processes : List Process
  pub calls : ℕ

-- `cancelled_at`: `ctx.Err()` at the call. `starts` and `kills`: the error of `cmd.Start` and of
-- `Process.Kill` at it. `nano`: `time.Now().UnixNano()` in decimals, and `itoa` is `strconv.Itoa`.
pub record System : Type 0 where
  pub cancelled_at : ℕ → Bool
  pub starts : ℕ → Option Error
  pub kills : ℕ → String → Option Error
  pub nano : ℕ → String
  pub itoa : ℕ → String

abbrev pub find_process : String → List Process → Option Process
find_process host [] = none
find_process host (p ∷ ps) = if str_eq p.hostname host then some p else find_process host ps

-- A later assignment to a key of the map replaces the earlier one.
abbrev pub put : Process → List Process → List Process
put p ps = p ∷ filter_by (λ q. not (str_eq q.hostname p.hostname)) ps

module _ (system : System) where
  open system use {cancelled_at, starts, kills, nano, itoa}

  unfoldable pub new_hostname : ℕ → ℕ → String
  new_hostname call i = "vulcan-auto-worker-" ++ (nano call ++ ("-" ++ itoa i))

  abbrev pub started : ProcessProvisioner → String → ProcessProvisioner
  started p host = record p {
    processes = put (record { hostname = host; has_process = true }) p.processes;
    calls = suc p.calls;
  }

  -- Round i of the loop, with `left` rounds to come.
  unfoldable pub provision_from :
      ℕ → ℕ → ProcessProvisioner → Result (Unit {0}) × ProcessProvisioner
  provision_from i zero p = (ok tt, p)
  provision_from i (suc left) p =
      let rest = provision_from (suc i) left (started p (new_hostname p.calls i)) in
      if cancelled_at p.calls then (err cancelled, p) else elim (starts p.calls) [
        | some e ↦ (err (wrap "start worker" e), record p { calls = suc p.calls })
        | none ↦ rest
      ]

  unfoldable pub provision : ℤ → ProcessProvisioner → Result (Unit {0}) × ProcessProvisioner
  provision count p =
      if leb_ℤ count (pos 0)
      then (ok tt, p)
      else if str_eq p.binary_path ""
      then (err (message "worker binary path is required"), p)
      else provision_from 0 (pos_part count) p

  abbrev kill :
      Option Process → String → ProcessProvisioner → Result (Unit {0}) × ProcessProvisioner
  kill none host p = (ok tt, record p { calls = suc p.calls })
  kill (some q) host p =
      if not q.has_process
      then (ok tt, record p { calls = suc p.calls })
      else elim (kills p.calls host) [
        | some e ↦ (err (wrap "terminate worker" e), record p { calls = suc p.calls })
        | none ↦ (ok tt, record p { calls = suc p.calls })
      ]

  abbrev and_next :
      (ProcessProvisioner → Result (Unit {0}) × ProcessProvisioner)
      → Result (Unit {0}) × ProcessProvisioner
      → Result (Unit {0}) × ProcessProvisioner
  and_next next (ok _, p) = next p
  and_next next (err e, p) = (err e, p)

  -- A process that is not there, or has no handle, is passed over.
  unfoldable pub terminate :
      List String → ProcessProvisioner → Result (Unit {0}) × ProcessProvisioner
  terminate [] p = (ok tt, p)
  terminate (host ∷ hosts) p =
      if cancelled_at p.calls
      then (err cancelled, p)
      else and_next (terminate hosts) (kill (find_process host p.processes) host p)

  -- The goroutine that waits for a process takes its key out of the map when it has ended.
  unfoldable pub exited : String → ProcessProvisioner → ProcessProvisioner
  exited host p = record p { processes = filter_by (λ q. not (str_eq q.hostname host)) p.processes }
