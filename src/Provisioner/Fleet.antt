-- ===== src/Provisioner/Fleet.antt =====
-- What a provisioner adds to the fleet, and that the autoscaler knows it again.
use vulcan.Prelude.{
  ℕ, zero, suc, ◌≡◌, refl, sym, subst, String, true, Bool-cases, inl, inr, not, List, [], ◌∷◌,
  arith, All, ℤ, pos, pos_part, leb_ℤ, str_eq, All-filter_by, Option-cases,
}
use Prim.Native.String.{◌++◌}
use text.Mathlib.TextPositions.{starts_with-append}
use vulcan.Autoscaler.Reconciler.{is_autoscaler_managed_worker}
use vulcan.Provisioner.{
  System, Process, ProcessProvisioner, new_hostname, provision_from, provision, terminate, exited,
  started,
}

new_hostname-is_managed :
    (system : System) (call i : ℕ)
    → is_autoscaler_managed_worker (new_hostname system call i) ≡ true
unfolding new_hostname is_autoscaler_managed_worker
new_hostname-is_managed system call i =
    starts_with-append "vulcan-auto-worker-" (system.nano call ++ ("-" ++ system.itoa i))

abbrev pub IsManaged : Process → Type 0
IsManaged q = is_autoscaler_managed_worker q.hostname ≡ true

module _ (system : System) where
  started-IsManaged :
      (i : ℕ) (p : ProcessProvisioner)
      → All IsManaged p.processes
      → All IsManaged (started system p (new_hostname system p.calls i)).processes
  started-IsManaged i p h = (
    new_hostname-is_managed system p.calls i,
    All-filter_by IsManaged (λ q. not (str_eq q.hostname (new_hostname system p.calls i)))
        p.processes h,
  )

  provision_from-IsManaged :
      (i left : ℕ) (p : ProcessProvisioner)
      → All IsManaged p.processes
      → All IsManaged (provision_from system i left p).1.processes
  unfolding provision_from
  provision_from-IsManaged i zero p h = h
  provision_from-IsManaged i (suc left) p h = elim (Bool-cases (system.cancelled_at p.calls)) [
    | inl c ↦ rw c h
    | inr c ↦ elim (Option-cases (system.starts p.calls)) [
      | inl s ↦
          rw (c, s)
            (provision_from-IsManaged (suc i) left
              (started system p (new_hostname system p.calls i)) (started-IsManaged i p h))
      | inr (e, s) ↦ rw (c, s) h
    ]
  ]

  provision-IsManaged :
      (count : ℤ) (p : ProcessProvisioner)
      → All IsManaged p.processes
      → All IsManaged (provision system count p).1.processes
  unfolding provision
  provision-IsManaged count p h = elim (Bool-cases (leb_ℤ count (pos 0))) [
    | inl n ↦ rw n h
    | inr n ↦ elim (Bool-cases (str_eq p.binary_path "")) [
      | inl b ↦ rw (n, b) h
      | inr b ↦ rw (n, b) (provision_from-IsManaged 0 (pos_part count) p h)
    ]
  ]

  terminate-processes :
      (hosts : List String) (p : ProcessProvisioner)
      → (terminate system hosts p).1.processes ≡ p.processes
  unfolding terminate
  terminate-processes [] p = refl
  terminate-processes (host ∷ hosts) p =
      ground (arith, terminate-processes hosts (record p { calls = suc p.calls }))

-- What happens to the table: the autoscaler's two calls, and a process that ends.
pub data Event : Type 0 where
  add : ℤ → Event
  remove : List String → Event
  ended : String → Event

abbrev pub step : System → Event → ProcessProvisioner → ProcessProvisioner
step system (add count) p = (provision system count p).1
step system (remove hosts) p = (terminate system hosts p).1
step system (ended host) p = exited system host p

abbrev pub steps : System → List Event → ProcessProvisioner → ProcessProvisioner
steps system [] p = p
steps system (e ∷ es) p = steps system es (step system e p)

step-IsManaged :
    (system : System) (e : Event) (p : ProcessProvisioner)
    → All IsManaged p.processes
    → All IsManaged (step system e p).processes
unfolding exited
step-IsManaged system (add count) p h = provision-IsManaged system count p h
step-IsManaged system (remove hosts) p h =
    subst (All IsManaged) (sym (terminate-processes system hosts p)) h
step-IsManaged system (ended host) p h =
    All-filter_by IsManaged (λ q. not (str_eq q.hostname host)) p.processes h

-- Whatever the provisioner is asked to start and to kill, in whatever order processes end and calls of
-- the operating system fail, every process of its table has a hostname that the autoscaler recognises
-- as one of its own, if that held at the start.
pub steps-IsManaged :
    (system : System) (es : List Event) (p : ProcessProvisioner)
    → All IsManaged p.processes
    → All IsManaged (steps system es p).processes
steps-IsManaged system [] p h = h
steps-IsManaged system (e ∷ es) p h =
    steps-IsManaged system es (step system e p) (step-IsManaged system e p h)
