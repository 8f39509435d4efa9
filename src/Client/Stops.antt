-- ===== src/Client/Stops.antt =====
-- A worker that executes a test learns over HTTP that it was stopped.
use vulcan.Prelude.{
  String, ◌≡◌, refl, ap, inl, inr, true, false, some, List, [], ◌∷◌, arith, count_by, str_eq,
  Bool-cases, eq_iff,
}
use vulcan.Errors.{Result, ok, err}
use vulcan.Models.{Test, TestStatus}
use vulcan.Driver.{Env, Conn}
use vulcan.Repository.Tests.{find_test, get_test_by_id}
use vulcan.Repository.Effects.{found}
use vulcan.Service.Tests.{is_finished, stop_test}
use vulcan.Service.Tests.Stop.{IsAlone, not_stopped, stop_test_lem}
use vulcan.Api.{json, error}
use vulcan.Api.Endpoints.{Endpoint}
use vulcan.Api.Router.{Server, Routes, serve, control_plane, control_plane-serve}
use vulcan.Api.Tests.{handle_get_test, missing_or_internal}
use vulcan.Client.{ClientCodec, TestStatusResponse, do_request, fetch_test}
use vulcan.Client.Serving.{Agrees}
use vulcan.Runner.{is_stop}

-- The texts of internal/constants/status.go.
abbrev pub test_status_text : TestStatus → String
test_status_text TestStatus.created = "CREATED"
test_status_text TestStatus.starting = "STARTING"
test_status_text TestStatus.running = "RUNNING"
test_status_text TestStatus.stopping = "STOPPING"
test_status_text TestStatus.stopped = "STOPPED"
test_status_text TestStatus.completed = "COMPLETED"
test_status_text TestStatus.failed = "FAILED"

-- What a worker is to read of a test.
abbrev pub seen_test : Test → TestStatusResponse
seen_test t = record { id = t.id; status = test_status_text t.status }

-- The worker reads the identifier and the status of the test that the server has written.
abbrev pub ReadsTest : Server → ClientCodec → String → Type 0
ReadsTest server codec id =
    (t : Test) → t.id ≡ id → Agrees (server.test_codec.test t) codec.test_status (seen_test t)

find_test-stopped :
    (id : String) (ts : List Test) (t : Test)
    → find_test id ts ≡ some t
    → count_by (not_stopped id) ts ≡ 0
    → t.status ≡ TestStatus.stopped
find_test-stopped id [] t h k = cc
find_test-stopped id (u ∷ ts) t h k = ground (arith, find_test-stopped id ts t)

find_test-id : (id : String) (ts : List Test) (t : Test) → find_test id ts ≡ some t → t.id ≡ id
find_test-id id [] t h = cc
find_test-id id (u ∷ ts) t h = elim (Bool-cases (str_eq u.id id)) [
  | inl e ↦ ground (arith, rw e at h, (eq_iff u.id id).0 e)
  | inr e ↦ find_test-id id ts t (rw e at h)
]

get_test_by_id-found :
    (env : Env) (id : String) (c : Conn) (t : Test)
    → (get_test_by_id env id c).0 ≡ ok t
    → find_test id (found env c).tests ≡ some t
unfolding get_test_by_id
get_test_by_id-found env id c t h = ground arith

module _ (server : Server) (codec : ClientCodec) (id : String) (reads : ReadsTest server codec id)
    (routes : Routes server.router id) where
  open server use {env, strings, service, test_codec}

  -- An answer is of the test that the service has read.
  fetched :
      (c : Conn) {r : TestStatusResponse}
      → (fetch_test (control_plane server) codec id c).0 ≡ ok r
      → (t : Test) × ((get_test_by_id env id c).0 ≡ ok t) × (r ≡ seen_test t)
  unfolding fetch_test do_request serve handle_get_test missing_or_internal error json
  fetched c {r} h = go (get_test_by_id env id c) refl
    where
      served :
          control_plane server
            (record { method = "GET"; path = "api" ∷ "v1" ∷ "tests" ∷ id ∷ []; body = "" })
            c
          ≡ (
            ok (serve server (Endpoint.get_test id) "" c).0,
            (serve server (Endpoint.get_test id) "" c).1,
          )
      served = control_plane-serve server id routes (Endpoint.get_test id) "" c refl

      go :
          (g : Result Test × Conn)
          → get_test_by_id env id c ≡ g
          → (t : Test) × ((get_test_by_id env id c).0 ≡ ok t) × (r ≡ seen_test t)
      go (ok t, c') e =
          let (s, wrote, seen) = reads t (
            find_test-id id (found env c).tests t
              (get_test_by_id-found env id c t (ap (λ g. g.0) e))) in
          (t, ap (λ g. g.0) e, ground (arith, rw (served, e) at h, wrote, seen))
      go (err x, c') e = ground (arith, rw (served, e) at h)

  -- A stop that succeeds on an unfinished test, where no other client of the database writes
  -- meanwhile, reaches the workers that execute it: the answer that one of them then gets when it asks
  -- the control plane over HTTP for the test is one at which it stops. The path must be routed, and
  -- the worker must read what the server writes of a test.
  pub fetch_test-stop_test :
      (t : Test) (c : Conn) (r : TestStatusResponse)
      → IsAlone env
      → (get_test_by_id env id c).0 ≡ ok t
      → is_finished env service t.status ≡ false
      → (stop_test env service id c).0 ≡ ok tt
      → (fetch_test (control_plane server) codec id (stop_test env service id c).1).0 ≡ ok r
      → is_stop (ok r.status) ≡ true
  fetch_test-stop_test t c r alone read open_still stopped answered =
      let (u, got, same) = fetched (stop_test env service id c).1 answered in
      elim (stop_test_lem env service alone id c stopped) [
        | inl (v, again, finished, _) ↦ cc
        | inr (gone, _) ↦
            let status =
              find_test-stopped id (found env (stop_test env service id c).1).tests u
                (get_test_by_id-found env id (stop_test env service id c).1 u got)
                (rw (alone (stop_test env service id c).1.calls (stop_test env service id c).1.db)
                  gone) in
            rw (same, status) refl
      ]
