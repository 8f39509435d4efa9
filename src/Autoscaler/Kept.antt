-- ===== src/Autoscaler/Kept.antt =====
-- A cycle of the autoscaler keeps workers and assignments, if the provisioner does.
use vulcan.Prelude.{String, List, [], ◌∷◌, ℤ}
use vulcan.Models.{Worker}
use vulcan.Driver.{Env, wrapped, lift}
use vulcan.Repository.Kept.{Keeps, OthersKeep, bind-Keeps, keeps}
use vulcan.Repository.Kept.Operations.{
  get_tests-Keeps, get_workers-Keeps, terminate_idle_workers-Keeps,
}
use vulcan.Repository.Tests.{get_tests}
use vulcan.Repository.Workers.{get_workers}
use vulcan.Autoscaler.Capacity.{desired_capacity, pending_capacity}
use vulcan.Autoscaler.Reconciler.{
  Provisioner, scale_up, terminate_hosts, drain, scale_down, adjust, reconcile,
}

pub record ProvisionerKeeps (provisioner : Provisioner) : Type 0 where
  pub provision : (n : ℤ) → Keeps (provisioner.provision n)
  pub terminate : (hosts : List String) → Keeps (provisioner.terminate hosts)

module _ (env : Env) (rely : OthersKeep env) (provisioner : Provisioner)
    (k : ProvisionerKeeps provisioner) where
  scale_up-Keeps : (count : ℤ) → Keeps (scale_up env provisioner count)
  unfolding scale_up
  scale_up-Keeps count = search (keeps, k.provision)

  terminate_hosts-Keeps : (hosts : List String) → Keeps (terminate_hosts env provisioner hosts)
  unfolding terminate_hosts
  terminate_hosts-Keeps [] = search keeps
  terminate_hosts-Keeps (h ∷ hs) = search (keeps, k.terminate)

  drain-Keeps : (ws : List Worker) → Keeps (drain env provisioner ws)
  unfolding drain
  drain-Keeps [] = search keeps
  drain-Keeps (w ∷ ws) =
      search (keeps, terminate_idle_workers-Keeps env rely, terminate_hosts-Keeps)

  scale_down-Keeps :
      (excess : ℤ) (idle : List Worker) → Keeps (scale_down env provisioner excess idle)
  unfolding scale_down
  scale_down-Keeps excess idle = search (keeps, drain-Keeps)

  adjust-Keeps :
      (actual target : ℤ) (idle : List Worker) → Keeps (adjust env provisioner actual target idle)
  unfolding adjust
  adjust-Keeps actual target idle = search (keeps, scale_up-Keeps, scale_down-Keeps)

  pub reconcile-Keeps : (capacity : ℤ) → Keeps (reconcile env provisioner capacity)
  unfolding reconcile
  reconcile-Keeps capacity =
      bind-Keeps (wrapped "get tests" (get_tests env)) _ (search (keeps, get_tests-Keeps env rely))
        λ tests.
          bind-Keeps (wrapped "calculate desired capacity" (lift (desired_capacity tests capacity)))
            _ (search keeps)
            λ desired.
              bind-Keeps
                (wrapped "calculate pending capacity" (lift (pending_capacity tests capacity))) _
                (search keeps)
                λ pending.
                  bind-Keeps (wrapped "get workers" (get_workers env)) _
                    (search (keeps, get_workers-Keeps env rely)) λ workers. adjust-Keeps _ _ _
