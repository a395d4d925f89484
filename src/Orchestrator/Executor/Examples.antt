-- ===== src/Orchestrator/Executor/Examples.antt =====
-- The executor at concrete values: factories that give the number they are made of.
use monolake.Base.{ℕ, some, ok, err, ◌≡◌, refl}
use monolake.Orchestrator.Executor.{
  Factories, Executor, precommit, update, commit, prepare_and_commit, abort, init, execute,
  committed_of, staged_of, get_svc, site_not_exist, precommit_svc, deploy_and_serve,
  deploy_staged_service, spawn_serve, abort_site,
}
use monolake.Orchestrator.Executor.Views.{execute_err}
use monolake.Orchestrator.Executor.Inv.{IsCoherent, init-IsCoherent, execute-IsCoherent}
use monolake.Orchestrator.Executor.Stages.{Updates, Deploys, commit-Deploys, two_stage_update}

abbrev pub numbers : Factories
numbers = record {
  S = ℕ;
  L = ℕ;
  F = ℕ;
  LF = ℕ;
  SE = Unit {0};
  LE = Unit {0};
  make_via_ref = λ f old. ok f;
  make_listener = λ l. ok l;
}

-- A site "a" that serves with 1, and one with a service staged for "b".
abbrev deployed_a : Executor numbers
deployed_a = (execute numbers (init numbers) (prepare_and_commit "a" 1 80)).1

abbrev staged_b : Executor numbers
staged_b = (execute numbers deployed_a (precommit "b" 5)).1

deployed_a-IsCoherent : IsCoherent numbers deployed_a
deployed_a-IsCoherent =
    execute-IsCoherent numbers (init numbers) (prepare_and_commit "a" 1 80)
      (init-IsCoherent numbers)

staged_b-IsCoherent : IsCoherent numbers staged_b
staged_b-IsCoherent = execute-IsCoherent numbers deployed_a (precommit "b" 5) deployed_a-IsCoherent

deployed_a-serves : get_svc numbers deployed_a "a" ≡ some 1
unfolding execute init precommit_svc deploy_and_serve deploy_staged_service spawn_serve get_svc
deployed_a-serves = refl

deployed_a-slot : committed_of numbers deployed_a "a" ≡ some 0
unfolding execute init precommit_svc deploy_and_serve deploy_staged_service spawn_serve
deployed_a-slot = refl

staged_b-staged : staged_of numbers staged_b "b" ≡ some 5
unfolding execute init precommit_svc deploy_and_serve deploy_staged_service spawn_serve get_svc
staged_b-staged = refl

abort_c-fails : (execute numbers deployed_a (abort "c")).0 ≡ err site_not_exist
unfolding execute init precommit_svc deploy_and_serve deploy_staged_service spawn_serve abort_site
abort_c-fails = refl

execute_err_example : (execute numbers deployed_a (abort "c")).1 ≡ deployed_a
execute_err_example = execute_err numbers deployed_a (abort "c") site_not_exist abort_c-fails

execute-IsCoherent_example : IsCoherent numbers (execute numbers staged_b (commit "b" 81)).1
execute-IsCoherent_example = execute-IsCoherent numbers staged_b (commit "b" 81) staged_b-IsCoherent

two_stage_update_example :
    ((execute numbers deployed_a (precommit "a" 7)).0 ≡ ok tt)
    × ((execute numbers (execute numbers deployed_a (precommit "a" 7)).1 (update "a")).0 ≡ ok tt)
    × Updates numbers deployed_a
        (execute numbers (execute numbers deployed_a (precommit "a" 7)).1 (update "a")).1
        "a"
        7
two_stage_update_example =
    two_stage_update numbers deployed_a "a" 7 0 7 deployed_a-IsCoherent deployed_a-slot refl

commit-Deploys_example :
    ((execute numbers staged_b (commit "b" 81)).0 ≡ ok tt)
    × Deploys numbers staged_b (execute numbers staged_b (commit "b" 81)).1 "b" 5 81
commit-Deploys_example =
    commit-Deploys numbers staged_b "b" 81 5 81 staged_b-IsCoherent staged_b-staged refl
