-- ===== src/Node/Service/Full/Quiet.antt =====
-- `new_partial` and the start of the network.
use substrate_node_template.Common.{
  String, Bool, false, some, ◌≡◌, Result, err, inl, inr, All, arith, Option-cases,
}
use substrate_node_template.Node.Service.Types.{
  Platform, Configuration, ServiceError, other, History,
}
use substrate_node_template.Node.Service.Plan.{call, run_plan, run_plan-All, NotStarted, starts}
use substrate_node_template.Node.Service.Partial.{new_partial}
use substrate_node_template.Node.Service.Full.Calls.{components_plan, build_components-eq-run_plan}

module _ (platform : Platform) where
  open platform use {Role, LibraryError}

  plan_quiet :
      (config : Configuration Role)
      → All (λ s. starts (call s) ≡ false) (components_plan platform config)
  plan_quiet config = ground arith

  pub new_partial-refused :
      (config : Configuration Role) (url : String) (h : History platform)
      → config.keystore_remote ≡ some url
      → new_partial platform config h ≡ some (err (other "Remote Keystores are not supported."), h)
  unfolding new_partial
  new_partial-refused config url h remote = ground arith

  pub new_partial-NotStarted :
      (config : Configuration Role) (h h' : History platform)
      (r : Result (ServiceError LibraryError) Bool)
      → NotStarted h
      → new_partial platform config h ≡ some (r, h')
      → NotStarted h'
  unfolding new_partial
  new_partial-NotStarted config h h' r quiet e = elim (Option-cases config.keystore_remote) [
    | inl local ↦ elim (Option-cases (run_plan platform (components_plan platform config) h)) [
      | inl panic ↦ absurd (ground (arith, build_components-eq-run_plan platform config h))
      | inr ((x, h''), ran) ↦
          let same : h' ≡ h'' = ground (arith, build_components-eq-run_plan platform config h) in
          rw same (
            run_plan-All platform (λ a. starts a ≡ false) (components_plan platform config) h h'' x
              (plan_quiet config) quiet ran)
    ]
    | inr (url, remote) ↦ let same : h' ≡ h = ground arith in rw same quiet
  ]
