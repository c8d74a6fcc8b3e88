-- ===== src/Tenancy/Tests.antt =====
-- A webhook that looks its merchant up, and then works for it.
use review_flow.Base.{false, refl, none, some}
use review_flow.Tenancy.{
  State, Block, statement, raising, sequence, tenant_atomic, billing_ref_lookup_atomic, tenant_task,
  no_settings, run,
}
use review_flow.Tenancy.Isolation.{Each, Apart, IsIdle, run-Apart}
use review_flow.Tenancy.Restoration.{Restored, run-Restored}

abbrev idle : State
idle = record { merchant = none; scopes = λ c. none; depth = 0; settings = no_settings }

abbrev webhook : Block
webhook =
    sequence (billing_ref_lookup_atomic (some 9) statement)
      (tenant_task 7 (tenant_atomic false (sequence statement raising)))

run-Apart_example : Each Apart (run webhook idle).seen × IsIdle (run webhook idle).state
run-Apart_example = run-Apart webhook idle (_, (_, _)) (refl, refl)

run-Restored_example : Restored idle (run webhook idle).state
run-Restored_example = run-Restored webhook idle
