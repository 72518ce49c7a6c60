-- ===== src/Tests/Araclar.antt =====
-- The tools of core/turkish_code/araclar at a concrete registry and policy.
use turkish_code.Base.{refl, [], ◌∷◌, none, some}
use turkish_code.Base.Dict.{lookup, insert}
use turkish_code.Araclar.Izin.{
  SideEffect, Capability, PermissionMode, PermissionPolicy, decide, granted,
}
use turkish_code.Araclar.Izin.Laws.{Permits}
use turkish_code.Araclar.Kayit.{Tool, ToolRegistry, resolve}
use turkish_code.Araclar.Dagitici.{
  track, cancel, cancel_all, ToolRequest, Execution, World, dispatch, request_of,
}
use turkish_code.Araclar.Dagitici.Laws.{dispatch-policy}

abbrev shell : Tool
shell = record {
  name = "shell.run";
  capability = some Capability.shell_exec;
  side_effect = SideEffect.exec;
  timeout_ms = 1000;
}

abbrev tools : ToolRegistry
tools = ("shell.run", shell) ∷ []

abbrev policy : PermissionPolicy
policy = record {
  mode = PermissionMode.ask;
  grants = record { capability = Capability.shell_exec; target = none } ∷ [];
}

abbrev call : ToolRequest
call = record { name = "shell.run"; call_id = "c1" }

abbrev world : World
world = record {
  while_gating = "c2" ∷ [];
  while_running = "c1" ∷ [];
  execution = Execution.succeeded "done";
}

dispatch-policy_example : Permits policy Capability.shell_exec (request_of shell) PermissionMode.ask
unfolding dispatch resolve lookup insert decide granted cancel_all track cancel
dispatch-policy_example =
    dispatch-policy policy tools call world [] shell Capability.shell_exec refl refl refl refl
