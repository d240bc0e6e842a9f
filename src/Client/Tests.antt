-- ===== src/Client/Tests.antt =====
-- The settings of Windows in aegs_client.py, with a registry that is a function.
use aegs_global.Prelude.{◌≡◌, refl, true, Option, none, some, [], ◌∷◌, if◌then◌else◌}
use aegs_global.Client.SystemProxy.{
  Name, proxy_enable, proxy_server, proxy_override, restore_on_boot, Value, dword, sz, same,
  Registry, IsRegistry, SystemProxy, new_system_proxy, enable, disable, restored, disable-enable,
}

abbrev values : Registry (Name → Option Value)
values = record {
  query = λ n r. r n;
  set_value = λ n v r m. if same m n then some v else r m;
  delete_value = λ n r m. if same m n then none else r m;
}

values-IsRegistry : IsRegistry values
values-IsRegistry = record { query-set_value = λ m n v r. refl; query-delete_value = λ m n r. refl }

-- A proxy that is switched on, and no list of exceptions.
abbrev office : Name → Option Value
office proxy_enable = some (dword 1)
office proxy_server = some (sz (49 ∷ []))
office proxy_override = none
office restore_on_boot = none

abbrev gate : SystemProxy
unfolding new_system_proxy
gate = new_system_proxy (48 ∷ [])

disable-enable_example :
    (let (p', r') = enable values true (λ v. []) gate office in
      (disable values true p' r').1 proxy_override)
    ≡ restored gate.proxy_addr (λ m. office m) proxy_override
disable-enable_example =
    disable-enable values values-IsRegistry (λ v. []) gate office proxy_override
