-- ===== src/Client/SystemProxy.antt =====
-- `WindowsSystemProxy` of aegs_client.py: the settings of Windows are turned to the local gateway, and
-- turned back. The registry (`winreg`) is a parameter, whose calls go through; so are `sys.platform`
-- and the text that RunOnce is given.
use aegs_global.Prelude.{
  ℕ, ◌≡◌, refl, Bool, true, false, not, ◌||◌, ◌&&◌, Option, none, some, [], ◌∷◌, ◌++◌, ◌==◌,
  if◌then◌else◌, Bytes, Bool-cases, inl, inr,
}
use aegs_global.Crypto.Labels.{codes}

-- The four values that are touched, the last one under the key RunOnce.
pub data Name : Type 0 where
  proxy_enable : Name
  proxy_server : Name
  proxy_override : Name
  restore_on_boot : Name

-- REG_DWORD and REG_SZ.
pub data Value : Type 0 where
  dword : ℕ → Value
  sz : Bytes → Value

-- `QueryValueEx`, where `none` is FileNotFoundError, `SetValueEx` and `DeleteValue`.
pub record Registry (R : Type 0) : Type 0 where
  pub query : Name → R → Option Value
  pub set_value : Name → Value → R → R
  pub delete_value : Name → R → R

abbrev pub number_of : Name → ℕ
number_of proxy_enable = 0
number_of proxy_server = 1
number_of proxy_override = 2
number_of restore_on_boot = 3

abbrev pub same : Name → Name → Bool
same m n = number_of m == number_of n

-- A value that is set is read back, one that is deleted is not found, and other values stay.
pub record IsRegistry {R : Type 0} (g : Registry R) : Type 0 where
  pub query-set_value :
      (m n : Name) (v : Value) (r : R)
      → g.query m (g.set_value n v r) ≡ (if same m n then some v else g.query m r)
  pub query-delete_value :
      (m n : Name) (r : R)
      → g.query m (g.delete_value n r) ≡ (if same m n then none else g.query m r)

pub record SystemProxy : Type 0 where
  pub proxy_addr : Bytes
  pub orig_enabled : Value
  pub orig_server : Value
  pub orig_override : Value
  pub is_active : Bool

-- `__init__`
unfoldable pub new_system_proxy : Bytes → SystemProxy
new_system_proxy addr = record {
  proxy_addr = addr;
  orig_enabled = dword 0;
  orig_server = sz [];
  orig_override = sz [];
  is_active = false;
}

-- A number or a text as the condition of an `if`.
abbrev pub truthy : Value → Bool
truthy (dword n) = not (n == 0)
truthy (sz []) = false
truthy (sz (x ∷ xs)) = true

abbrev pub or_default : Option Value → Value → Value
or_default none d = d
or_default (some v) d = v

-- `f"http={addr};https={addr};socks={addr}"`
abbrev pub proxy_str : Bytes → Bytes
proxy_str addr = codes "http=" ++ (addr ++ (codes ";https=" ++ (addr ++ (codes ";socks=" ++ addr))))

abbrev pub bypass : Bytes
bypass = codes "<local>;127.*;192.168.*;10.*"

-- What is there at the end, by what was there before.
abbrev pub restored : Bytes → (Name → Option Value) → Name → Option Value
restored addr before proxy_enable = some (or_default (before proxy_enable) (dword 0))
restored addr before proxy_server =
    let v = or_default (before proxy_server) (sz []) in
    if truthy v then some v else some (sz (proxy_str addr))
restored addr before proxy_override =
    let v = or_default (before proxy_override) (sz []) in
    if truthy v then some v else some (sz bypass)
restored addr before restore_on_boot = none

module _ {R : Type 0} (g : Registry R) where
  -- `restore_cmd` is the text that sets ProxyEnable back.
  unfoldable pub enable : Bool → (Value → Bytes) → SystemProxy → R → SystemProxy × R
  enable win32 restore_cmd p r =
      if win32
      then (let p' = record p {
        orig_enabled = or_default (g.query proxy_enable r) (dword 0);
        orig_server = or_default (g.query proxy_server r) (sz []);
        orig_override = or_default (g.query proxy_override r) (sz []);
        is_active = true;
      } in
          (
            p',
            g.set_value proxy_override (sz bypass) (
                g.set_value proxy_server (sz (proxy_str p.proxy_addr)) (
                  g.set_value proxy_enable (dword 1)
                    (g.set_value restore_on_boot (sz (restore_cmd p'.orig_enabled)) r))),
          ))
      else (p, r)

  -- An empty text is not written back.
  put_back : Name → Value → R → R
  put_back n v r = if truthy v then g.set_value n v r else r

  unfoldable pub disable : Bool → SystemProxy → R → SystemProxy × R
  unfolding put_back
  disable win32 p r = if not win32 || not p.is_active then (p, r) else (
    record p { is_active = false },
    g.delete_value restore_on_boot (
        put_back proxy_override p.orig_override
          (put_back proxy_server p.orig_server (g.set_value proxy_enable p.orig_enabled r))),
  )

  module _ (laws : IsRegistry g) where
    query-put_back :
        (m n : Name) (v : Value) (r : R)
        → g.query m (put_back n v r) ≡ (if same m n && truthy v then some v else g.query m r)
    unfolding put_back
    query-put_back m n v r = elim (Bool-cases (truthy v)) [
      | inl y ↦ elim (Bool-cases (same m n)) [
        | inl e ↦ rw (y, laws.query-set_value m n v r, e) refl
        | inr e ↦ rw (y, laws.query-set_value m n v r, e) refl
      ]
      | inr f ↦ elim (Bool-cases (same m n)) [ inl e ↦ rw (f, e) refl | inr e ↦ rw (f, e) refl ]
    ]

    -- After turning the settings to the gateway and back on Windows, every value of the registry is as
    -- it was and the entry for the next start is gone, with two exceptions. A ProxyEnable that was
    -- missing is 0. Where the address of a proxy or the list of exceptions was missing or empty, the
    -- gateway's own stays in the registry.
    pub disable-enable :
        (restore_cmd : Value → Bytes) (p : SystemProxy) (r : R) (n : Name)
        → (let (p', r') = enable true restore_cmd p r in g.query n (disable true p' r').1)
          ≡ restored p.proxy_addr (λ m. g.query m r) n
    unfolding enable disable
    disable-enable restore_cmd p r proxy_enable =
        simp (laws.query-set_value, laws.query-delete_value, query-put_back)
    disable-enable restore_cmd p r proxy_server =
        simp (laws.query-set_value, laws.query-delete_value, query-put_back)
    disable-enable restore_cmd p r proxy_override =
        simp (laws.query-set_value, laws.query-delete_value, query-put_back)
    disable-enable restore_cmd p r restore_on_boot = simp (laws.query-delete_value)
