-- ===== src/Crypto/Labels.antt =====
-- The salts and labels that the programs derive their keys with.
use Prim.Native.Char.{code}
use Prim.Native.String.{String}
use aegs_global.Prelude.{[], ◌∷◌, Bytes}

-- The code points of a text: its bytes, if it is ASCII.
abbrev pub codes : String → Bytes
codes String.[] = []
codes (String.◌∷◌ c s) = code c ∷ codes s

abbrev pub master_salt : Bytes
master_salt = codes "aegs-v4-master-salt"

abbrev pub mask_info : Bytes
mask_info = codes "AEGS-V4-MASK-KEY-2026"

abbrev pub resumption_salt : Bytes
resumption_salt = codes "aegis-v2-salt"

abbrev pub resumption_info : Bytes
resumption_info = codes "aegs-v4-resumption-key"

abbrev pub handshake_init_info : Bytes
handshake_init_info = codes "AEGS-V4-HANDSHAKE-INIT-KEY"

abbrev pub handshake_salt_info : Bytes
handshake_salt_info = codes "AEGS-V4-HANDSHAKE-SALT"

abbrev pub client_write_info : Bytes
client_write_info = codes "AEGS-V4-CLIENT-WRITE-KEY-2026"

abbrev pub server_write_info : Bytes
server_write_info = codes "AEGS-V4-SERVER-WRITE-KEY-2026"

abbrev pub c2s_info : Bytes
c2s_info = codes "aegs-c2s"

abbrev pub s2c_info : Bytes
s2c_info = codes "aegs-s2c"

abbrev pub gateway_mask_info : Bytes
gateway_mask_info = codes "aegis-v2-header-mask"

abbrev pub proxy_payload_info : Bytes
proxy_payload_info = codes "aegis-v2-payload-key"

abbrev pub config_info : Bytes
config_info = codes "aegs-cfg"
