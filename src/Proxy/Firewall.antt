-- ===== src/Proxy/Firewall.antt =====
-- The kill switch and the DNS shield of scripts/quick_client.py: the commands of the operating
-- system that they run, and when `run_python_proxy` runs them.
use Prim.Native.String.{String}
use aegs_global.Prelude.{ℕ, ◌+◌, ◌-◌, Bool, ◌||◌, List, [], ◌∷◌, ◌++◌, ltb, if◌then◌else◌, Bytes}

pub data Rule : Type 0 where
  allow_loopback : Rule
  allow_dhcp : Rule
  allow_server : Rule
  block_all : Rule
  block_dns : Rule

pub data Chain : Type 0 where
  killswitch : Chain
  dns_shield : Chain

-- An argument of a command: a word, the server's address, or a range of ports.
pub data Argument : Type 0 where
  word : String → Argument
  remote_ip : Bytes → Argument
  port : ℕ → Argument
  ports : ℕ → ℕ → Argument

-- `netsh advfirewall firewall add rule` and `delete rule`, and `iptables -N`, `-A`, `-I OUTPUT 1 -j`,
-- `-D OUTPUT -j`, `-F` and `-X`.
pub data Command : Type 0 where
  netsh_add : Rule → List Argument → Command
  netsh_delete : Rule → Command
  new_chain : Chain → Command
  append_rule : Chain → List Argument → Command
  insert_jump : Chain → Command
  delete_jump : Chain → Command
  flush_chain : Chain → Command
  delete_chain : Chain → Command

-- `os.name`.
pub data Os : Type 0 where
  nt : Os
  posix : Os

unfoldable pub enable_killswitch : Os → Bytes → ℕ → ℕ → List Command
enable_killswitch nt server_ip base_port port_count =
    netsh_add allow_loopback
      (word "dir=out" ∷ word "action=allow" ∷ word "remoteip=127.0.0.1" ∷ word "enable=yes" ∷ [])
    ∷ netsh_add allow_dhcp (
        word "dir=out"
        ∷ word "action=allow"
        ∷ word "protocol=UDP"
        ∷ word "localport=68"
        ∷ word "remoteport=67"
        ∷ word "enable=yes"
        ∷ [])
    ∷ netsh_add allow_server (
        word "dir=out"
        ∷ word "action=allow"
        ∷ remote_ip server_ip
        ∷ word "protocol=UDP"
        ∷ ports base_port (base_port + port_count - 1)
        ∷ word "enable=yes"
        ∷ [])
    ∷ netsh_add block_all (word "dir=out" ∷ word "action=block" ∷ word "enable=yes" ∷ [])
    ∷ []
enable_killswitch posix server_ip base_port port_count =
    new_chain killswitch
    ∷ append_rule killswitch (
        word "-m"
        ∷ word "conntrack"
        ∷ word "--ctstate"
        ∷ word "ESTABLISHED,RELATED"
        ∷ word "-j"
        ∷ word "ACCEPT"
        ∷ [])
    ∷ append_rule killswitch (word "-o" ∷ word "lo" ∷ word "-j" ∷ word "ACCEPT" ∷ [])
    ∷ append_rule killswitch (
        word "-p"
        ∷ word "udp"
        ∷ word "--sport"
        ∷ word "68"
        ∷ word "--dport"
        ∷ word "67"
        ∷ word "-j"
        ∷ word "ACCEPT"
        ∷ [])
    ∷ append_rule killswitch (
        word "-d"
        ∷ remote_ip server_ip
        ∷ word "-p"
        ∷ word "udp"
        ∷ word "--dport"
        ∷ (if ltb 1 port_count
            then ports base_port (base_port + port_count - 1)
            else port base_port)
        ∷ word "-j"
        ∷ word "ACCEPT"
        ∷ [])
    ∷ append_rule killswitch (word "-j" ∷ word "DROP" ∷ [])
    ∷ insert_jump killswitch
    ∷ []

unfoldable pub disable_killswitch : Os → List Command
disable_killswitch nt =
    netsh_delete allow_loopback
    ∷ netsh_delete allow_dhcp
    ∷ netsh_delete allow_server
    ∷ netsh_delete block_all
    ∷ netsh_delete block_dns
    ∷ []
disable_killswitch posix =
    delete_jump killswitch
    ∷ flush_chain killswitch
    ∷ delete_chain killswitch
    ∷ delete_jump dns_shield
    ∷ flush_chain dns_shield
    ∷ delete_chain dns_shield
    ∷ []

unfoldable pub enable_dns_shield : Os → List Command
enable_dns_shield nt =
    netsh_add block_dns (
      word "dir=out"
      ∷ word "action=block"
      ∷ word "protocol=UDP"
      ∷ word "remoteport=53"
      ∷ word "remoteip=!127.0.0.1"
      ∷ word "enable=yes"
      ∷ [])
    ∷ []
enable_dns_shield posix =
    new_chain dns_shield
    ∷ append_rule dns_shield (
        word "-o"
        ∷ word "lo"
        ∷ word "-p"
        ∷ word "udp"
        ∷ word "--dport"
        ∷ word "53"
        ∷ word "-j"
        ∷ word "ACCEPT"
        ∷ [])
    ∷ append_rule dns_shield
        (word "-p" ∷ word "udp" ∷ word "--dport" ∷ word "53" ∷ word "-j" ∷ word "DROP" ∷ [])
    ∷ insert_jump dns_shield
    ∷ []

-- How far `run_python_proxy` comes: an exception before the loop, in the binding of the socket or in
-- the handshake, or the loop and its end, by the keyboard or by an exception.
pub data Course : Type 0 where
  fails_before_loop : Course
  loop_ends : Course

unfoldable pub startup_commands : Os → Bool → Bool → Bytes → ℕ → List Command
unfolding enable_killswitch enable_dns_shield
startup_commands os kill_switch dns_protect server_ip port_count =
    (if kill_switch then enable_killswitch os server_ip 50001 port_count else [])
    ++ (if dns_protect then enable_dns_shield os else [])

-- The commands of a whole run: the `try` with the `finally` begins after the handshake.
unfoldable pub proxy_commands : Os → Course → Bool → Bool → Bytes → ℕ → List Command
unfolding startup_commands disable_killswitch
proxy_commands os fails_before_loop kill_switch dns_protect server_ip port_count =
    startup_commands os kill_switch dns_protect server_ip port_count
proxy_commands os loop_ends kill_switch dns_protect server_ip port_count =
    startup_commands os kill_switch dns_protect server_ip port_count
    ++ (if kill_switch || dns_protect then disable_killswitch os else [])
