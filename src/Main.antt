-- ===== src/Main.antt =====
-- src/main.c: the options, the signal handler, the listening socket and the accepted connections.
-- getopt, the sockets of anet.c and the event loop of ae.c are parameters. log_msg, the priority and
-- the process's name are left out.
pub mod CommandLine
pub mod Agents
pub mod Runs
pub mod Stops
pub mod Safety
pub mod Tests
use dubbo_service_mesh.Base.{
  zero, suc, negsuc, ℕ, ◌+◌, ◌==◌, length, Bool, Option, none, some, List, [], ◌∷◌, ℤ, pos, is_neg,
  if◌then◌else◌, ◌>>=◌,
}
use dubbo_service_mesh.Text.{bytes, atoi, strncmp_eq}

-- AGENT_CONSUMER and AGENT_PROVIDER; 0 before an option says which.
pub data AgentType : Type 0 where
  unset : AgentType
  agent_consumer : AgentType
  agent_provider : AgentType

pub record Options : Type 0 where
  pub agent_type : AgentType
  pub etcd_host : Option (List ℕ)
  pub server_port : ℤ
  pub dubbo_port : ℤ
  pub log_dir : Option (List ℕ)

-- strcmp(optarg, "consumer") == 0, the NUL included. Every other type is a provider's.
unfoldable pub type_of : (optarg : List ℕ) → AgentType
type_of optarg =
    if strncmp_eq (length (bytes "consumer") + 1) optarg (bytes "consumer")
    then agent_consumer
    else agent_provider

-- One round of the loop; nothing if the process exits.
unfoldable pub set_option : (c : ℕ) → (optarg : List ℕ) → Options → Option Options
unfolding type_of
set_option c optarg o =
    if c == b't'
    then some (record o { agent_type = type_of optarg })
    else if c == b'e'
    then some (record o { etcd_host = some optarg })
    else if c == b'p'
    then some (record o { server_port = atoi optarg })
    else if c == b'd'
    then some (record o { dubbo_port = atoi optarg })
    else if c == b'l'
    then some (record o { log_dir = some optarg })
    else none

abbrev pub no_options : Options
no_options = record {
  agent_type = unset;
  etcd_host = none;
  server_port = pos 0;
  dubbo_port = pos 0;
  log_dir = none;
}

-- The loop over what getopt answers.
unfoldable pub parse_options : List (ℕ × List ℕ) → Options → Option Options
unfolding set_option
parse_options [] o = some o
parse_options ((c, optarg) ∷ more) o = set_option c optarg o >>= parse_options more

-- The end of signal_handler: the event loop is told to stop, or the process has ended before that.
pub data Outcome : Type 0 where
  stopped : Outcome
  aborted : Outcome
  exited : Outcome

pub data Signal : Type 0 where
  quit : Signal
  term : Signal
  int : Signal
  hup : Signal
  segv : Signal
  pipe : Signal
  chld : Signal
  usr1 : Signal
  urg : Signal
  other : Signal

-- Every signal but SIGSEGV and the unknown ones stops the loop, those that are only logged too.
unfoldable pub signal_handler : Signal → Outcome
signal_handler quit = stopped
signal_handler term = stopped
signal_handler int = stopped
signal_handler hup = stopped
signal_handler segv = aborted
signal_handler pipe = stopped
signal_handler chld = stopped
signal_handler usr1 = stopped
signal_handler urg = stopped
signal_handler other = exited

-- The agent's state `S`. `accept` is anetTcpAccept, a negative descriptor being ANET_ERR; `tune` is
-- anetNonBlock and anetEnableTcpNoDelay.
pub record Acceptor (S : Type 0) : Type 0 where
  pub accept : S → (fd : ℤ) → ℤ × S
  pub tune : S → (fd : ℤ) → S
  pub consumer_http_handler : S → (fd : ℤ) → Option S
  pub provider_http_handler : S → (fd : ℤ) → Option S

-- MAX_ACCEPTS_PER_CALL is 1, so the loop of accept_tcp_handler runs once.
unfoldable pub accept_tcp_handler : {S : Type 0} → Acceptor S → AgentType → S → (fd : ℤ) → Option S
accept_tcp_handler a agent_type s fd =
    let (client_fd, s1) = a.accept s fd in
    let s2 = a.tune s1 client_fd in
    if is_neg client_fd then some s1 else (elim agent_type [
      | unset ↦ a.provider_http_handler s2 client_fd
      | agent_consumer ↦ a.consumer_http_handler s2 client_fd
      | agent_provider ↦ a.provider_http_handler s2 client_fd
    ])

-- do_listen and monitor_accepts: `listen` is anetTcpServer and the anetNonBlock after it, `watch` aeCreateEventLoop and
-- aeCreateFileEvent. Nothing if the process exits.
unfoldable pub listen_and_watch :
    {S : Type 0}
    → (listen : S → ℤ → ℤ × S) → (watch : S → ℤ → Bool × S) → S
    → (server_port : ℤ) → Option (ℤ × S)
listen_and_watch listen watch s server_port =
    let (listen_fd, s1) = listen s server_port in
    let (fine, s2) = watch s1 listen_fd in
    if is_neg listen_fd then none else if fine then some (listen_fd, s2) else none

-- do_fork, which nothing calls: nothing if fork fails, which ends the process. `fork` answers 0 in the
-- child.
unfoldable pub do_fork : {S : Type 0} → (fork : S → ℤ × S) → S → Option S
do_fork fork s =
    let (pid, s1) = fork s in
    elim pid [ pos n ↦ some s1 | negsuc zero ↦ none | negsuc (suc n) ↦ some s1 ]

-- init_signals: the signals whose handler is signal_handler.
unfoldable pub init_signals : List Signal
init_signals = int ∷ quit ∷ term ∷ hup ∷ segv ∷ pipe ∷ chld ∷ urg ∷ usr1 ∷ []

-- What main calls: etcd_init, anetTcpServer, the event loop, and the two agents. aeMain returns once
-- the loop has been stopped.
pub record Program (S : Type 0) : Type 0 where
  pub etcd_init : S → Option (List ℕ) → (etcd_port : ℕ) → S
  pub listen : S → ℤ → ℤ × S
  pub watch : S → ℤ → Bool × S
  pub consumer_init : S → Option S
  pub provider_init : S → (server_port dubbo_port : ℤ) → Option S
  pub ae_main : S → Option S
  pub consumer_cleanup : S → S
  pub provider_cleanup : S → S

-- main after the options: the socket is watched before the agent is ready, and the loop that serves
-- it starts after that.
unfoldable pub run_agent : {S : Type 0} → Program S → Options → S → Option S
unfolding listen_and_watch
run_agent p o s =
    let s1 = p.etcd_init s o.etcd_host 2379 in
    listen_and_watch p.listen p.watch s1 o.server_port >>= λ (fd, s2). elim o.agent_type [
      | unset ↦ p.provider_init s2 o.server_port o.dubbo_port >>= p.ae_main >>= λ s3.
          some (p.provider_cleanup s3)
      | agent_consumer ↦ p.consumer_init s2 >>= p.ae_main >>= λ s3. some (p.consumer_cleanup s3)
      | agent_provider ↦ p.provider_init s2 o.server_port o.dubbo_port >>= p.ae_main >>= λ s3.
          some (p.provider_cleanup s3)
    ]

unfoldable pub main : {S : Type 0} → Program S → List (ℕ × List ℕ) → S → Option S
unfolding parse_options run_agent
main p args s = parse_options args no_options >>= λ o. run_agent p o s
