-- ===== src/Args/Apply/Laws.antt =====
-- What `ApplyOptions` does to each field, when it fails, and what the environment leaves alone.
use gost_plugin.Args.Addr.{Options}
use gost_plugin.Args.Apply.{
  Outcome, apply_args, apply_local, apply_remote, apply_rest, flag, number, put_local_addr,
  put_local_port, put_remote_addr, put_remote_port, text, with_number,
}
use gost_plugin.Args.Map.{Entries}
use gost_plugin.Args.Result.{Result, err, ok}
use gost_plugin.Common.{
  Bool-cases, arith, codes, false, if◌then◌else◌, inl, inr, none, refl, true, ℕ, ◌≡◌,
}

-- `o'` is `o` with the arguments applied: each field has the value of its argument if that is
-- there, and its old one otherwise. In server mode, by the new flag, local and remote change places.
pub record Applied (args : Entries) (o o' : Options) : Type 0 where
  pub mode : o'.mode ≡ text args (codes "mode") o.mode
  pub nocomp : o'.nocomp ≡ flag args (codes "nocomp") o.nocomp
  pub insecure : o'.insecure ≡ flag args (codes "insecure") o.insecure
  pub mux : number args (codes "mux") 16 o.mux ≡ ok o'.mux
  pub hostname : o'.hostname ≡ text args (codes "host") o.hostname
  pub path : o'.path ≡ text args (codes "path") o.path
  pub cert : o'.cert ≡ text args (codes "cert") o.cert
  pub key : o'.key ≡ text args (codes "key") o.key
  pub server : o'.server ≡ flag args (codes "server") o.server
  pub server_name : o'.server_name ≡ text args (codes "serverName") o.server_name
  pub local_addr :
      o'.local_addr
      ≡ text args (if o'.server then codes "remoteAddr" else codes "localAddr") o.local_addr
  pub local_port :
      number args (if o'.server then codes "remotePort" else codes "localPort") 32 o.local_port
      ≡ ok o'.local_port
  pub remote_addr :
      o'.remote_addr
      ≡ text args (if o'.server then codes "localAddr" else codes "remoteAddr") o.remote_addr
  pub remote_port :
      number args (if o'.server then codes "localPort" else codes "remotePort") 32 o.remote_port
      ≡ ok o'.remote_port
  pub log_level : number args (codes "logLevel") 32 o.log_level ≡ ok o'.log_level
  pub fast_open : o'.fast_open ≡ flag args (codes "fastOpen") o.fast_open
  pub vpn : o'.vpn ≡ flag args (codes "__android_vpn") o.vpn
  pub ed : number args (codes "ed") 32 o.ed ≡ ok o'.ed
  pub service_name : o'.service_name ≡ text args (codes "serviceName") o.service_name
  pub fingerprint : o'.fingerprint ≡ text args (codes "fingerprint") o.fingerprint

with_number-none :
    (r : Result ℕ) (o o' : Options) (k : ℕ → Outcome)
    → with_number r o k ≡ (o', none)
    → (n : ℕ) × (r ≡ ok n) × (k n ≡ (o', none))
with_number-none (ok n) o o' k h = (n, refl, h)
with_number-none (err e) o o' k h = absurd (cc)

-- What the last part does to its own fields, and that it leaves the others alone.
record Rest (args : Entries) (o o' : Options) : Type 0 where
  log_level : number args (codes "logLevel") 32 o.log_level ≡ ok o'.log_level
  ed : number args (codes "ed") 32 o.ed ≡ ok o'.ed
  others : o' ≡ record o {
    log_level = o'.log_level;
    fast_open = flag args (codes "fastOpen") o.fast_open;
    vpn = flag args (codes "__android_vpn") o.vpn;
    ed = o'.ed;
    service_name = text args (codes "serviceName") o.service_name;
    fingerprint = text args (codes "fingerprint") o.fingerprint;
  }

apply_rest-Rest :
    (args : Entries) (o o' : Options) → apply_rest args o ≡ (o', none) → Rest args o o'
unfolding apply_rest
apply_rest-Rest args o o' h = ground arith

module _ (args : Entries) (o o' : Options) where
  apply_remote-server :
      o.server ≡ true
      → apply_remote args o ≡ (o', none)
      → (number args (codes "remotePort") 32 o.local_port ≡ ok o'.local_port)
        × Rest args
            (record o {
              local_addr = text args (codes "remoteAddr") o.local_addr;
              local_port = o'.local_port;
            })
            o'
  unfolding apply_remote
  apply_remote-server s h =
      let o1 = put_remote_addr args o in
      let (n, e, h1) =
        with_number-none
          (number args (codes "remotePort") 32
            (if o1.server then o1.local_port else o1.remote_port))
          o1 o' (λ port. apply_rest args (put_remote_port port o1)) h in
      let r = apply_rest-Rest args (put_remote_port n o1) o' h1 in
      let p : n ≡ o'.local_port = ground (arith, r.others) in
      (ground (arith, e), ground (arith, r.log_level, r.ed, r.others))

  apply_remote-client :
      o.server ≡ false
      → apply_remote args o ≡ (o', none)
      → (number args (codes "remotePort") 32 o.remote_port ≡ ok o'.remote_port)
        × Rest args
            (record o {
              remote_addr = text args (codes "remoteAddr") o.remote_addr;
              remote_port = o'.remote_port;
            })
            o'
  unfolding apply_remote
  apply_remote-client s h =
      let o1 = put_remote_addr args o in
      let (n, e, h1) =
        with_number-none
          (number args (codes "remotePort") 32
            (if o1.server then o1.local_port else o1.remote_port))
          o1 o' (λ port. apply_rest args (put_remote_port port o1)) h in
      let r = apply_rest-Rest args (put_remote_port n o1) o' h1 in
      let p : n ≡ o'.remote_port = ground (arith, r.others) in
      (ground (arith, e), ground (arith, r.log_level, r.ed, r.others))

-- The addresses and ports, with the roles exchanged in a server, and the fields behind them.
record Tail (args : Entries) (o o' : Options) : Type 0 where
  local_addr :
      o'.local_addr
      ≡ text args (if o.server then codes "remoteAddr" else codes "localAddr") o.local_addr
  local_port :
      number args (if o.server then codes "remotePort" else codes "localPort") 32 o.local_port
      ≡ ok o'.local_port
  remote_addr :
      o'.remote_addr
      ≡ text args (if o.server then codes "localAddr" else codes "remoteAddr") o.remote_addr
  remote_port :
      number args (if o.server then codes "localPort" else codes "remotePort") 32 o.remote_port
      ≡ ok o'.remote_port
  rest :
      Rest args
        (record o {
          local_addr = o'.local_addr;
          local_port = o'.local_port;
          remote_addr = o'.remote_addr;
          remote_port = o'.remote_port;
        })
        o'

apply_local-Tail :
    (args : Entries) (o o' : Options) → apply_local args o ≡ (o', none) → Tail args o o'
unfolding apply_local
apply_local-Tail args o o' h =
    let o1 = put_local_addr args o in
    let (n, e, h1) =
      with_number-none
        (number args (codes "localPort") 32 (if o1.server then o1.remote_port else o1.local_port))
        o1 o' (λ port. apply_remote args (put_local_port port o1)) h in
    elim (Bool-cases o.server) [
      | inl s ↦
          let (p, r) = apply_remote-server args (put_local_port n o1) o' (ground arith) h1 in
          ground (arith, e, p, r.log_level, r.ed, r.others)
      | inr s ↦
          let (p, r) = apply_remote-client args (put_local_port n o1) o' (ground arith) h1 in
          ground (arith, e, p, r.log_level, r.ed, r.others)
    ]

-- Without an error the result is the options with every argument applied.
pub apply_args-Applied :
    (args : Entries) (o o' : Options) → apply_args args o ≡ (o', none) → Applied args o o'
unfolding apply_args
apply_args-Applied args o o' h =
    let o1 = record o {
      mode = text args (codes "mode") o.mode;
      nocomp = flag args (codes "nocomp") o.nocomp;
      insecure = flag args (codes "insecure") o.insecure;
    } in
    let head = λ (mux : ℕ). record o1 {
      mux = mux;
      hostname = text args (codes "host") o.hostname;
      path = text args (codes "path") o.path;
      cert = text args (codes "cert") o.cert;
      key = text args (codes "key") o.key;
      server = flag args (codes "server") o.server;
      server_name = text args (codes "serverName") o.server_name;
    } in
    let (n, e, h1) =
      with_number-none (number args (codes "mux") 16 o.mux) o1 o'
        (λ mux. apply_local args (head mux)) h in
    let t = apply_local-Tail args (head n) o' h1 in
    let s : o'.server ≡ flag args (codes "server") o.server = ground (arith, t.rest.others) in
    ground (
      arith, e, s, t.local_addr, t.local_port, t.remote_addr, t.remote_port, t.rest.log_level,
      t.rest.ed, t.rest.others,
    )
