-- ===== src/Transport/Tuning.antt =====
-- `tune_tcp` of crates/rb-transport/src/shared.rs: the options of an accepted socket. The socket is a
-- parameter, and an option that it refuses is left as it is.
use rust_backup.Prelude.{ℕ, String, Bool, true, Option}

abbrev pub tcp_keepalive_time : ℕ
tcp_keepalive_time = 15

abbrev pub tcp_keepalive_interval : ℕ
tcp_keepalive_interval = 15

pub record TcpStream : Type 1 where
  pub State : Type 0
  pub set_nodelay : Bool → State → Option String × State
  -- the time and the interval, in seconds
  pub set_tcp_keepalive : ℕ → ℕ → State → Option String × State

module _ (Tcp : TcpStream) where
  unfoldable pub tune_tcp : Tcp.State → Tcp.State
  tune_tcp s =
      let (_, t) = Tcp.set_nodelay true s in
      let (_, last) = Tcp.set_tcp_keepalive tcp_keepalive_time tcp_keepalive_interval t in last
