-- ===== src/Cs104/Connection/Establish.antt =====
-- Opening and closing a connection: `_CS104_Connection_establishSocket` and
-- `CS104_Connection_stopThreadless` of cs104_connection.c. The thread of `handleConnection` opens in
-- the same way, but stays idle if the TLS socket is refused. What the handler of the events does is
-- not part of them.
use lib.Prelude.{ℕ, Bool, true, false, not, Option, none, some, ltb, if◌then◌else◌, ◌&&◌}
use lib.Cs104.Connection.{
  Connection, idle, inactive, reset_connection, confirm_outstanding_messages,
}

-- What the sockets answer: `TcpSocket_create`, `Socket_connect`, and `TLSSocket_create`, if the
-- connection has a TLS configuration.
pub record Network : Type 0 where
  pub created : Bool
  pub connected : Bool
  pub tls : Option Bool

abbrev pub is_secured : Option Bool → Bool
is_secured none = true
is_secured (some ok) = ok

module _ {A : Type 0} where
  -- After the connect: running, unless the TLS socket was refused.
  unfoldable pub open_connection : Option Bool → Connection A → Connection A
  open_connection tls c = record c {
    running = if is_secured tls then true else c.running;
    failure = if is_secured tls then c.failure else true;
    con_state = inactive;
  }

  unfoldable pub establish_socket : Network → ℕ → Connection A → Bool × Connection A
  unfolding open_connection
  establish_socket net now c0 =
      let c = record (reset_connection now c0) { socket = net.created } in
      let opened = open_connection net.tls c in
      if not net.created
      then (false, c)
      else if not net.connected
      then (false, c)
      else (not opened.failure && opened.running, opened)

  -- `CS104_Connection_startThreadless` after its test of the mode: a failed socket is destroyed.
  unfoldable pub start_threadless : Network → ℕ → Connection A → Bool × Connection A
  unfolding establish_socket
  start_threadless net now c =
      let out = establish_socket net now c in
      if out.0 then out else (false, record out.1 { socket = false })

  -- `CS104_Connection_stopThreadless` after its test of the mode.
  unfoldable pub stop_threadless : ℕ → Connection A → Connection A
  stop_threadless now c =
      let confirmed =
        if ltb 0 c.unconfirmed_received_i_messages then confirm_outstanding_messages now c else c in
      record confirmed { con_state = idle; running = false; close = true; socket = false }
