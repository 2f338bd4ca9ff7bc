-- ===== src/Client/H2.antt =====
-- `DialConn` of gost/proxy/client/h2.go, and the closer of its connection.
pub mod Laws
use gost_plugin.Args.Addr.{Options, get_remote_addr}
use gost_plugin.Args.Number.{format_uint}
use gost_plugin.Common.{
  Bytes, List, Option, [], codes, if◌then◌else◌, none, some, suc, ℕ, ◌++◌, ◌==◌, ◌∷◌,
}
use gost_plugin.Foreign.{Calls, Outcome, failed, ok, pure_call, ◌>>=◌}
use gost_plugin.Protocol.Http.{HttpConn, close, new_http_connection}

-- The fields of `http.Request` that the program sets, without the body. An empty `host` stands for
-- that of the address.
pub record HttpRequest : Type 0 where
  pub method : Bytes
  pub scheme : Bytes
  pub address : Bytes
  pub path : Bytes
  pub host : Bytes
  pub accept_encoding : Bytes

unfoldable pub h2_request : Options → HttpRequest
unfolding get_remote_addr
h2_request o = record {
  method = codes "PUT";
  scheme = codes "https";
  address = get_remote_addr o;
  path = o.path;
  host = o.hostname;
  accept_encoding = codes "identity";
}

-- What the connection of the client closes: the two ends of the pipe that is the body of the request,
-- and the body of the response.
pub data Closer : Type 0 where
  pipe_reader : Closer
  pipe_writer : Closer
  response_body : Closer

-- `Close` of chainedClosable: `closed` is what has been closed, oldest first. Errors are dropped.
unfoldable pub close_chain : List Closer → List Closer → List Closer
close_chain [] closed = closed
close_chain (c ∷ cs) closed = close_chain cs (closed ++ c ∷ [])

-- `none` is the nil error that it always returns.
abbrev pub chain_error : Option Bytes
chain_error = none

pub record H2Conn : Type 0 where
  pub conn : HttpConn
  pub closer : List Closer

abbrev pub h2_conn : H2Conn
h2_conn = record {
  conn = new_http_connection none none;
  closer = pipe_reader ∷ pipe_writer ∷ response_body ∷ [];
}

-- `Close` of the connection, with its closer; `none` is the panic of `Close` of HttpConnection.
abbrev pub h2_closed : H2Conn → List Closer → Option HttpConn → Option (H2Conn × List Closer)
h2_closed c closed none = none
h2_closed c closed (some conn) = some (record c { conn = conn }, close_chain c.closer closed)

unfoldable pub h2_close : H2Conn → List Closer → Option (H2Conn × List Closer)
unfolding close close_chain
h2_close c closed = h2_closed c closed (close c.conn)

abbrev pub unexpected_status : ℕ → Bytes
unexpected_status status = codes "unexpected status " ++ format_uint status

-- What follows on a response with a status.
unfoldable pub h2_response : ℕ → Calls ℕ H2Conn
unfolding new_http_connection
h2_response status =
    pure_call (if status == 200 then ok h2_conn else failed (unexpected_status status))

-- A response comes with its body open.
abbrev pub answered : Outcome ℕ → Calls ℕ ℕ
answered (ok status) open_bodies = (suc open_bodies, ok status)
answered (failed err) open_bodies = (open_bodies, failed err)

-- `send` is the status that `client.Do` returns for a request. The state counts the bodies of
-- responses that are open.
unfoldable pub h2_dial_conn : (HttpRequest → Outcome ℕ) → Options → Calls ℕ H2Conn
unfolding h2_request h2_response
h2_dial_conn send o = do status ← answered (send (h2_request o)); h2_response status
