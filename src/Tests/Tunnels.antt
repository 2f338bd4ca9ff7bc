-- ===== src/Tests/Tunnels.antt =====
-- The copies and the tunnels at concrete inputs, from and to texts in memory.
use gost_plugin.Client.Ws.{Delayed, sent}
use gost_plugin.Client.Ws.Pipe.{delayed_write}
use gost_plugin.Client.Ws.Reader.{delayed_calls, delayed_read}
use gost_plugin.Common.{
  Bytes, List, Option, [], ap, arith, codes, drop, false, length, length-drop, none, refl, some,
  suc, sym, take, take-append-drop, true, ℕ, ◌++◌, ◌∷◌, ◌≡◌,
}
use gost_plugin.Conn.{ReadResult, Readable, Reads, Sends, Writable, WriteResult}
use gost_plugin.Conn.Copy.{copy, eof}
use gost_plugin.Conn.Copy.Laws.{Copies}
use gost_plugin.Main.{flag_defaults}
use gost_plugin.Protocol.Address.{peer, zero_tcp}
use gost_plugin.Protocol.Gun.{new_gun_connection}
use gost_plugin.Protocol.Gun.Closing.{SameStream, close-SameStream}
use gost_plugin.Protocol.Gun.Methods.{GunPipe, gun_conn}
use gost_plugin.Protocol.Gun.Pipe.{gun_calls}
use gost_plugin.Protocol.Http.Methods.{Exchange, http_conn}
use gost_plugin.Protocol.Http.Pipe.{Flushes}
use gost_plugin.Protocol.Stream.{length-take-le}
use gost_plugin.Protocol.Websocket.Methods.{Socket, websocket_conn}
use gost_plugin.Protocol.Websocket.Pipe.{websocket_calls}
use gost_plugin.Tunnel.Answered.{client_end, copied-reads, server_end, websocket_answered}
use gost_plugin.Tunnel.OverGun.{gun_far, gun_near, gun_relayed}
use gost_plugin.Tunnel.OverStreams.{h2_relayed, http_end}
use gost_plugin.Tunnel.OverWebsocket.{websocket_far, websocket_relayed}
use gost_plugin.Client.Ws.Laws as Delay

-- A text that is read, and then its end.
abbrev text_read : ℕ → Bytes → ReadResult Bytes
text_read size [] = some ([], some eof, [])
text_read size (b ∷ s) = some (take size (b ∷ s), none, drop size (b ∷ s))

text-Reads : (c : Bytes) → Reads (λ s. s) (λ s. some eof) length 2 c (text_read 2 c)
text-Reads [] = (refl, refl, omega arith)
text-Reads (b ∷ s) = (
  sym (take-append-drop 2 (b ∷ s)),
  refl,
  length-take-le 2 (b ∷ s),
  omega (arith, length-drop 2 (b ∷ s)),
)

text-Readable : Readable text_read 2 (λ s. s) (λ s. some eof) length
text-Readable = record { reads = text-Reads }

-- A text that is written.
abbrev text_write : Bytes → Bytes → WriteResult Bytes
text_write b s = some (length b, none, s ++ b)

abbrev Always : {A : Type 0} → A → Type 0
Always a = Unit {0}

text-Writable : Writable text_write Always (λ s. s)
text-Writable = record { writes = λ b c o bytes. (c ++ b, refl, tt, refl) }

-- gorilla/websocket as it is on the server, which writes nothing here.
abbrev socket : Socket (Unit {0})
socket = record {
  write_message = λ b w. (w, none);
  close_socket = λ w. (w, none);
  socket_local = λ w. zero_tcp;
  socket_remote = λ w. zero_tcp;
  read_deadline = λ t w. (w, none);
  write_deadline = λ t w. (w, none);
}

-- The first buffer of two bytes goes into the handshake, and the rest behind it.
websocket_relayed_example :
    let r =
      copy text_read delayed_write 2 9
        (codes "abc")
        (Delay.fresh flag_defaults (codes "wss://10.0.0.1:443/") 2) in
    let e = websocket_far tt r.dst in
    Copies Always
      (λ s. s)
      (codes "abc")
      none
      []
      (copy (websocket_conn socket).read text_write 2 (suc (websocket_calls e)) e [])
websocket_relayed_example =
    websocket_relayed text_read (λ s. s) (λ s. some eof) length text_write Always (λ s. s) socket 2
      text-Readable text-Writable flag_defaults (codes "wss://10.0.0.1:443/") 2 9 (codes "abc") tt
      [] (omega arith) tt (omega arith, (omega arith, (omega arith, tt))) (omega arith)

-- gorilla/websocket on a server that answers: its messages.
abbrev answering : Socket (List Bytes)
answering = record {
  write_message = λ b sent. (sent ++ b ∷ [], none);
  close_socket = λ w. (w, none);
  socket_local = λ w. zero_tcp;
  socket_remote = λ w. zero_tcp;
  read_deadline = λ t w. (w, none);
  write_deadline = λ t w. (w, none);
}

answering-Sends : Sends answering.write_message Always (λ sent. sent)
answering-Sends = record { sending = λ b w o. (w ++ b ∷ [], refl, tt, refl) }

-- The client's connection, behind the copy of a request.
abbrev asked : Delayed
asked =
    (copy text_read delayed_write 2 9 (codes "abc")
      (Delay.fresh flag_defaults (codes "wss://10.0.0.1:443/") 2)).dst

websocket_answered_example :
    let r =
      copy text_read
        (websocket_conn answering).write
        2
        9
        (codes "de")
        (server_end (codes "ab") []) in
    let e = client_end (λ sent. sent) asked tt r.dst in
    Copies Always
      (λ s. s)
      (codes "de")
      none
      []
      (copy (delayed_read socket) text_write 2 (suc (delayed_calls e)) e [])
websocket_answered_example =
    websocket_answered text_read (λ s. s) (λ s. some eof) length text_write Always (λ s. s)
      answering socket Always (λ sent. sent) 2 text-Readable text-Writable answering-Sends
      (codes "ab") asked 9 (codes "de") [] tt [] (omega arith)
      (copied-reads text_read (λ s. s) (λ s. some eof) length 2 9 text-Readable flag_defaults
        (codes "wss://10.0.0.1:443/") 2 (codes "abc")
        (omega arith, (omega arith, (omega arith, tt))) (λ h. absurd (omega (arith, ap length h)))
        (omega arith))
      tt refl tt (omega arith, (omega arith, tt)) (omega arith)

-- A stream of gRPC by the hunks that it has sent.
abbrev hunk_send : Bytes → List Bytes → List Bytes × Option Bytes
hunk_send b sent = (sent ++ b ∷ [], none)

hunk-Sends : Sends hunk_send Always (λ sent. sent)
hunk-Sends = record { sending = λ b w o. (w ++ b ∷ [], refl, tt, refl) }

gun_relayed_example :
    let r =
      copy text_read
        (gun_conn hunk_send).write
        2
        9
        (codes "abc")
        (gun_near (some (peer (codes "10.0.0.1:443"))) []) in
    let e = gun_far {W = List Bytes} (λ sent. sent) none none [] r.dst in
    Copies Always
      (λ s. s)
      (codes "abc")
      none
      []
      (copy (gun_conn hunk_send).read text_write 2 (suc (gun_calls e)) e [])
gun_relayed_example =
    gun_relayed text_read (λ s. s) (λ s. some eof) length text_write Always (λ s. s) hunk_send
      hunk_send Always (λ sent. sent) 2 text-Readable text-Writable hunk-Sends
      (some (peer (codes "10.0.0.1:443"))) none none 9 (codes "abc") [] [] [] (omega arith) tt refl
      tt (omega arith, (omega arith, (omega arith, tt))) (omega arith)

new-open : (gun_near {V = List Bytes} none []).conn.done ≡ false
unfolding new_gun_connection
new-open = refl

close-SameStream_example :
    (q : GunPipe (List Bytes)) × ((gun_conn hunk_send).close (gun_near none []) ≡ some (none, q))
    × SameStream hunk_send (gun_near none []) q
    × ((gun_conn hunk_send).close q ≡ none)
close-SameStream_example = close-SameStream hunk_send (gun_near none []) new-open

-- An exchange by the text that its pipe was given, which is what the body holds.
abbrev exchange : Exchange Bytes
exchange = record {
  read_body = text_read;
  write_body = text_write;
  flusher = true;
  flush = λ s. s;
  close_body = λ s. (s, none);
}

exchange-Flushes : Flushes exchange Always (λ s. s)
exchange-Flushes = record { flushes = λ w o. (tt, refl) }

h2_relayed_example :
    let r = copy text_read (http_conn exchange).write 2 9 (codes "abc") (http_end none none []) in
    let e = r.dst.world in
    Copies Always
      (λ s. s)
      (codes "abc")
      (some eof)
      []
      (copy (http_conn exchange).read text_write 2 (suc (length e)) (http_end none none e) [])
h2_relayed_example =
    h2_relayed text_read (λ s. s) (λ s. some eof) length text_write Always (λ s. s) 2 text-Readable
      text-Writable Always (λ s. s) (λ s. s) (λ s. some eof) length (λ s. s) exchange exchange
      text-Writable exchange-Flushes text-Readable none none none none 9 (codes "abc") [] []
      (λ x h. refl) tt tt tt (omega arith, (omega arith, (omega arith, tt))) (omega arith)
