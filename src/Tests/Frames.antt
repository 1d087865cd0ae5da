-- ===== src/Tests/Frames.antt =====
-- The messages, paths and routes of the dashboard, at single texts.
use otherhost.Base.{
  ◌⊎◌, ◌≡◌, refl, [], ◌∷◌, ◌++◌, some, arith, ok, Bytes, bytes_eq, codes, take, length, true,
}
use otherhost.Dashboard.Messages.{
  Delivers, IsWriter, terminal_session_id-socket_path, write_terminal_input-Delivers,
}
use otherhost.Dashboard.Routes.Local.{IsWritten, route-IsWritten}
use otherhost.Dashboard.Routes.{
  allowed_request_host, choose_route, is_local_name, route, split_host_port, split_last,
  to_snapshot,
}
use otherhost.Dashboard.Server.{random_token, get, is_get}
use otherhost.Dashboard.Sockets.{
  SocketRequest, TerminalDevice, admit_socket, socket_path, terminal_session_id,
  terminal_web_socket_origin_allowed, write_terminal_input,
}
use otherhost.Text.Base64.Url.{raw_url_encode}
use otherhost.Tests.Toy.{block, length-block}
use otherhost.Text.{contains_byte}

abbrev socket_request : SocketRequest
socket_request = record {
  method = get;
  host = codes "localhost:1";
  origin = codes "http://localhost:1";
  path = [];
  protocols = codes "p" ∷ [];
}

-- The token of 18 bytes, some of which have characters of their own in a URL.
token_drawn : random_token (some (block 18 255)) ≡ some (block 24 b'_')
unfolding random_token raw_url_encode
token_drawn = refl

origin_allowed : terminal_web_socket_origin_allowed socket_request ≡ true
unfolding terminal_web_socket_origin_allowed bytes_eq
origin_allowed = refl

method_get : is_get get ≡ true
unfolding is_get
method_get = refl

terminal_session_id-socket_path_example :
    (terminal_session_id (socket_path (block 24 b'_')) ≡ some (block 24 b'_'))
    × (admit_socket (record socket_request { path = socket_path (block 24 b'_') })
        ≡ ok (block 24 b'_', codes "p" ∷ []))
terminal_session_id-socket_path_example =
    terminal_session_id-socket_path (block 18 255) (block 24 b'_') socket_request
      (length-block 18 255) token_drawn method_get origin_allowed

-- A terminal that takes in one byte at a time.
abbrev one_by_one : TerminalDevice Bytes
one_by_one = record {
  write = λ t message. (t ++ take 1 message, some (length (take 1 message)));
  resize = λ t size. (t, true);
  received = λ t. t;
}

one_by_one-IsWriter : IsWriter one_by_one
one_by_one-IsWriter t [] n e = ground arith
one_by_one-IsWriter t (b ∷ message) n e = ground arith

write_terminal_input-Delivers_example :
    Delivers one_by_one [] (codes "ls") (write_terminal_input one_by_one 2 [] (codes "ls"))
write_terminal_input-Delivers_example =
    write_terminal_input-Delivers one_by_one one_by_one-IsWriter 2 [] (codes "ls") (omega arith)

routed : route (codes "localhost:7777") get (codes "/api/snapshot") ≡ ok to_snapshot
unfolding route choose_route allowed_request_host is_local_name split_host_port split_last
    contains_byte bytes_eq
routed = refl

route-IsWritten_example :
    IsWritten (codes "localhost:7777") (codes "127.0.0.1")
    ⊎ IsWritten (codes "localhost:7777") (codes "localhost")
route-IsWritten_example =
    route-IsWritten (codes "localhost:7777") get (codes "/api/snapshot") to_snapshot routed
